-- ===== src/Scheduler/KeepWarm/Tests.antt =====
-- A session that is due for renewal while the council's sign-in fails.
use pstonn.Prelude.{
  ℕ, ◌+◌, ◌*◌, ◌^◌, ◌≡◌, refl, true, false, none, some, [], ◌∷◌, Text, codes, text_eq, find, arith,
}
use pstonn.Clock.{hour, minute}
use pstonn.Scheduler.{Scheduler, new, TenantSession, key_of}
use pstonn.Scheduler.Warm.{
  decide_warm, warm_threshold_for, scaled_down, idle_window_for, warm_backed_off,
  warm_retry_interval,
}
use pstonn.Scheduler.Reconnect.{reconnect_queued}
use pstonn.Scheduler.KeepWarm.{
  ClientLink, ClientError, WarmWorld, warm_one, decided, keep_alive, warmed, renew_session,
  refreshed_session, drift_session, owner_has_permit_in,
}
use pstonn.Scheduler.KeepWarm.Held.{sends_refresh}
use pstonn.Scheduler.KeepWarm.Visits.{Visit, visits, LetWait}
use pstonn.Scheduler.KeepWarm.Quiet.{warm_one-quiet}

abbrev defaults : Scheduler
defaults = new (record {
  session_max_age = 1000 * hour;
  warm_interval = 0;
  jitter_frac = 0;
  op_drain = 0;
  spread_window = 0;
  drift_interval = 0;
  idle_window = 0;
  warm_safety_margin = 0;
})

abbrev session : TenantSession
session = record {
  owner = codes "a@b";
  tenant_id = codes "t";
  cookie = codes "sealed";
  last_active = 90 * hour;
  linked_at = 80 * hour;
  updated_at = 100 * hour;
  drift_checked_at = 100 * hour;
  generation = 7;
}

abbrev failure : ClientError
failure = record { links = ClientLink.other_client ∷ []; session_gen = none; cause = [] }

abbrev world : WarmWorld
world = record {
  declared_idle_window = 3 * hour;
  needs_keep_warm = true;
  deleted = none;
  permits = some (record { id = 1; owner = codes "a@b"; tenant_id = codes "t" } ∷ []);
  refreshed = some failure;
  blocked = false;
  drifted = none;
  checkpoint_fails = false;
}

abbrev hash : Text → ℕ
hash owner = 2 ^ 63

abbrev warm_hash : Text → ℕ → ℕ
warm_hash owner seconds = 2 ^ 63

is_sent : sends_refresh (warm_one hash warm_hash defaults (103 * hour) session world).1 ≡ true
unfolding warm_one decided decide_warm warm_threshold_for scaled_down idle_window_for keep_alive
    warmed renew_session refreshed_session drift_session owner_has_permit_in new text_eq
    reconnect_queued warm_backed_off find
is_sent = refl

-- A session of another account, seen a minute later by a pass that clears its own wait.
abbrev neighbour : Visit
neighbour = record {
  time = 103 * hour + minute;
  session = record session { owner = codes "c@d" };
  world = record world { permits = some [] };
}

-- A pass over the same session that is held back.
abbrev again : Visit
again = record { time = 103 * hour + 2 * minute; session = session; world = world }

let_wait : LetWait (key_of session) (103 * hour + 3 * minute) (neighbour ∷ again ∷ [])
unfolding text_eq owner_has_permit_in
let_wait = (omega arith, refl, (omega arith, refl, tt))

-- Three minutes later.
warm_one-quiet_example :
    sends_refresh
      (warm_one hash warm_hash
        (visits hash warm_hash
          (warm_one hash warm_hash defaults (103 * hour) session world).0
          (neighbour ∷ again ∷ []))
        (103 * hour + 3 * minute)
        session
        world).1
    ≡ false
warm_one-quiet_example =
    warm_one-quiet hash warm_hash defaults (103 * hour) (103 * hour + 3 * minute) session session
      world world failure (neighbour ∷ again ∷ []) refl refl is_sent refl
      (unfold warm_retry_interval new in omega arith) let_wait
