-- ===== src/Scheduler/Recover/Tests.antt =====
-- One household whose session has expired.
use pstonn.Prelude.{
  ℕ, ◌+◌, ◌*◌, ◌≡◌, refl, true, false, none, some, List, [], ◌∷◌, codes, find, put, drop_if,
  text_eq, ◌&&◌, not, if◌then◌else◌,
}
use pstonn.Clock.{minute, hour}
use pstonn.Model.Best.{best_from, challenge}
use pstonn.Scheduler.{
  Notice, Scheduler, Options, new, SessionKey, session_key, same_session, ReconnectItem,
}
use pstonn.Scheduler.Reconnect.{
  queue_reconnect_item, cancel_reconnect_in, same_queued, next_due_reconnect, earliest,
}
use pstonn.Scheduler.Reconnect.Stalled.{deferrals, deferrals_tell_once}
use pstonn.Scheduler.Recover.{
  Attempt, LoginLink, ReconnectResult, recover_or_retire, settle, drain_one_reconnect,
  is_generation,
}
use pstonn.Scheduler.Recover.Retire.{relink_sent, refuses_login, recover_or_retire-sessions}
use pstonn.Scheduler.Recover.Outcome.{
  IsSettled, new_item, settle-cancelled, drain_one_reconnect-IsSettled,
}

abbrev options : Options
options = record {
  session_max_age = 1000 * hour;
  warm_interval = 0;
  jitter_frac = 0;
  op_drain = 0;
  spread_window = 0;
  drift_interval = 6 * hour;
  idle_window = 3 * hour;
  warm_safety_margin = 0;
}

abbrev key : SessionKey
key = record { owner = codes "a@b"; tenant = codes "t" }

abbrev other_key : SessionKey
other_key = record { owner = codes "c@d"; tenant = codes "t" }

-- Queued at one hour under generation 7.
abbrev queued : Scheduler
queued = (queue_reconnect_item (new options) hour key 7 true).0

abbrev item : ReconnectItem
item = new_item hour 7 true

abbrev rejected : Attempt
rejected = record {
  read_fails = false;
  before = (key, 7) ∷ (other_key, 3) ∷ [];
  login = some (LoginLink.login_rejected ∷ []);
  delete_fails = false;
  after = (key, 7) ∷ (other_key, 3) ∷ [];
}

is_removed : (recover_or_retire queued hour key 7 true rejected).sessions ≡ (other_key, 3) ∷ []
unfolding recover_or_retire find drop_if text_eq
is_removed = refl

recover_or_retire-sessions_example :
    let r = recover_or_retire queued hour key 7 true rejected in
    (find other_key r.sessions ≡ (
      if relink_sent r.notices && same_session key other_key
      then none
      else find other_key rejected.after))
    × (relink_sent r.notices ≡ (
        (not rejected.read_fails
          && (is_generation 7 (find key rejected.before) && refuses_login rejected.login))
        && (not rejected.delete_fails && is_generation 7 (find key rejected.after))))
recover_or_retire-sessions_example =
    recover_or_retire-sessions queued hour key other_key 7 true rejected

-- A link cancels the entry, and the new session expires an hour later.
settle-cancelled_example :
    find key
      (settle
        (queue_reconnect_item
          (cancel_reconnect_in queued key.owner key.tenant)
          (2 * hour)
          key
          8
          true).0
        (2 * hour + minute)
        key
        item
        none
        (some ReconnectResult.reconnect_retired)).0.reconnect_q
    ≡ some (new_item (2 * hour) 8 true)
settle-cancelled_example =
    settle-cancelled queued (2 * hour + minute) key item none
      (some ReconnectResult.reconnect_retired) (2 * hour) 8 true (unfold same_queued in refl)

found : find key queued.reconnect_q ≡ some item
unfolding new queue_reconnect_item find put text_eq
found = refl

due : next_due_reconnect queued hour ≡ some ((key, item), 0)
unfolding new queue_reconnect_item find put text_eq next_due_reconnect earliest best_from challenge
due = refl

drain_one_reconnect-IsSettled_example : IsSettled (hour + minute) (
    find key (drain_one_reconnect queued hour (hour + minute) rejected (λ r. r) none).0.reconnect_q)
drain_one_reconnect-IsSettled_example =
    drain_one_reconnect-IsSettled queued hour (hour + minute) rejected none key item found due

abbrev times : List ℕ
times = 2 * hour ∷ 3 * hour ∷ 4 * hour ∷ 5 * hour ∷ 6 * hour ∷ 7 * hour ∷ []

deferrals_tell_once_example :
    (deferrals queued key item times).1 ≡ Notice.alert_reconnect_stalled key ∷ []
deferrals_tell_once_example =
    deferrals_tell_once queued key item item times found (unfold same_queued in refl)
