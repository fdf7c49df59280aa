-- ===== src/Scheduler/KeepWarm/Quiet.antt =====
-- What keep-warm does after a renewal that failed.
use pstonn.Prelude.{
  ℕ, ◌+◌, ◌<◌, ◌≡◌, sym, ap, List, ◌∙◌, Bool, true, false, not, ◌&&◌, Option, none, some, Text,
  find, arith, find-put, Option-cases, inl, inr,
}
use pstonn.Scheduler.{Scheduler, SessionKey, same_session_iff, session_key, TenantSession, key_of}
use pstonn.Scheduler.Churn.{note_session_expiry}
use pstonn.Scheduler.Warm.{WarmAction, note_warm_failure, warm_backed_off, warm_retry_interval}
use pstonn.Scheduler.Reconnect.{
  reconnect_queued, enqueue_reconnect, queue_reconnect_item, queue_existing,
}
use pstonn.Scheduler.KeepWarm.{
  ClientError, any_link, gen_or, is_expired, is_quiet, WarmWorld, Warmed, refreshed_session,
  renew_session, warmed, drift_session, keep_alive, action_of, decided, warm_one,
  owner_has_permit_in,
}
use pstonn.Scheduler.KeepWarm.Visits.{Visit, visits, LetWait, visits-held}
use pstonn.Scheduler.KeepWarm.Held.{
  sends_refresh, is_held, sends-drift_session, retire_idle-quiet, warm_one-held,
}

queued-item :
    (s : Scheduler) (now : ℕ) (k : SessionKey) (gen : ℕ) (counts : Bool)
    → reconnect_queued (queue_reconnect_item s now k gen counts).0 k ≡ true
unfolding reconnect_queued queue_reconnect_item queue_existing
queued-item s now k gen counts = elim (Option-cases (find k s.reconnect_q)) [
  | inl e ↦ ground (
    arith,
    e,
    find-put k k
        (record { next = now; queued_at = now; gen = gen; attempts = 0; counts_churn = counts })
        s.reconnect_q,
    same_session_iff k k,
  )
  | inr (it, e) ↦ ground (
    arith,
    e,
    find-put k k (record it { counts_churn = true }) s.reconnect_q,
    same_session_iff k k,
  )
]

queued-enqueue :
    (s : Scheduler) (now : ℕ) (k : SessionKey) (gen : ℕ)
    → reconnect_queued (enqueue_reconnect s now k gen).0 k ≡ true
unfolding enqueue_reconnect note_session_expiry reconnect_queued
queued-enqueue s now k gen = ground (arith, queued-item s now k gen true)

backed_off-failure :
    (s : Scheduler) (now later : ℕ) (k : SessionKey)
    → later < now + warm_retry_interval s
    → warm_backed_off (note_warm_failure s now k) later k ≡ true
unfolding warm_backed_off note_warm_failure
backed_off-failure s now later k h =
    ground (arith, find-put k k (now + warm_retry_interval s) s.warm_retry_at, same_session_iff k k)

-- What a failed renewal leaves: the session in the queue, or held back until the wait has passed.
refreshed_session-held :
    (s : Scheduler) (now later : ℕ) (cs : TenantSession) (err : ClientError)
    → (not (any_link is_expired err.links) && any_link is_quiet err.links) ≡ false
    → later < now + warm_retry_interval s
    → is_held (refreshed_session s now cs (some err)).scheduler later (key_of cs) ≡ true
unfolding refreshed_session
refreshed_session-held s now later cs err loud h = ground (
  arith,
  queued-enqueue s now (key_of cs) (gen_or cs.generation err.session_gen),
  backed_off-failure s now later (key_of cs) h,
)

refreshed_session-dead :
    (s : Scheduler) (now : ℕ) (cs : TenantSession) (err : ClientError)
    → (refreshed_session s now cs (some err)).alive ≡ false
unfolding refreshed_session
refreshed_session-dead s now cs err = ground arith

-- A renewal that was sent and failed ends the pass with what it left.
renew_session-failed :
    (s : Scheduler) (now : ℕ) (cs : TenantSession) (w : WarmWorld) (err : ClientError)
    → w.refreshed ≡ some err
    → sends_refresh (renew_session s now cs w).notices ≡ true
    → ((renew_session s now cs w).scheduler ≡ (refreshed_session s now cs (some err)).scheduler)
      × ((renew_session s now cs w).alive ≡ false)
unfolding renew_session
renew_session-failed s now cs w err e h =
    (ground (arith, e), ground (arith, e, refreshed_session-dead s now cs err))

drift_session-dead :
    (hash : Text → ℕ) (r : Warmed) (now : ℕ) (cs : TenantSession) (w : WarmWorld)
    → r.alive ≡ false
    → (drift_session hash r now cs w).0 ≡ r.scheduler
unfolding drift_session
drift_session-dead hash r now cs w h = ground (arith, h)

keep_alive-failed :
    (hash : Text → ℕ) (s : Scheduler) (now : ℕ) (cs : TenantSession) (w : WarmWorld)
    (action : WarmAction) (has : Option Bool) (err : ClientError)
    → w.refreshed ≡ some err
    → sends_refresh (keep_alive hash s now cs w action has).1 ≡ true
    → (keep_alive hash s now cs w action has).0 ≡ (refreshed_session s now cs (some err)).scheduler
unfolding keep_alive warmed
keep_alive-failed hash s now cs w action none err e h = cc
keep_alive-failed hash s now cs w action (some false) err e h = cc
keep_alive-failed hash s now cs w WarmAction.warm_renew (some true) err e h =
    let r = renew_session s now cs w in
    let (left, over) =
      renew_session-failed s now cs w err e (sym (sends-drift_session hash r now cs w) ∙ h) in
    drift_session-dead hash r now cs w over ∙ left
keep_alive-failed hash s now cs w WarmAction.warm_skip (some true) err e h =
    cc (sends-drift_session hash (warmed s now cs w WarmAction.warm_skip) now cs w)
keep_alive-failed hash s now cs w WarmAction.warm_retire (some true) err e h =
    cc (sends-drift_session hash (warmed s now cs w WarmAction.warm_retire) now cs w)

decided-failed :
    (hash : Text → ℕ) (s : Scheduler) (now : ℕ) (cs : TenantSession) (w : WarmWorld)
    (action : WarmAction) (err : ClientError)
    → w.refreshed ≡ some err
    → sends_refresh (decided hash s now cs w action).1 ≡ true
    → (decided hash s now cs w action).0 ≡ (refreshed_session s now cs (some err)).scheduler
unfolding decided
decided-failed hash s now cs w WarmAction.warm_retire err e h =
    cc (retire_idle-quiet s cs w.deleted)
decided-failed hash s now cs w WarmAction.warm_skip err e h =
    keep_alive-failed hash s now cs w WarmAction.warm_skip
      (owner_has_permit_in w.permits cs.tenant_id) err e h
decided-failed hash s now cs w WarmAction.warm_renew err e h =
    keep_alive-failed hash s now cs w WarmAction.warm_renew
      (owner_has_permit_in w.permits cs.tenant_id) err e h

warm_one-failed :
    (hash : Text → ℕ) (warm_hash : Text → ℕ → ℕ) (s : Scheduler) (now : ℕ) (cs : TenantSession)
    (w : WarmWorld) (err : ClientError)
    → w.refreshed ≡ some err
    → sends_refresh (warm_one hash warm_hash s now cs w).1 ≡ true
    → (warm_one hash warm_hash s now cs w).0 ≡ (refreshed_session s now cs (some err)).scheduler
unfolding warm_one
warm_one-failed hash warm_hash s now cs w err e h =
    ground (arith, decided-failed hash s now cs w (action_of warm_hash s now cs w) err e)

-- After a pass that sent a renewal which failed, and not because the account is not linked or the
-- council busy, no pass over that session sends another before the wait for a failed renewal is over,
-- whatever passes over this and other sessions come between: an expired session waits in the queue,
-- and any other failure is held back. This is so as long as only passes of keep-warm change what the
-- scheduler keeps, and each of those over this session finds that its provider is to be kept warm and
-- that the account may still have a permit of the tenant, and does not delete the session as idle.
pub warm_one-quiet :
    (hash : Text → ℕ) (warm_hash : Text → ℕ → ℕ) (s : Scheduler) (now later : ℕ)
    (cs cs' : TenantSession) (w w' : WarmWorld) (err : ClientError) (vs : List Visit)
    → w.refreshed ≡ some err
    → (not (any_link is_expired err.links) && any_link is_quiet err.links) ≡ false
    → sends_refresh (warm_one hash warm_hash s now cs w).1 ≡ true
    → key_of cs ≡ key_of cs'
    → later < now + warm_retry_interval s
    → LetWait (key_of cs) later vs
    → sends_refresh
        (warm_one hash warm_hash
          (visits hash warm_hash (warm_one hash warm_hash s now cs w).0 vs)
          later
          cs'
          w').1
      ≡ false
warm_one-quiet hash warm_hash s now later cs cs' w w' err vs e loud sent same h waits =
    let left = (warm_one hash warm_hash s now cs w).0 in
    let held : is_held left later (key_of cs) ≡ true =
      ap (λ t. is_held t later (key_of cs)) (warm_one-failed hash warm_hash s now cs w err e sent)
      ∙ refreshed_session-held s now later cs err loud h in
    let still = visits-held (key_of cs) hash warm_hash left later vs waits held in
    warm_one-held hash warm_hash (visits hash warm_hash left vs) later cs' w'
      (ap (is_held (visits hash warm_hash left vs) later) (sym same) ∙ still)
