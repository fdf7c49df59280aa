-- ===== src/Scheduler/KeepWarm/Held.antt =====
-- When keep-warm leaves the council's portal alone.
use pstonn.Prelude.{
  ℕ, ◌≡◌, refl, ◌∙◌, Bool, true, false, ◌||◌, Option, none, some, ◌∷◌, [], ◌++◌, List, Text, arith,
}
use pstonn.Provider.{Link, FailureKind, failure_of}
use pstonn.Scheduler.{Scheduler, SessionKey, session_key, TenantSession, key_of, Notice}
use pstonn.Scheduler.Drift.{note_drift_failure, tally_shape}
use pstonn.Scheduler.Warm.{WarmAction, warm_backed_off}
use pstonn.Scheduler.Reconnect.{reconnect_queued, enqueue_reconnect}
use pstonn.Scheduler.KeepWarm.{
  ClientError, WarmWorld, Warmed, renew_session, warmed, queue_tagged, drift_failed,
  drifted_session, drift_session, retire_idle, keep_alive, action_of, decided, warm_one,
  owner_has_permit_in,
}

-- A renewal is sent to the portal.
abbrev pub is_refresh : Notice → Bool
is_refresh (Notice.refresh k) = true
is_refresh _ = false

abbrev pub sends_refresh : List Notice → Bool
sends_refresh [] = false
sends_refresh (n ∷ ns) = is_refresh n || sends_refresh ns

sends_refresh-append :
    (ns ms : List Notice) → sends_refresh (ns ++ ms) ≡ (sends_refresh ns || sends_refresh ms)
sends_refresh-append [] ms = refl
sends_refresh-append (n ∷ ns) ms = ground (arith, sends_refresh-append ns ms)

sends-enqueue :
    (s : Scheduler) (now : ℕ) (k : SessionKey) (gen : ℕ)
    → sends_refresh (enqueue_reconnect s now k gen).1 ≡ false
unfolding enqueue_reconnect
sends-enqueue s now k gen = ground arith

sends-tally_shape :
    (s : Scheduler) (now : ℕ) (owner : Text) (kind : FailureKind)
    → sends_refresh (tally_shape s now owner kind).1 ≡ false
unfolding tally_shape
sends-tally_shape s now owner FailureKind.fail_transient = refl
sends-tally_shape s now owner FailureKind.fail_rejected = refl
sends-tally_shape s now owner FailureKind.fail_unexpected = ground arith

sends-note_drift_failure :
    (s : Scheduler) (now : ℕ) (owner : Text) (err : List Link)
    → sends_refresh (note_drift_failure s now owner err).1 ≡ false
unfolding note_drift_failure
sends-note_drift_failure s now owner err = sends-tally_shape _ now owner (failure_of err)

sends-queue_tagged :
    (s : Scheduler) (now : ℕ) (cs : TenantSession) (gen : Option ℕ)
    → sends_refresh (queue_tagged s now cs gen).1 ≡ false
unfolding queue_tagged
sends-queue_tagged s now cs none = refl
sends-queue_tagged s now cs (some g) = sends-enqueue s now (key_of cs) g

sends-drift_failed :
    (hash : Text → ℕ) (s : Scheduler) (now : ℕ) (cs : TenantSession) (err : ClientError)
    → sends_refresh (drift_failed hash s now cs err).1 ≡ false
unfolding drift_failed
sends-drift_failed hash s now cs err =
    ground (arith, sends-note_drift_failure s now cs.owner err.cause)

sends-drifted_session :
    (hash : Text → ℕ) (s : Scheduler) (now : ℕ) (cs : TenantSession) (w : WarmWorld)
    (e : Option ClientError)
    → sends_refresh (drifted_session hash s now cs w e).1 ≡ false
unfolding drifted_session
sends-drifted_session hash s now cs w none =
    ground (arith, sends-note_drift_failure s now cs.owner [])
sends-drifted_session hash s now cs w (some err) =
    let (s', ns) = drift_failed hash s now cs err in
    sends_refresh-append ns (queue_tagged s' now cs err.session_gen).1
    ∙ ground
        (arith, sends-drift_failed hash s now cs err, sends-queue_tagged s' now cs err.session_gen)

pub sends-drift_session :
    (hash : Text → ℕ) (r : Warmed) (now : ℕ) (cs : TenantSession) (w : WarmWorld)
    → sends_refresh (drift_session hash r now cs w).1 ≡ sends_refresh r.notices
unfolding drift_session
sends-drift_session hash r now cs w =
    let ns = (drifted_session hash r.scheduler now cs w w.drifted).1 in
    ground (
      arith,
      sends_refresh-append r.notices (Notice.drift_read (key_of cs) ∷ ns),
      sends-drifted_session hash r.scheduler now cs w w.drifted,
    )

-- The session waits in the queue, or its renewal is held back.
abbrev pub is_held : Scheduler → ℕ → SessionKey → Bool
is_held s now k = reconnect_queued s k || warm_backed_off s now k

renew_session-held :
    (s : Scheduler) (now : ℕ) (cs : TenantSession) (w : WarmWorld)
    → is_held s now (key_of cs) ≡ true
    → sends_refresh (renew_session s now cs w).notices ≡ false
unfolding renew_session
renew_session-held s now cs w h = ground arith

warmed-held :
    (s : Scheduler) (now : ℕ) (cs : TenantSession) (w : WarmWorld) (action : WarmAction)
    → is_held s now (key_of cs) ≡ true
    → sends_refresh (warmed s now cs w action).notices ≡ false
unfolding warmed
warmed-held s now cs w WarmAction.warm_skip h = refl
warmed-held s now cs w WarmAction.warm_renew h = renew_session-held s now cs w h
warmed-held s now cs w WarmAction.warm_retire h = refl

keep_alive-held :
    (hash : Text → ℕ) (s : Scheduler) (now : ℕ) (cs : TenantSession) (w : WarmWorld)
    (action : WarmAction) (has : Option Bool)
    → is_held s now (key_of cs) ≡ true
    → sends_refresh (keep_alive hash s now cs w action has).1 ≡ false
unfolding keep_alive
keep_alive-held hash s now cs w action none h = refl
keep_alive-held hash s now cs w action (some false) h = refl
keep_alive-held hash s now cs w action (some true) h =
    sends-drift_session hash (warmed s now cs w action) now cs w ∙ warmed-held s now cs w action h

pub retire_idle-quiet :
    (s : Scheduler) (cs : TenantSession) (deleted : Option Bool)
    → sends_refresh (retire_idle s cs deleted).1 ≡ false
unfolding retire_idle
retire_idle-quiet s cs none = refl
retire_idle-quiet s cs (some true) = refl
retire_idle-quiet s cs (some false) = refl

decided-held :
    (hash : Text → ℕ) (s : Scheduler) (now : ℕ) (cs : TenantSession) (w : WarmWorld)
    (action : WarmAction)
    → is_held s now (key_of cs) ≡ true
    → sends_refresh (decided hash s now cs w action).1 ≡ false
unfolding decided
decided-held hash s now cs w WarmAction.warm_retire h = retire_idle-quiet s cs w.deleted
decided-held hash s now cs w WarmAction.warm_skip h =
    keep_alive-held hash s now cs w WarmAction.warm_skip
      (owner_has_permit_in w.permits cs.tenant_id) h
decided-held hash s now cs w WarmAction.warm_renew h =
    keep_alive-held hash s now cs w WarmAction.warm_renew
      (owner_has_permit_in w.permits cs.tenant_id) h

pub warm_one-held :
    (hash : Text → ℕ) (warm_hash : Text → ℕ → ℕ) (s : Scheduler) (now : ℕ) (cs : TenantSession)
    (w : WarmWorld)
    → is_held s now (key_of cs) ≡ true
    → sends_refresh (warm_one hash warm_hash s now cs w).1 ≡ false
unfolding warm_one
warm_one-held hash warm_hash s now cs w h =
    ground (arith, decided-held hash s now cs w (action_of warm_hash s now cs w) h)
