-- ===== src/Scheduler/KeepWarm/Passes.antt =====
-- A renewal that is held back stays so through a pass of keep-warm.
use pstonn.Prelude.{
  ℕ, ◌≡◌, refl, ap, text_eq, ◌∙◌, Bool, true, false, not, ◌&&◌, ◌||◌, Option, none, some, [], Text,
  arith, Bool-cases, inl, inr,
}
use pstonn.Scheduler.{Scheduler, SessionKey, same_session, same_session_iff, TenantSession, key_of}
use pstonn.Scheduler.Drift.{drift_due}
use pstonn.Scheduler.Warm.{WarmAction, warm_backed_off}
use pstonn.Scheduler.Reconnect.{reconnect_queued}
use pstonn.Scheduler.KeepWarm.{
  ClientError, WarmWorld, Warmed, any_link, is_expired, is_quiet, gen_or, refreshed_session,
  renew_session, warmed, drift_session, retire_idle, keep_alive, action_of, decided, warm_one,
  owner_has_permit_in,
}
use pstonn.Scheduler.KeepWarm.Held.{is_held}
use pstonn.Scheduler.KeepWarm.Keeps.{
  Keeps, Keeps-same, Keeps-then, note_warm_success-Keeps, note_warm_failure-Keeps,
  enqueue_reconnect-Keeps, drifted_session-Keeps,
}

-- The pass is over another session, or over this one while it is held back and its tenant is to be
-- kept warm.
data Spares (k : SessionKey) (s : Scheduler) (now : ℕ) (cs : TenantSession) (w : WarmWorld)
    : Type 0 where
  other : same_session (key_of cs) k ≡ false → Spares k s now cs w
  held : is_held s now (key_of cs) ≡ true → w.needs_keep_warm ≡ true → Spares k s now cs w

refreshed_session-Keeps :
    (k : SessionKey) (s : Scheduler) (now : ℕ) (cs : TenantSession) (e : Option ClientError)
    → same_session (key_of cs) k ≡ false
    → Keeps k s (refreshed_session s now cs e).scheduler
unfolding refreshed_session
refreshed_session-Keeps k s now cs none h = note_warm_success-Keeps k (key_of cs) s h
refreshed_session-Keeps k s now cs (some err) h =
    elim (Bool-cases (any_link is_expired err.links)) [
      | inl e ↦
          rw e (enqueue_reconnect-Keeps k (key_of cs) s now (gen_or cs.generation err.session_gen))
      | inr e ↦ elim (Bool-cases (any_link is_quiet err.links)) [
        | inl f ↦ rw (e, f) (Keeps-same k s)
        | inr f ↦ rw (e, f) (note_warm_failure-Keeps k (key_of cs) s now h)
      ]
    ]

renew_session-Keeps :
    (k : SessionKey) (s : Scheduler) (now : ℕ) (cs : TenantSession) (w : WarmWorld)
    → Spares k s now cs w
    → Keeps k s (renew_session s now cs w).scheduler
unfolding renew_session
renew_session-Keeps k s now cs w (other h) = elim (Bool-cases w.needs_keep_warm) [
  | inr n ↦ rw n (note_warm_success-Keeps k (key_of cs) s h)
  | inl n ↦ elim (Bool-cases (reconnect_queued s (key_of cs))) [
    | inl q ↦ rw (n, q) (Keeps-same k s)
    | inr q ↦ elim (Bool-cases (warm_backed_off s now (key_of cs))) [
      | inl b ↦ rw (n, q, b) (Keeps-same k s)
      | inr b ↦ rw (n, q, b) (refreshed_session-Keeps k s now cs w.refreshed h)
    ]
  ]
]
renew_session-Keeps k s now cs w (held h n) = elim (Bool-cases (reconnect_queued s (key_of cs))) [
  | inl q ↦ rw (n, q) (Keeps-same k s)
  | inr q ↦ rw (n, q, rw q at h) (Keeps-same k s)
]

warmed-Keeps :
    (k : SessionKey) (s : Scheduler) (now : ℕ) (cs : TenantSession) (w : WarmWorld)
    (action : WarmAction)
    → Spares k s now cs w
    → Keeps k s (warmed s now cs w action).scheduler
unfolding warmed
warmed-Keeps k s now cs w WarmAction.warm_renew h = renew_session-Keeps k s now cs w h
warmed-Keeps k s now cs w WarmAction.warm_skip h = Keeps-same k s
warmed-Keeps k s now cs w WarmAction.warm_retire h = Keeps-same k s

drift_session-Keeps :
    (k : SessionKey) (hash : Text → ℕ) (s : Scheduler) (r : Warmed) (now : ℕ) (cs : TenantSession)
    (w : WarmWorld)
    → Keeps k s r.scheduler
    → Keeps k s (drift_session hash r now cs w).0
unfolding drift_session
drift_session-Keeps k hash s r now cs w h =
    let due = r.alive && (not w.blocked && drift_due hash r.scheduler cs now) in
    elim (Bool-cases due) [
      | inl e ↦ rw e (Keeps-then h (drifted_session-Keeps k hash r.scheduler now cs w w.drifted))
      | inr e ↦ rw e h
    ]

-- The account still has a permit of this tenant, or its permits could not be read.
abbrev pub may_have : Option Bool → Bool
may_have (some false) = false
may_have _ = true

abbrev pub is_deleted : Option Bool → Bool
is_deleted (some true) = true
is_deleted _ = false

-- The pass is over another session than k's; or it is over this one, its provider is to be kept warm,
-- the account may have a permit of the tenant, and the session is not deleted as idle.
abbrev pub lets_wait : SessionKey → TenantSession → WarmWorld → Bool
lets_wait k cs w =
    not (same_session (key_of cs) k)
    || (w.needs_keep_warm
        && (may_have (owner_has_permit_in w.permits cs.tenant_id) && not (is_deleted w.deleted)))

keep_alive-Keeps :
    (k : SessionKey) (hash : Text → ℕ) (s : Scheduler) (now : ℕ) (cs : TenantSession)
    (w : WarmWorld) (action : WarmAction) (has : Option Bool)
    → (not (same_session (key_of cs) k) || may_have has) ≡ true
    → Spares k s now cs w
    → Keeps k s (keep_alive hash s now cs w action has).0
unfolding keep_alive
keep_alive-Keeps k hash s now cs w action none h sp = Keeps-same k s
keep_alive-Keeps k hash s now cs w action (some false) h sp =
    note_warm_success-Keeps k (key_of cs) s (ground (arith, h))
keep_alive-Keeps k hash s now cs w action (some true) h sp =
    drift_session-Keeps k hash s (warmed s now cs w action) now cs w
      (warmed-Keeps k s now cs w action sp)

retire_idle-Keeps :
    (k : SessionKey) (s : Scheduler) (cs : TenantSession) (deleted : Option Bool)
    → (not (same_session (key_of cs) k) || not (is_deleted deleted)) ≡ true
    → Keeps k s (retire_idle s cs deleted).0
unfolding retire_idle
retire_idle-Keeps k s cs none h = Keeps-same k s
retire_idle-Keeps k s cs (some false) h = Keeps-same k s
retire_idle-Keeps k s cs (some true) h = note_warm_success-Keeps k (key_of cs) s (ground (arith, h))

spares :
    (k : SessionKey) (s : Scheduler) (now : ℕ) (cs : TenantSession) (w : WarmWorld)
    → lets_wait k cs w ≡ true
    → is_held s now k ≡ true
    → Spares k s now cs w
spares k s now cs w h q = elim (Bool-cases (same_session (key_of cs) k)) [
  | inr e ↦ other e
  | inl e ↦
      held (ap (is_held s now) ((same_session_iff (key_of cs) k).0 e) ∙ q) (ground (arith, e, h))
]

decided-Keeps :
    (k : SessionKey) (hash : Text → ℕ) (s : Scheduler) (now : ℕ) (cs : TenantSession)
    (w : WarmWorld) (action : WarmAction)
    → lets_wait k cs w ≡ true
    → is_held s now k ≡ true
    → Keeps k s (decided hash s now cs w action).0
unfolding decided
decided-Keeps k hash s now cs w WarmAction.warm_retire h q =
    retire_idle-Keeps k s cs w.deleted (ground (arith, h))
decided-Keeps k hash s now cs w WarmAction.warm_skip h q =
    keep_alive-Keeps k hash s now cs w WarmAction.warm_skip
      (owner_has_permit_in w.permits cs.tenant_id) (ground (arith, h)) (spares k s now cs w h q)
decided-Keeps k hash s now cs w WarmAction.warm_renew h q =
    keep_alive-Keeps k hash s now cs w WarmAction.warm_renew
      (owner_has_permit_in w.permits cs.tenant_id) (ground (arith, h)) (spares k s now cs w h q)

pub warm_one-Keeps :
    (k : SessionKey) (hash : Text → ℕ) (warm_hash : Text → ℕ → ℕ) (s : Scheduler) (now : ℕ)
    (cs : TenantSession) (w : WarmWorld)
    → lets_wait k cs w ≡ true
    → is_held s now k ≡ true
    → Keeps k s (warm_one hash warm_hash s now cs w).0
unfolding warm_one
warm_one-Keeps k hash warm_hash s now cs w h q =
    let kept = decided-Keeps k hash s now cs w (action_of warm_hash s now cs w) h q in
    elim (Bool-cases (text_eq cs.cookie [])) [ inl e ↦ rw e (Keeps-same k s) | inr e ↦ rw e kept ]

pub held-Keeps :
    (k : SessionKey) (s s' : Scheduler) (later : ℕ)
    → Keeps k s s'
    → is_held s later k ≡ true
    → is_held s' later k ≡ true
unfolding warm_backed_off
held-Keeps k s s' later h q = elim (Bool-cases (reconnect_queued s k)) [
  | inl e ↦ rw (h.queue e) refl
  | inr e ↦ ground (arith, h.wait, rw e at q)
]
