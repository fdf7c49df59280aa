-- ===== src/Parking/Health/Breadth.antt =====
-- One household's trouble does not alarm: the states above rate_limited want distinct owners, an
-- unreadable sign-in page or an open circuit.
use pstonn.Prelude.{
  ℕ, ◌+◌, ◌≤◌, ◌<◌, ◌≡◌, ◌≢◌, ◌∙◌, Bool, false, Option, none, List, [], ◌∷◌, Text, Map, Distinct,
  Only, length-Only, insert, delete, lookup-insert, lookup-delete-none, lookup-keep_values-none,
  insert-Distinct, delete-Distinct, keep_values-Distinct, All, arith, Bool-cases, inl, inr,
}
use pstonn.Provider.{Link, Signal, classify}
use pstonn.Parking.Health.{
  ConnectorHealth, PushbackEvent, is_recent, prune_locked, note_failure, note_signal, note_at,
  derive_state, state, connector_state_rank, idle, degraded, health_idle_after,
}

-- The outcomes of one owner's operations, in order.
pub run_owner : Text → ConnectorHealth → List (Option (List Link) × ℕ) → ConnectorHealth
run_owner owner h [] = h
run_owner owner h ((err, now) ∷ es) = run_owner owner (note_at h owner err now) es

-- The error does not say that the sign-in page has changed.
abbrev pub KeepsShape : Option (List Link) × ℕ → Type 0
KeepsShape (err, now) = (classify err).login_shape ≡ false

-- The clock has heard of no other owner, and of no changed page.
pub record Household (owner : Text) (h : ConnectorHealth) : Type 0 where
  pub rejects_distinct : Distinct h.auth_rejects
  pub rejects_only : Only owner h.auth_rejects
  pub unexpected_distinct : Distinct h.unexpected
  pub unexpected_only : Only owner h.unexpected
  pub no_shape : h.login_shape_at ≡ 0

insert-Only : (owner : Text) (now : ℕ) (m : Map ℕ) → Only owner m → Only owner (insert owner now m)
insert-Only owner now m o j ne = lookup-insert j owner now m ∙ rw ne (o j ne)

prune_locked-Household :
    (owner : Text) (h : ConnectorHealth) (now : ℕ)
    → Household owner h
    → Household owner (prune_locked h now)
unfolding prune_locked
prune_locked-Household owner h now v = record {
  rejects_distinct = keep_values-Distinct (is_recent now) h.auth_rejects v.rejects_distinct;
  rejects_only =
      λ j ne. lookup-keep_values-none j (is_recent now) h.auth_rejects (v.rejects_only j ne);
  unexpected_distinct = keep_values-Distinct (is_recent now) h.unexpected v.unexpected_distinct;
  unexpected_only =
      λ j ne. lookup-keep_values-none j (is_recent now) h.unexpected (v.unexpected_only j ne);
  no_shape = v.no_shape;
}

rejected-Household :
    (owner : Text) (h : ConnectorHealth) (now : ℕ)
    → Household owner h
    → Household owner (record h { auth_rejects = insert owner now h.auth_rejects })
rejected-Household owner h now v = record {
  rejects_distinct = insert-Distinct owner now h.auth_rejects v.rejects_distinct;
  rejects_only = insert-Only owner now h.auth_rejects v.rejects_only;
  unexpected_distinct = v.unexpected_distinct;
  unexpected_only = v.unexpected_only;
  no_shape = v.no_shape;
}

unexpected-Household :
    (owner : Text) (h : ConnectorHealth) (now : ℕ)
    → Household owner h
    → Household owner (record h { unexpected = insert owner now h.unexpected })
unexpected-Household owner h now v = record {
  rejects_distinct = v.rejects_distinct;
  rejects_only = v.rejects_only;
  unexpected_distinct = insert-Distinct owner now h.unexpected v.unexpected_distinct;
  unexpected_only = insert-Only owner now h.unexpected v.unexpected_only;
  no_shape = v.no_shape;
}

note_failure-Household :
    (owner : Text) (h : ConnectorHealth) (sig : Signal) (now : ℕ)
    → sig.login_shape ≡ false
    → Household owner h
    → Household owner (note_failure h owner sig now)
unfolding note_failure
note_failure-Household owner h sig now s v = elim (Bool-cases sig.login_rejected) [
  | inl e ↦ rw (s, e) (rejected-Household owner h now v)
  | inr e ↦ elim (Bool-cases sig.unexpected) [
    | inl f ↦ rw (s, e, f) (unexpected-Household owner h now v)
    | inr f ↦ rw (s, e, f) v
  ]
]

-- Attempts and successes are counted without touching what the alarms read of other owners.
counted-Household :
    (owner : Text) (h : ConnectorHealth) (now fails : ℕ)
    → Household owner h
    → Household owner (record h { last_attempt = now; consec_fails = fails })
counted-Household owner h now fails v = record {
  rejects_distinct = v.rejects_distinct;
  rejects_only = v.rejects_only;
  unexpected_distinct = v.unexpected_distinct;
  unexpected_only = v.unexpected_only;
  no_shape = v.no_shape;
}

healed-Household :
    (owner : Text) (h : ConnectorHealth) (now : ℕ)
    → Household owner h
    → Household owner (record h {
      last_attempt = now;
      last_success = now;
      consec_fails = 0;
      auth_rejects = delete owner h.auth_rejects;
    })
healed-Household owner h now v = record {
  rejects_distinct = delete-Distinct owner h.auth_rejects v.rejects_distinct;
  rejects_only = λ j ne. lookup-delete-none j owner h.auth_rejects (v.rejects_only j ne);
  unexpected_distinct = v.unexpected_distinct;
  unexpected_only = v.unexpected_only;
  no_shape = v.no_shape;
}

note_signal-Household :
    (owner : Text) (h : ConnectorHealth) (sig : Signal) (now : ℕ)
    → sig.login_shape ≡ false
    → Household owner h
    → Household owner (note_signal h owner sig now)
unfolding note_signal
note_signal-Household owner h sig now s v = elim (Bool-cases sig.canceled) [
  | inl e ↦ rw e v
  | inr e ↦ elim (Bool-cases sig.ok) [
    | inl f ↦ rw (e, f) (healed-Household owner h now v)
    | inr f ↦
        rw (e, f)
          (prune_locked-Household owner _ now (
            note_failure-Household owner _ sig now s
              (counted-Household owner h now (h.consec_fails + 1) v)))
  ]
]

note_at-Household :
    (owner : Text) (h : ConnectorHealth) (err : Option (List Link)) (now : ℕ)
    → (classify err).login_shape ≡ false
    → Household owner h
    → Household owner (note_at h owner err now)
unfolding note_at
note_at-Household owner h err now s v = note_signal-Household owner h (classify err) now s v

derive_state-calm :
    (owner : Text) (h : ConnectorHealth) (now : ℕ) (pb : PushbackEvent)
    → Household owner h
    → connector_state_rank (derive_state h now false pb) ≤ 3
unfolding derive_state connector_state_rank
derive_state-calm owner h now pb v = ground (
  arith,
  length-Only owner h.auth_rejects v.rejects_distinct v.rejects_only,
  length-Only owner h.unexpected v.unexpected_distinct v.unexpected_only,
)

-- From a health that has heard of one owner at most and of no changed sign-in page, whatever
-- happens to that owner's operations, as long as no error says that the page has changed and the
-- fleet's circuit is closed, the connector's state ranks at most as rate_limited.
pub one_owner_never_alarms :
    (owner : Text) (h : ConnectorHealth) (es : List (Option (List Link) × ℕ)) (now : ℕ)
    (pb : PushbackEvent)
    → Household owner h
    → All KeepsShape es
    → connector_state_rank (state (run_owner owner h es) now false pb).1 ≤ 3
unfolding run_owner
one_owner_never_alarms owner h [] now pb v s =
    unfold state in
    derive_state-calm owner (prune_locked h now) now pb (prune_locked-Household owner h now v)
one_owner_never_alarms owner h ((err, t) ∷ es) now pb v s =
    one_owner_never_alarms owner (note_at h owner err t) es now pb
      (note_at-Household owner h err t s.0 v) s.1

-- After a success at an instant after the zero Time, the connector is neither idle nor degraded up
-- to ninety minutes later, whatever was noted before it.
pub success_clears :
    (h : ConnectorHealth) (owner : Text) (t now : ℕ) (breaker_open : Bool) (pb : PushbackEvent)
    → 0 < t
    → now ≤ t + health_idle_after
    → let s = (state (note_at h owner none t) now breaker_open pb).1 in (s ≢ idle) × (s ≢ degraded)
unfolding state derive_state note_at note_signal classify prune_locked
success_clears h owner t now breaker_open pb p n = ground arith
