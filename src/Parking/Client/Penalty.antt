-- ===== src/Parking/Client/Penalty.antt =====
-- What a pushback costs its owner.
use pstonn.Prelude.{
  ℕ, ◌+◌, ◌-◌, ◌*◌, ◌^◌, ◌≤◌, ◌<◌, ◌≡◌, ◌≢◌, refl, ap, ap₂, lt→ltb, ◌∙◌, min, Bool, true, false,
  Option, none, some, List, [], ◌∷◌, Text, lookup, lookup-insert, text_eq_refl, length, Bool-cases,
  inl, inr, arith,
}
use native.Mathlib.Nat.{pow-le-pow_right}
use pstonn.Clock.{minute, hour, elapsed, max_duration}
use pstonn.Provider.{Link, Unavailable, unavailable, classify, as_unavailable}
use pstonn.Parking.Breaker.{BreakerPermit, allow}
use pstonn.Parking.Client.{
  Client, cooling, answered, or_zero, cooldown_for, owner_backoff, penalize, classify_outcome,
  pass_gates, with_session,
}

-- The outcome of an operation that the portal pushed back.
abbrev pub pushed_back : Client → Text → BreakerPermit → Unavailable → List Link → ℕ → Client
pushed_back c owner p u links t = classify_outcome c owner p (some (unavailable u ∷ links)) t

pushed_back-cooldown :
    (c : Client) (owner : Text) (p : BreakerPermit) (u : Unavailable) (links : List Link) (t : ℕ)
    → lookup owner (pushed_back c owner p u links t).cooldown_until
      ≡ some (t + owner_backoff (or_zero (lookup owner c.strikes) + 1) u.retry_after)
unfolding classify_outcome penalize classify as_unavailable
pushed_back-cooldown c owner p u links t =
    lookup-insert owner owner _ c.cooldown_until ∙ rw (text_eq_refl owner) refl

pushed_back-strikes :
    (c : Client) (owner : Text) (p : BreakerPermit) (u : Unavailable) (links : List Link) (t : ℕ)
    → lookup owner (pushed_back c owner p u links t).strikes
      ≡ some (or_zero (lookup owner c.strikes) + 1)
unfolding classify_outcome penalize classify as_unavailable
pushed_back-strikes c owner p u links t =
    lookup-insert owner owner _ c.strikes ∙ rw (text_eq_refl owner) refl

owner_backoff_bounds :
    (strikes retry_after : ℕ)
    → (owner_backoff strikes retry_after ≤ 2 * hour)
      × (min retry_after (2 * hour) ≤ owner_backoff strikes retry_after)
unfolding owner_backoff
owner_backoff_bounds strikes retry_after = ground arith

cooling-with_session :
    (c : Client) (owner : Text) (opens : Bool) (now : ℕ) (err : Option (List Link)) (later d : ℕ)
    → lookup owner c.cooldown_until ≡ some d
    → now < d
    → d - now ≤ max_duration
    → with_session c owner true opens now err later ≡ (c, cooling (d - now))
unfolding with_session cooldown_for pass_gates
cooling-with_session c owner opens now err later d h lt small =
    let capped : elapsed d now ≡ d - now = omega arith in rw (h, lt→ltb now d lt, capped) refl

-- A pushback pauses its owner for at most two hours and at least the portal's own Retry-After, as far
-- as the two hours go: for so long every operation of the owner that has a session is refused with
-- the rest of the pause, and changes nothing.
pub pushed_back-with_session :
    (c : Client) (owner : Text) (p : BreakerPermit) (u : Unavailable) (links : List Link) (t : ℕ)
    (opens : Bool) (now : ℕ) (err : Option (List Link)) (later : ℕ)
    → t ≤ now
    → now < t + owner_backoff (or_zero (lookup owner c.strikes) + 1) u.retry_after
    → let pause = owner_backoff (or_zero (lookup owner c.strikes) + 1) u.retry_after in
      let c' = pushed_back c owner p u links t in
      (pause ≤ 2 * hour)
      × (min u.retry_after (2 * hour) ≤ pause)
      × (with_session c' owner true opens now err later ≡ (c', cooling (t + pause - now)))
pushed_back-with_session c owner p u links t opens now err later le lt =
    let pause = owner_backoff (or_zero (lookup owner c.strikes) + 1) u.retry_after in
    let bounds = owner_backoff_bounds (or_zero (lookup owner c.strikes) + 1) u.retry_after in
    (
      bounds.0,
      bounds.1,
      cooling-with_session (pushed_back c owner p u links t) owner opens now err later (t + pause)
          (pushed_back-cooldown c owner p u links t) lt (omega (arith, bounds.0)),
    )

-- The pushes of one owner in a row, at the given times.
unfoldable pub pushes_in_row : Client → Text → BreakerPermit → Unavailable → List ℕ → Client
pushes_in_row c owner p u [] = c
pushes_in_row c owner p u (t ∷ ts) = pushes_in_row (pushed_back c owner p u [] t) owner p u ts

pushes_in_row-strikes :
    (owner : Text) (p : BreakerPermit) (u : Unavailable) (ts : List ℕ) (c : Client)
    → or_zero (lookup owner (pushes_in_row c owner p u ts).strikes)
      ≡ or_zero (lookup owner c.strikes) + length ts
unfolding pushes_in_row
pushes_in_row-strikes owner p u [] c = omega arith
pushes_in_row-strikes owner p u (t ∷ ts) c = omega (
  arith,
  pushes_in_row-strikes owner p u ts (pushed_back c owner p u [] t),
  ap or_zero (pushed_back-strikes c owner p u [] t),
)

pow_small : (k : ℕ) → 2 ^ min k 6 ≤ 64
pow_small k =
    let h : 2 ^ min k 6 ≤ 2 ^ 6 =
      pow-le-pow_right (omega arith) {i = min k 6} {j = 6} (omega arith) in
    h

owner_backoff-row : (n : ℕ) → owner_backoff n 0 ≡ 2 ^ min n 6 * minute
unfolding owner_backoff
owner_backoff-row n = ground (arith, pow_small n)

-- Of the pushbacks in a row that one owner with no strikes gets, without a Retry-After, the n-th
-- pauses the owner for 2 ^ n minutes from its time, up to 64 minutes.
pub pushes_escalate :
    (c : Client) (owner : Text) (p : BreakerPermit) (u : Unavailable) (ts : List ℕ) (t : ℕ)
    → lookup owner c.strikes ≡ none
    → u.retry_after ≡ 0
    → lookup owner (pushed_back (pushes_in_row c owner p u ts) owner p u [] t).cooldown_until
      ≡ some (t + 2 ^ min (length ts + 1) 6 * minute)
pushes_escalate c owner p u ts t fresh h =
    let n : or_zero (lookup owner (pushes_in_row c owner p u ts).strikes) + 1 ≡ length ts + 1 =
      omega (arith, pushes_in_row-strikes owner p u ts c, ap or_zero fresh) in
    pushed_back-cooldown (pushes_in_row c owner p u ts) owner p u [] t
    ∙ ap (λ w. some (t + w)) (ap₂ owner_backoff n h ∙ owner_backoff-row (length ts + 1))

-- The health, the strikes and the cooldowns are those of `c`.
abbrev pub SameNotes : Client → Client → Type 0
SameNotes c c' =
    (c'.health ≡ c.health) × (c'.strikes ≡ c.strikes) × (c'.cooldown_until ≡ c.cooldown_until)

pass_gates-unanswered :
    (c : Client) (owner : Text) (opens : Bool) (now : ℕ) (err : Option (List Link)) (later : ℕ)
    (wait : Option ℕ)
    → ((pass_gates c owner opens now err later wait).1 ≢ answered err)
    → SameNotes c (pass_gates c owner opens now err later wait).0
unfolding pass_gates
pass_gates-unanswered c owner opens now err later (some d) h = (refl, refl, refl)
pass_gates-unanswered c owner opens now err later none h =
    elim (Bool-cases (allow c.breaker now).1.ok) [
      | inr e ↦ rw e (refl, refl, refl)
      | inl e ↦ elim (Bool-cases opens) [
        | inr f ↦ rw (e, f) (refl, refl, refl)
        | inl f ↦ absurd (h (rw (e, f) refl))
      ]
    ]

-- An operation that does not reach the portal is not an outcome: it leaves the health, the strikes
-- and the cooldowns of every owner as they were.
pub with_session-unanswered :
    (c : Client) (owner : Text) (linked opens : Bool) (now : ℕ) (err : Option (List Link))
    (later : ℕ)
    → (with_session c owner linked opens now err later).1 ≢ answered err
    → SameNotes c (with_session c owner linked opens now err later).0
unfolding with_session
with_session-unanswered c owner false opens now err later h = (refl, refl, refl)
with_session-unanswered c owner true opens now err later h =
    pass_gates-unanswered c owner opens now err later (cooldown_for c owner now) h
