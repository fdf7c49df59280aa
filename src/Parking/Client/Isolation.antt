-- ===== src/Parking/Client/Isolation.antt =====
-- One owner's operations do not stop another's.
use pstonn.Prelude.{
  ℕ, ◌≡◌, refl, ◌∙◌, Bool, true, false, Option, none, some, List, [], ◌∷◌, Text, lookup,
  lookup-insert, lookup-delete-none, text_eq, Bool-cases, inl, inr, arith,
}
use pstonn.Provider.{Link, Unavailable, classify}
use pstonn.Parking.Breaker.{Breaker, BreakerPermit, allow, allow_locked, on_pushback, on_success}
use pstonn.Parking.Breaker.Permits.{allows, pushes, succeeds, step}
use pstonn.Parking.Breaker.Owners.{Alone, step-Alone}
use pstonn.Parking.Client.{
  Client, answered, cooldown_for, penalize, clear_penalty, note_tenant_success, penalize_for,
  classify_outcome, pass_gates, with_session,
}

-- An attempt of an operation, and what the world outside answers to it.
pub record Attempt : Type 0 where
  pub linked : Bool
  pub opens : Bool
  pub at : ℕ
  pub answer : Option (List Link)
  pub done_at : ℕ

unfoldable pub attempts : Text → Client → List Attempt → Client
attempts owner c [] = c
attempts owner c (a ∷ rest) =
    attempts owner (with_session c owner a.linked a.opens a.at a.answer a.done_at).0 rest

-- The breaker, if there is one, is closed, needs two owners, and has heard of `owner` alone.
abbrev pub AloneIn : Text → Option Breaker → Type 0
AloneIn owner none = Unit
AloneIn owner (some b) = Alone owner b

-- `who` is free to go, whatever happens to `owner`.
pub record IsFree (owner who : Text) (c : Client) : Type 0 where
  pub cool : lookup who c.cooldown_until ≡ none
  pub calm : AloneIn owner c.breaker

on_pushback-AloneIn :
    (owner : Text) (b : Option Breaker) (now retry_after : ℕ)
    → AloneIn owner b
    → AloneIn owner (on_pushback b now owner retry_after).0
unfolding on_pushback step
on_pushback-AloneIn owner none now retry_after a = tt
on_pushback-AloneIn owner (some b) now retry_after a =
    step-Alone owner b (pushes now owner retry_after) refl a

on_success-AloneIn :
    (owner : Text) (b : Option Breaker) (p : BreakerPermit)
    → AloneIn owner b
    → AloneIn owner (on_success b owner p).0
unfolding on_success step
on_success-AloneIn owner none p a = tt
on_success-AloneIn owner (some b) p a = step-Alone owner b (succeeds owner p) refl a

-- A circuit in which one owner is alone admits.
allow-AloneIn :
    (owner : Text) (b : Option Breaker) (now : ℕ)
    → AloneIn owner b
    → AloneIn owner (allow b now).0 × ((allow b now).1.ok ≡ true)
unfolding allow step
allow-AloneIn owner none now a = (tt, refl)
allow-AloneIn owner (some b) now a =
    (step-Alone owner b (allows now) tt a, unfold allow_locked in ground (arith, a.closed))

penalize-IsFree :
    (owner who : Text) (c : Client) (retry_after now : ℕ)
    → text_eq owner who ≡ false
    → IsFree owner who c
    → IsFree owner who (penalize c owner retry_after now)
unfolding penalize
penalize-IsFree owner who c retry_after now ne f = record {
  cool = lookup-insert who owner _ c.cooldown_until ∙ rw ne f.cool;
  calm = on_pushback-AloneIn owner c.breaker now retry_after f.calm;
}

penalize_for-IsFree :
    (owner who : Text) (c : Client) (u : Option Unavailable) (now : ℕ)
    → text_eq owner who ≡ false
    → IsFree owner who c
    → IsFree owner who (penalize_for c owner u now)
penalize_for-IsFree owner who c none now ne f = f
penalize_for-IsFree owner who c (some u) now ne f =
    penalize-IsFree owner who c u.retry_after now ne f

classify_outcome-IsFree :
    (owner who : Text) (c : Client) (p : BreakerPermit) (err : Option (List Link)) (now : ℕ)
    → text_eq owner who ≡ false
    → IsFree owner who c
    → IsFree owner who (classify_outcome c owner p err now)
unfolding classify_outcome note_tenant_success clear_penalty
classify_outcome-IsFree owner who c p err now ne f = elim (Bool-cases (classify err).ok) [
  | inl e ↦ rw e (record {
    cool = lookup-delete-none who owner c.cooldown_until f.cool;
    calm = on_success-AloneIn owner c.breaker p f.calm;
  })
  | inr e ↦ rw e (
      penalize_for-IsFree owner who _ (classify err).pushback now ne
        (record { cool = f.cool; calm = f.calm }))
]

pass_gates-IsFree :
    (owner who : Text) (c : Client) (opens : Bool) (now : ℕ) (err : Option (List Link)) (later : ℕ)
    (wait : Option ℕ)
    → text_eq owner who ≡ false
    → IsFree owner who c
    → IsFree owner who (pass_gates c owner opens now err later wait).0
unfolding pass_gates
pass_gates-IsFree owner who c opens now err later (some d) ne f = f
pass_gates-IsFree owner who c opens now err later none ne f =
    let calm = allow-AloneIn owner c.breaker now f.calm in
    let f1 : IsFree owner who (record c { breaker = (allow c.breaker now).0 }) = record {
      cool = f.cool;
      calm = calm.0;
    } in
    elim (Bool-cases opens) [
      | inl e ↦
          rw (calm.1, e)
            (classify_outcome-IsFree owner who _ (allow c.breaker now).1.permit err later ne f1)
      | inr e ↦ rw (calm.1, e) f1
    ]

with_session-IsFree :
    (owner who : Text) (c : Client) (a : Attempt)
    → text_eq owner who ≡ false
    → IsFree owner who c
    → IsFree owner who (with_session c owner a.linked a.opens a.at a.answer a.done_at).0
unfolding with_session
with_session-IsFree owner who c a ne f = elim (Bool-cases a.linked) [
  | inl e ↦ rw e (
      pass_gates-IsFree owner who c a.opens a.at a.answer a.done_at (cooldown_for c owner a.at) ne
        f)
  | inr e ↦ rw e f
]

attempts-IsFree :
    (owner who : Text) (rest : List Attempt) (c : Client)
    → text_eq owner who ≡ false
    → IsFree owner who c
    → IsFree owner who (attempts owner c rest)
unfolding attempts
attempts-IsFree owner who [] c ne f = f
attempts-IsFree owner who (a ∷ rest) c ne f =
    attempts-IsFree owner who rest (with_session c owner a.linked a.opens a.at a.answer a.done_at).0
      ne (with_session-IsFree owner who c a ne f)

free-answered :
    (owner who : Text) (c : Client) (now : ℕ) (err : Option (List Link)) (later : ℕ)
    → IsFree owner who c
    → (with_session c who true true now err later).1 ≡ answered err
unfolding with_session cooldown_for pass_gates
free-answered owner who c now err later f =
    rw (f.cool, (allow-AloneIn owner c.breaker now f.calm).1) refl

-- Suppose an owner other than `who` makes any attempts at operations, with any answers from the
-- portal; before them `who` had no cooldown, and the breaker, if there is one, was closed, needed two
-- owners or more and had heard of no other owner. Then an operation of `who` with a session that can
-- be read still reaches the portal.
pub one_owner_never_blocks :
    (owner who : Text) (c : Client) (rest : List Attempt) (now : ℕ) (err : Option (List Link))
    (later : ℕ)
    → text_eq owner who ≡ false
    → IsFree owner who c
    → (with_session (attempts owner c rest) who true true now err later).1 ≡ answered err
one_owner_never_blocks owner who c rest now err later ne f =
    free-answered owner who (attempts owner c rest) now err later
      (attempts-IsFree owner who rest c ne f)
