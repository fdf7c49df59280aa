-- ===== src/Scheduler/Retry/Claims.antt =====
-- The claim of a permit's plate: whoever holds it is alone until its own release.
use pstonn.Prelude.{
  ℕ, ◌≡◌, Bool, true, false, none, some, ◌∷◌, [], List, find, ◌==◌, ==_iff, number_key, find-put,
  find-drop_if, arith, All, Option-cases, inl, inr,
}
use pstonn.Scheduler.{Scheduler}
use pstonn.Scheduler.Retry.{try_apply, release}

-- What the writers do, in the order in which the mutex lets them: a try with a fresh channel, or a
-- call of the release that a try returned, repeated calls included.
pub data ClaimStep : Type 0 where
  claim : ℕ → ℕ → ClaimStep
  free : ℕ → ℕ → Bool → ClaimStep

unfoldable pub claim_step : Scheduler → ClaimStep → Scheduler
unfolding try_apply release
claim_step s (ClaimStep.claim permit done) = (try_apply s permit done).0
claim_step s (ClaimStep.free permit done once) = release s permit done once

unfoldable pub claim_steps : Scheduler → List ClaimStep → Scheduler
unfolding claim_step
claim_steps s [] = s
claim_steps s (c ∷ cs) = claim_steps (claim_step s c) cs

-- Not a release of the claim made by this channel.
abbrev pub IsOther : ℕ → ClaimStep → Type 0
IsOther mine (ClaimStep.claim permit done) = Unit
IsOther mine (ClaimStep.free permit done once) = (done == mine) ≡ false

claim_step-keeps :
    (s : Scheduler) (permit mine : ℕ) (c : ClaimStep)
    → find permit s.applying ≡ some mine
    → IsOther mine c
    → find permit (claim_step s c).applying ≡ some mine
unfolding claim_step try_apply release
claim_step-keeps s permit mine (ClaimStep.claim other done) held o =
    elim (Option-cases (find other s.applying)) [
      | inl e ↦ ground (arith, e, find-put permit other done s.applying, ==_iff other permit)
      | inr (c, e) ↦ ground (arith, e)
    ]
claim_step-keeps s permit mine (ClaimStep.free other done once) held o =
    ground (arith, find-drop_if permit (λ k. other == k) s.applying, ==_iff other permit)

claim_steps-keeps :
    (s : Scheduler) (permit mine : ℕ) (cs : List ClaimStep)
    → find permit s.applying ≡ some mine
    → All (IsOther mine) cs
    → find permit (claim_steps s cs).applying ≡ some mine
unfolding claim_steps
claim_steps-keeps s permit mine [] held o = held
claim_steps-keeps s permit mine (c ∷ cs) held o =
    claim_steps-keeps (claim_step s c) permit mine cs (claim_step-keeps s permit mine c held o.0)
      o.1

claimed :
    (s : Scheduler) (permit mine : ℕ)
    → find permit s.applying ≡ none
    → find permit (try_apply s permit mine).0.applying ≡ some mine
unfolding try_apply
claimed s permit mine h =
    ground (arith, find-put permit permit mine s.applying, ==_iff permit permit)

refused :
    (s : Scheduler) (permit mine next : ℕ)
    → find permit s.applying ≡ some mine
    → (try_apply s permit next).1 ≡ false
unfolding try_apply
refused s permit mine next held = ground arith

freed :
    (s : Scheduler) (permit mine next : ℕ)
    → find permit s.applying ≡ some mine
    → (try_apply (release s permit mine false) permit next).1 ≡ true
unfolding try_apply release
freed s permit mine next held = ground (
  arith,
  find-drop_if permit (λ k. permit == k) s.applying,
  ==_iff permit permit,
  ==_iff mine mine,
)

-- From a claim of a free permit on, and through whatever tries and releases of other claims follow,
-- late and repeated ones included, every further try for that permit is refused; once the claim's
-- own release has run for the first time, the next try succeeds.
pub try_apply-exclusive :
    (s : Scheduler) (permit mine next : ℕ) (cs : List ClaimStep)
    → find permit s.applying ≡ none
    → All (IsOther mine) cs
    → let held = claim_steps (try_apply s permit mine).0 cs in
      ((try_apply held permit next).1 ≡ false)
      × ((try_apply (release held permit mine false) permit next).1 ≡ true)
try_apply-exclusive s permit mine next cs h o =
    let held = claim_steps (try_apply s permit mine).0 cs in
    let mine_held =
      claim_steps-keeps (try_apply s permit mine).0 permit mine cs (claimed s permit mine h) o in
    (refused held permit mine next mine_held, freed held permit mine next mine_held)
