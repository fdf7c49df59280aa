-- ===== src/Scheduler/Episode/Cleared.antt =====
-- Failures to leave the permit without a plate: the row marks that nothing is told by an empty plate.
use pstonn.Prelude.{
  ℕ, ◌+◌, ◌≡◌, refl, Bool, true, false, not, ◌||◌, ◌∷◌, [], List, Text, text_eq, if◌then◌else◌,
  arith, Bool-cases, inl, inr,
}
use pstonn.Model.Plate.{Unicode, same_plate, norm_plate}
use pstonn.Scheduler.Episode.{
  FailTier, is_urgent, PermitNotify, mark_failure_told, adopt, cut, legacy_urgent,
  legacy_failure_told, is_told, fail_key, notify_user_then, notify_failure,
}
use pstonn.Scheduler.Episode.Tiers.{Failure, notify_one, run}

abbrev pub same_tier : FailTier → FailTier → Bool
same_tier FailTier.tier_soft FailTier.tier_soft = true
same_tier FailTier.tier_urgent FailTier.tier_urgent = true
same_tier _ _ = false

-- Every failure is one to leave the permit without a plate, and a notice of it would reach everyone.
abbrev pub AreClearings : List Failure → Type 0
AreClearings [] = Unit
AreClearings (f ∷ fs) = (f.plate ≡ []) × (f.delivered ≡ true) × AreClearings fs

-- How often a failure is of another tier than the one before it.
abbrev pub tier_changes : FailTier → List Failure → ℕ
tier_changes last [] = 0
tier_changes last (f ∷ fs) = (if same_tier last f.tier then 0 else 1) + tier_changes f.tier fs

-- The row after the delivery of such a failure: the key says so, and the plate that nothing is told.
abbrev cleared : FailTier → Bool → PermitNotify
cleared tier urgent = record { notified_key = fail_key [] tier; plate = []; urgent = urgent }

notify_failure-cleared :
    (u : Unicode) (tenant : Text) (tier tier' : FailTier) (urgent down : Bool)
    → (b : Bool) × (notify_failure u tenant (cleared tier urgent) [] tier' down true
        ≡ (cleared tier' b, not (same_tier tier tier')))
unfolding notify_failure adopt mark_failure_told legacy_failure_told cut legacy_urgent same_plate
    fail_key text_eq norm_plate is_told notify_user_then
notify_failure-cleared u tenant FailTier.tier_soft FailTier.tier_soft urgent down = (_, refl)
notify_failure-cleared u tenant FailTier.tier_soft FailTier.tier_urgent urgent down = (_, refl)
notify_failure-cleared u tenant FailTier.tier_urgent FailTier.tier_soft urgent down = (_, refl)
notify_failure-cleared u tenant FailTier.tier_urgent FailTier.tier_urgent urgent down = (_, refl)

run-cleared :
    (u : Unicode) (tenant : Text) (tier : FailTier) (urgent : Bool) (fs : List Failure)
    → AreClearings fs
    → ((run u tenant (cleared tier urgent) fs).0.plate ≡ [])
      × ((run u tenant (cleared tier urgent) fs).1 ≡ tier_changes tier fs)
unfolding run
run-cleared u tenant tier urgent [] h = (refl, refl)
run-cleared u tenant tier urgent (f ∷ fs) h =
    let (b, step) = notify_failure-cleared u tenant tier f.tier urgent f.council_down in
    let rest = run-cleared u tenant f.tier b fs h.2 in
    rw (h.0, h.1, step) (rest.0, ground (arith, rest.1))

-- A delivery leaves the row so.
sent-cleared :
    (u : Unicode) (tenant : Text) (row : PermitNotify) (tier : FailTier) (down : Bool)
    → (notify_failure u tenant row [] tier down true).1 ≡ true
    → (b : Bool) × ((notify_failure u tenant row [] tier down true).0 ≡ cleared tier b)
unfolding notify_failure notify_user_then mark_failure_told
sent-cleared u tenant row tier down h =
    let row' = adopt u tenant [] row in
    elim (Bool-cases (is_told u row' [] tier down)) [
      | inl e ↦ cc (rw e at h)
      | inr e ↦ elim (Bool-cases (text_eq row'.notified_key (fail_key [] tier))) [
        | inl f ↦ cc (rw (e, f) at h)
        | inr f ↦ (
          if text_eq [] row'.plate then row'.urgent || is_urgent tier else is_urgent tier,
          rw (e, f) refl,
        )
      ]
    ]

-- A failure to leave the permit without a plate is never recorded as told, so that the tiers are told
-- over and over: from a failure of which the household is told on, as long as every failure is one
-- to leave the permit without a plate and every notice is delivered, the row says that nothing is
-- told, and the household is told again at every change of the tier, down as well as up.
pub run-clearings :
    (u : Unicode) (tenant : Text) (row : PermitNotify) (f : Failure) (fs : List Failure)
    → (notify_one u tenant row f).1 ≡ true
    → AreClearings (f ∷ fs)
    → ((run u tenant row (f ∷ fs)).0.plate ≡ [])
      × ((run u tenant row (f ∷ fs)).1 ≡ 1 + tier_changes f.tier fs)
unfolding run
run-clearings u tenant row f fs sent h =
    let told : (notify_failure u tenant row [] f.tier f.council_down true).1 ≡ true =
      rw (h.0, h.1) at sent in
    let (b, left) = sent-cleared u tenant row f.tier f.council_down told in
    let rest = run-cleared u tenant f.tier b fs h.2 in
    rw (h.0, h.1, told, left) (rest.0, ground (arith, rest.1))
