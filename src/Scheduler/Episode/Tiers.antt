-- ===== src/Scheduler/Episode/Tiers.antt =====
-- How often a household is told in one episode.
use pstonn.Prelude.{
  ℕ, ◌+◌, ◌*◌, ◌≤◌, ◌≡◌, Bool, true, false, not, ◌&&◌, ◌∷◌, [], List, Text, text_eq, text_eq_refl,
  text_eq_iff, refl, if◌then◌else◌, arith, Bool-cases, inl, inr,
}
use pstonn.Model.Plate.{Unicode, same_plate, norm_plate}
use pstonn.Scheduler.Episode.{
  FailTier, PermitNotify, mark_failure_told, adopt, is_told, notify_user_then, notify_failure,
}

-- One failure: the plate that did not land, its tier, whether the council is down, and whether a
-- notice of it would reach everyone.
pub record Failure : Type 0 where
  pub plate : Text
  pub tier : FailTier
  pub council_down : Bool
  pub delivered : Bool

abbrev pub notify_one : Unicode → Text → PermitNotify → Failure → PermitNotify × Bool
notify_one u tenant row f = notify_failure u tenant row f.plate f.tier f.council_down f.delivered

-- The failures of an episode in turn: the row that they leave, and the number of notices.
unfoldable pub run : Unicode → Text → PermitNotify → List Failure → PermitNotify × ℕ
unfolding notify_failure
run u tenant row [] = (row, 0)
run u tenant row (f ∷ fs) =
    let (row', sent) = notify_one u tenant row f in
    let (row'', n) = run u tenant row' fs in (row'', (if sent then 1 else 0) + n)

-- None of the failures is one to leave the permit without a plate.
abbrev pub AreNamed : List Failure → Type 0
AreNamed [] = Unit
AreNamed (f ∷ fs) = (text_eq f.plate [] ≡ false) × AreNamed fs

-- How often a failure is about another plate than the one before it.
abbrev pub plate_changes : Unicode → Text → List Failure → ℕ
plate_changes u last [] = 0
plate_changes u last (f ∷ fs) =
    (if same_plate u last f.plate then 0 else 1) + plate_changes u f.plate fs

-- How much of the plate has been told: nothing, softly, urgently.
unfoldable rank : Unicode → Text → PermitNotify → ℕ
rank u reg row =
    if not (text_eq row.plate []) && same_plate u row.plate reg
    then (if row.urgent then 2 else 1)
    else 0

same_plate_refl : (u : Unicode) (reg : Text) → same_plate u reg reg ≡ true
unfolding same_plate
same_plate_refl u reg = text_eq_refl (norm_plate u reg)

rank-same :
    (u : Unicode) (a b : Text) (row : PermitNotify)
    → same_plate u a b ≡ true
    → rank u a row ≡ rank u b row
unfolding rank same_plate
rank-same u a b row h = rw ((text_eq_iff (norm_plate u a) (norm_plate u b)).0 h) refl

rank-adopt :
    (u : Unicode) (tenant reg : Text) (row : PermitNotify)
    → rank u reg row ≤ rank u reg (adopt u tenant reg row)
unfolding adopt rank
rank-adopt u tenant reg row = ground arith

-- A notice raises the rank.
rank-notify_user_then :
    (u : Unicode) (reg : Text) (row : PermitNotify) (tier : FailTier) (down delivered : Bool)
    → text_eq reg [] ≡ false
    → is_told u row reg tier down ≡ false
    → rank u reg row + (if (notify_user_then row reg tier delivered).1 then 1 else 0)
      ≤ rank u reg (notify_user_then row reg tier delivered).0
unfolding rank notify_user_then mark_failure_told is_told
rank-notify_user_then u reg row FailTier.tier_soft down delivered h e =
    ground (arith, same_plate_refl u reg)
rank-notify_user_then u reg row FailTier.tier_urgent down delivered h e =
    ground (arith, same_plate_refl u reg)

rank-notify_failure :
    (u : Unicode) (tenant : Text) (row : PermitNotify) (f : Failure)
    → text_eq f.plate [] ≡ false
    → rank u f.plate row + (if (notify_one u tenant row f).1 then 1 else 0)
      ≤ rank u f.plate (notify_one u tenant row f).0
unfolding notify_failure
rank-notify_failure u tenant row f h =
    let row' = adopt u tenant f.plate row in
    elim (Bool-cases (is_told u row' f.plate f.tier f.council_down)) [
      | inl e ↦ ground (arith, e, rank-adopt u tenant f.plate row)
      | inr e ↦ ground (
        arith,
        e,
        rank-adopt u tenant f.plate row,
        rank-notify_user_then u f.plate row' f.tier f.council_down f.delivered h e,
      )
    ]

rank-bound : (u : Unicode) (reg : Text) (row : PermitNotify) → rank u reg row ≤ 2
unfolding rank
rank-bound u reg row = ground arith

run-rank :
    (u : Unicode) (tenant last : Text) (row : PermitNotify) (fs : List Failure)
    → AreNamed fs
    → (run u tenant row fs).1 + rank u last row ≤ 2 + 2 * plate_changes u last fs
unfolding run
run-rank u tenant last row [] h = omega (arith, rank-bound u last row)
run-rank u tenant last row (f ∷ fs) h =
    let rest = run-rank u tenant f.plate (notify_one u tenant row f).0 fs h.1 in
    let step = rank-notify_failure u tenant row f h.0 in
    elim (Bool-cases (same_plate u last f.plate)) [
      | inl e ↦ rw (e, rank-same u last f.plate row e) (omega (arith, rest, step))
      | inr e ↦ rw e (omega (arith, rest, step, rank-bound u last row))
    ]

-- Two notices at most for every stretch of failures about one plate.
pub run_stretches :
    (u : Unicode) (tenant : Text) (row : PermitNotify) (f : Failure) (fs : List Failure)
    → AreNamed (f ∷ fs)
    → (run u tenant row (f ∷ fs)).1 ≤ 2 + 2 * plate_changes u f.plate fs
run_stretches u tenant row f fs h =
    let bound = run-rank u tenant f.plate row (f ∷ fs) h in
    ground (arith, bound, same_plate_refl u f.plate)
