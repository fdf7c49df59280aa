-- ===== src/Model/Schedule/NextChange/Scan.antt =====
-- SameTarget is an equivalence, so that the loop of NextChange may compare with where it started.
use pstonn.Prelude.{ℕ, ◌≡◌, refl, Bool, true, not, ◌&&◌, ◌||◌, List, [], ◌∷◌, arith}
use pstonn.Model.Plate.{Unicode, same_plate_refl, same_plate_sym, same_plate_trans}
use pstonn.Model.Schedule.{Resolution, is_allocated, same_target}
use pstonn.Model.Schedule.NextChange.{scan}
use pstonn.Model.Schedule.NextChange.Sort.{first}

pub same_target_refl : (u : Unicode) (a : Resolution) → same_target u a a ≡ true
unfolding same_target
same_target_refl u a = ground (arith, same_plate_refl u a.registration)

pub same_target_sym :
    (u : Unicode) (a b : Resolution) → same_target u a b ≡ true → same_target u b a ≡ true
unfolding same_target
same_target_sym u a b h = ground (arith, same_plate_sym u a.registration b.registration)

pub same_target_trans :
    (u : Unicode) (a b c : Resolution)
    → same_target u a b ≡ true
    → same_target u b c ≡ true
    → same_target u a c ≡ true
unfolding same_target
same_target_trans u a b c h k =
    ground (arith, same_plate_trans u a.registration b.registration c.registration)

-- Comparing with either of two that want the same gives the same answer.
same_target_congr :
    (u : Unicode) (x a b : Resolution)
    → same_target u a b ≡ true
    → same_target u x a ≡ same_target u x b
same_target_congr u x a b h =
    ground (arith, same_target_trans u x a b, same_target_trans u x b a, same_target_sym u a b h)

-- An instant that is allocated, to something else than `last` if that was in place.
abbrev pub requires_write : Unicode → (ℕ → Resolution) → Resolution → Bool → ℕ → Bool
requires_write u at last have_last t =
    is_allocated (at t).source && (not have_last || not (same_target u (at t) last))

first_congr :
    (u : Unicode) (at : ℕ → Resolution) (a b : Resolution) (ts : List ℕ)
    → same_target u a b ≡ true
    → first (requires_write u at a true) ts ≡ first (requires_write u at b true) ts
unfolding first
first_congr u at a b [] h = refl
first_congr u at a b (t ∷ ts) h =
    ground (arith, same_target_congr u (at t) a b h, first_congr u at a b ts h)

-- The loop finds the first candidate that differs from where it started.
pub scan-first :
    (u : Unicode) (at : ℕ → Resolution) (last : Resolution) (have_last : Bool) (ts : List ℕ)
    → scan u at last have_last ts ≡ first (requires_write u at last have_last) ts
unfolding scan first
scan-first u at last have_last [] = refl
scan-first u at last have_last (t ∷ ts) = ground (
  arith,
  scan-first u at last have_last ts,
  scan-first u at (at t) true ts,
  first_congr u at (at t) last ts,
)
