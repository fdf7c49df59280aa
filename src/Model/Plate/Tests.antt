-- ===== src/Model/Plate/Tests.antt =====
-- Plates over the ASCII part of the tables.
use pstonn.Prelude.{
  ℕ, ◌+◌, ◌-◌, ◌≡◌, refl, sym, ◌∙◌, ◌≤◌, Bool-cases, inl, inr, true, false, ◌&&◌, leb,
  if◌then◌else◌, arith, codes, text_eq,
}
use pstonn.Model.Plate.{Unicode, is_separator, norm_plate, same_plate, IsUpper}

abbrev pub ascii_upper : ℕ → ℕ
ascii_upper r = if leb b'a' r && leb r b'z' then r - 32 else r

abbrev ascii_lower : ℕ → ℕ
ascii_lower r = if leb b'A' r && leb r b'Z' then r + 32 else r

abbrev pub ascii : Unicode
ascii = record { to_upper = ascii_upper; to_lower = ascii_lower; fold = ascii_upper }

letter-separator : (r : ℕ) → 65 ≤ r → r ≤ 122 → is_separator r ≡ false
unfolding is_separator
letter-separator r lo hi = ground arith

ascii_upper-separator : (r : ℕ) → is_separator (ascii_upper r) ≡ is_separator r
ascii_upper-separator r = elim (Bool-cases (leb b'a' r && leb r b'z')) [
  | inr other ↦ rw other
  | inl lower ↦ rw lower (
      letter-separator (r - 32) (ground arith) (ground arith)
      ∙ sym (letter-separator r (ground arith) (ground arith)))
]

pub ascii-IsUpper : IsUpper ascii
ascii-IsUpper = record { upper_idem = λ r. ground arith; upper_separator = ascii_upper-separator }

respelt : same_plate ascii (codes "abc 123") (codes "ABC-1.23") ≡ true
unfolding same_plate norm_plate is_separator text_eq
respelt = refl
