-- ===== src/Model/Plate.antt =====
-- NormPlate and SamePlate, and the pieces of package strings and unicode that model.go uses.
pub mod Tests
use pstonn.Prelude.{
  ℕ, ◌≤◌, ◌≡◌, refl, sym, ap, ◌∙◌, Bool, true, false, not, ◌&&◌, ◌||◌, List, [], ◌∷◌, ◌++◌, map,
  leb, ◌==◌, if◌then◌else◌, arith, Text, text_eq, text_eq_refl, text_eq_iff, Bool-cases, inl, inr,
  ◌↔◌,
}

-- The tables of package unicode that strings.ToUpper, strings.ToLower and strings.EqualFold read, rune by rune:
-- `fold` takes a rune to one representative of those that differ from it by case alone.
pub record Unicode : Type 0 where
  pub to_upper : ℕ → ℕ
  pub to_lower : ℕ → ℕ
  pub fold : ℕ → ℕ

-- unicode.IsSpace.
unfoldable pub is_space : ℕ → Bool
is_space r =
    (leb 0x09 r && leb r 0x0d)
    || r == 0x20
    || r == 0x85
    || r == 0xa0
    || r == 0x1680
    || (leb 0x2000 r && leb r 0x200a)
    || r == 0x2028
    || r == 0x2029
    || r == 0x202f
    || r == 0x205f
    || r == 0x3000

-- The runes that NormPlate skips: white space, '-', '.' and '·'.
unfoldable pub is_separator : ℕ → Bool
unfolding is_space
is_separator r = is_space r || r == b'-' || r == b'.' || r == 0xb7

unfoldable pub norm_plate : Unicode → Text → Text
norm_plate u [] = []
norm_plate u (r ∷ s) = if is_separator r then norm_plate u s else u.to_upper r ∷ norm_plate u s

unfoldable pub same_plate : Unicode → Text → Text → Bool
same_plate u a b = text_eq (norm_plate u a) (norm_plate u b)

-- What the tables promise of upper case: it is stable, and it neither makes nor hides a separator.
pub record IsUpper (u : Unicode) : Type 0 where
  pub upper_idem : (r : ℕ) → u.to_upper (u.to_upper r) ≡ u.to_upper r
  pub upper_separator : (r : ℕ) → is_separator (u.to_upper r) ≡ is_separator r

-- For tables whose upper case is stable and neither makes nor hides a separator, a normal form is
-- its own normal form.
pub norm_plate_idem :
    (u : Unicode) → IsUpper u → (s : Text) → norm_plate u (norm_plate u s) ≡ norm_plate u s
unfolding norm_plate
norm_plate_idem u w [] = refl
norm_plate_idem u w (r ∷ s) =
    ground (arith, w.upper_idem r, w.upper_separator r, norm_plate_idem u w s)

norm_plate-separator :
    (u : Unicode) (a : Text) (r : ℕ) (b : Text)
    → is_separator r ≡ true
    → norm_plate u (a ++ r ∷ b) ≡ norm_plate u (a ++ b)
unfolding norm_plate
norm_plate-separator u [] r b h = rw h
norm_plate-separator u (x ∷ a) r b h = ground (arith, norm_plate-separator u a r b h)

norm_plate-upper :
    (u : Unicode)
    → IsUpper u
    → (a : Text) (r : ℕ) (b : Text)
    → norm_plate u (a ++ u.to_upper r ∷ b) ≡ norm_plate u (a ++ r ∷ b)
unfolding norm_plate
norm_plate-upper u w [] r b = ground (arith, w.upper_idem r, w.upper_separator r)
norm_plate-upper u w (x ∷ a) r b = ground (arith, norm_plate-upper u w a r b)

-- For tables whose upper case is stable and neither makes nor hides a separator, a plate is the same
-- car after a separator is put in anywhere, and after any one letter is put in upper case.
pub same_plate_respelt :
    (u : Unicode)
    → IsUpper u
    → (a : Text) (r p : ℕ) (b : Text) → is_separator p ≡ true
    → (same_plate u (a ++ p ∷ b) (a ++ b) ≡ true)
      × (same_plate u (a ++ u.to_upper r ∷ b) (a ++ r ∷ b) ≡ true)
unfolding same_plate
same_plate_respelt u w a r p b h = (
  rw (norm_plate-separator u a p b h) (text_eq_refl (norm_plate u (a ++ b))),
  rw (norm_plate-upper u w a r b) (text_eq_refl (norm_plate u (a ++ r ∷ b))),
)

-- Two plates are the same car exactly when their normal forms agree, so that it is an equivalence.
pub same_plate_iff :
    (u : Unicode) (a b : Text) → (same_plate u a b ≡ true) ↔ (norm_plate u a ≡ norm_plate u b)
unfolding same_plate
same_plate_iff u a b = text_eq_iff (norm_plate u a) (norm_plate u b)

pub same_plate_refl : (u : Unicode) (a : Text) → same_plate u a a ≡ true
same_plate_refl u a = (same_plate_iff u a a).1 refl

pub same_plate_sym : (u : Unicode) (a b : Text) → same_plate u a b ≡ true → same_plate u b a ≡ true
same_plate_sym u a b h = (same_plate_iff u b a).1 (sym ((same_plate_iff u a b).0 h))

pub same_plate_trans :
    (u : Unicode) (a b c : Text)
    → same_plate u a b ≡ true
    → same_plate u b c ≡ true
    → same_plate u a c ≡ true
same_plate_trans u a b c h k =
    (same_plate_iff u a c).1 ((same_plate_iff u a b).0 h ∙ (same_plate_iff u b c).0 k)
