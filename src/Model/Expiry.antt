-- ===== src/Model/Expiry.antt =====
-- When a permit is finished: deadStatus, ExpiryDeadline and Permit.Inactive, and EndOfDay. The
-- location is one that is given; a nil one is the process's own.
pub mod Deadline
pub mod Tests
use pstonn.Prelude.{
  ℕ, ◌+◌, Bool, true, false, not, ◌&&◌, ◌||◌, List, [], ◌∷◌, ◌++◌, Text, codes, text_eq, map, ltb,
  if◌then◌else◌, ◌==◌,
}
use pstonn.Clock.{Location, is_zero, midnight, add_days}
use pstonn.Model.Plate.{Unicode}
use pstonn.Model.Displaced.{fields_from}

unfoldable pub is_one_of : List Text → Text → Bool
is_one_of [] s = false
is_one_of (w ∷ ws) s = text_eq w s || is_one_of ws s

abbrev pub dead_statuses : List Text
dead_statuses =
    codes "cancelled"
    ∷ codes "canceled"
    ∷ codes "cancel"
    ∷ codes "suspended"
    ∷ codes "suspend"
    ∷ codes "surrendered"
    ∷ codes "surrender"
    ∷ codes "revoked"
    ∷ codes "revoke"
    ∷ codes "expired"
    ∷ codes "lapsed"
    ∷ codes "closed"
    ∷ codes "void"
    ∷ codes "voided"
    ∷ []

-- The cutset .,;:()[]{}"'
unfoldable pub is_trimmed : ℕ → Bool
is_trimmed r =
    r == 46
    || r == 44
    || r == 59
    || r == 58
    || r == 40
    || r == 41
    || r == 91
    || r == 93
    || r == 123
    || r == 125
    || r == 34
    || r == 39

unfoldable pub trim_left : Text → Text
trim_left [] = []
trim_left (r ∷ s) = let rest = trim_left s in if is_trimmed r then rest else r ∷ s

unfoldable pub reverse_onto : Text → Text → Text
reverse_onto [] t = t
reverse_onto (r ∷ s) t = reverse_onto s (r ∷ t)

-- strings.Trim.
unfoldable pub trim : Text → Text
unfolding trim_left reverse_onto is_trimmed
trim s = reverse_onto (trim_left (reverse_onto (trim_left s) [])) []

unfoldable pub any_dead : List Text → Bool
unfolding is_one_of trim
any_dead [] = false
any_dead (w ∷ ws) = is_one_of dead_statuses (trim w) || any_dead ws

unfoldable pub dead_status : Unicode → Text → Bool
unfolding any_dead fields_from
dead_status u s = any_dead (fields_from [] (map u.to_lower s))

unfoldable pub expiry_deadline : Location → ℕ → ℕ
expiry_deadline l end_date = add_days l (midnight l (l.day end_date)) 1

-- Permit.Inactive, on the status and the end date of the permit.
unfoldable pub inactive : Unicode → Location → Text → ℕ → ℕ → Bool
unfolding dead_status expiry_deadline
inactive u l status end_date now =
    if dead_status u status
    then true
    else (if is_zero end_date then false else not (ltb now (expiry_deadline l end_date)))

unfoldable pub end_of_day : Location → ℕ → ℕ
end_of_day l t = midnight l (l.day t + 1)
