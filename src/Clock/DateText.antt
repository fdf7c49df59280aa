-- ===== src/Clock/DateText.antt =====
-- Package time's reading and writing of the layout "2006-01-02".
use pstonn.Prelude.{
  ℕ, ◌+◌, ◌-◌, ◌*◌, ◌/◌, ◌%◌, ◌<◌, ◌≤◌, ◌≡◌, refl, ap, ◌∙◌, Bool, ◌&&◌, ◌>>=◌, ◌>>◌, check, Option,
  none, some, [], ◌∷◌, leb, ◌==◌, arith, Text, codes,
}
use pstonn.Clock.Civil.{
  Civil, IsCivil, days_in_year, days_in_month, day_of_civil, civil_of_day, civil_of_day-IsCivil,
  day_of_civil-civil_of_day,
}

is_digit : ℕ → Bool
is_digit c = leb b'0' c && leb c b'9'

-- A field of two or of four digits.
read_two : ℕ → ℕ → Option ℕ
unfolding is_digit
read_two a b = do check (is_digit a && is_digit b); some ((a - b'0') * 10 + (b - b'0'))

read_four : ℕ → ℕ → ℕ → ℕ → Option ℕ
unfolding read_two
read_four a b c d = do high ← read_two a b; low ← read_two c d; some (high * 100 + low)

check_date : ℕ → ℕ → ℕ → Option ℕ
check_date y m d = do
  check (leb 1 m && leb m 12 && leb 1 d && leb d (days_in_month y m))
  some (day_of_civil (record { year = y; month = m; dom = d }))

-- time.ParseInLocation("2006-01-02", s, loc): four digits, two and two, and nothing after them.
-- The result is the civil day, or `none` where it returns an error.
unfoldable pub parse_date : Text → Option ℕ
unfolding read_two read_four check_date
parse_date (a ∷ b ∷ c ∷ d ∷ p ∷ e ∷ f ∷ q ∷ g ∷ h ∷ []) = do
  year ← read_four a b c d
  check (p == b'-')
  month ← read_two e f
  check (q == b'-')
  dom ← read_two g h
  check_date year month dom
parse_date _ = none

two_digits : ℕ → Text → Text
two_digits n rest = (b'0' + n / 10) ∷ (b'0' + n % 10) ∷ rest

-- t.Format("2006-01-02") of a date whose year has four digits.
format_civil : Civil → Text
unfolding two_digits
format_civil c =
    two_digits (c.year / 100)
      (two_digits (c.year % 100) (b'-' ∷ two_digits c.month (b'-' ∷ two_digits c.dom [])))

unfoldable pub format_date : ℕ → Text
unfolding format_civil
format_date n = format_civil (civil_of_day n)

read_two-digits : (n : ℕ) → n < 100 → read_two (b'0' + n / 10) (b'0' + n % 10) ≡ some n
unfolding read_two
read_two-digits n h = ground arith

read_four-digits :
    (n : ℕ)
    → n < 10000
    → read_four
        (b'0' + n / 100 / 10)
        (b'0' + n / 100 % 10)
        (b'0' + n % 100 / 10)
        (b'0' + n % 100 % 10)
      ≡ some n
unfolding read_four
read_four-digits n h =
    rw (read_two-digits (n / 100) (omega arith), read_two-digits (n % 100) (omega arith))
      (ap some (omega arith))

check_date-IsCivil :
    (c : Civil) → IsCivil c → check_date c.year c.month c.dom ≡ some (day_of_civil c)
unfolding check_date
check_date-IsCivil c v = ground arith

days_in_month_le : (y m : ℕ) → days_in_month y m ≤ 31
unfolding days_in_month
days_in_month_le y m = ground arith

-- What is written is read back as the same date.
parse-format_civil :
    (c : Civil) → IsCivil c → c.year < 10000 → parse_date (format_civil c) ≡ some (day_of_civil c)
unfolding parse_date format_civil
parse-format_civil c v y =
    rw
      (
        read_four-digits c.year y,
        read_two-digits c.month (omega arith),
        read_two-digits c.dom (omega (arith, days_in_month_le c.year c.month)),
      )
      (check_date-IsCivil c v)

pub parse-format : (n : ℕ) → (civil_of_day n).year < 10000 → parse_date (format_date n) ≡ some n
unfolding format_date
parse-format n h =
    parse-format_civil (civil_of_day n) (civil_of_day-IsCivil n) h
    ∙ ap some (day_of_civil-civil_of_day n)

a_date : format_date 740311 ≡ codes "2026-11-26"
unfolding format_date civil_of_day days_in_year days_in_month
a_date = refl

no_such_day : parse_date (codes "2026-02-29") ≡ none
unfolding parse_date days_in_month
no_such_day = refl
