-- ===== src/Clock/Civil.antt =====
-- The Gregorian calendar of package time: years, months and days against the count of days since
-- 0000-01-01.
use pstonn.Prelude.{
  ℕ, zero, suc, ◌+◌, ◌-◌, ◌*◌, ◌%◌, ◌≤◌, ◌<◌, ◌≡◌, refl, ap, subst, ◌∙◌, Bool, true, false, not,
  ◌&&◌, ◌||◌, inl, inr, ltb, ◌==◌, if◌then◌else◌, arith, Bool-cases, ltb→lt, ltb_false→le,
}

pub record Civil : Type 0 where
  pub year : ℕ
  pub month : ℕ
  pub dom : ℕ

pub is_leap : ℕ → Bool
is_leap y = y % 4 == 0 && (not (y % 100 == 0) || y % 400 == 0)

unfoldable pub days_in_year : ℕ → ℕ
unfolding is_leap
days_in_year y = if is_leap y then 366 else 365

-- Months are 1 to 12.
unfoldable pub days_in_month : ℕ → ℕ → ℕ
unfolding is_leap
days_in_month y m =
    if m == 2
    then (if is_leap y then 29 else 28)
    else (if m == 4 || m == 6 || m == 9 || m == 11 then 30 else 31)

-- The days of the years before `y`, and of the first `k` months of `y`.
unfoldable pub days_before_year : ℕ → ℕ
days_before_year zero = 0
days_before_year (suc y) = days_before_year y + days_in_year y

unfoldable pub days_before_month : ℕ → ℕ → ℕ
days_before_month y zero = 0
days_before_month y (suc k) = days_before_month y k + days_in_month y (suc k)

unfoldable pub day_of_civil : Civil → ℕ
day_of_civil c = days_before_year c.year + days_before_month c.year (c.month - 1) + (c.dom - 1)

-- The month of the day `n` of the year `y`, after `k` whole months; `fuel` bounds the months left.
find_month : ℕ → ℕ → ℕ → ℕ → Civil
find_month zero y k n = record { year = y; month = k; dom = n + 1 }
find_month (suc fuel) y k n = elim (ltb n (days_in_month y (suc k))) [
  | true ↦ record { year = y; month = suc k; dom = n + 1 }
  | false ↦ find_month fuel y (suc k) (n - days_in_month y (suc k))
]

find_year : ℕ → ℕ → ℕ → Civil
unfolding find_month
find_year zero y n = find_month 12 y 0 n
find_year (suc fuel) y n = elim (ltb n (days_in_year y)) [
  | true ↦ find_month 12 y 0 n
  | false ↦ find_year fuel (suc y) (n - days_in_year y)
]

-- A year has at least 365 days, so that this many rounds reach the year of day `n`.
unfoldable pub civil_of_day : ℕ → Civil
unfolding find_year find_month
civil_of_day n = find_year n 0 n

pub record IsCivil (c : Civil) : Type 0 where
  pub month_pos : 0 < c.month
  pub month_le : c.month ≤ 12
  pub dom_pos : 0 < c.dom
  pub dom_le : c.dom ≤ days_in_month c.year c.month

-- `r` is the date of day `p`, and lies in the year `y`.
record Dates (y p : ℕ) (r : Civil) : Type 0 where
  civil : IsCivil r
  day : day_of_civil r ≡ p
  year : r.year ≡ y

days_before_month-suc :
    (y k : ℕ) → days_before_month y (suc k) ≡ days_before_month y k + days_in_month y (suc k)
unfolding days_before_month
days_before_month-suc y k = refl

found-Dates :
    (y k n : ℕ)
    → k < 12
    → n < days_in_month y (suc k)
    → Dates y
        (days_before_year y + days_before_month y k + n)
        (record { year = y; month = suc k; dom = n + 1 })
unfolding day_of_civil
found-Dates y k n h m = record {
  civil = omega arith;
  day = rw (pred-suc k) (omega arith);
  year = refl;
}
  where
    pred-suc : (k : ℕ) → suc k - 1 ≡ k
    pred-suc k = omega arith

twelve : (k : ℕ) → 0 + k ≡ 12 → k ≡ 12
twelve k e = omega arith

find_month-Dates :
    (fuel y k n : ℕ)
    → fuel + k ≡ 12
    → days_before_month y k + n < days_before_month y 12
    → Dates y (days_before_year y + days_before_month y k + n) (find_month fuel y k n)
unfolding find_month
find_month-Dates zero y k n e h = absurd (omega (arith, ap (days_before_month y) (twelve k e)))
find_month-Dates (suc fuel) y k n e h = elim (Bool-cases (ltb n (days_in_month y (suc k)))) [
  | inl here ↦ rw (here, find_month) (found-Dates y k n (omega arith) (ltb→lt n _ here))
  | inr there ↦
      let le = ltb_false→le n (days_in_month y (suc k)) there in
      let eq = days_before_month-suc y k in
      rw (there, find_month)
        (subst (λ p. Dates y p (find_month fuel y (suc k) (n - days_in_month y (suc k))))
          (omega arith)
          (find_month-Dates fuel y (suc k) (n - days_in_month y (suc k)) (omega arith)
            (omega arith)))
]

-- The twelve months make up the year.
days_before_month-year : (y : ℕ) → days_before_month y 12 ≡ days_in_year y
unfolding days_before_month days_in_month days_in_year
days_before_month-year y = ground arith

first_day : (y n : ℕ) → days_before_year y + days_before_month y 0 + n ≡ days_before_year y + n
unfolding days_before_month
first_day y n = omega arith

first_day_lt : (y n : ℕ) → n < days_in_year y → days_before_month y 0 + n < days_before_month y 12
first_day_lt y n h = omega (arith, days_before_month-year y, first_day y n)

in_year-Dates :
    (y n : ℕ) → n < days_in_year y → Dates y (days_before_year y + n) (find_month 12 y 0 n)
in_year-Dates y n h =
    subst (λ p. Dates y p (find_month 12 y 0 n)) (first_day y n)
      (find_month-Dates 12 y 0 n refl (first_day_lt y n h))

days_in_year_pos : (y : ℕ) → 0 < days_in_year y
unfolding days_in_year
days_in_year_pos y = ground arith

days_before_year-suc :
    (y n : ℕ)
    → days_in_year y ≤ n
    → days_before_year (suc y) + (n - days_in_year y) ≡ days_before_year y + n
unfolding days_before_year
days_before_year-suc y n h = omega arith

find_year-Dates :
    (fuel y n : ℕ) → n ≤ fuel → (z : ℕ) × Dates z (days_before_year y + n) (find_year fuel y n)
unfolding find_year
find_year-Dates zero y n h = (y, in_year-Dates y n (omega (arith, days_in_year_pos y)))
find_year-Dates (suc fuel) y n h = elim (Bool-cases (ltb n (days_in_year y))) [
  | inl here ↦ rw (here, find_year) (y, in_year-Dates y n (ltb→lt n _ here))
  | inr there ↦
      let le = ltb_false→le n (days_in_year y) there in
      let (z, found) =
        find_year-Dates fuel (suc y) (n - days_in_year y) (omega (arith, days_in_year_pos y)) in
      rw (there, find_year)
        (
          z,
          subst (λ p. Dates z p (find_year fuel (suc y) (n - days_in_year y)))
              (days_before_year-suc y n le) found,
        )
]

-- The date of a day is a date of the calendar, and stands for that day.
pub civil_of_day-IsCivil : (n : ℕ) → IsCivil (civil_of_day n)
unfolding civil_of_day
civil_of_day-IsCivil n = (find_year-Dates n 0 n (omega arith)).1.civil

pub day_of_civil-civil_of_day : (n : ℕ) → day_of_civil (civil_of_day n) ≡ n
unfolding civil_of_day days_before_year
day_of_civil-civil_of_day n = (find_year-Dates n 0 n (omega arith)).1.day ∙ before_first n
  where
    before_first : (n : ℕ) → days_before_year 0 + n ≡ n
    before_first n = omega arith

days_before_year-ge : (y : ℕ) → 365 * y ≤ days_before_year y
unfolding days_before_year days_in_year
days_before_year-ge zero = omega arith
days_before_year-ge (suc y) = ground (arith, days_before_year-ge y)

day_of_civil-ge : (c : Civil) → 365 * c.year ≤ day_of_civil c
unfolding day_of_civil
day_of_civil-ge c = omega (arith, days_before_year-ge c.year)

-- Early enough days have years of four digits.
pub year_of_day-lt : (n : ℕ) → n < 3_650_000 → (civil_of_day n).year < 10000
year_of_day-lt n h = omega (arith, day_of_civil-ge (civil_of_day n), day_of_civil-civil_of_day n)

a_day : civil_of_day 740311 ≡ record { year = 2026; month = 11; dom = 26 }
unfolding civil_of_day days_in_year days_in_month
a_day = refl
