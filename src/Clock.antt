-- ===== src/Clock.antt =====
-- Go's time.Time and time.Duration as the program uses them. An instant is the number of
-- nanoseconds since the zero Time, so 0 is the zero Time; a civil day is the number of days since
-- 0000-01-01, so that weekdays and weeks are remainders and quotients by 7.
pub mod Civil
pub mod DateText
pub mod Regular
use pstonn.Prelude.{ℕ, ◌+◌, ◌-◌, ◌*◌, ◌%◌, ◌/◌, ◌^◌, min, Bool, ltb, leb, ◌==◌, if◌then◌else◌}

abbrev pub second : ℕ
second = 1_000_000_000

abbrev pub minute : ℕ
minute = 60 * second

abbrev pub hour : ℕ
hour = 60 * minute

abbrev pub day_length : ℕ
day_length = 24 * hour

-- time.Time.IsZero.
abbrev pub is_zero : ℕ → Bool
is_zero t = t == 0

-- The largest time.Duration, at which Sub saturates.
abbrev pub max_duration : ℕ
max_duration = 2 ^ 63 - 1

-- The length of u.Sub(t) for t at or before u.
abbrev pub elapsed : ℕ → ℕ → ℕ
elapsed u t = min (u - t) max_duration

-- The civil day of the zero Time, 0001-01-01.
abbrev pub zero_day : ℕ
zero_day = 366

-- A *time.Location: the civil day and the time of day that its clocks show, and time.Date.
pub record Location : Type 0 where
  pub day : ℕ → ℕ
  pub clock : ℕ → ℕ
  pub date : ℕ → ℕ → ℕ

-- time.Date(y, m, d, 0, 0, 0, 0, loc), and the same at noon.
abbrev pub midnight : Location → ℕ → ℕ
midnight l d = l.date d 0

abbrev pub noon : Location → ℕ → ℕ
noon l d = l.date d (12 * hour)

-- t.AddDate(0, 0, n) and t.AddDate(0, 0, -n): another day, the same time of day.
abbrev pub add_days : Location → ℕ → ℕ → ℕ
add_days l t n = l.date (l.day t + n) (l.clock t)

abbrev pub sub_days : Location → ℕ → ℕ → ℕ
sub_days l t n = l.date (l.day t - n) (l.clock t)

-- time.Weekday: 0 is Sunday. 0000-01-01 was a Saturday.
abbrev pub weekday_of_day : ℕ → ℕ
weekday_of_day d = (d + 6) % 7

abbrev pub weekday : Location → ℕ → ℕ
weekday l t = weekday_of_day (l.day t)

-- time.FixedZone east of UTC. Days up to 0001-01-01 fall outside the instants that are modelled.
unfoldable pub fixed_zone : ℕ → Location
fixed_zone east = record {
  day = λ t. (t + east) / day_length + zero_day;
  clock = λ t. (t + east) % day_length;
  date = λ d c. (d - zero_day) * day_length + c - east;
}
