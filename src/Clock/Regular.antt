-- ===== src/Clock/Regular.antt =====
-- What the program relies on in a time zone's data: midnight and noon exist on every civil day,
-- midnight separates its day from the one before, and noons are 24 hours apart give or take the
-- shifts of the clock, which add up to less than 12 hours.
use pstonn.Prelude.{ℕ, ◌+◌, ◌*◌, ◌≤◌, ◌<◌, ◌≡◌, arith}
use pstonn.Clock.{Location, zero_day, hour, day_length, midnight, noon, fixed_zone}

pub record IsRegular (l : Location) : Type 0 where
  pub day-midnight : (d : ℕ) → zero_day < d → l.day (midnight l d) ≡ d
  pub clock-midnight : (d : ℕ) → zero_day < d → l.clock (midnight l d) ≡ 0
  pub day-noon : (d : ℕ) → zero_day < d → l.day (noon l d) ≡ d
  pub clock-noon : (d : ℕ) → zero_day < d → l.clock (noon l d) ≡ 12 * hour
  pub before-midnight : (t d : ℕ) → zero_day < d → l.day t < d → t < midnight l d
  pub from-midnight : (t d : ℕ) → zero_day < d → d ≤ l.day t → midnight l d ≤ t
  pub noon_ahead : (d k : ℕ) → zero_day < d → noon l (d + k) < noon l d + k * day_length + 12 * hour
  pub noon_behind :
      (d k : ℕ) → zero_day < d → noon l d + k * day_length < noon l (d + k) + 12 * hour

-- A fixed zone is regular.
pub fixed_zone-IsRegular : (east : ℕ) → east ≤ 12 * hour → IsRegular (fixed_zone east)
unfolding fixed_zone
fixed_zone-IsRegular east h = record {
  day-midnight = λ d p. omega arith;
  clock-midnight = λ d p. omega arith;
  day-noon = λ d p. omega arith;
  clock-noon = λ d p. omega arith;
  before-midnight = λ t d p q. omega arith;
  from-midnight = λ t d p q. omega arith;
  noon_ahead = λ d k p. omega arith;
  noon_behind = λ d k p. omega arith;
}
