-- ===== src/Model/Cycle/Tests.antt =====
-- The rotation at concrete dates, in a zone ten hours east.
use pstonn.Prelude.{ℕ, ◌+◌, ◌-◌, ◌*◌, ◌%◌, ◌≡◌, refl, some, codes, arith}
use pstonn.Clock.{Location, hour, day_length, zero_day, fixed_zone}
use pstonn.Clock.Regular.{IsRegular, fixed_zone-IsRegular}
use pstonn.Clock.Civil.{
  days_in_year, days_in_month, day_of_civil, days_before_year, days_before_month,
}
use pstonn.Clock.DateText.{parse_date}
use pstonn.Model.Cycle.{Cycle, week_at, reanchored_cycle}
use pstonn.Model.Cycle.Weeks.{IsIndex, week_of, week_at-IsIndex}
use pstonn.Model.Cycle.Reanchor.{week_at-reanchored}

abbrev melbourne : Location
melbourne = fixed_zone (10 * hour)

melbourne-IsRegular : IsRegular melbourne
unfolding fixed_zone
melbourne-IsRegular = fixed_zone-IsRegular (10 * hour) (omega arith)

-- Thursday 26 November 2026, and the same hour seven days later.
abbrev thursday : ℕ
thursday = (740311 - zero_day) * day_length

abbrev next_thursday : ℕ
next_thursday = thursday + 7 * day_length

-- The first week of this rotation began on Sunday 8 November 2026.
abbrev four_weeks : Cycle
four_weeks = record { weeks = 4; anchor = codes "2026-11-10" }

anchor_day : parse_date four_weeks.anchor ≡ some 740295
unfolding parse_date days_in_year days_in_month day_of_civil days_before_year days_before_month
anchor_day = refl

thursday_week : week_at melbourne thursday four_weeks ≡ 2
unfolding fixed_zone week_at parse_date days_in_year days_in_month day_of_civil days_before_year
    days_before_month
thursday_week = refl

week_at-IsIndex_example :
    IsIndex 4 (week_of 740295) (week_of 740311) (week_at melbourne thursday four_weeks)
unfolding fixed_zone
week_at-IsIndex_example =
    week_at-IsIndex melbourne melbourne-IsRegular thursday four_weeks (omega arith) anchor_day
      (omega arith)

week_at-reanchored_example :
    week_at melbourne thursday (reanchored_cycle melbourne thursday four_weeks 3)
    ≡ week_at melbourne thursday four_weeks % 3
unfolding fixed_zone
week_at-reanchored_example =
    week_at-reanchored melbourne melbourne-IsRegular thursday four_weeks 3 (omega arith)
      (omega arith) (omega arith) (omega arith)
