-- ===== src/Model/Cycle.antt =====
-- The rotation of a roster over several weeks: Cycle, WeekAt, ReanchoredCycle and the ladder of
-- lengths.
pub mod Weeks
pub mod Reanchor
pub mod Tests
use pstonn.Prelude.{
  ℕ, ◌+◌, ◌-◌, ◌*◌, ◌/◌, ◌%◌, Bool, true, false, ◌||◌, Option, none, some, [], ◌∷◌, Text, ltb, leb,
  ◌==◌, if◌then◌else◌,
}
use pstonn.Clock.{Location, hour, day_length, elapsed, midnight, noon, add_days, sub_days, weekday}
use pstonn.Clock.DateText.{parse_date, format_date}

-- An empty anchor is "".
pub record Cycle : Type 0 where
  pub weeks : ℕ
  pub anchor : Text

-- Permit.Cycle, on the two columns of the permit that it reads.
unfoldable pub permit_cycle : ℕ → Text → Cycle
permit_cycle cycle_weeks cycle_anchor = record {
  weeks = if ltb cycle_weeks 1 then 1 else cycle_weeks;
  anchor = cycle_anchor;
}

abbrev pub max_cycle_weeks : ℕ
max_cycle_weeks = 4

-- The length and `ok`.
unfoldable pub next_cycle_weeks : ℕ → ℕ × Bool
next_cycle_weeks weeks =
    if ltb weeks 2
    then (2, true)
    else (if ltb weeks max_cycle_weeks then (max_cycle_weeks, true) else (weeks, false))

unfoldable pub prev_cycle_weeks : ℕ → ℕ × Bool
prev_cycle_weeks weeks =
    if ltb 2 weeks then (2, true) else (if weeks == 2 then (1, true) else (weeks, false))

abbrev pub is_empty : Text → Bool
is_empty [] = true
is_empty (c ∷ s) = false

-- Noon of the Sunday that begins the week of `t`.
unfoldable pub sunday_noon : Location → ℕ → ℕ
sunday_noon l t = sub_days l (noon l (l.day t)) (weekday l t)

-- int(math.Round(u.Sub(t).Hours() / 24)) for t at or before u.
unfoldable pub rounded_days : ℕ → ℕ → ℕ
rounded_days u t = (elapsed u t + 12 * hour) / day_length

-- The index of the week that begins at `now_sun`, counted from the one at `anch_sun`. Go's / and %
-- truncate toward zero, so the second case is the negative index and its repair.
unfoldable pub cycle_index : ℕ → ℕ → ℕ → ℕ
unfolding rounded_days
cycle_index weeks now_sun anch_sun =
    if leb anch_sun now_sun
    then rounded_days now_sun anch_sun / 7 % weeks
    else (let behind = rounded_days anch_sun now_sun / 7 % weeks in
        if behind == 0 then 0 else weeks - behind)

-- Cycle.WeekAt. `l` is now.Location().
unfoldable pub week_at : Location → ℕ → Cycle → ℕ
unfolding sunday_noon cycle_index
week_at l now c = if leb c.weeks 1 || is_empty c.anchor then 0 else elim (parse_date c.anchor) [
  | none ↦ 0
  | some day ↦ cycle_index c.weeks (sunday_noon l now) (sunday_noon l (midnight l day))
]

-- ReanchoredCycle.
unfoldable pub reanchored_cycle : Location → ℕ → Cycle → ℕ → Cycle
reanchored_cycle l now old new_weeks =
    if leb new_weeks 1
    then record { weeks = 1; anchor = [] }
    else (let idx = week_at l now old % new_weeks in
        let sun = sub_days l (noon l (l.day now)) (weekday l now + 7 * idx) in
        record { weeks = new_weeks; anchor = format_date (l.day sun) })
