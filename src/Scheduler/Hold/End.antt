-- ===== src/Scheduler/Hold/End.antt =====
-- When a held plate gives way.
use pstonn.Prelude.{
  ℕ, ◌+◌, ◌-◌, ◌≤◌, ◌<◌, ◌≡◌, false, List, arith, Bool-cases, Option-cases, inl, inr, ltb, ltb→lt,
  ltb_false→le,
}
use pstonn.Clock.{Location, noon, zero_day}
use pstonn.Clock.Regular.{IsRegular}
use pstonn.Model.Cycle.{Cycle}
use pstonn.Model.Plate.{Unicode}
use pstonn.Model.Expiry.{end_of_day}
use pstonn.Model.Schedule.{WeeklyRule, Override}
use pstonn.Model.Schedule.NextChange.{next_change}
use pstonn.Model.Schedule.NextChange.Correct.{changes, next_change-none, next_change-some}
use pstonn.Scheduler.Hold.{external_hold_horizon, hold_end}

module _ (l : Location) (reg : IsRegular l) (now : ℕ) (late : zero_day + 1 < l.day now) where
  after_now : now < end_of_day l now
  unfolding end_of_day
  after_now = reg.before-midnight now (l.day now + 1) (omega (arith, late)) (omega arith)

  -- The day ends well within the horizon.
  end_of_day_within : end_of_day l now ≤ now + external_hold_horizon
  unfolding end_of_day
  end_of_day_within =
      let d = l.day now - 1 in
      let here = reg.day-noon d (omega (arith, late)) in
      let there = reg.day-noon (d + 2) (omega (arith, late)) in
      let start = reg.from-midnight now (d + 1) (omega (arith, late)) (omega (arith, late)) in
      let before =
        reg.before-midnight (noon l d) (d + 1) (omega (arith, late)) (omega (arith, here)) in
      let ahead = reg.noon_ahead d 2 (omega (arith, late)) in
      let after =
        reg.from-midnight (noon l (d + 2)) (d + 2) (omega (arith, late)) (omega (arith, there)) in
      let two : d + 2 ≡ l.day now + 1 = omega (arith, late) in
      rw (← two) (omega (arith, start, before, ahead, after))

-- A held plate gives way after now and at the latest when the local day ends, and at no instant
-- before that does the schedule require a write: for a regular zone and a day after 0001-01-02, none
-- in between resolves to an allocation that is another target than now's.
pub hold_end-quiet :
    (u : Unicode) (l : Location)
    → IsRegular l
    → (now : ℕ) → zero_day + 1 < l.day now
    → (c : Cycle) (rules : List WeeklyRule) (overrides : List Override)
    → let end = hold_end u l now c rules overrides in
      (now < end)
      × (end ≤ end_of_day l now)
      × ((t : ℕ) → now < t → t < end → changes u l now c rules overrides t ≡ false)
unfolding hold_end
hold_end-quiet u l reg now late c rules overrides =
    let before = after_now l reg now late in
    let inside = end_of_day_within l reg now late in
    elim (Option-cases (next_change u l now external_hold_horizon c rules overrides)) [
      | inl e ↦
          let quiet =
            next_change-none u l reg now external_hold_horizon c rules overrides
              (omega (arith, late)) e in
          rw (e, hold_end) (before, omega arith, λ t p q. quiet t p (omega (arith, q, inside)))
      | inr (next, e) ↦
          let first =
            next_change-some u l reg now external_hold_horizon c rules overrides
              (omega (arith, late)) e in
          elim (Bool-cases (ltb next (end_of_day l now))) [
            | inl f ↦ rw (e, f, hold_end) (first.0, omega (arith, ltb→lt _ _ f), first.3)
            | inr f ↦
                rw (e, f, hold_end)
                  (before, omega arith, λ t p q. first.3 t p (omega (arith, q, ltb_false→le _ _ f)))
          ]
    ]
