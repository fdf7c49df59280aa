-- ===== src/Model/Expiry/Deadline.antt =====
-- A permit is live through the whole of its last day.
use pstonn.Prelude.{ℕ, ◌+◌, ◌<◌, ◌≡◌, ◌≢◌, ◌↔◌, ap, ap₂, true, false, Text, arith}
use pstonn.Clock.{Location, zero_day}
use pstonn.Clock.Regular.{IsRegular}
use pstonn.Model.Plate.{Unicode}
use pstonn.Model.Expiry.{dead_status, expiry_deadline, inactive, end_of_day}

expiry_deadline-end_of_day :
    (l : Location)
    → IsRegular l
    → (t : ℕ) → zero_day < l.day t
    → expiry_deadline l t ≡ end_of_day l t
unfolding expiry_deadline end_of_day
expiry_deadline-end_of_day l reg t late =
    ap₂ l.date (ap (λ d. d + 1) (reg.day-midnight (l.day t) late))
      (reg.clock-midnight (l.day t) late)

-- In a regular zone, a permit whose status is not a dead one, and whose end date is given and falls
-- after 0001-01-01 there, is inactive exactly from the first instant of the civil day after its end
-- date's.
pub inactive_iff :
    (u : Unicode) (l : Location)
    → IsRegular l
    → (status : Text) (end_date now : ℕ) → dead_status u status ≡ false
    → end_date ≢ 0
    → zero_day < l.day end_date
    → (inactive u l status end_date now ≡ true) ↔ (l.day end_date < l.day now)
unfolding inactive
inactive_iff u l reg status end_date now live dated late =
    let same = expiry_deadline-end_of_day l reg end_date late in
    let after = reg.from-midnight now (l.day end_date + 1) (omega arith) in
    let before = reg.before-midnight now (l.day end_date + 1) (omega arith) in
    unfold end_of_day in
    (
      λ h. ground (arith, live, dated, same, before, h),
      λ h. ground (arith, live, dated, same, after, h),
    )
