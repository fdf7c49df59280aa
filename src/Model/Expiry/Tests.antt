-- ===== src/Model/Expiry/Tests.antt =====
-- A permit that is valid up to Thursday 26 November 2026, in a zone ten hours east.
use pstonn.Prelude.{◌+◌, ◌<◌, ◌≡◌, ◌↔◌, refl, true, false, codes, text_eq, arith}
use pstonn.Clock.{day_length, fixed_zone}
use pstonn.Model.Plate.Tests.{ascii}
use pstonn.Model.Plate.{is_space}
use pstonn.Model.Displaced.{fields_from}
use pstonn.Model.Schedule.Tests.{melbourne, melbourne-IsRegular, thursday}
use pstonn.Model.Expiry.{
  dead_status, any_dead, inactive, is_one_of, is_trimmed, trim, trim_left, reverse_onto,
}
use pstonn.Model.Expiry.Deadline.{inactive_iff}

expiring : dead_status ascii (codes "Expiring soon") ≡ false
unfolding dead_status any_dead fields_from is_one_of trim trim_left reverse_onto is_trimmed is_space
    text_eq
expiring = refl

cancelled : dead_status ascii (codes "Permit (Cancelled)") ≡ true
unfolding dead_status any_dead fields_from is_one_of trim trim_left reverse_onto is_trimmed is_space
    text_eq
cancelled = refl

inactive_iff_example :
    (inactive ascii melbourne (codes "Expiring soon") thursday (thursday + day_length) ≡ true)
    ↔ (melbourne.day thursday < melbourne.day (thursday + day_length))
inactive_iff_example =
    inactive_iff ascii melbourne melbourne-IsRegular (codes "Expiring soon") thursday
      (thursday + day_length) expiring (omega arith) (unfold fixed_zone in omega arith)
