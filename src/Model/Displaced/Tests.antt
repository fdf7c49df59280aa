-- ===== src/Model/Displaced/Tests.antt =====
-- A visitor's booking that a member displaces.
use pstonn.Prelude.{◌+◌, ◌*◌, ◌≡◌, refl, [], ◌∷◌, codes, text_eq}
use pstonn.Clock.{hour}
use pstonn.Model.Best.{best_from, challenge}
use pstonn.Model.Plate.{norm_plate, same_plate, is_separator, is_space}
use pstonn.Model.Plate.Tests.{ascii}
use pstonn.Model.Schedule.{is_active, is_fresher}
use pstonn.Model.Schedule.Tests.{thursday, visit}
use pstonn.Model.Displaced.{
  DisplacedBooking, find_displaced, find_displaced_vehicle, actor_of, mail_addr, fields_from,
  first_address, has_at, is_member, equal_fold, is_displaced, displaced_by, told, contact_for,
  driver_of, vehicle_of,
}
use pstonn.Model.Displaced.Warned.{IsOutsider, warned-IsOutsider}

abbrev visitor : DisplacedBooking
visitor = record { reg = codes "ABC 123"; contact = codes "pa@example.com" }

-- A member's change warns the visitor whose booking it displaces.
visitor_warned :
    find_displaced ascii
      (visit ∷ [])
      []
      (codes "ABC 123")
      (codes "ma@example.com (undo)")
      (codes "ma@example.com" ∷ [])
      (thursday + 5 * hour)
    ≡ visitor
unfolding find_displaced actor_of mail_addr fields_from first_address has_at is_member equal_fold
    is_displaced displaced_by told contact_for driver_of vehicle_of best_from challenge is_active
    is_fresher same_plate norm_plate is_separator is_space text_eq
visitor_warned = refl

warned-IsOutsider_example :
    IsOutsider ascii
      (actor_of (codes "pa@example.com"))
      []
      (find_displaced ascii
        (visit ∷ [])
        []
        (codes "ABC 123")
        (codes "pa@example.com")
        []
        (thursday + 5 * hour)).contact
    × IsOutsider ascii
        (actor_of (codes "pa@example.com"))
        []
        (find_displaced_vehicle ascii [] (codes "ABC 123") (codes "pa@example.com") []).contact
warned-IsOutsider_example =
    warned-IsOutsider ascii (visit ∷ []) [] (codes "ABC 123") (codes "pa@example.com") []
      (thursday + 5 * hour)
