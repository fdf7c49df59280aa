-- ===== src/Model/Displaced.antt =====
-- Who is to be warned that a car has been taken off a permit: mailAddr, FindDisplaced and
-- FindDisplacedVehicle. The map of vehicles is the list of its entries in the order of the range.
pub mod Warned
pub mod Tests
use pstonn.Prelude.{
  ℕ, Bool, true, false, not, ◌&&◌, ◌||◌, Option, none, some, List, [], ◌∷◌, ◌++◌, Text, text_eq,
  map, ◌==◌, if◌then◌else◌,
}
use pstonn.Model.Best.{best_from}
use pstonn.Model.Cycle.{is_empty}
use pstonn.Model.Plate.{Unicode, is_space, same_plate}
use pstonn.Model.Schedule.{Override, is_active, is_fresher}

pub record VehicleInfo : Type 0 where
  pub registration : Text
  pub label : Text
  pub email : Text
  pub color : Text
  pub state : Text
  pub notify_driver : Bool

pub record DisplacedBooking : Type 0 where
  pub reg : Text
  pub contact : Text

abbrev pub nobody : DisplacedBooking
nobody = record { reg = []; contact = [] }

-- strings.EqualFold.
unfoldable pub equal_fold : Unicode → Text → Text → Bool
equal_fold u a b = text_eq (map u.fold a) (map u.fold b)

-- strings.Fields, with the field that is being read.
unfoldable pub fields_from : Text → Text → List Text
fields_from f [] = if is_empty f then [] else f ∷ []
fields_from f (r ∷ s) =
    let next = fields_from [] s in
    let more = fields_from (f ++ r ∷ []) s in
    if is_space r then (if is_empty f then next else f ∷ next) else more

-- '@'
unfoldable pub has_at : Text → Bool
has_at [] = false
has_at (r ∷ s) = r == 64 || has_at s

unfoldable pub first_address : List Text → Text
first_address [] = []
first_address (f ∷ fs) = if has_at f then f else first_address fs

unfoldable pub mail_addr : Text → Text
unfolding fields_from first_address has_at
mail_addr created_by = first_address (fields_from [] created_by)

-- The actor's address, or what stands for the actor.
unfoldable pub actor_of : Text → Text
unfolding mail_addr
actor_of actor = if is_empty (mail_addr actor) then actor else mail_addr actor

unfoldable pub is_member : Unicode → List Text → Text → Bool
unfolding equal_fold
is_member u [] email = false
is_member u (m ∷ members) email = equal_fold u m email || is_member u members email

abbrev pub no_vehicle : VehicleInfo
no_vehicle = record {
  registration = [];
  label = [];
  email = [];
  color = [];
  state = [];
  notify_driver = false;
}

-- vehicles[id], the zero value for an unknown car.
unfoldable pub vehicle_of : ℕ → List (ℕ × VehicleInfo) → VehicleInfo
vehicle_of id [] = no_vehicle
vehicle_of id ((i, v) ∷ vs) = if i == id then v else vehicle_of id vs

-- The booking is live, and its car is the one taken off.
unfoldable pub is_displaced : Unicode → List (ℕ × VehicleInfo) → Text → ℕ → Override → Bool
unfolding vehicle_of
is_displaced u vehicles prev_reg now o =
    is_active now o
    && same_plate u
        (if is_empty o.registration
          then (vehicle_of o.vehicle_id vehicles).registration
          else o.registration)
        prev_reg

-- The address of the car's usual driver, for a booking that names a saved car.
unfoldable pub driver_of : List (ℕ × VehicleInfo) → Override → Text
unfolding vehicle_of
driver_of vehicles b = if b.vehicle_id == 0 then [] else (vehicle_of b.vehicle_id vehicles).email

-- The booker who is not a member, or else the car's driver; none for a member's booking of a car
-- without one.
unfoldable pub contact_for : Unicode → List (ℕ × VehicleInfo) → List Text → Override → Option Text
unfolding mail_addr is_member driver_of
contact_for u vehicles members b =
    let contact = mail_addr b.created_by in
    let driver = driver_of vehicles b in
    if is_empty contact || is_member u members contact
    then (if is_empty driver && not (is_empty contact) then none else some driver)
    else some contact

-- The end of FindDisplaced: nobody is told of what they did themselves, nor a member.
unfoldable pub told : Unicode → Text → Text → List Text → Option Text → DisplacedBooking
unfolding is_member equal_fold
told u prev_reg actor members none = nobody
told u prev_reg actor members (some contact) =
    if not (is_empty contact) && (equal_fold u contact actor || is_member u members contact)
    then nobody
    else record { reg = prev_reg; contact = contact }

unfoldable pub displaced_by :
    Unicode → List (ℕ × VehicleInfo) → Text → Text → List Text → Option Override → DisplacedBooking
unfolding told contact_for
displaced_by u vehicles prev_reg actor members none = nobody
displaced_by u vehicles prev_reg actor members (some b) =
    told u prev_reg actor members (contact_for u vehicles members b)

unfoldable pub find_displaced :
    Unicode
    → List Override
    → List (ℕ × VehicleInfo)
    → Text
    → Text
    → List Text
    → ℕ
    → DisplacedBooking
unfolding actor_of is_displaced displaced_by best_from is_fresher
find_displaced u overrides vehicles prev_reg actor members now =
    if is_empty prev_reg
    then nobody
    else displaced_by u vehicles prev_reg (actor_of actor) members
        (best_from (is_displaced u vehicles prev_reg now) is_fresher none overrides)

-- The loop of FindDisplacedVehicle.
unfoldable pub first_driver :
    Unicode → Text → Text → List Text → List (ℕ × VehicleInfo) → DisplacedBooking
unfolding equal_fold is_member
first_driver u prev_reg actor members [] = nobody
first_driver u prev_reg actor members ((i, v) ∷ vs) =
    let rest = first_driver u prev_reg actor members vs in
    if not (same_plate u v.registration prev_reg) || is_empty v.email
    then rest
    else (if equal_fold u v.email actor || is_member u members v.email
        then nobody
        else record { reg = prev_reg; contact = v.email })

unfoldable pub find_displaced_vehicle :
    Unicode → List (ℕ × VehicleInfo) → Text → Text → List Text → DisplacedBooking
unfolding actor_of first_driver
find_displaced_vehicle u vehicles prev_reg actor members =
    if is_empty prev_reg then nobody else first_driver u prev_reg (actor_of actor) members vehicles
