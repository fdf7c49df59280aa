-- ===== src/Model/Displaced/Warned.antt =====
-- Nobody is warned of a displacement of their own, and no member is.
use pstonn.Prelude.{
  ℕ, ◌≡◌, refl, true, false, Option, none, some, List, [], ◌∷◌, Text, Bool-cases, inl, inr, ◌⊎◌,
  arith,
}
use pstonn.Model.Cycle.{is_empty}
use pstonn.Model.Best.{best_from}
use pstonn.Model.Plate.{Unicode}
use pstonn.Model.Schedule.{Override, is_fresher}
use pstonn.Model.Displaced.{
  VehicleInfo, equal_fold, is_member, actor_of, told, displaced_by, contact_for, find_displaced,
  first_driver, is_displaced, find_displaced_vehicle,
}

-- No address, or that of somebody who is neither the actor nor a member.
abbrev pub IsOutsider : Unicode → Text → List Text → Text → Type 0
IsOutsider u actor members contact =
    (is_empty contact ≡ true)
    ⊎ ((equal_fold u contact actor ≡ false) × (is_member u members contact ≡ false))

told-IsOutsider :
    (u : Unicode) (prev_reg actor : Text) (members : List Text) (c : Option Text)
    → IsOutsider u actor members (told u prev_reg actor members c).contact
unfolding told
told-IsOutsider u prev_reg actor members none = inl refl
told-IsOutsider u prev_reg actor members (some contact) = ground arith

displaced_by-IsOutsider :
    (u : Unicode) (vehicles : List (ℕ × VehicleInfo)) (prev_reg actor : Text) (members : List Text)
    (b : Option Override)
    → IsOutsider u actor members (displaced_by u vehicles prev_reg actor members b).contact
unfolding displaced_by
displaced_by-IsOutsider u vehicles prev_reg actor members none = inl refl
displaced_by-IsOutsider u vehicles prev_reg actor members (some b) =
    told-IsOutsider u prev_reg actor members (contact_for u vehicles members b)

first_driver-IsOutsider :
    (u : Unicode) (prev_reg actor : Text) (members : List Text) (vehicles : List (ℕ × VehicleInfo))
    → IsOutsider u actor members (first_driver u prev_reg actor members vehicles).contact
unfolding first_driver
first_driver-IsOutsider u prev_reg actor members [] = inl refl
first_driver-IsOutsider u prev_reg actor members ((i, v) ∷ vs) =
    ground (arith, first_driver-IsOutsider u prev_reg actor members vs)

-- Whoever is to be warned of a displaced booking, or of a displaced car, is neither the actor, under
-- the address in the actor's name if there is one, nor a member of the account, however the
-- addresses are written in upper and lower case.
pub warned-IsOutsider :
    (u : Unicode) (overrides : List Override) (vehicles : List (ℕ × VehicleInfo))
    (prev_reg actor : Text) (members : List Text) (now : ℕ)
    → IsOutsider u
        (actor_of actor)
        members
        (find_displaced u overrides vehicles prev_reg actor members now).contact
      × IsOutsider u
          (actor_of actor)
          members
          (find_displaced_vehicle u vehicles prev_reg actor members).contact
unfolding find_displaced find_displaced_vehicle
warned-IsOutsider u overrides vehicles prev_reg actor members now =
    elim (Bool-cases (is_empty prev_reg)) [
      | inl e ↦ rw e (inl refl, inl refl)
      | inr e ↦ rw e (
        displaced_by-IsOutsider u vehicles prev_reg (actor_of actor) members
            (best_from (is_displaced u vehicles prev_reg now) is_fresher none overrides),
        first_driver-IsOutsider u prev_reg (actor_of actor) members vehicles,
      )
    ]
