-- ===== src/Scheduler/Hold/Tests.antt =====
-- Somebody puts a plate on at the council on a Thursday morning, with a visitor booked from 2 pm.
use pstonn.Prelude.{
  ◌⊎◌, ℕ, ◌+◌, ◌*◌, ◌≡◌, ◌≤◌, ◌<◌, refl, true, false, some, List, [], ◌∷◌, Text, codes, Memᴰ, inl,
  inr, arith,
}
use pstonn.Clock.{hour, second, fixed_zone}
use pstonn.Model.Cycle.{week_at}
use pstonn.Model.Plate.{norm_plate}
use pstonn.Model.Plate.Tests.{ascii}
use pstonn.Model.Expiry.{end_of_day}
use pstonn.Model.Schedule.{Source, Override, resolve, same_target}
use pstonn.Model.Schedule.NextChange.{next_change}
use pstonn.Model.Schedule.NextChange.Correct.{changes}
use pstonn.Model.Schedule.Tests.{melbourne, melbourne-IsRegular, thursday, weekly, roster, visit}
use pstonn.Scheduler.Hold.{Held, Detail, hold_external_change, hold_end, stored, external_actor}
use pstonn.Scheduler.Drift.{is_some}
use pstonn.Scheduler.Hold.End.{hold_end-quiet}
use pstonn.Scheduler.Hold.Kept.{IsNewest, IsNewestMade, hold_external_change-kept}

abbrev cars : List (ℕ × Text)
cars = (5, codes "CAR005") ∷ (6, codes "CAR006") ∷ []

abbrev put_on : Text → Held
put_on plate =
    hold_external_change ascii melbourne thursday (thursday + second) (some 12) 1 weekly plate
      (some cars) (some roster) (some (visit ∷ []))

until_two : (put_on (codes "XYZ789")).detail ≡ Detail.kept_until (thursday + 4 * hour)
unfolding hold_external_change fixed_zone next_change resolve week_at same_target norm_plate
until_two = refl

taken_off : (put_on []).detail ≡ Detail.goes_back
unfolding hold_external_change fixed_zone resolve week_at
taken_off = refl

late : 367 < melbourne.day thursday
unfolding fixed_zone
late = omega arith

hold_end-quiet_example :
    (thursday < hold_end ascii melbourne thursday weekly roster (visit ∷ []))
    × (hold_end ascii melbourne thursday weekly roster (visit ∷ []) ≤ end_of_day melbourne thursday)
    × ((t : ℕ)
        → thursday < t
        → t < hold_end ascii melbourne thursday weekly roster (visit ∷ [])
        → changes ascii melbourne thursday weekly roster (visit ∷ []) t ≡ false)
hold_end-quiet_example =
    hold_end-quiet ascii melbourne melbourne-IsRegular thursday late weekly roster (visit ∷ [])

-- The booking as the store has it, beside the visitor's.
abbrev held : Override
held = record {
  id = 12;
  permit_id = 1;
  vehicle_id = 0;
  registration = codes "XYZ789";
  state = [];
  starts_at = stored thursday;
  ends_at = some (stored (thursday + 4 * hour));
  created_by = external_actor;
  created_at = stored (thursday + second);
  guest_token_id = 0;
  empty = false;
}

held-IsNewest : IsNewest held (visit ∷ held ∷ [])
held-IsNewest = record { member = Memᴰ.tail (Memᴰ.head refl); others = older }
  where
    older :
        (o : Override)
        → Memᴰ o (visit ∷ held ∷ [])
        → (o ≡ held)
          ⊎ ((o.created_at < held.created_at)
              ⊎ ((o.created_at ≡ held.created_at) × (o.id < held.id)))
    older o (Memᴰ.head e) = inr (inl (rw e (omega arith)))
    older o (Memᴰ.tail (Memᴰ.head e)) = inl e
    older o (Memᴰ.tail (Memᴰ.tail i)) = elim i [ ]

booked : (put_on (codes "XYZ789")).booking ≡ some held
unfolding hold_external_change fixed_zone next_change resolve week_at same_target norm_plate
booked = refl

held-IsNewestMade : IsNewestMade (put_on (codes "XYZ789")).booking (visit ∷ held ∷ [])
held-IsNewestMade = rw booked held-IsNewest

-- At noon.
hold_external_change-kept_example :
    (is_some (put_on (codes "XYZ789")).booking ≡ true)
    × ((resolve melbourne (thursday + 2 * hour) weekly roster (visit ∷ held ∷ [])).source
        ≡ Source.source_override)
    × ((resolve melbourne (thursday + 2 * hour) weekly roster (visit ∷ held ∷ [])).registration
        ≡ codes "XYZ789")
    × ((resolve melbourne (thursday + 2 * hour) weekly roster (visit ∷ held ∷ [])).empty ≡ false)
hold_external_change-kept_example =
    hold_external_change-kept ascii melbourne thursday (thursday + second) (some 12) 1 weekly
      (codes "XYZ789") (some cars) (some roster) (some (visit ∷ [])) until_two weekly roster
      (visit ∷ held ∷ []) (thursday + 2 * hour) held-IsNewestMade (omega arith) (omega arith)
