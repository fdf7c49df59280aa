-- ===== src/Scheduler/Hold.antt =====
-- internal/scheduler/drift.go and internal/store/schedule.go: what follows when somebody changed a
-- permit's plate at the council. holdExternalChange books the new plate until the schedule's next
-- change. The wording of the notice is the kind of its ending; the label of the permit is left out.
pub mod End
pub mod Kept
pub mod Tests
use pstonn.Prelude.{
  ℕ, zero, suc, ◌+◌, ◌*◌, ◌/◌, Bool, true, false, not, ◌&&◌, Option, none, some, List, [], ◌∷◌,
  Text, codes, ltb, ◌==◌, if◌then◌else◌, find, number_key,
}
use pstonn.Clock.{Location, second, day_length}
use pstonn.Model.Cycle.{Cycle, is_empty}
use pstonn.Model.Plate.{Unicode}
use pstonn.Model.Expiry.{end_of_day}
use pstonn.Model.Schedule.{
  WeeklyRule, Override, Resolution, Source, not_ended, is_allocated, resolve,
}
use pstonn.Model.Schedule.NextChange.{next_change}

abbrev pub external_hold_horizon : ℕ
external_hold_horizon = 14 * day_length

abbrev pub external_actor : Text
external_actor = codes "the council's website"

abbrev pub max_live_overrides_per_permit : ℕ
max_live_overrides_per_permit = 50

-- The column holds whole seconds: t.UTC().Format(time.RFC3339).
abbrev pub stored : ℕ → ℕ
stored t = t / second * second

-- COUNT(*) of the bookings that have not ended.
unfoldable pub live_count : ℕ → List Override → ℕ
live_count now [] = 0
live_count now (o ∷ os) =
    let rest = live_count now os in if not_ended o.ends_at now then suc rest else rest

-- CreatePlateOverride, which is createOverrideGuarded with no vehicle and no guest link. `rows` are the
-- permit's bookings, `clock` is the store's now and `id` the number that the database gives the row, none
-- if the statement fails.
unfoldable pub create_plate_override :
    ℕ → Option ℕ → List Override → ℕ → Text → Text → ℕ → ℕ → Text → Option Override
unfolding live_count
create_plate_override clock none rows permit registration state starts_at ends_at created_by = none
create_plate_override clock (some id) rows permit registration state starts_at ends_at created_by =
    if ltb (live_count (stored clock) rows) max_live_overrides_per_permit
    then some (record {
      id = id;
      permit_id = permit;
      vehicle_id = 0;
      registration = registration;
      state = state;
      starts_at = stored starts_at;
      ends_at = some (stored ends_at);
      created_by = created_by;
      created_at = stored clock;
      guest_token_id = 0;
      empty = false;
    })
    else none

-- The plate that a resolution asks for, by the owner's vehicles.
unfoldable pub plate_of : List (ℕ × Text) → Resolution → Text
unfolding find
plate_of vehicles r =
    if not (is_allocated r.source)
    then []
    else if not (is_empty r.registration)
    then r.registration
    else elim (find r.vehicle_id vehicles) [ none ↦ [] | some plate ↦ plate ]

-- The zero time stands for a plate that is not held.
pub record DriftChange : Type 0 where
  pub plate : Text
  pub holds_until : ℕ
  pub puts_back : Text
  pub empties_after : Bool

-- How the line in the activity log goes on after "changed on the council's website".
pub data Detail : Type 0 where
  said_nothing stays_off goes_back comes_off : Detail
  kept_until : ℕ → Detail

-- The notice to the household, if there is one, the line, and the booking.
pub record Held : Type 0 where
  pub change : Option DriftChange
  pub detail : Detail
  pub booking : Option Override

-- When the held plate gives way: at the schedule's next change, and at the latest when the day ends.
unfoldable pub hold_end : Unicode → Location → ℕ → Cycle → List WeeklyRule → List Override → ℕ
unfolding end_of_day next_change
hold_end u l now c rules overrides =
    let day_end = end_of_day l now in
    elim (next_change u l now external_hold_horizon c rules overrides) [
      | none ↦ day_end
      | some next ↦ if ltb next day_end then next else day_end
    ]

abbrev pub unheld : Text → List (ℕ × Text) → Resolution → Detail → Held
unheld actual vehicles res detail = record {
  change = some (record {
    plate = actual;
    holds_until = 0;
    puts_back = plate_of vehicles res;
    empties_after = false;
  });
  detail = detail;
  booking = none;
}

abbrev pub refused : Text → List (ℕ × Text) → Resolution → Held
refused actual vehicles res = record {
  change = some (record {
    plate = actual;
    holds_until = 0;
    puts_back = plate_of vehicles res;
    empties_after = res.empty;
  });
  detail = if res.empty then comes_off else goes_back;
  booking = none;
}

-- `later` is what the schedule asks for when the hold ends.
abbrev pub held_by : Text → List (ℕ × Text) → Resolution → Resolution → ℕ → Option Override → Held
held_by actual vehicles res later end none = refused actual vehicles res
held_by actual vehicles res later end (some booking) = record {
  change = some (record {
    plate = actual;
    holds_until = end;
    puts_back = plate_of vehicles later;
    empties_after = later.empty;
  });
  detail = kept_until end;
  booking = some booking;
}

abbrev pub silent : Detail → Held
silent detail = record { change = none; detail = detail; booking = none }

-- The part after the three lists are read. The bookings that are listed are those that have not ended by
-- now, and so all that the cap counts at the later `clock`. `at` is what the schedule asks for at a time.
unfoldable pub hold_read :
    Unicode
    → Location
    → ℕ
    → ℕ
    → Option ℕ
    → ℕ
    → Cycle
    → Text
    → List (ℕ × Text)
    → List WeeklyRule
    → List Override
    → Held
unfolding resolve hold_end plate_of create_plate_override
hold_read u l now clock id permit c actual vehicles rules overrides =
    let at = λ (t : ℕ). resolve l t c rules overrides in
    let end = hold_end u l now c rules overrides in
    if is_empty actual
    then unheld actual vehicles (at now) goes_back
    else held_by actual vehicles (at now) (at end) end
        (create_plate_override clock id overrides permit actual [] now end external_actor)

-- holdExternalChange. A list that cannot be read is none.
unfoldable pub hold_external_change :
    Unicode
    → Location
    → ℕ
    → ℕ
    → Option ℕ
    → ℕ
    → Cycle
    → Text
    → Option (List (ℕ × Text))
    → Option (List WeeklyRule)
    → Option (List Override)
    → Held
unfolding resolve hold_read
hold_external_change u l now clock id permit c actual vehicles none overrides = silent said_nothing
hold_external_change u l now clock id permit c actual vehicles (some rules) none =
    silent said_nothing
hold_external_change u l now clock id permit c actual vehicles (some rules) (some overrides) =
    let res = resolve l now c rules overrides in
    if not (is_allocated res.source)
    then silent said_nothing
    else if res.empty && is_empty actual
    then silent stays_off
    else elim vehicles [
      | none ↦ silent said_nothing
      | some vs ↦ hold_read u l now clock id permit c actual vs rules overrides
    ]
