-- ===== src/Model/Schedule.antt =====
-- The roster, the one-off bookings and Resolve, which decides what a permit should carry.
pub mod Winner
pub mod Order
pub mod Window
pub mod NextChange
pub mod Tests
use pstonn.Prelude.{
  ℕ, ◌+◌, ◌≡◌, Bool, true, false, not, ◌&&◌, ◌||◌, Option, none, some, List, [], ◌∷◌, Text, ltb,
  ◌==◌, if◌then◌else◌, bool_eq,
}
use pstonn.Clock.{Location, midnight, weekday}
use pstonn.Model.Cycle.{Cycle, week_at}
use pstonn.Model.Plate.{Unicode, same_plate}
use pstonn.Model.Best.{best_from}

-- Identifiers are natural numbers, and 0 stands for none.
pub record WeeklyRule : Type 0 where
  pub id : ℕ
  pub permit_id : ℕ
  pub week : ℕ
  pub weekday : ℕ
  pub vehicle_id : ℕ
  pub empty : Bool

pub record Override : Type 0 where
  pub id : ℕ
  pub permit_id : ℕ
  pub vehicle_id : ℕ
  pub registration : Text
  pub state : Text
  pub starts_at : ℕ
  pub ends_at : Option ℕ
  pub created_by : Text
  pub created_at : ℕ
  pub guest_token_id : ℕ
  pub empty : Bool

pub data Source : Type 0 where
  source_none source_roster source_override : Source

pub record Resolution : Type 0 where
  pub vehicle_id : ℕ
  pub registration : Text
  pub state : Text
  pub source : Source
  pub by : Text
  pub empty : Bool
  pub since : ℕ
  pub scheduled : Bool
  pub until : Option ℕ

abbrev pub is_allocated : Source → Bool
is_allocated source_none = false
is_allocated source_roster = true
is_allocated source_override = true

-- The window of a booking: it has started, and it has not ended.
abbrev pub not_ended : Option ℕ → ℕ → Bool
not_ended none now = true
not_ended (some e) now = ltb now e

unfoldable pub is_active : ℕ → Override → Bool
is_active now o = not (ltb now o.starts_at) && not_ended o.ends_at now

-- The freshest decision wins: the later booking, and of two in one second the later row.
unfoldable pub is_fresher : Override → Override → Bool
is_fresher o best =
    ltb best.created_at o.created_at || (o.created_at == best.created_at && ltb best.id o.id)

unfoldable pub best_override : ℕ → List Override → Option Override
unfolding best_from is_active is_fresher
best_override now overrides = best_from (is_active now) is_fresher none overrides

unfoldable pub rule_matches : ℕ → ℕ → WeeklyRule → Bool
rule_matches wk wd r = not (not (r.week == wk) || not (r.weekday == wd))

unfoldable pub is_later_rule : WeeklyRule → WeeklyRule → Bool
is_later_rule r best = ltb best.id r.id

unfoldable pub best_rule : ℕ → ℕ → List WeeklyRule → Option WeeklyRule
unfolding best_from rule_matches is_later_rule
best_rule wk wd rules = best_from (rule_matches wk wd) is_later_rule none rules

-- What a winning booking asks for. It counts as scheduled if it was made before its window opened.
unfoldable pub override_resolution : Override → Resolution
override_resolution best =
    let scheduled = ltb best.created_at best.starts_at in
    record {
      vehicle_id = best.vehicle_id;
      registration = best.registration;
      state = best.state;
      source = source_override;
      by = best.created_by;
      empty = best.empty;
      since = if scheduled then best.starts_at else best.created_at;
      scheduled = scheduled;
      until = best.ends_at;
    }

unfoldable pub rule_resolution : Location → ℕ → WeeklyRule → Resolution
rule_resolution l now r = record {
  vehicle_id = r.vehicle_id;
  registration = [];
  state = [];
  source = source_roster;
  by = [];
  empty = r.empty;
  since = midnight l (l.day now);
  scheduled = true;
  until = none;
}

unfoldable pub no_resolution : Resolution
no_resolution = record {
  vehicle_id = 0;
  registration = [];
  state = [];
  source = source_none;
  by = [];
  empty = false;
  since = 0;
  scheduled = false;
  until = none;
}

unfoldable pub resolve_rule : Location → ℕ → Option WeeklyRule → Resolution
unfolding rule_resolution no_resolution
resolve_rule l now none = no_resolution
resolve_rule l now (some r) = rule_resolution l now r

-- Resolve. `l` is the location of `now`.
unfoldable pub resolve : Location → ℕ → Cycle → List WeeklyRule → List Override → Resolution
unfolding best_override override_resolution resolve_rule best_rule
resolve l now c rules overrides = elim (best_override now overrides) [
  | some best ↦ override_resolution best
  | none ↦ resolve_rule l now (best_rule (week_at l now c) (weekday l now) rules)
]

-- Resolution.SameTarget.
unfoldable pub same_target : Unicode → Resolution → Resolution → Bool
same_target u r o =
    if r.empty || o.empty
    then bool_eq r.empty o.empty
    else r.vehicle_id == o.vehicle_id && same_plate u r.registration o.registration
