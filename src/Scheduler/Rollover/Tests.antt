-- ===== src/Scheduler/Rollover/Tests.antt =====
-- Five hundred permits, and a booking from nine to five.
use pstonn.Prelude.{ℕ, ◌+◌, ◌*◌, ◌^◌, ◌≡◌, refl, true, false, none, some, codes, [], arith}
use pstonn.Clock.{hour, minute, second}
use pstonn.Model.Schedule.{Resolution, Source}
use pstonn.Scheduler.{Scheduler, new}
use pstonn.Scheduler.Rollover.{spread_elapsed, rollover_bound}
use pstonn.Scheduler.Rollover.Slots.{spread_elapsed-rollover_bound, spread_elapsed-booking}

abbrev fleet : Scheduler
fleet =
    record (new (record {
      session_max_age = 0;
      warm_interval = 0;
      jitter_frac = 0;
      op_drain = 5 * second;
      spread_window = hour;
      drift_interval = 0;
      idle_window = 0;
      warm_safety_margin = 0;
    })) { fleet_size = 500 }

abbrev hash : ℕ → ℕ
hash permit = 2 ^ 63

abbrev booking : Resolution
booking = record {
  vehicle_id = 0;
  registration = codes "ABC123";
  state = [];
  source = Source.source_override;
  by = [];
  empty = false;
  since = 9 * hour;
  scheduled = true;
  until = some (17 * hour);
}

abbrev roster : Resolution
roster = record booking { source = Source.source_roster; until = none }

spread_elapsed-rollover_bound_example : spread_elapsed hash fleet 7 roster (11 * hour) ≡ true
spread_elapsed-rollover_bound_example =
    spread_elapsed-rollover_bound hash fleet 7 roster (11 * hour)
      (unfold rollover_bound new in omega arith)

spread_elapsed-booking_example : spread_elapsed hash fleet 7 booking (9 * hour + 10 * minute) ≡ true
spread_elapsed-booking_example =
    spread_elapsed-booking hash fleet 7 booking (9 * hour + 10 * minute) (17 * hour) refl refl
      (omega arith) (omega arith)
