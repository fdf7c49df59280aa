-- ===== src/Scheduler/Rollover/Slots.antt =====
-- How long a change is held at most.
use pstonn.Prelude.{ℕ, ◌+◌, ◌-◌, ◌*◌, ◌/◌, ◌≤◌, ◌<◌, ◌≡◌, min, true, some, arith}
use pstonn.Clock.{minute}
use pstonn.Model.Schedule.{Resolution, Source}
use pstonn.Scheduler.{Scheduler}
use pstonn.Scheduler.Rollover.{
  effective_spread, spread_offset, tenth_of, hold_of, spread_elapsed, rollover_bound,
}

-- No change of a fleet is held past the bound that the operator is shown for it.
pub spread_elapsed-rollover_bound :
    (hash : ℕ → ℕ) (s : Scheduler) (permit : ℕ) (res : Resolution) (now : ℕ)
    → res.since + (rollover_bound s s.fleet_size).0 ≤ now
    → spread_elapsed hash s permit res now ≡ true
unfolding spread_elapsed rollover_bound effective_spread
spread_elapsed-rollover_bound hash s permit res now h = ground arith

hold_of-booking :
    (res : Resolution) (offset until : ℕ)
    → res.source ≡ Source.source_override
    → res.until ≡ some until
    → res.since < until
    → hold_of res offset ≤ min ((until - res.since) / 10) (10 * minute)
unfolding hold_of tenth_of
hold_of-booking res offset until b e h = rw (b, e) (ground arith)

-- A booking is never held for more than a tenth of its length, or for more than ten minutes, and so
-- never until its end.
pub spread_elapsed-booking :
    (hash : ℕ → ℕ) (s : Scheduler) (permit : ℕ) (res : Resolution) (now until : ℕ)
    → res.source ≡ Source.source_override
    → res.until ≡ some until
    → res.since < until
    → res.since + min ((until - res.since) / 10) (10 * minute) ≤ now
    → spread_elapsed hash s permit res now ≡ true
unfolding spread_elapsed
spread_elapsed-booking hash s permit res now until b e h late =
    ground (arith, hold_of-booking res (spread_offset hash permit (effective_spread s)) until b e h)

-- A change that has its turn keeps it: what is due at one time is due at every later time.
spread_elapsed-later :
    (hash : ℕ → ℕ) (s : Scheduler) (permit : ℕ) (res : Resolution) (now later : ℕ)
    → res.since ≤ now
    → now ≤ later
    → spread_elapsed hash s permit res now ≡ true
    → spread_elapsed hash s permit res later ≡ true
unfolding spread_elapsed
spread_elapsed-later hash s permit res now later begun h due = ground arith
