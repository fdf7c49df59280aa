-- ===== src/Scheduler/Warm/Tests.antt =====
-- A portal that lets a session idle for three hours.
use pstonn.Prelude.{ℕ, ◌+◌, ◌*◌, ◌^◌, ◌<◌, ◌≤◌, ◌≢◌, Text, codes, arith}
use pstonn.Clock.{hour, elapsed}
use pstonn.Scheduler.{Scheduler, new}
use pstonn.Scheduler.Warm.{
  WarmAction, decide_warm, warm_threshold_for, warm_retry_interval, idle_window_for, scaled_down,
}
use pstonn.Scheduler.Warm.Margin.{renewed_in_time}

abbrev defaults : Scheduler
defaults = new (record {
  session_max_age = 1000 * hour;
  warm_interval = 0;
  jitter_frac = 0;
  op_drain = 0;
  spread_window = 0;
  drift_interval = 0;
  idle_window = 0;
  warm_safety_margin = 0;
})

abbrev hash : Text → ℕ → ℕ
hash owner seconds = 2 ^ 63

abbrev window : ℕ
window = idle_window_for defaults (3 * hour)

is_old :
    warm_threshold_for hash defaults (codes "a@b") (100 * hour) window
    ≤ elapsed (103 * hour) (100 * hour)
unfolding warm_threshold_for scaled_down idle_window_for new
is_old = omega arith

renewed_in_time_example :
    (warm_threshold_for hash defaults (codes "a@b") (100 * hour) window
        + warm_retry_interval defaults
      < 3 * hour)
    × (decide_warm
          (103 * hour)
          (90 * hour)
          (80 * hour)
          (100 * hour)
          (1000 * hour)
          (warm_threshold_for hash defaults (codes "a@b") (100 * hour) window)
        ≢ WarmAction.warm_skip)
unfolding new
renewed_in_time_example =
    renewed_in_time hash defaults (codes "a@b") (103 * hour) (90 * hour) (80 * hour) (100 * hour)
      (1000 * hour) (3 * hour) (omega arith) (unfold idle_window_for in omega arith) (omega arith)
      is_old
