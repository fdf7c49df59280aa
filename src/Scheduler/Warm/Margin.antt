-- ===== src/Scheduler/Warm/Margin.antt =====
-- The margin between the renewal of a session and the end of its idle window.
use pstonn.Prelude.{ℕ, ◌+◌, ◌-◌, ◌*◌, ◌/◌, ◌^◌, ◌≤◌, ◌<◌, ◌≢◌, Text, text_key, arith, scaled_le}
use pstonn.Clock.{second, minute, elapsed}
use pstonn.Scheduler.{Scheduler}
use pstonn.Scheduler.Drift.{unit_scale}
use pstonn.Scheduler.Warm.{
  warm_retry_interval, warm_base, idle_window_for, scaled_down, warm_threshold_for, decide_warm,
  WarmAction,
}

-- The wait after a renewal that failed is shorter than the safety margin, if there is one to speak
-- of, and 30 minutes at the most.
warm_retry_interval_inside :
    (s : Scheduler)
    → 0 < s.warm_safety_margin
    → (warm_retry_interval s < s.warm_safety_margin) × (warm_retry_interval s ≤ 30 * minute)
unfolding warm_retry_interval
warm_retry_interval_inside s h = ground arith

scaled_down-le : (jitter draw base : ℕ) → scaled_down jitter draw base ≤ base
unfolding scaled_down
scaled_down-le jitter draw base =
    scaled_le base (1000 * unit_scale - draw * jitter) (1000 * unit_scale) (omega arith)

warm_threshold_for-le :
    (hash : Text → ℕ → ℕ) (s : Scheduler) (owner : Text) (updated_at idle_window : ℕ)
    → warm_threshold_for hash s owner updated_at idle_window ≤ warm_base s idle_window
unfolding warm_threshold_for
warm_threshold_for-le hash s owner updated_at idle_window = ground (
  arith,
  scaled_down-le s.jitter_frac (hash owner (updated_at / second) / 2 ^ 11)
      (warm_base s idle_window),
)

-- Renewal in time: with a safety margin above 0 and below the window that is used, the threshold and
-- one wait after a failed renewal end within the idle window that the provider declares, and a
-- session that is as old as its threshold is not skipped.
pub renewed_in_time :
    (hash : Text → ℕ → ℕ) (s : Scheduler) (owner : Text)
    (now last_active linked_at updated_at max_age declared : ℕ)
    → 0 < s.warm_safety_margin
    → s.warm_safety_margin < idle_window_for s declared
    → 0 < declared
    → warm_threshold_for hash s owner updated_at (idle_window_for s declared)
      ≤ elapsed now updated_at
    → (warm_threshold_for hash s owner updated_at (idle_window_for s declared)
          + warm_retry_interval s
        < declared)
      × (decide_warm now last_active linked_at updated_at max_age
            (warm_threshold_for hash s owner updated_at (idle_window_for s declared))
          ≢ WarmAction.warm_skip)
unfolding idle_window_for decide_warm
renewed_in_time hash s owner now last_active linked_at updated_at max_age declared margin room own
      old =
    (
      ground (
        arith,
        warm_threshold_for-le hash s owner updated_at (idle_window_for s declared),
        warm_retry_interval_inside s margin,
      ),
      ground arith,
    )
