-- ===== src/Scheduler/Warm.antt =====
-- internal/scheduler/warm.go: when an idle session is renewed so that its cookie does not lapse,
-- when it is retired, and how a renewal that fails is held back.
pub mod Margin
mod Tests
use pstonn.Prelude.{
  ℕ, ◌+◌, ◌-◌, ◌*◌, ◌/◌, ◌^◌, ◌%◌, min, Bool, true, false, ◌&&◌, ◌||◌, not, Option, none, some, ◌∷◌,
  [], ◌++◌, List, Text, codes, find, put, drop_if, ltb, leb, ◌==◌, if◌then◌else◌, text_eq, text_key,
}
use pstonn.Clock.{second, minute, is_zero, elapsed}
use pstonn.Scheduler.{Scheduler, SessionKey, same_session, session_key}
use pstonn.Scheduler.Drift.{unit_scale, is_before}

-- The floor and the ceiling of a quarter of the margin, then strictly inside the margin.
unfoldable pub warm_retry_interval : Scheduler → ℕ
warm_retry_interval s =
    let d = s.warm_safety_margin / 4 in
    let d = if ltb d (5 * minute) then 5 * minute else d in
    let d = if ltb (30 * minute) d then 30 * minute else d in
    if ltb 0 s.warm_safety_margin && leb s.warm_safety_margin d then s.warm_safety_margin / 2 else d

unfoldable pub note_warm_failure : Scheduler → ℕ → SessionKey → Scheduler
unfolding put warm_retry_interval
note_warm_failure s now k = record s {
  warm_retry_at = put k (now + warm_retry_interval s) s.warm_retry_at;
}

unfoldable pub clear_warm_backoff : Scheduler → (SessionKey → Bool) → Scheduler
unfolding drop_if
clear_warm_backoff s match = record s { warm_retry_at = drop_if match s.warm_retry_at }

unfoldable pub note_warm_success : Scheduler → SessionKey → Scheduler
unfolding clear_warm_backoff
note_warm_success s k = clear_warm_backoff s (same_session k)

unfoldable pub warm_backed_off : Scheduler → ℕ → SessionKey → Bool
unfolding find
warm_backed_off s now k = is_before now (find k s.warm_retry_at)

pub data WarmAction : Type 0 where
  warm_skip warm_renew warm_retire : WarmAction

unfoldable pub decide_warm : ℕ → ℕ → ℕ → ℕ → ℕ → ℕ → WarmAction
decide_warm now last_active linked_at updated_at max_age warm_interval =
    let idle_since = if is_zero last_active then linked_at else last_active in
    if ltb 0 max_age && (is_zero idle_since || leb max_age (elapsed now idle_since))
    then WarmAction.warm_retire
    else if ltb (elapsed now updated_at) warm_interval
    then WarmAction.warm_skip
    else WarmAction.warm_renew

-- The idle window that the provider declares, 0 where it declares none.
unfoldable pub idle_window_for : Scheduler → ℕ → ℕ
idle_window_for s declared =
    if ltb 0 declared
    then if ltb 0 s.idle_window then min declared s.idle_window else declared
    else s.idle_window

abbrev pub warm_base : Scheduler → ℕ → ℕ
warm_base s idle_window =
    let ceil = idle_window - s.warm_safety_margin in
    if ltb 0 idle_window && ltb 0 ceil && ltb ceil s.warm_interval then ceil else s.warm_interval

-- base·(1 - u·jitter) for the fraction u = `draw` / 2^53, rounded down.
unfoldable pub scaled_down : ℕ → ℕ → ℕ → ℕ
scaled_down jitter draw base = base * (1000 * unit_scale - draw * jitter) / (1000 * unit_scale)

-- `hash` is the 64-bit FNV-1a sum of the owner and of the seconds as eight bytes.
unfoldable pub warm_threshold_for : (Text → ℕ → ℕ) → Scheduler → Text → ℕ → ℕ → ℕ
unfolding scaled_down
warm_threshold_for hash s owner updated_at idle_window =
    let base = warm_base s idle_window in
    if s.jitter_frac == 0
    then base
    else scaled_down s.jitter_frac (hash owner (updated_at / second) / 2 ^ 11) base
