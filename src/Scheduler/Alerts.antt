-- ===== src/Scheduler/Alerts.antt =====
-- internal/scheduler/scheduler.go and notify.go: how often the operator is alerted under one key, what
-- makes a pass alarming, and the claims and holds of the notices to households. A delivery of its own
-- goroutine is a later step, with the time at which it ends.
pub mod Repeats
use pstonn.Prelude.{
  ℕ, ◌+◌, ◌-◌, ◌*◌, Bool, true, false, not, ◌&&◌, ◌||◌, Option, none, some, ◌∷◌, [], List, Text,
  codes, find, put, drop_if, ltb, leb, ◌==◌, if◌then◌else◌, text_eq, text_key, length,
}
use pstonn.Clock.{minute, hour}
use pstonn.Scheduler.{Scheduler, Notice}
use pstonn.Scheduler.Drift.{is_some, is_before}

abbrev pub system_alert_throttle : ℕ
system_alert_throttle = 30 * minute

abbrev pub system_alert_retry : ℕ
system_alert_retry = 5 * minute

abbrev pub throttle_of : ℕ → ℕ
throttle_of throttle = if throttle == 0 then system_alert_throttle else throttle

abbrev pub retry_of : Scheduler → ℕ → ℕ
retry_of s throttle =
    if s.alert_retry == 0 || leb throttle s.alert_retry then system_alert_retry else s.alert_retry

-- now.Sub(t) < throttle.
abbrev pub is_recent_alert : ℕ → ℕ → Option ℕ → Bool
is_recent_alert now throttle none = false
is_recent_alert now throttle (some t) = ltb now (t + throttle)

-- The claim of the slot, and whether a delivery is started. `configured`: the operator has an address.
-- Times stand further than a throttle after their origin, so the stamp set back is a time.
unfoldable pub system_alert_every : Bool → Scheduler → ℕ → Text → ℕ → Scheduler × Bool
unfolding find put
system_alert_every configured s now key every =
    let throttle = throttle_of every in
    if not configured
    then (s, false)
    else if is_recent_alert now throttle (find key s.last_alert)
    then (s, false)
    else (
      record s { last_alert = put key (now + retry_of s throttle - throttle) s.last_alert },
      true,
    )

unfoldable pub system_alert : Bool → Scheduler → ℕ → Text → Scheduler × Bool
unfolding system_alert_every
system_alert configured s now key = system_alert_every configured s now key system_alert_throttle

-- The end of the delivery.
unfoldable pub alert_done : Scheduler → ℕ → Text → Bool → Scheduler
unfolding put
alert_done s now key delivered =
    if delivered then record s { last_alert = put key now s.last_alert } else s

-- The owners whose permits failed, failed in an unexpected shape, or met a council that is busy.
pub record PassStats : Type 0 where
  pub fail_owners : List (Text × Unit {0})
  pub unexpected_owners : List (Text × Unit {0})
  pub busy_owners : List (Text × Unit {0})

unfoldable pub detect_systemic : Option PassStats → ℕ → List Notice
detect_systemic none total = []
detect_systemic (some stats) total =
    let fail = length stats.fail_owners in
    let unexpected = length stats.unexpected_owners in
    let busy = length stats.busy_owners in
    if (leb 3 busy || (leb 2 total && busy == total)) && not (leb 2 unexpected || leb 3 fail)
    then Notice.system_alert (codes "council-busy-block") ∷ []
    else if leb 2 unexpected || (leb 3 fail || (leb 2 total && fail == total))
    then Notice.system_alert (codes "multi-user-fail") ∷ []
    else []

unfoldable pub claim_notify : Scheduler → Text → Scheduler × Bool
unfolding find put
claim_notify s claim =
    if is_some (find claim s.notify_in_flight)
    then (s, false)
    else (record s { notify_in_flight = put claim tt s.notify_in_flight }, true)

unfoldable pub release_notify : Scheduler → Text → Scheduler
unfolding drop_if
release_notify s claim = record s { notify_in_flight = drop_if (text_eq claim) s.notify_in_flight }

-- Holds that ended more than an hour ago are dropped.
unfoldable pub sweep_holds : ℕ → List (Text × ℕ) → List (Text × ℕ)
sweep_holds now [] = []
sweep_holds now ((k, t) ∷ m) =
    let rest = sweep_holds now m in if ltb (t + hour) now then rest else (k, t) ∷ rest

unfoldable pub hold_notify : Scheduler → ℕ → Text → Scheduler
unfolding put sweep_holds
hold_notify s now claim = if s.notify_retry == 0 then s else record s {
  notify_retry_at = put claim (now + s.notify_retry) (sweep_holds now s.notify_retry_at);
}

unfoldable pub notify_held : Scheduler → Text → ℕ → Bool
unfolding find
notify_held s claim now = is_before now (find claim s.notify_retry_at)

unfoldable pub release_notify_hold : Scheduler → Text → Scheduler
unfolding drop_if
release_notify_hold s claim = record s {
  notify_retry_at = drop_if (text_eq claim) s.notify_retry_at;
}
