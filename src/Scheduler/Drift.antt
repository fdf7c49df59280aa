-- ===== src/Scheduler/Drift.antt =====
-- internal/scheduler/drift.go: when an owner's permits are read again to see whether somebody
-- changed a plate at the council, and how a read that fails is held back.
pub mod Pace
use pstonn.Prelude.{
  ℕ, suc, ◌+◌, ◌-◌, ◌*◌, ◌/◌, ◌^◌, min, Bool, true, false, ◌&&◌, Option, none, some, ◌∷◌, [], ◌++◌,
  List, Text, codes, find, put, drop_if, ltb, leb, ◌==◌, if◌then◌else◌, text_eq, text_key,
}
use pstonn.Clock.{minute, is_zero, elapsed}
use pstonn.Provider.{FailureKind, Link, failure_of}
use pstonn.Scheduler.{Scheduler, Notice, TenantSession}
use pstonn.Scheduler.Churn.{
  note, prune_churn, seen_owners, distinct_owners, session_churn_alert_owners,
}

abbrev pub unit_scale : ℕ
unit_scale = 2 ^ 53

-- d scaled by 1 + (2u - 1)·jitter for the fraction u = `draw` / 2^53, rounded down.
unfoldable pub scaled : ℕ → ℕ → ℕ → ℕ
scaled jitter draw d =
    d * (1000 * unit_scale + 2 * draw * jitter - unit_scale * jitter) / (1000 * unit_scale)

-- `hash` is the 64-bit FNV-1a sum.
unfoldable pub drift_threshold_for : (Text → ℕ) → Scheduler → Text → ℕ
unfolding scaled
drift_threshold_for hash s owner =
    if s.jitter_frac == 0
    then s.drift_interval
    else scaled s.jitter_frac (hash (codes "drift:" ++ owner) / 2 ^ 11) s.drift_interval

-- The wait after `n` failures in a row: the loop multiplies by 4 while 1 < n and at most 4 times.
unfoldable pub drift_ladder : ℕ → ℕ
drift_ladder n = 15 * minute * 4 ^ min (n - 1) 4

unfoldable pub drift_backoff : Scheduler → ℕ → ℕ
unfolding drift_ladder
drift_backoff s n =
    let backoff = drift_ladder n in
    if ltb 0 s.drift_interval && ltb s.drift_interval backoff then s.drift_interval else backoff

abbrev pub count_of : Option ℕ → ℕ
count_of none = 0
count_of (some n) = n

-- The tally of the owners whose read failed in an unexpected shape.
unfoldable pub tally_shape : Scheduler → ℕ → Text → FailureKind → Scheduler × List Notice
unfolding prune_churn seen_owners
tally_shape s now owner FailureKind.fail_unexpected =
    let shape = note s.drift_shape now owner in
    (
      record s { drift_shape = shape },
      if leb session_churn_alert_owners (distinct_owners shape)
          then Notice.system_alert (codes "drift-shape") ∷ []
          else [],
    )
tally_shape s now owner _ = (s, [])

unfoldable pub note_drift_failure : Scheduler → ℕ → Text → List Link → Scheduler × List Notice
unfolding drift_backoff find put tally_shape failure_of
note_drift_failure s now owner err =
    let n = count_of (find owner s.drift_fails) + 1 in
    tally_shape
      (record s {
        drift_fails = put owner n s.drift_fails;
        drift_retry_at = put owner (now + drift_backoff s n) s.drift_retry_at;
      })
      now owner (failure_of err)

unfoldable pub note_drift_success : Scheduler → Text → Scheduler
unfolding drop_if
note_drift_success s owner = record s {
  drift_fails = drop_if (text_eq owner) s.drift_fails;
  drift_retry_at = drop_if (text_eq owner) s.drift_retry_at;
}

unfoldable pub note_drift_deferred : (Text → ℕ) → Scheduler → ℕ → Text → Scheduler
unfolding drop_if put drift_threshold_for
note_drift_deferred hash s now owner = record s {
  drift_fails = drop_if (text_eq owner) s.drift_fails;
  drift_retry_at = put owner (now + drift_threshold_for hash s owner) s.drift_retry_at;
}

-- at, ok := m[k]; return ok && now.Before(at)
abbrev pub is_before : ℕ → Option ℕ → Bool
is_before now none = false
is_before now (some at) = ltb now at

unfoldable pub drift_backed_off : Scheduler → ℕ → Text → Bool
unfolding find
drift_backed_off s now owner = is_before now (find owner s.drift_retry_at)

unfoldable pub request_drift_soon : Scheduler → Text → Scheduler
unfolding put
request_drift_soon s owner = record s { drift_asap = put owner tt s.drift_asap }

abbrev pub is_some {ℓ} : {A : Type ℓ} → Option A → Bool
is_some none = false
is_some (some _) = true

unfoldable pub drift_requested : Scheduler → Text → Bool
unfolding find
drift_requested s owner = is_some (find owner s.drift_asap)

unfoldable pub clear_drift_request : Scheduler → Text → Scheduler
unfolding drop_if
clear_drift_request s owner = record s { drift_asap = drop_if (text_eq owner) s.drift_asap }

unfoldable pub drift_due : (Text → ℕ) → Scheduler → TenantSession → ℕ → Bool
unfolding drift_backed_off drift_requested drift_threshold_for
drift_due hash s cs now =
    let baseline = if is_zero cs.drift_checked_at then cs.updated_at else cs.drift_checked_at in
    if s.drift_interval == 0
    then false
    else if drift_backed_off s now cs.owner
    then false
    else if drift_requested s cs.owner
    then true
    else leb (drift_threshold_for hash s cs.owner) (elapsed now baseline)
