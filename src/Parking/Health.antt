-- ===== src/Parking/Health.antt =====
-- internal/parking/health.go: the state of a connector, derived from the outcomes of the operations
-- that the program performs anyway.
pub mod Breadth
pub mod Tests
use pstonn.Prelude.{
  ℕ, ◌+◌, ◌*◌, Bool, true, false, not, ◌&&◌, ◌||◌, Option, List, [], Text, Map, insert, delete,
  keep_values, length, ltb, leb, ◌==◌, if◌then◌else◌,
}
use pstonn.Clock.{minute, is_zero, elapsed}
use pstonn.Provider.{Link, Signal, classify}

-- The states from the least to the most alarming, and a string that is none of them.
pub data ConnectorState : Type 0 where
  idle healthy degraded rate_limited upstream_changed auth_failed blocked : ConnectorState
  unknown_state : Text → ConnectorState

abbrev pub health_signal_window : ℕ
health_signal_window = 30 * minute

abbrev pub health_idle_after : ℕ
health_idle_after = 90 * minute

abbrev pub health_auth_reject_owners : ℕ
health_auth_reject_owners = 2

abbrev pub health_unexpected_owners : ℕ
health_unexpected_owners = 2

abbrev pub health_degraded_after : ℕ
health_degraded_after = 3

-- connectorStateRank; a missing key reads as 0.
unfoldable pub connector_state_rank : ConnectorState → ℕ
connector_state_rank idle = 0
connector_state_rank healthy = 1
connector_state_rank degraded = 2
connector_state_rank rate_limited = 3
connector_state_rank upstream_changed = 4
connector_state_rank auth_failed = 5
connector_state_rank blocked = 6
connector_state_rank (unknown_state s) = 0

unfoldable pub worse_connector_state : ConnectorState → ConnectorState → ConnectorState
worse_connector_state a b = if ltb (connector_state_rank a) (connector_state_rank b) then b else a

pub record ConnectorHealth : Type 0 where
  pub last_attempt : ℕ
  pub last_success : ℕ
  pub consec_fails : ℕ
  pub auth_rejects : Map ℕ
  pub unexpected : Map ℕ
  pub login_shape_at : ℕ

abbrev pub new_health : ConnectorHealth
new_health = record {
  last_attempt = 0;
  last_success = 0;
  consec_fails = 0;
  auth_rejects = [];
  unexpected = [];
  login_shape_at = 0;
}

-- Still inside the signal window.
abbrev pub is_recent : ℕ → ℕ → Bool
is_recent now at = not (ltb health_signal_window (elapsed now at))

unfoldable pub prune_locked : ConnectorHealth → ℕ → ConnectorHealth
prune_locked h now = record h {
  auth_rejects = keep_values (is_recent now) h.auth_rejects;
  unexpected = keep_values (is_recent now) h.unexpected;
}

-- The switch of noteAt over what failed.
unfoldable pub note_failure : ConnectorHealth → Text → Signal → ℕ → ConnectorHealth
note_failure h owner sig now =
    if sig.login_shape
    then record h { login_shape_at = now }
    else (if sig.login_rejected
        then record h { auth_rejects = insert owner now h.auth_rejects }
        else (if sig.unexpected
            then record h { unexpected = insert owner now h.unexpected }
            else h))

-- noteAt on the signal of the error.
unfoldable pub note_signal : ConnectorHealth → Text → Signal → ℕ → ConnectorHealth
unfolding note_failure prune_locked
note_signal h owner sig now =
    if sig.canceled
    then h
    else (if sig.ok
        then record h {
          last_attempt = now;
          last_success = now;
          consec_fails = 0;
          auth_rejects = delete owner h.auth_rejects;
        }
        else prune_locked
            (note_failure (record h { last_attempt = now; consec_fails = h.consec_fails + 1 }) owner
              sig now)
            now)

unfoldable pub note_at : ConnectorHealth → Text → Option (List Link) → ℕ → ConnectorHealth
unfolding note_signal classify
note_at h owner err now = note_signal h owner (classify err) now

-- What state reads of a PushbackEvent.
pub record PushbackEvent : Type 0 where
  pub at : ℕ
  pub status : ℕ

abbrev pub status_too_many_requests : ℕ
status_too_many_requests = 429

-- state, after its pruning.
unfoldable pub derive_state : ConnectorHealth → ℕ → Bool → PushbackEvent → ConnectorState
derive_state h now breaker_open last_pb =
    let recent_pb = not (is_zero last_pb.at) && is_recent now last_pb.at in
    if breaker_open
    then blocked
    else (if leb health_auth_reject_owners (length h.auth_rejects)
        then auth_failed
        else (if (not (is_zero h.login_shape_at) && is_recent now h.login_shape_at)
              || leb health_unexpected_owners (length h.unexpected)
            then upstream_changed
            else (if recent_pb && last_pb.status == status_too_many_requests
                then rate_limited
                else (if is_zero h.last_attempt
                      || ltb health_idle_after (elapsed now h.last_attempt)
                    then idle
                    else (if leb health_degraded_after h.consec_fails
                        then degraded
                        else healthy)))))

unfoldable pub state : ConnectorHealth → ℕ → Bool → PushbackEvent → ConnectorHealth × ConnectorState
unfolding derive_state prune_locked
state h now breaker_open last_pb =
    let h' = prune_locked h now in (h', derive_state h' now breaker_open last_pb)
