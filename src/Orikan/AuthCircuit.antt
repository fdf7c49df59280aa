-- ===== src/Orikan/AuthCircuit.antt =====
-- internal/provider/orikan/authcircuit.go: the circuit that spares the sign-in service during an
-- outage. The mutex makes each method one step.
pub mod Backoff
pub mod Probe
pub mod Stale
pub mod Tests
use pstonn.Prelude.{ℕ, ◌+◌, ◌-◌, ◌*◌, Bool, true, false, not, leb, ltb, ◌==◌, if◌then◌else◌}
use pstonn.Clock.{minute, is_zero, elapsed}

abbrev pub auth_trip_threshold : ℕ
auth_trip_threshold = 3

abbrev pub auth_probe_base : ℕ
auth_probe_base = 1 * minute

abbrev pub auth_probe_max : ℕ
auth_probe_max = 15 * minute

pub record AuthCircuit : Type 0 where
  pub fails : ℕ
  pub open_until : ℕ
  pub backoff : ℕ
  pub probing : Bool

-- The zero value.
abbrev pub new_circuit : AuthCircuit
new_circuit = record { fails = 0; open_until = 0; backoff = 0; probing = false }

-- What allow returns.
pub record Answer : Type 0 where
  pub probe : Bool
  pub ok : Bool
  pub retry : ℕ

unfoldable pub remaining_locked : AuthCircuit → ℕ → ℕ
remaining_locked a now = if ltb now a.open_until then elapsed a.open_until now else 0

unfoldable pub allow : AuthCircuit → ℕ → AuthCircuit × Answer
unfolding remaining_locked
allow a now =
    if is_zero a.open_until
    then (a, record { probe = false; ok = true; retry = 0 })
    else (if a.probing
        then (let r = remaining_locked a now in
            if ltb 0 r
            then (a, record { probe = false; ok = false; retry = r })
            else (a, record { probe = false; ok = false; retry = a.backoff }))
        else (if ltb now a.open_until
            then (a, record { probe = false; ok = false; retry = elapsed a.open_until now })
            else (record a { probing = true }, record { probe = true; ok = true; retry = 0 })))

-- Twice the backoff, up to the cap.
unfoldable pub escalated : ℕ → ℕ
escalated backoff =
    let doubled = backoff * 2 in if ltb auth_probe_max doubled then auth_probe_max else doubled

unfoldable pub on_upstream_failure : AuthCircuit → ℕ → Bool → AuthCircuit
unfolding escalated
on_upstream_failure a now true = record a {
  probing = false;
  backoff = escalated a.backoff;
  open_until = now + escalated a.backoff;
}
on_upstream_failure a now false =
    if not (is_zero a.open_until)
    then a
    else (let counted = record a { fails = a.fails + 1 } in
        if leb auth_trip_threshold (a.fails + 1)
        then record counted { backoff = auth_probe_base; open_until = now + auth_probe_base }
        else counted)

unfoldable pub on_success : AuthCircuit → Bool → AuthCircuit
on_success a was_probe = record a {
  probing = if was_probe then false else a.probing;
  fails = 0;
  open_until = 0;
  backoff = 0;
}

unfoldable pub on_inconclusive : AuthCircuit → ℕ → Bool → AuthCircuit
on_inconclusive a now false = a
on_inconclusive a now true =
    if not (is_zero a.open_until)
    then record a { probing = false; open_until = now + a.backoff }
    else record a { probing = false }

unfoldable pub state : AuthCircuit → ℕ → Bool × ℕ
unfolding remaining_locked
state a now = if is_zero a.open_until then (false, 0) else (true, remaining_locked a now)
