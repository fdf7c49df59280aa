-- ===== src/Orikan/AuthCircuit/Probe.antt =====
-- One probe at a time, and no gate without enough failures, over every sequence of calls.
use pstonn.Prelude.{ℕ, suc, ◌+◌, ◌<◌, ◌≡◌, ◌≢◌, Bool, true, false, List, [], ◌∷◌, All, arith}
use pstonn.Orikan.AuthCircuit.{
  AuthCircuit, auth_trip_threshold, allow, on_upstream_failure, on_success, on_inconclusive,
}

-- A call with its time, and with the `wasProbe` that its caller hands back.
pub data Call : Type 0 where
  asks : ℕ → Call
  fails_upstream : ℕ → Bool → Call
  succeeds : Bool → Call
  inconclusive : ℕ → Bool → Call

unfoldable pub step : AuthCircuit → Call → AuthCircuit
step a (asks now) = (allow a now).0
step a (fails_upstream now was_probe) = on_upstream_failure a now was_probe
step a (succeeds was_probe) = on_success a was_probe
step a (inconclusive now was_probe) = on_inconclusive a now was_probe

unfoldable pub run : AuthCircuit → List Call → AuthCircuit
run a [] = a
run a (c ∷ cs) = run (step a c) cs

-- The probe is still out, and nothing has shown the service to be up.
abbrev pub LeavesProbe : Call → Type 0
LeavesProbe (asks now) = Unit
LeavesProbe (fails_upstream now was_probe) = was_probe ≡ false
LeavesProbe (succeeds was_probe) = ⊥
LeavesProbe (inconclusive now was_probe) = was_probe ≡ false

record InFlight (a : AuthCircuit) : Type 0 where
  opened : a.open_until ≢ 0
  probing : a.probing ≡ true

step-InFlight : (a : AuthCircuit) (c : Call) → LeavesProbe c → InFlight a → InFlight (step a c)
unfolding step allow on_upstream_failure on_inconclusive
step-InFlight a (asks now) l f = ground arith
step-InFlight a (fails_upstream now was_probe) l f = ground arith
step-InFlight a (succeeds was_probe) l f = absurd l
step-InFlight a (inconclusive now was_probe) l f = ground arith

run-InFlight :
    (a : AuthCircuit) (cs : List Call) → All LeavesProbe cs → InFlight a → InFlight (run a cs)
unfolding run
run-InFlight a [] l f = f
run-InFlight a (c ∷ cs) l f = run-InFlight (step a c) cs l.1 (step-InFlight a c l.0 f)

admitted-InFlight :
    (a : AuthCircuit) (now : ℕ) → (allow a now).1.probe ≡ true → InFlight (allow a now).0
unfolding allow
admitted-InFlight a now p = ground arith

refused-InFlight : (a : AuthCircuit) (now : ℕ) → InFlight a → (allow a now).1.ok ≡ false
unfolding allow
refused-InFlight a now f = ground arith

-- From the admission of a probe until its outcome or a success is reported, whatever else is, every
-- request is refused.
pub probe_exclusive :
    (a : AuthCircuit) (now : ℕ) (cs : List Call) (later : ℕ)
    → (allow a now).1.probe ≡ true
    → All LeavesProbe cs
    → (allow (run (allow a now).0 cs) later).1.ok ≡ false
probe_exclusive a now cs later p l =
    refused-InFlight (run (allow a now).0 cs) later
      (run-InFlight (allow a now).0 cs l (admitted-InFlight a now p))

-- The upstream failures in a list of calls.
unfoldable pub failures : List Call → ℕ
failures [] = 0
failures (asks now ∷ cs) = failures cs
failures (fails_upstream now was_probe ∷ cs) = suc (failures cs)
failures (succeeds was_probe ∷ cs) = failures cs
failures (inconclusive now was_probe ∷ cs) = failures cs

abbrev pub NoProbe : Call → Type 0
NoProbe (asks now) = Unit
NoProbe (fails_upstream now was_probe) = was_probe ≡ false
NoProbe (succeeds was_probe) = was_probe ≡ false
NoProbe (inconclusive now was_probe) = was_probe ≡ false

step-fails :
    (a : AuthCircuit) (c : Call) (cs : List Call)
    → NoProbe c
    → a.open_until ≡ 0
    → a.fails + failures (c ∷ cs) < auth_trip_threshold
    → ((step a c).open_until ≡ 0) × ((step a c).fails + failures cs < auth_trip_threshold)
unfolding step allow on_upstream_failure on_success on_inconclusive failures
step-fails a (asks now) cs p z h = ground arith
step-fails a (fails_upstream now was_probe) cs p z h = ground arith
step-fails a (succeeds was_probe) cs p z h = ground arith
step-fails a (inconclusive now was_probe) cs p z h = ground arith

-- A closed circuit that counts fewer than three upstream failures in all, over calls that are not
-- probes' outcomes, admits every request, whatever other results come between the failures.
pub few_failures_serve :
    (a : AuthCircuit) (cs : List Call) (now : ℕ)
    → a.open_until ≡ 0
    → All NoProbe cs
    → a.fails + failures cs < auth_trip_threshold
    → (allow (run a cs) now).1.ok ≡ true
unfolding run
few_failures_serve a [] now z p h = unfold allow in ground arith
few_failures_serve a (c ∷ cs) now z p h =
    let (z', h') = step-fails a c cs p.0 z h in few_failures_serve (step a c) cs now z' p.1 h'
