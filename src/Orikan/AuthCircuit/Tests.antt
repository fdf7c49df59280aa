-- ===== src/Orikan/AuthCircuit/Tests.antt =====
-- An outage of the sign-in service.
use pstonn.Prelude.{◌*◌, ◌^◌, ◌≡◌, refl, true, false, [], ◌∷◌, arith, min}
use pstonn.Clock.{minute}
use pstonn.Orikan.AuthCircuit.{
  AuthCircuit, auth_probe_base, auth_probe_max, new_circuit, allow, on_upstream_failure, on_success,
}
use pstonn.Orikan.AuthCircuit.Backoff.{failed_probes, trip, backoff_doubles}
use pstonn.Orikan.AuthCircuit.Probe.{asks, inconclusive, run, probe_exclusive}
use pstonn.Orikan.AuthCircuit.Stale.{late_success_stops_backoff}

abbrev two_failed : AuthCircuit
two_failed = record new_circuit { fails = 2 }

abbrev waiting : AuthCircuit
waiting = record { fails = 3; open_until = 2 * minute; backoff = minute; probing = false }

backoff_doubles_example :
    (failed_probes (trip two_failed minute) (2 * minute ∷ 4 * minute ∷ [])).backoff
    ≡ min auth_probe_max (2 ^ 2 * auth_probe_base)
backoff_doubles_example =
    (backoff_doubles two_failed minute (2 * minute ∷ 4 * minute ∷ []) (8 * minute) refl
      (omega arith)).0

probe_exclusive_example :
    (allow
      (run
        (allow waiting (2 * minute)).0
        (asks (3 * minute) ∷ inconclusive (3 * minute) false ∷ []))
      (9 * minute)).1.ok
    ≡ false
probe_exclusive_example =
    probe_exclusive waiting (2 * minute) (asks (3 * minute) ∷ inconclusive (3 * minute) false ∷ [])
      (9 * minute) (unfold allow in refl) (tt, (refl, tt))

late_success_stops_backoff_example :
    (failed_probes
      (on_upstream_failure (on_success waiting false) (3 * minute) true)
      (3 * minute ∷ [])).backoff
    ≡ 0
late_success_stops_backoff_example =
    (late_success_stops_backoff waiting (3 * minute) (3 * minute ∷ []) (3 * minute) (3 * minute)
      (omega arith) (omega arith)).0
