-- ===== src/Orikan/AuthCircuit/Stale.antt =====
-- A success of a request that was admitted before the circuit opened, reported while the probe is
-- out, clears the backoff that the probe's failure then doubles.
use pstonn.Prelude.{ℕ, ◌≤◌, ◌<◌, ◌≡◌, refl, true, false, List, [], ◌∷◌, arith}
use pstonn.Orikan.AuthCircuit.{AuthCircuit, allow, escalated, on_upstream_failure, on_success}
use pstonn.Orikan.AuthCircuit.Backoff.{failed_probes}

failed-zero :
    (a : AuthCircuit) (t : ℕ)
    → a.backoff ≡ 0
    → (on_upstream_failure (allow a t).0 t true).backoff ≡ 0
unfolding on_upstream_failure allow escalated
failed-zero a t h = ground arith

failed_probes-zero :
    (a : AuthCircuit) (ts : List ℕ) → a.backoff ≡ 0 → (failed_probes a ts).backoff ≡ 0
unfolding failed_probes
failed_probes-zero a [] h = h
failed_probes-zero a (t ∷ ts) h =
    failed_probes-zero (on_upstream_failure (allow a t).0 t true) ts (failed-zero a t h)

cleared :
    (a : AuthCircuit) (now : ℕ) → (on_upstream_failure (on_success a false) now true).backoff ≡ 0
unfolding on_upstream_failure on_success escalated
cleared a now = refl

due :
    (a : AuthCircuit) (t later : ℕ)
    → 0 < t
    → t ≤ later
    → a.backoff ≡ 0
    → (allow (on_upstream_failure (allow a t).0 t true) later).1.probe ≡ true
unfolding on_upstream_failure allow escalated
due a t later p h z = ground arith

-- After a success of a non-probe request and then a probe's failure, the backoff is zero; it stays
-- zero through every further failed probe, and after one that fails at an instant `t` after the
-- zero Time, a request at any later instant, `t` included, is admitted as the next probe.
pub late_success_stops_backoff :
    (a : AuthCircuit) (now : ℕ) (ts : List ℕ) (t later : ℕ)
    → 0 < t
    → t ≤ later
    → let b = failed_probes (on_upstream_failure (on_success a false) now true) ts in
      (b.backoff ≡ 0) × ((allow (on_upstream_failure (allow b t).0 t true) later).1.probe ≡ true)
late_success_stops_backoff a now ts t later p h =
    let z =
      failed_probes-zero (on_upstream_failure (on_success a false) now true) ts (cleared a now) in
    (z, due (failed_probes (on_upstream_failure (on_success a false) now true) ts) t later p h z)
