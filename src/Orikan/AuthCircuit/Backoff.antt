-- ===== src/Orikan/AuthCircuit/Backoff.antt =====
-- How the wait before the next probe grows during an outage.
use pstonn.Prelude.{
  ℕ, suc, ◌+◌, ◌*◌, ◌^◌, ◌≤◌, ◌≡◌, sym, ap, ◌∙◌, true, false, List, [], ◌∷◌, length, min, arith,
}
use native.Mathlib.Nat.{pow-suc, add-zero, zero-add}
use pstonn.Orikan.AuthCircuit.{
  AuthCircuit, auth_trip_threshold, auth_probe_base, auth_probe_max, allow, escalated,
  on_upstream_failure,
}

-- Probes at the given times, each asked for and each reported as failed.
unfoldable pub failed_probes : AuthCircuit → List ℕ → AuthCircuit
failed_probes a [] = a
failed_probes a (t ∷ ts) = failed_probes (on_upstream_failure (allow a t).0 t true) ts

escalated-min :
    (k : ℕ)
    → escalated (min auth_probe_max (2 ^ k * auth_probe_base))
      ≡ min auth_probe_max (2 ^ suc k * auth_probe_base)
unfolding escalated
escalated-min k = ground (arith, pow-suc 2 k)

backoff-failed :
    (a : AuthCircuit) (t : ℕ)
    → (on_upstream_failure (allow a t).0 t true).backoff ≡ escalated a.backoff
unfolding on_upstream_failure allow
backoff-failed a t = ground arith

failed_probes-from :
    (a : AuthCircuit) (k : ℕ) (ts : List ℕ)
    → a.backoff ≡ min auth_probe_max (2 ^ k * auth_probe_base)
    → (failed_probes a ts).backoff ≡ min auth_probe_max (2 ^ (k + length ts) * auth_probe_base)
unfolding failed_probes
failed_probes-from a k [] h =
    h ∙ ap (λ n. min auth_probe_max (2 ^ n * auth_probe_base)) (sym (add-zero k))
failed_probes-from a k (t ∷ ts) h =
    failed_probes-from (on_upstream_failure (allow a t).0 t true) (suc k) ts
      (backoff-failed a t ∙ ap escalated h ∙ escalated-min k)
    ∙ ap (λ n. min auth_probe_max (2 ^ n * auth_probe_base)) (suc-add_comm k (length ts))
  where
    suc-add_comm : (k n : ℕ) → suc k + n ≡ k + suc n
    suc-add_comm k n = omega arith

-- The failure that trips the circuit.
pub trip : AuthCircuit → ℕ → AuthCircuit
trip a now = on_upstream_failure a now false

backoff-trip :
    (a : AuthCircuit) (now : ℕ)
    → a.open_until ≡ 0
    → auth_trip_threshold ≤ a.fails + 1
    → (trip a now).backoff ≡ min auth_probe_max (2 ^ 0 * auth_probe_base)
unfolding trip on_upstream_failure
backoff-trip a now c h = ground arith

open_until-failed :
    (a : AuthCircuit) (t : ℕ)
    → let b = on_upstream_failure (allow a t).0 t true in b.open_until ≡ t + b.backoff
unfolding on_upstream_failure allow
open_until-failed a t = ground arith

-- If a failure trips a closed circuit and any number of probes then fail, the wait before the next
-- probe is a minute doubled once for each of them, up to fifteen minutes; a further probe that
-- fails at `t` sets the deadline to `t` plus the next of these waits.
pub backoff_doubles :
    (a : AuthCircuit) (now : ℕ) (ts : List ℕ) (t : ℕ)
    → a.open_until ≡ 0
    → auth_trip_threshold ≤ a.fails + 1
    → let b = failed_probes (trip a now) ts in
      let c = on_upstream_failure (allow b t).0 t true in
      (b.backoff ≡ min auth_probe_max (2 ^ length ts * auth_probe_base))
      × (c.open_until ≡ t + min auth_probe_max (2 ^ suc (length ts) * auth_probe_base))
backoff_doubles a now ts t c h =
    let b = failed_probes (trip a now) ts in
    let e =
      failed_probes-from (trip a now) 0 ts (backoff-trip a now c h)
      ∙ ap (λ n. min auth_probe_max (2 ^ n * auth_probe_base)) (zero-add (length ts)) in
    (
      e,
      open_until-failed b t
          ∙ ap (λ w. t + w) (backoff-failed b t ∙ ap escalated e ∙ escalated-min (length ts)),
    )
