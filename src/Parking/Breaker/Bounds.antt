-- ===== src/Parking/Breaker/Bounds.antt =====
-- When the circuit refuses, for how long, and that it lets one probe through at a time.
use pstonn.Prelude.{
  ℕ, ◌+◌, ◌≤◌, ◌<◌, ◌≡◌, ◌⊎◌, refl, true, false, not, ◌||◌, some, Text, length, arith, min, leb,
  inl, inr, Bool-cases, or_false, leb_false→lt,
}
use pstonn.Parking.Breaker.{
  Breaker, max_breaker_cooldown, bump, allow_locked, blocked_locked, pause_for, tally,
  on_pushback_locked, state,
}

-- The status line tells what a request would meet: the circuit reads as open exactly when allow
-- refuses, and then with the same wait, and a refusal changes nothing.
pub state-allow :
    (b : Breaker) (now : ℕ)
    → ((state (some b) now).0 ≡ not (allow_locked b now).1.ok)
      × ((state (some b) now).1 ≡ (allow_locked b now).1.wait)
      × (((state (some b) now).0 ≡ false) ⊎ ((allow_locked b now).0 ≡ b))
unfolding state allow_locked
state-allow b now = ground arith

pause_for_bounds :
    (b : Breaker) (retry_after : ℕ)
    → (min b.cooldown max_breaker_cooldown ≤ pause_for b retry_after)
      × (min retry_after max_breaker_cooldown ≤ pause_for b retry_after)
      × (pause_for b retry_after ≤ max_breaker_cooldown)
unfolding pause_for
pause_for_bounds b retry_after = ground arith

-- The pushback opened the circuit, or opened it again.
pub record Opens (b c : Breaker) (now retry_after : ℕ) : Type 0 where
  pub at_least_cooldown : now + min b.cooldown max_breaker_cooldown ≤ c.open_until
  pub at_least_retry : now + min retry_after max_breaker_cooldown ≤ c.open_until
  pub capped : c.open_until ≤ now + max_breaker_cooldown
  pub counted : c.generation ≡ bump b.generation

-- It left the circuit as it was: nothing was paused, and too few owners were pushed back lately.
pub record Keeps (b c : Breaker) (now : ℕ) (owner : Text) : Type 0 where
  pub same_deadline : c.open_until ≡ b.open_until
  pub same_generation : c.generation ≡ b.generation
  pub serving : blocked_locked b now ≡ false
  pub few : length (tally b now owner) < b.threshold

-- A pushback either leaves an unpaused circuit with fewer recent owners than the threshold alone,
-- or pauses the traffic for at least the cooldown and the edge's own Retry-After, as far as the cap
-- goes, and never for longer than the cap.
pub on_pushback_cases :
    (b : Breaker) (now : ℕ) (owner : Text) (retry_after : ℕ)
    → let c = (on_pushback_locked b now owner retry_after).0 in
      Keeps b c now owner ⊎ Opens b c now retry_after
unfolding on_pushback_locked
on_pushback_cases b now owner retry_after =
    elim (Bool-cases (leb b.threshold (length (tally b now owner)) || blocked_locked b now)) [
      | inl e ↦ inr (
          rw e (record {
            at_least_cooldown = omega (arith, pause_for_bounds b retry_after);
            at_least_retry = omega (arith, pause_for_bounds b retry_after);
            capped = omega (arith, pause_for_bounds b retry_after);
            counted = refl;
          }))
      | inr e ↦ inl (
          rw e (record {
            same_deadline = refl;
            same_generation = refl;
            serving = (or_false _ _ e).1;
            few = leb_false→lt _ _ (or_false _ _ e).0;
          }))
    ]

-- After a request that is admitted as a probe, every request before the probe interval has passed
-- is refused.
pub probe_alone :
    (b : Breaker) (now later : ℕ)
    → (allow_locked b now).1.permit.probe ≡ true
    → later < now + b.probe_interval
    → (allow_locked (allow_locked b now).0 later).1.ok ≡ false
unfolding allow_locked
probe_alone b now later p h = ground arith
