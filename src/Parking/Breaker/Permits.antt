-- ===== src/Parking/Breaker/Permits.antt =====
-- Which success may close the circuit, over every sequence of calls.
use pstonn.Prelude.{
  ℕ, ◌+◌, ◌^◌, ◌≤◌, ◌<◌, ◌≡◌, ◌≢◌, ◌∙◌, Bool, true, false, ◌||◌, List, [], ◌∷◌, Text, length, arith,
  leb,
}
use native.Mathlib.Nat.{mod-eq_of_lt}
use pstonn.Parking.Breaker.{
  Breaker, BreakerPermit, bump, allow_locked, blocked_locked, tally, on_pushback_locked,
  on_success_locked,
}

-- A call with the time at which it is made. A success presents whatever permit it holds.
pub data Call : Type 0 where
  allows : ℕ → Call
  pushes : ℕ → Text → ℕ → Call
  succeeds : Text → BreakerPermit → Call

unfoldable pub step : Breaker → Call → Breaker
step b (allows now) = (allow_locked b now).0
step b (pushes now owner retry_after) = (on_pushback_locked b now owner retry_after).0
step b (succeeds owner permit) = (on_success_locked b owner permit).0

unfoldable pub run : Breaker → List Call → Breaker
run b [] = b
run b (c ∷ cs) = run (step b c) cs

-- The generation never falls, and a call raises it by at most one, short of the 64 bits.
step-generation :
    (b : Breaker) (c : Call)
    → b.generation + 1 < 2 ^ 64
    → (b.generation ≤ (step b c).generation) × ((step b c).generation ≤ b.generation + 1)
unfolding step allow_locked on_pushback_locked on_success_locked
step-generation b (allows now) h = ground arith
step-generation b (pushes now owner retry_after) h = ground arith
step-generation b (succeeds owner permit) h = ground arith

run-generation :
    (b : Breaker) (cs : List Call)
    → b.generation + length cs < 2 ^ 64
    → (b.generation ≤ (run b cs).generation) × ((run b cs).generation ≤ b.generation + length cs)
unfolding run
run-generation b [] h = omega arith
run-generation b (c ∷ cs) h = omega (
  arith,
  step-generation b c (omega arith),
  run-generation (step b c) cs (omega (arith, step-generation b c (omega arith))),
)

-- A permit carries the generation of its admission, and only a probe is marked as one.
allow-permit :
    (b : Breaker) (now : ℕ)
    → ((allow_locked b now).1.permit.gen ≤ b.generation)
      × ((allow_locked b now).0.generation ≡ b.generation)
unfolding allow_locked
allow-permit b now = ground arith

-- A pushback that trips the circuit, or that meets it paused, starts a new generation.
abbrev pub trips : Breaker → ℕ → Text → Bool
trips b now owner = leb b.threshold (length (tally b now owner)) || blocked_locked b now

trips-generation :
    (b : Breaker) (now : ℕ) (owner : Text) (retry_after : ℕ)
    → trips b now owner ≡ true
    → (step b (pushes now owner retry_after)).generation ≡ bump b.generation
unfolding step on_pushback_locked
trips-generation b now owner retry_after h = rw h

stale-on_success :
    (b : Breaker) (owner : Text) (p : BreakerPermit)
    → p.gen < b.generation
    → ((on_success_locked b owner p).1 ≡ false)
      × ((on_success_locked b owner p).0.open_until ≡ b.open_until)
unfolding on_success_locked
stale-on_success b owner p h = ground arith

-- Suppose a request is admitted, some calls follow, a pushback trips the circuit, and more calls
-- follow, with too few calls for the generation to wrap around. Then a success that presents the
-- request's permit does not close the circuit and leaves its deadline as it is.
pub late_success :
    (b : Breaker) (now : ℕ) (before after : List Call) (t : ℕ) (owner : Text) (retry_after : ℕ)
    (who : Text)
    → b.generation + length before + length after + 1 < 2 ^ 64
    → trips (run (allow_locked b now).0 before) t owner ≡ true
    → let p = (allow_locked b now).1.permit in
      let c = run (step (run (allow_locked b now).0 before) (pushes t owner retry_after)) after in
      ((on_success_locked c who p).1 ≡ false)
      × ((on_success_locked c who p).0.open_until ≡ c.open_until)
late_success b now before after t owner retry_after who bound trip =
    let b1 = (allow_locked b now).0 in
    let b2 = run b1 before in
    let b3 = step b2 (pushes t owner retry_after) in
    let issued = allow-permit b now in
    let up = run-generation b1 before (omega (arith, issued)) in
    let jump : b3.generation ≡ b2.generation + 1 =
      trips-generation b2 t owner retry_after trip ∙ mod-eq_of_lt (omega (arith, up, issued)) in
    let up' = run-generation b3 after (omega (arith, up, issued, jump)) in
    stale-on_success (run b3 after) who (allow_locked b now).1.permit
      (omega (arith, issued, up, jump, up'))

-- If a success closes the circuit, its permit is a probe's of the generation in force and the
-- circuit had been opened; afterwards every request is admitted, and the generation has been
-- bumped.
pub closes_only_by_probe :
    (b : Breaker) (owner : Text) (p : BreakerPermit) (later : ℕ)
    → (on_success_locked b owner p).1 ≡ true
    → (p.probe ≡ true)
      × (p.gen ≡ b.generation)
      × (b.open_until ≢ 0)
      × ((allow_locked (on_success_locked b owner p).0 later).1.ok ≡ true)
      × ((on_success_locked b owner p).0.generation ≡ bump b.generation)
unfolding on_success_locked allow_locked
closes_only_by_probe b owner p later h = ground arith
