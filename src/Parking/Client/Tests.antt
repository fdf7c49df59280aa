-- ===== src/Parking/Client/Tests.antt =====
-- Two households behind one client.
use pstonn.Prelude.{
  ℕ, ◌+◌, ◌-◌, ◌*◌, ◌≤◌, ◌≡◌, refl, min, true, false, none, some, [], ◌∷◌, codes, lookup, text_eq,
  arith,
}
use pstonn.Clock.{minute, hour}
use pstonn.Provider.{Unavailable, unavailable}
use pstonn.Parking.Breaker.{BreakerPermit, new_breaker}
use pstonn.Parking.Health.{new_health}
use pstonn.Parking.Client.{Client, answered, cooling, or_zero, owner_backoff, with_session}
use pstonn.Parking.Client.Isolation.{Attempt, attempts, IsFree, one_owner_never_blocks}
use pstonn.Parking.Client.Penalty.{pushed_back, pushed_back-with_session}

abbrev new_client : Client
new_client = record {
  cooldown_until = [];
  strikes = [];
  breaker = some (new_breaker 3 (2 * minute) (5 * minute) (30 * minute));
  health = new_health;
}

abbrev too_many : Unavailable
too_many = record { retry_after = 0; status = 429 }

abbrev permit : BreakerPermit
permit = record { probe = false; gen = 0 }

abbrev pushed_at : ℕ → Attempt
pushed_at t = record {
  linked = true;
  opens = true;
  at = t;
  answer = some (unavailable too_many ∷ []);
  done_at = t;
}

new_client-IsFree : IsFree (codes "a") (codes "b") new_client
unfolding new_breaker lookup
new_client-IsFree = record {
  cool = refl;
  calm = record { closed = refl; two = omega arith; distinct = tt; only = λ j ne. refl };
}

one_owner_never_blocks_example :
    (with_session
      (attempts
        (codes "a")
        new_client
        (pushed_at minute ∷ pushed_at hour ∷ pushed_at (2 * hour) ∷ []))
      (codes "b")
      true
      true
      (3 * hour)
      none
      (3 * hour)).1
    ≡ answered none
one_owner_never_blocks_example =
    one_owner_never_blocks (codes "a") (codes "b") new_client
      (pushed_at minute ∷ pushed_at hour ∷ pushed_at (2 * hour) ∷ []) (3 * hour) none (3 * hour)
      (unfold text_eq in refl) new_client-IsFree

pushed_back-with_session_example :
    let pause =
      owner_backoff (or_zero (lookup (codes "a") new_client.strikes) + 1) too_many.retry_after in
    let c' = pushed_back new_client (codes "a") permit too_many [] hour in
    (pause ≤ 2 * hour)
    × (min too_many.retry_after (2 * hour) ≤ pause)
    × (with_session c' (codes "a") true true (hour + minute) none (2 * hour)
        ≡ (c', cooling (hour + pause - (hour + minute))))
pushed_back-with_session_example =
    pushed_back-with_session new_client (codes "a") permit too_many [] hour true (hour + minute)
      none (2 * hour) (omega arith) (unfold owner_backoff lookup in omega arith)
