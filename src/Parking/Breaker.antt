-- ===== src/Parking/Breaker.antt =====
-- internal/parking/breaker.go: the circuit that pauses all traffic when several owners are pushed
-- back. A nil *breaker is `none`; the mutex makes each method one step.
pub mod Bounds
pub mod Permits
pub mod Owners
pub mod Restart
pub mod Tests
use pstonn.Prelude.{
  ℕ, ◌+◌, ◌-◌, ◌*◌, ◌%◌, ◌^◌, Bool, true, false, not, ◌&&◌, ◌||◌, Option, none, some, [], Text, Map,
  insert, delete, keep_values, length, ltb, leb, ◌==◌, bool_eq, if◌then◌else◌,
}
use pstonn.Clock.{minute, second, is_zero, elapsed}

abbrev pub max_breaker_cooldown : ℕ
max_breaker_cooldown = 30 * minute

-- uint64.
abbrev pub bump : ℕ → ℕ
bump g = (g + 1) % 2 ^ 64

pub record Breaker : Type 0 where
  pub open_until : ℕ
  pub recent : Map ℕ
  pub generation : ℕ
  pub last_pushback : ℕ
  pub threshold : ℕ
  pub window : ℕ
  pub cooldown : ℕ
  pub probe_interval : ℕ

pub record BreakerPermit : Type 0 where
  pub probe : Bool
  pub gen : ℕ

unfoldable pub new_breaker : ℕ → ℕ → ℕ → ℕ → Breaker
new_breaker threshold window cooldown probe_interval = record {
  open_until = 0;
  recent = [];
  generation = 0;
  last_pushback = 0;
  threshold = threshold;
  window = window;
  cooldown = cooldown;
  probe_interval = probe_interval;
}

-- What allow returns: the permit, ok and the wait.
pub record Admission : Type 0 where
  pub permit : BreakerPermit
  pub ok : Bool
  pub wait : ℕ

unfoldable pub allow_locked : Breaker → ℕ → Breaker × Admission
allow_locked b now =
    if is_zero b.open_until
    then (b, record { permit = record { probe = false; gen = b.generation }; ok = true; wait = 0 })
    else (if ltb now b.open_until
        then (
          b,
          record {
            permit = record { probe = false; gen = 0 };
            ok = false;
            wait = elapsed b.open_until now;
          },
        )
        else (
          record b { open_until = now + b.probe_interval },
          record { permit = record { probe = true; gen = b.generation }; ok = true; wait = 0 },
        ))

unfoldable pub allow : Option Breaker → ℕ → Option Breaker × Admission
unfolding allow_locked
allow none now = (none, record { permit = record { probe = false; gen = 0 }; ok = true; wait = 0 })
allow (some b) now = let (b', a) = allow_locked b now in (some b', a)

unfoldable pub blocked_locked : Breaker → ℕ → Bool
blocked_locked b now = not (is_zero b.open_until) && ltb now b.open_until

-- How long a pushback pauses the traffic.
unfoldable pub pause_for : Breaker → ℕ → ℕ
pause_for b retry_after =
    let cd = if ltb b.cooldown retry_after then retry_after else b.cooldown in
    if ltb max_breaker_cooldown cd then max_breaker_cooldown else cd

-- The tally with `owner` in it, less the entries that have left the window.
unfoldable pub tally : Breaker → ℕ → Text → Map ℕ
tally b now owner =
    keep_values (λ t. not (ltb b.window (elapsed now t))) (insert owner now b.recent)

unfoldable pub on_pushback_locked : Breaker → ℕ → Text → ℕ → Breaker × Bool
unfolding blocked_locked pause_for tally
on_pushback_locked b now owner retry_after =
    let was_blocked = blocked_locked b now in
    let recent = tally b now owner in
    let b1 = record b { last_pushback = now; recent = recent } in
    let b2 =
      if leb b.threshold (length recent) || was_blocked
      then record b1 { open_until = now + pause_for b retry_after; generation = bump b.generation }
      else b1 in
    (b2, blocked_locked b2 now && not was_blocked)

unfoldable pub on_pushback : Option Breaker → ℕ → Text → ℕ → Option Breaker × Bool
unfolding on_pushback_locked
on_pushback none now owner retry_after = (none, false)
on_pushback (some b) now owner retry_after =
    let (b', opened) = on_pushback_locked b now owner retry_after in (some b', opened)

unfoldable pub on_success_locked : Breaker → Text → BreakerPermit → Breaker × Bool
on_success_locked b owner permit =
    let b1 = record b { recent = delete owner b.recent } in
    if is_zero b.open_until
    then (b1, false)
    else (if permit.probe && permit.gen == b.generation
        then (record b1 { open_until = 0; generation = bump b.generation }, true)
        else (b1, false))

unfoldable pub on_success : Option Breaker → Text → BreakerPermit → Option Breaker × Bool
unfolding on_success_locked
on_success none owner permit = (none, false)
on_success (some b) owner permit =
    let (b', closed) = on_success_locked b owner permit in (some b', closed)

-- snapshot: the deadline, the last pushback and the generation.
pub record Snapshot : Type 0 where
  pub open_until : ℕ
  pub last_pushback : ℕ
  pub generation : ℕ

unfoldable pub snapshot : Option Breaker → Snapshot
snapshot none = record { open_until = 0; last_pushback = 0; generation = 0 }
snapshot (some b) = record {
  open_until = b.open_until;
  last_pushback = b.last_pushback;
  generation = b.generation;
}

unfoldable pub restore : Option Breaker → Snapshot → Option Breaker
restore none s = none
restore (some b) s = some (record b {
  open_until = if not (is_zero s.open_until) then s.open_until else b.open_until;
  last_pushback = s.last_pushback;
  generation = if ltb b.generation s.generation then s.generation else b.generation;
})

-- state: whether the circuit is open now, and the pause that remains.
unfoldable pub state : Option Breaker → ℕ → Bool × ℕ
state none now = (false, 0)
state (some b) now =
    if is_zero b.open_until || not (ltb now b.open_until)
    then (false, 0)
    else (true, elapsed b.open_until now)
