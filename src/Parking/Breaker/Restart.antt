-- ===== src/Parking/Breaker/Restart.antt =====
-- A restart resumes the pause that was in force.
use pstonn.Prelude.{ℕ, ◌≡◌, some, arith}
use pstonn.Parking.Breaker.{Breaker, new_breaker, allow, snapshot, restore}

-- A breaker made with the same settings and seeded from the snapshot of another answers every
-- request as the other would: it stays paused, comes back half-open, or is closed, under the same
-- generation.
pub allow-restored :
    (b : Breaker) (now : ℕ)
    → (allow
        (restore
          (some (new_breaker b.threshold b.window b.cooldown b.probe_interval))
          (snapshot (some b)))
        now).1
      ≡ (allow (some b) now).1
unfolding restore snapshot new_breaker allow
allow-restored b now = ground arith
