-- ===== src/Notify/Throttle/Tests.antt =====
-- Two notices an hour to one address.
use pstonn.Prelude.{
  ℕ, ◌+◌, ◌*◌, ◌≡◌, refl, List, [], ◌∷◌, Text, codes, lookup, insert, text_eq, length, ltb, arith,
}
use pstonn.Clock.{minute, hour}
use pstonn.Notify.Throttle.{SendLimiter, new_send_limiter, keep_after, sweep, tidy, allow_at}
use pstonn.Notify.Throttle.Log.{run, granted, Fits}
use pstonn.Notify.Throttle.Limit.{allow_at-granted}

abbrev fresh : SendLimiter
fresh = new_send_limiter 2 hour

-- The third call to "a" comes too soon.
abbrev calls : List (ℕ × Text)
calls =
    (hour, codes "a")
    ∷ (hour + minute, codes "b")
    ∷ (hour + 2 * minute, codes "a")
    ∷ (hour + 3 * minute, codes "a")
    ∷ []

calls-Fits : Fits fresh calls
unfolding new_send_limiter allow_at tidy sweep keep_after insert lookup text_eq
calls-Fits = (omega arith, (omega arith, (omega arith, (omega arith, omega arith))))

refused_third : granted fresh (codes "a") calls ≡ hour ∷ (hour + 2 * minute) ∷ []
unfolding granted new_send_limiter allow_at tidy sweep keep_after insert lookup text_eq
refused_third = refl

allow_at-granted_example :
    (allow_at (run fresh calls) (2 * hour) (codes "a")).1
    ≡ ltb (length (keep_after hour (2 * hour) (granted fresh (codes "a") calls))) 2
allow_at-granted_example =
    allow_at-granted 2 hour (codes "a") calls (2 * hour)
      (omega arith, (omega arith, (omega arith, (omega arith, omega arith)))) calls-Fits
