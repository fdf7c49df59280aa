-- ===== src/Parking/Governor/Tests.antt =====
-- The ceiling of the login surface: six at once, twelve a minute.
use pstonn.Prelude.{◌+◌, ◌-◌, ◌*◌, ◌/◌, ◌≤◌, ◌≡◌, refl, [], ◌∷◌, arith}
use pstonn.Clock.{minute}
use pstonn.Parking.Governor.{TokenBucket, token, refilled, try_take}
use pstonn.Parking.Governor.Rate.{granted, rate_ceiling}

abbrev drained : TokenBucket
drained = record { tokens = token / 2; burst = 6 * token; per_min = 12; last = minute }

seven_at_once :
    granted
      (record drained { tokens = 6 * token; last = 0 })
      (minute ∷ minute ∷ minute ∷ minute ∷ minute ∷ minute ∷ minute ∷ [])
    ≡ 6
unfolding granted try_take refilled
seven_at_once = refl

rate_ceiling_example :
    granted drained (minute ∷ 2 * minute ∷ 2 * minute ∷ []) * token
    ≤ 6 * token + (2 * minute - minute) * 12
rate_ceiling_example =
    rate_ceiling drained (minute ∷ 2 * minute ∷ 2 * minute ∷ []) minute (2 * minute) (omega arith)
      (omega arith, (omega arith, (omega arith, omega arith)))
