-- ===== src/Parking/Breaker/Tests.antt =====
-- The circuit with its default settings.
use pstonn.Prelude.{
  ℕ, ◌+◌, ◌*◌, ◌≡◌, refl, true, false, ◌⊎◌, some, [], ◌∷◌, codes, arith, text_eq, lookup, insert,
  keep_values,
}
use pstonn.Clock.{minute, second}
use pstonn.Parking.Breaker.{
  Breaker, BreakerPermit, new_breaker, allow_locked, on_pushback_locked, on_success_locked,
  blocked_locked, tally, pause_for, allow, restore, snapshot,
}
use pstonn.Parking.Breaker.Bounds.{Keeps, Opens, on_pushback_cases}
use pstonn.Parking.Breaker.Permits.{pushes, allows, step, run, late_success}
use pstonn.Parking.Breaker.Owners.{Alone}
use pstonn.Parking.Breaker.Restart.{allow-restored}

-- Settings as in the source; `a` and `b` were pushed back a second ago.
abbrev breaker : ℕ → ℕ → Breaker
breaker open_until generation = record {
  open_until = open_until;
  recent = (codes "a", minute) ∷ (codes "b", minute) ∷ [];
  generation = generation;
  last_pushback = minute;
  threshold = 3;
  window = 2 * minute;
  cooldown = 5 * minute;
  probe_interval = 30 * second;
}

-- A third owner trips it for five minutes.
third_trips :
    (on_pushback_locked (breaker 0 7) (minute + second) (codes "c") 0).0.open_until
    ≡ 6 * minute + second
unfolding on_pushback_locked tally insert keep_values text_eq blocked_locked pause_for
third_trips = refl

on_pushback_cases_example :
    let c = (on_pushback_locked (breaker 0 7) (minute + second) (codes "c") 0).0 in
    Keeps (breaker 0 7) c (minute + second) (codes "c") ⊎ Opens (breaker 0 7) c (minute + second) 0
on_pushback_cases_example = on_pushback_cases (breaker 0 7) (minute + second) (codes "c") 0

-- The request went out while the circuit was closed; `c` then tripped it.
late_success_example :
    let c =
      run
        (step
          (run (allow_locked (breaker 0 7) minute).0 [])
          (pushes (minute + second) (codes "c") 0))
        (allows (2 * minute) ∷ []) in
    ((on_success_locked c (codes "a") (allow_locked (breaker 0 7) minute).1.permit).1 ≡ false)
    × ((on_success_locked c (codes "a") (allow_locked (breaker 0 7) minute).1.permit).0.open_until
        ≡ c.open_until)
late_success_example =
    late_success (breaker 0 7) minute [] (allows (2 * minute) ∷ []) (minute + second) (codes "c") 0
      (codes "a") (omega arith)
      (unfold run allow_locked tally insert keep_values text_eq blocked_locked in refl)

abbrev probe_permit : BreakerPermit
probe_permit = record { probe = true; gen = 8 }

abbrev lone : Breaker
lone = record (breaker 0 7) { recent = (codes "a", minute) ∷ [] }

lone-Alone : Alone (codes "a") lone
unfolding lookup text_eq
lone-Alone = record {
  closed = refl;
  two = omega arith;
  distinct = (refl, tt);
  only = λ j ne. rw ne;
}

allow-restored_example :
    (allow
      (restore
        (some (new_breaker 3 (2 * minute) (5 * minute) (30 * second)))
        (snapshot (some (breaker (6 * minute) 8))))
      (7 * minute)).1
    ≡ (allow (some (breaker (6 * minute) 8)) (7 * minute)).1
allow-restored_example = allow-restored (breaker (6 * minute) 8) (7 * minute)
