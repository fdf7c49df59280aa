-- ===== src/Parking/Health/Tests.antt =====
-- A connector's health from a fresh start.
use pstonn.Prelude.{
  ℕ, false, ◌*◌, ◌≡◌, refl, Option, some, List, [], ◌∷◌, lookup, insert, keep_values, text_eq,
  codes,
}
use pstonn.Clock.{minute}
use pstonn.Provider.{
  Link, login_rejected, classified, fail_unexpected, classify, error_is, as_unavailable, failure_of,
}
use pstonn.Parking.Health.{
  PushbackEvent, new_health, note_at, state, auth_failed, note_signal, note_failure, prune_locked,
  derive_state,
}
use pstonn.Parking.Health.Breadth.{Household}

abbrev wrong_password : Option (List Link) × ℕ
wrong_password = (some (login_rejected ∷ []), minute)

abbrev odd_answer : Option (List Link) × ℕ
odd_answer = (some (classified fail_unexpected ∷ []), 2 * minute)

abbrev no_pushback : PushbackEvent
no_pushback = record { at = 0; status = 0 }

-- Two owners with wrong passwords do raise the alarm.
two_owners_alarm :
    (state
      (note_at
        (note_at new_health (codes "a") wrong_password.0 minute)
        (codes "b")
        wrong_password.0
        (2 * minute))
      (2 * minute)
      false
      no_pushback).1
    ≡ auth_failed
unfolding state note_at note_signal note_failure prune_locked derive_state classify error_is
    as_unavailable failure_of insert keep_values text_eq
two_owners_alarm = refl

new_health-Household : Household (codes "a") new_health
unfolding lookup
new_health-Household = record {
  rejects_distinct = tt;
  rejects_only = λ j ne. refl;
  unexpected_distinct = tt;
  unexpected_only = λ j ne. refl;
  no_shape = refl;
}
