-- ===== src/Scheduler/Episode/Tests.antt =====
-- One household, with plates and clearings that fail in several ways in turn.
use pstonn.Prelude.{Bool, Text, ◌≤◌, ◌≡◌, refl, true, false, List, [], ◌∷◌, codes, text_eq}
use pstonn.Model.Plate.{norm_plate, same_plate, is_separator}
use pstonn.Model.Plate.Tests.{ascii}
use pstonn.Scheduler.Episode.{
  FailTier, PermitNotify, mark_failure_told, close_failure_episode, cut, legacy_urgent,
  legacy_failure_told, adopt, is_told, fail_key, notify_user_then, notify_failure,
}
use pstonn.Scheduler.Episode.Tiers.{Failure, notify_one, run, AreNamed}
use pstonn.Scheduler.Episode.Outage.{run-bound}
use pstonn.Scheduler.Episode.Cleared.{run-clearings}
use pstonn.Scheduler.Episode.Reopened.{notify_failure-reopened}

abbrev fresh : PermitNotify
fresh = record { notified_key = codes "success|X>Y"; plate = []; urgent = false }

abbrev failure : Text → FailTier → Bool → Failure
failure plate tier down = record {
  plate = plate;
  tier = tier;
  council_down = down;
  delivered = true;
}

-- A timeout, a refusal, then another car is due, and the sign-in is down.
abbrev outage : List Failure
outage =
    failure (codes "ABC123") FailTier.tier_urgent false
    ∷ failure (codes "XYZ789") FailTier.tier_soft false
    ∷ failure (codes "XYZ789") FailTier.tier_urgent true
    ∷ []

named : AreNamed (failure (codes "ABC123") FailTier.tier_soft false ∷ outage)
unfolding text_eq
named = (refl, (refl, (refl, (refl, tt))))

run-bound_example :
    (run ascii (codes "t") fresh (failure (codes "ABC123") FailTier.tier_soft false ∷ outage)).1 ≤ 4
unfolding same_plate text_eq norm_plate is_separator
run-bound_example =
    run-bound ascii (codes "t") fresh (failure (codes "ABC123") FailTier.tier_soft false) outage
      named

is_sent :
    (notify_failure ascii (codes "t") fresh (codes "ABC123") FailTier.tier_soft false true).1 ≡ true
unfolding notify_failure adopt mark_failure_told legacy_failure_told cut legacy_urgent same_plate
    norm_plate fail_key text_eq is_told notify_user_then
is_sent = refl

notify_failure-reopened_example :
    (notify_failure ascii
      (codes "t")
      (close_failure_episode
        (notify_failure ascii (codes "t") fresh (codes "ABC123") FailTier.tier_soft false true).0)
      (codes "ABC123")
      FailTier.tier_soft
      false
      true).1
    ≡ false
notify_failure-reopened_example =
    notify_failure-reopened ascii (codes "t") (codes "ABC123") fresh FailTier.tier_soft false false
      true is_sent

-- A clearing that fails softly, urgently, twice softly and urgently again.
abbrev clearing : FailTier → Failure
clearing tier = failure [] tier false

abbrev flapping : List Failure
flapping =
    clearing FailTier.tier_urgent
    ∷ clearing FailTier.tier_soft
    ∷ clearing FailTier.tier_soft
    ∷ clearing FailTier.tier_urgent
    ∷ []

is_told_clearing : (notify_one ascii (codes "t") fresh (clearing FailTier.tier_soft)).1 ≡ true
unfolding notify_failure adopt mark_failure_told legacy_failure_told cut legacy_urgent same_plate
    norm_plate fail_key text_eq is_told notify_user_then
is_told_clearing = refl

run-clearings_example :
    ((run ascii (codes "t") fresh (clearing FailTier.tier_soft ∷ flapping)).0.plate ≡ [])
    × ((run ascii (codes "t") fresh (clearing FailTier.tier_soft ∷ flapping)).1 ≡ 4)
run-clearings_example =
    run-clearings ascii (codes "t") fresh (clearing FailTier.tier_soft) flapping is_told_clearing
      (refl, refl, (refl, refl, (refl, refl, (refl, refl, (refl, refl, tt)))))
