-- ===== src/Scheduler/Retry/Tests.antt =====
-- Two permits of one household, at two councils.
use pstonn.Prelude.{
  ◌≡◌, refl, true, false, none, some, List, [], ◌∷◌, codes, text_eq, find, number_key,
  if◌then◌else◌,
}
use pstonn.Clock.{hour}
use pstonn.Scheduler.{Scheduler, Options, new}
use pstonn.Scheduler.Retry.{Permit, park_retry, kick_owner_in, try_apply, release}
use pstonn.Scheduler.Retry.Parked.{wakes, kick_owner_in-find}
use pstonn.Scheduler.Retry.Claims.{ClaimStep, claim_steps, try_apply-exclusive}

abbrev options : Options
options = record {
  session_max_age = 0;
  warm_interval = 0;
  jitter_frac = 0;
  op_drain = 0;
  spread_window = 0;
  drift_interval = 0;
  idle_window = 0;
  warm_safety_margin = 0;
}

abbrev permits : List Permit
permits =
    record { id = 1; owner = codes "a@b"; tenant_id = codes "t" }
    ∷ record { id = 2; owner = codes "a@b"; tenant_id = codes "u" }
    ∷ []

abbrev parked : Scheduler
parked = park_retry (park_retry (new options) hour 1 (codes "ABC123")) hour 2 (codes "XYZ789")

-- The permit of the tenant that was linked again is woken.
kick_owner_in-find_example : find 1 (kick_owner_in parked (codes "t") (some permits)).0.next_try ≡ (
    if wakes (λ p. text_eq p.tenant_id (codes "t")) 1 permits then none else find 1 parked.next_try)
kick_owner_in-find_example = kick_owner_in-find parked (codes "t") permits 1

is_woken : wakes (λ p. text_eq p.tenant_id (codes "t")) 1 permits ≡ true
unfolding wakes text_eq
is_woken = refl

-- Another writer tries, and a release of an older claim comes late and twice.
abbrev steps : List ClaimStep
steps =
    ClaimStep.claim 1 11
    ∷ ClaimStep.free 1 9 false
    ∷ ClaimStep.claim 2 12
    ∷ ClaimStep.free 1 9 true
    ∷ []

try_apply-exclusive_example :
    let held = claim_steps (try_apply (new options) 1 10).0 steps in
    ((try_apply held 1 13).1 ≡ false) × ((try_apply (release held 1 10 false) 1 13).1 ≡ true)
try_apply-exclusive_example =
    try_apply-exclusive (new options) 1 10 13 steps (unfold new find in refl)
      (tt, (refl, (tt, (refl, tt))))
