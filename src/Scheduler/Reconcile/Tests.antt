-- ===== src/Scheduler/Reconcile/Tests.antt =====
-- A permit whose booking has begun, while its roster's car is still on it.
use pstonn.Prelude.{
  ℕ, ◌+◌, ◌*◌, ◌^◌, ◌≡◌, refl, true, false, none, some, [], ◌∷◌, codes, text_eq, arith, ◌&&◌,
}
use pstonn.Clock.{hour, minute, fixed_zone}
use pstonn.Model.Plate.{same_plate, norm_plate, is_separator}
use pstonn.Model.Plate.Tests.{ascii}
use pstonn.Model.Best.{best_from, challenge}
use pstonn.Model.Schedule.{
  Resolution, resolve, best_override, is_active, is_fresher, override_resolution, is_allocated,
}
use pstonn.Model.Schedule.Tests.{melbourne, visit, thursday}
use pstonn.Provider.{FailureKind, Link, failure_of}
use pstonn.Scheduler.{Scheduler, new}
use pstonn.Scheduler.Apply.{Listed, World, ApplyError, ApplyLink}
use pstonn.Scheduler.Reconcile.{Target, target_of, reconcile_permit, write_plate}
use pstonn.Scheduler.Reconcile.Written.{written}
use pstonn.Scheduler.Reconcile.Ready.{is_ready, when}
use pstonn.Scheduler.Reconcile.Guards.{is_due, written-reconcile_permit}
use pstonn.Scheduler.Reconcile.Refused.{write_plate-refused}

abbrev defaults : Scheduler
defaults = new (record {
  session_max_age = 0;
  warm_interval = 0;
  jitter_frac = 0;
  op_drain = 0;
  spread_window = 0;
  drift_interval = 0;
  idle_window = 0;
  warm_safety_margin = 0;
})

abbrev listed : Listed
listed = record {
  permit = record { id = 1; owner = codes "a@b"; tenant_id = codes "t" };
  cycle = record { weeks = 1; anchor = [] };
  active_registration = codes "XYZ789";
  fail_streak = 0;
}

abbrev refusal : ApplyError
refusal = record {
  links = ApplyLink.other_apply ∷ [];
  session_gen = none;
  cause = Link.classified FailureKind.fail_rejected ∷ [];
}

abbrev world : World
world = record {
  now = thursday + 5 * hour;
  rules = some [];
  overrides = some (visit ∷ []);
  vehicle = λ owner id. none;
  can_clear = true;
  fresh = some (record { active_registration = codes "XYZ789"; fail_streak = 0; inactive = false });
  settled = none;
  last = none;
  answer = some refusal;
  commit_fails = false;
  streak = 1;
  draw = 0;
  done = 5;
  auth_gated = false;
  blocked = false;
}

abbrev next : World
next = record world { now = thursday + 5 * hour + minute }

abbrev resolved : ℕ → Resolution
resolved now = resolve melbourne now listed.cycle [] (visit ∷ [])

abbrev target : World → Target
target w = target_of w (codes "a@b") (resolved w.now)

abbrev hash : ℕ → ℕ
hash permit = 2 ^ 63

written-reconcile_permit_example :
    written (reconcile_permit ascii hash melbourne defaults world listed).1
    ≡ when
        (is_allocated (resolved world.now).source
          && (is_due ascii hash defaults world listed (resolved world.now) (target world)
              && is_ready ascii defaults world listed.permit (target world).plate))
        (target world)
written-reconcile_permit_example =
    written-reconcile_permit ascii hash melbourne defaults world listed [] (visit ∷ []) refl refl

same_target_plate : same_plate ascii (target world).plate (target next).plate ≡ true
unfolding target_of resolve best_override best_from challenge is_active is_fresher
    override_resolution same_plate norm_plate is_separator text_eq fixed_zone
same_target_plate = refl

write_plate-refused_example :
    written
      (reconcile_permit ascii hash melbourne
        (write_plate defaults world listed.permit (target world)).0
        next
        listed).1
    ≡ []
write_plate-refused_example =
    write_plate-refused ascii hash melbourne defaults world next listed (target world) refusal []
      (visit ∷ []) refl refl (unfold failure_of in refl) refl refl same_target_plate (omega arith)
