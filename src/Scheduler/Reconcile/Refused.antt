-- ===== src/Scheduler/Reconcile/Refused.antt =====
-- A change that the council refused is not asked for again.
use pstonn.Prelude.{
  [], ℕ, ◌+◌, ◌<◌, ◌≡◌, refl, ap, ◌∙◌, Bool, true, false, not, ◌&&◌, some, List, Text, arith,
}
use pstonn.Clock.{Location}
use pstonn.Model.Schedule.{WeeklyRule, Override, resolve}
use pstonn.Model.Plate.{Unicode, same_plate}
use pstonn.Provider.{Link, FailureKind, failure_of}
use pstonn.Scheduler.{Scheduler}
use pstonn.Scheduler.Retry.{Permit, park_retry, parked_retry, release}
use pstonn.Scheduler.Retry.Parked.{retry_deferred-park_retry}
use pstonn.Scheduler.Apply.{
  Listed, World, ApplyError, ApplyLink, wraps, handle_apply_failure, after_error, after_write,
}
use pstonn.Scheduler.Reconcile.{Target, target_of, write_plate, reconcile_permit}
use pstonn.Scheduler.Reconcile.Written.{written}
use pstonn.Scheduler.Reconcile.Ready.{is_ready, is_deferred}
use pstonn.Scheduler.Reconcile.Guards.{written-reconcile_permit}

-- The council refused the change: none of the sentinels that are looked for before, and a rejection.
abbrev pub is_rejection : ApplyError → Bool
is_rejection err =
    not (wraps ApplyLink.tenant_unavailable err.links)
    && (not (wraps ApplyLink.not_linked err.links)
        && (not (wraps ApplyLink.council_busy err.links)
            && (not (wraps ApplyLink.not_captured err.links)
                && not (wraps ApplyLink.session_expired err.links))))

handle_apply_failure-rejected :
    (s : Scheduler) (w : World) (p : Permit) (want : Text) (cause : List Link)
    → failure_of cause ≡ FailureKind.fail_rejected
    → (handle_apply_failure s w p want cause).0 ≡ park_retry s w.now p.id want
unfolding handle_apply_failure
handle_apply_failure-rejected s w p want cause h = rw (h, handle_apply_failure) refl

after_error-rejected :
    (s : Scheduler) (w : World) (p : Permit) (want : Text) (err : ApplyError)
    → is_rejection err ≡ true
    → failure_of err.cause ≡ FailureKind.fail_rejected
    → (after_error s w p want err).0 ≡ park_retry s w.now p.id want
unfolding after_error
after_error-rejected s w p want err h k =
    ground (arith, handle_apply_failure-rejected s w p want err.cause k)

after_write-rejected :
    (s : Scheduler) (w : World) (p : Permit) (want : Text) (err : ApplyError)
    → w.answer ≡ some err
    → is_rejection err ≡ true
    → failure_of err.cause ≡ FailureKind.fail_rejected
    → (after_write s w p want).0 ≡ park_retry s w.now p.id want
unfolding after_write
after_write-rejected s w p want err a h k =
    rw (a, after_write) (after_error-rejected s w p want err h k)

write_plate-rejected :
    (s : Scheduler) (w : World) (p : Permit) (t : Target) (err : ApplyError)
    → w.answer ≡ some err
    → is_rejection err ≡ true
    → failure_of err.cause ≡ FailureKind.fail_rejected
    → (write_plate s w p t).0 ≡ park_retry (release s p.id w.done false) w.now p.id t.plate
unfolding write_plate
write_plate-rejected s w p t err a h k =
    after_write-rejected (release s p.id w.done false) w p t.plate err a h k

not_ready :
    (u : Unicode) (s : Scheduler) (w : World) (p : Permit) (want : Text)
    → is_deferred u s w.now p.id want ≡ true
    → is_ready u s w p want ≡ false
not_ready u s w p want h = ground arith

-- After a write that the council refused, no pass over that permit writes to the council for a year
-- while its target is the plate that was refused, in whatever spelling, and nothing else has changed
-- what the scheduler keeps.
pub write_plate-refused :
    (u : Unicode) (hash : ℕ → ℕ) (l : Location) (s : Scheduler) (w w' : World) (p : Listed)
    (t : Target) (err : ApplyError) (rules : List WeeklyRule) (overrides : List Override)
    → w.answer ≡ some err
    → is_rejection err ≡ true
    → failure_of err.cause ≡ FailureKind.fail_rejected
    → w'.rules ≡ some rules
    → w'.overrides ≡ some overrides
    → same_plate u t.plate
        (target_of w' p.permit.owner (resolve l w'.now p.cycle rules overrides)).plate
      ≡ true
    → w'.now < w.now + parked_retry
    → written (reconcile_permit u hash l (write_plate s w p.permit t).0 w' p).1 ≡ []
write_plate-refused u hash l s w w' p t err rules overrides a h k r o same soon =
    let res = resolve l w'.now p.cycle rules overrides in
    let t' = target_of w' p.permit.owner res in
    let s' = (write_plate s w p.permit t).0 in
    let held : is_deferred u s' w'.now p.permit.id t'.plate ≡ true =
      ap (λ x. is_deferred u x w'.now p.permit.id t'.plate)
        (write_plate-rejected s w p.permit t err a h k)
      ∙ retry_deferred-park_retry u (release s p.permit.id w.done false) w.now w'.now p.permit.id
          t.plate t'.plate soon
      ∙ same in
    written-reconcile_permit u hash l s' w' p rules overrides r o
    ∙ ground (arith, not_ready u s' w' p.permit t'.plate held)
