-- ===== src/Scheduler/Reconcile/Guards.antt =====
-- When a pass writes a plate to the council.
use pstonn.Prelude.{
  ℕ, ◌≡◌, refl, ap, ◌∙◌, Bool, true, false, not, ◌&&◌, some, ◌∷◌, [], ◌++◌, List, Text,
  if◌then◌else◌, find, number_key, arith, Bool-cases, Option-cases, inl, inr,
}
use pstonn.Model.Cycle.{is_empty}
use pstonn.Model.Plate.{Unicode, same_plate, norm_plate}
use pstonn.Clock.{Location}
use pstonn.Model.Schedule.{Resolution, WeeklyRule, Override, resolve, is_allocated}
use pstonn.Scheduler.{Scheduler, Gap}
use pstonn.Scheduler.Retry.{
  Permit, unpark_if_target_changed, unpark_parked, clear_retry, retry_deferred,
}
use pstonn.Scheduler.Rollover.{spread_elapsed, effective_spread}
use pstonn.Scheduler.Apply.{Listed, World, Act, Pass}
use pstonn.Scheduler.Reconcile.{
  Target, target_of, note_unscheduled, clear_unscheduled, settle_listed, apply_target,
  reconcile_target, reconcile_resolved, reconcile_permit,
}
use pstonn.Scheduler.Reconcile.Written.{written, written-settle}
use pstonn.Scheduler.Reconcile.Ready.{
  is_deferred, is_free, is_ready, needs, when, written-apply_target,
}

-- The conditions on the target: it can be written, the pass does not know it to be on the permit, and
-- its turn in the rollover has come.
abbrev pub is_due : Unicode → (ℕ → ℕ) → Scheduler → World → Listed → Resolution → Target → Bool
is_due u hash s w p res t =
    (not (t.empty && not w.can_clear) && not (not t.empty && is_empty t.plate))
    && (not (same_plate u t.plate p.active_registration)
        && spread_elapsed hash s p.permit.id res w.now)

deferred-clear_unscheduled :
    (u : Unicode) (s : Scheduler) (id now permit : ℕ) (want : Text)
    → is_deferred u (clear_unscheduled s id) now permit want ≡ is_deferred u s now permit want
unfolding clear_unscheduled unpark_if_target_changed unpark_parked clear_retry retry_deferred
deferred-clear_unscheduled u s id now permit want = elim (Option-cases (find permit s.parked_for)) [
  | inl e ↦ ground (arith, e)
  | inr (parked, e) ↦ ground (arith, e)
]

ready-clear_unscheduled :
    (u : Unicode) (s : Scheduler) (w : World) (p : Permit) (want : Text) (id : ℕ)
    → is_ready u (clear_unscheduled s id) w p want ≡ is_ready u s w p want
unfolding clear_unscheduled
ready-clear_unscheduled u s w p want id =
    ap (λ b. not b && (is_free (find p.id s.applying) && needs u want w.fresh))
      (deferred-clear_unscheduled u s id w.now p.id want)

spread-clear_unscheduled :
    (hash : ℕ → ℕ) (s : Scheduler) (id permit now : ℕ) (res : Resolution)
    → spread_elapsed hash (clear_unscheduled s id) permit res now
      ≡ spread_elapsed hash s permit res now
unfolding clear_unscheduled spread_elapsed effective_spread
spread-clear_unscheduled hash s id permit now res = refl

written-unresolved :
    (entered : Bool) (acts : List Act)
    → written acts ≡ []
    → written ((if entered then Act.report_unresolvable ∷ [] else []) ++ acts) ≡ []
written-unresolved true acts h = h
written-unresolved false acts h = h

written-settle_listed :
    (u : Unicode) (s : Scheduler) (w : World) (p : Listed) → written (settle_listed u s w p).1 ≡ []
written-settle_listed u s w p = written-settle u s w p.permit.id p.active_registration p.fail_streak

-- The pass over a target that can be written.
abbrev open_target : Unicode → (ℕ → ℕ) → Scheduler → World → Listed → Resolution → Target → Pass
open_target u hash s w p res t =
    let s' = clear_unscheduled s p.permit.id in
    if same_plate u t.plate p.active_registration
    then settle_listed u s' w p
    else if spread_elapsed hash s' p.permit.id res w.now
    then apply_target u s' w p.permit t
    else (s', [], false)

written-open_target :
    (u : Unicode) (hash : ℕ → ℕ) (s : Scheduler) (w : World) (p : Listed) (res : Resolution)
    (t : Target)
    → written (open_target u hash s w p res t).1
      ≡ when
          ((not (same_plate u t.plate p.active_registration)
              && spread_elapsed hash s p.permit.id res w.now)
            && is_ready u s w p.permit t.plate)
          t
written-open_target u hash s w p res t =
    let id = p.permit.id in
    let s' = clear_unscheduled s id in
    let spread = spread-clear_unscheduled hash s id id w.now res in
    elim (Bool-cases (same_plate u t.plate p.active_registration)) [
      | inl e ↦ rw e (written-settle_listed u s' w p)
      | inr e ↦ elim (Bool-cases (spread_elapsed hash s id res w.now)) [
        | inl f ↦
            rw (e, spread, f)
              (written-apply_target u s' w p.permit t
                ∙ ap (λ b. when b t) (ready-clear_unscheduled u s w p.permit t.plate id))
        | inr f ↦ rw (e, spread, f) refl
      ]
    ]

written-reconcile_target :
    (u : Unicode) (hash : ℕ → ℕ) (s : Scheduler) (w : World) (p : Listed) (res : Resolution)
    (t : Target)
    → written (reconcile_target u hash s w p res t).1
      ≡ when (is_due u hash s w p res t && is_ready u s w p.permit t.plate) t
unfolding reconcile_target
written-reconcile_target u hash s w p res t =
    let id = p.permit.id in
    let shown = norm_plate u p.active_registration in
    let gap = note_unscheduled s id (Gap.gap_unresolved res.vehicle_id shown) in
    elim (Bool-cases (t.empty && not w.can_clear)) [
      | inl e ↦
          ground (
            arith,
            e,
            written-settle_listed u (note_unscheduled s id (Gap.gap_noclear shown)).0 w p,
          )
      | inr e ↦ elim (Bool-cases (not t.empty && is_empty t.plate)) [
        | inl f ↦ ground (
          arith,
          e,
          f,
          written-unresolved gap.1 (settle_listed u gap.0 w p).1
              (written-settle_listed u gap.0 w p),
        )
        | inr f ↦ rw (e, f) (written-open_target u hash s w p res t)
      ]
    ]

written-reconcile_resolved :
    (u : Unicode) (hash : ℕ → ℕ) (s : Scheduler) (w : World) (p : Listed) (res : Resolution)
    → let t = target_of w p.permit.owner res in
      written (reconcile_resolved u hash s w p res).1
      ≡ when
          (is_allocated res.source
            && (is_due u hash s w p res t && is_ready u s w p.permit t.plate))
          t
unfolding reconcile_resolved
written-reconcile_resolved u hash s w p res =
    let t = target_of w p.permit.owner res in
    let gap = Gap.gap_none (norm_plate u p.active_registration) in
    ground (
      arith,
      written-settle_listed u (note_unscheduled s p.permit.id gap).0 w p,
      written-reconcile_target u hash s w p res t,
    )

reconcile_permit-resolved :
    (u : Unicode) (hash : ℕ → ℕ) (l : Location) (s : Scheduler) (w : World) (p : Listed)
    (rules : List WeeklyRule) (overrides : List Override)
    → w.rules ≡ some rules
    → w.overrides ≡ some overrides
    → reconcile_permit u hash l s w p
      ≡ reconcile_resolved u hash s w p (resolve l w.now p.cycle rules overrides)
unfolding reconcile_permit
reconcile_permit-resolved u hash l s w p rules overrides r o = rw (r, o) refl

-- When a pass over a permit calls the council to change it, and with what. With the rules and the
-- bookings read, it makes one such call or none. It makes one exactly if the schedule has a target
-- that can be written, the plate is not the one listed, its turn in the rollover has come, the
-- permit is not held back for this target, nobody else is writing to it, and read again under the
-- claim it is still active and still shows another plate. The call is a clearing if the schedule
-- wants no plate, and otherwise sets the target's plate with its region.
pub written-reconcile_permit :
    (u : Unicode) (hash : ℕ → ℕ) (l : Location) (s : Scheduler) (w : World) (p : Listed)
    (rules : List WeeklyRule) (overrides : List Override)
    → w.rules ≡ some rules
    → w.overrides ≡ some overrides
    → let res = resolve l w.now p.cycle rules overrides in
      let t = target_of w p.permit.owner res in
      written (reconcile_permit u hash l s w p).1
      ≡ when
          (is_allocated res.source
            && (is_due u hash s w p res t && is_ready u s w p.permit t.plate))
          t
written-reconcile_permit u hash l s w p rules overrides r o =
    ap (λ (x : Pass). written x.1) (reconcile_permit-resolved u hash l s w p rules overrides r o)
    ∙ written-reconcile_resolved u hash s w p (resolve l w.now p.cycle rules overrides)
