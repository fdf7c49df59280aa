-- ===== src/Scheduler/Reconcile.antt =====
-- internal/scheduler/reconcile.go, reconcilePermit: one pass over one permit. What the pass reads of the
-- store and of the council's client is an argument.
pub mod Refused
pub mod Written
pub mod Ready
pub mod Guards
mod Tests
use pstonn.Prelude.{
  ℕ, Bool, true, false, not, ◌&&◌, ◌||◌, Option, none, some, ◌∷◌, [], ◌++◌, List, Text, codes,
  text_eq, ◌==◌, if◌then◌else◌, find, put, drop_if, number_key, leb,
}
use pstonn.Clock.{Location}
use pstonn.Model.Cycle.{Cycle, is_empty}
use pstonn.Model.Plate.{Unicode, same_plate, norm_plate}
use pstonn.Model.Schedule.{Resolution, Source, WeeklyRule, Override, resolve}
use pstonn.Model.Displaced.{VehicleInfo}
use pstonn.Provider.{Link, FailureKind, failure_of}
use pstonn.Scheduler.{Scheduler, Gap, Notice}
use pstonn.Scheduler.Retry.{
  Permit, defer_retry, park_retry, clear_retry, unpark_if_target_changed, retry_deferred, try_apply,
  release,
}
use pstonn.Scheduler.Reconnect.{enqueue_reconnect}
use pstonn.Scheduler.Rollover.{spread_elapsed}
use pstonn.Scheduler.Episode.{FailTier}
use pstonn.Scheduler.Apply.{Listed, Fresh, World, Act, Pass, settle, after_write}

-- The plate to be put on the permit: its region, and whether it is none at all.
pub record Target : Type 0 where
  pub plate : Text
  pub region : Text
  pub empty : Bool

abbrev pub of_vehicle : Option VehicleInfo → Target
of_vehicle none = record { plate = []; region = []; empty = false }
of_vehicle (some v) = record { plate = v.registration; region = v.state; empty = false }

unfoldable pub target_of : World → Text → Resolution → Target
target_of w owner res =
    if res.empty
    then record { plate = []; region = []; empty = true }
    else if is_empty res.registration
    then of_vehicle (w.vehicle owner res.vehicle_id)
    else record { plate = res.registration; region = res.state; empty = false }

abbrev pub same_gap : Gap → Gap → Bool
same_gap (Gap.gap_none a) (Gap.gap_none b) = text_eq a b
same_gap (Gap.gap_noclear a) (Gap.gap_noclear b) = text_eq a b
same_gap (Gap.gap_unresolved i a) (Gap.gap_unresolved j b) = i == j && text_eq a b
same_gap _ _ = false

abbrev pub is_gap : Gap → Option Gap → Bool
is_gap g none = false
is_gap g (some h) = same_gap h g

unfoldable pub note_unscheduled : Scheduler → ℕ → Gap → Scheduler × Bool
unfolding find put
note_unscheduled s permit gap =
    if is_gap gap (find permit s.unscheduled)
    then (s, false)
    else (record s { unscheduled = put permit gap s.unscheduled }, true)

unfoldable pub clear_unscheduled : Scheduler → ℕ → Scheduler
unfolding drop_if
clear_unscheduled s permit = record s { unscheduled = drop_if (λ k. permit == k) s.unscheduled }

abbrev pub write_act : Target → Act
write_act t = if t.empty then Act.clear_vehicle else Act.set_vehicle t.plate t.region

-- A commit is tried for a call that succeeded.
abbrev pub commit_acts : World → Target → List Act
commit_acts w t = elim w.answer [ none ↦ Act.commit_active t.plate ∷ [] | some _ ↦ [] ]

-- The plate write, its record and the release of the claim.
unfoldable pub write_plate : Scheduler → World → Permit → Target → Pass
unfolding release after_write
write_plate s w p t =
    let (s', acts, hit) = after_write (release s p.id w.done false) w p t.plate in
    (s', write_act t ∷ commit_acts w t ++ acts, hit)

unfoldable pub under_claim : Unicode → Scheduler → World → Permit → Target → Option Fresh → Pass
unfolding release write_plate same_plate settle
under_claim u s w p t none = (release s p.id w.done false, [], false)
under_claim u s w p t (some f) =
    if f.inactive
    then (release s p.id w.done false, [], false)
    else if same_plate u t.plate f.active_registration
    then settle u (release s p.id w.done false) w p.id f.active_registration f.fail_streak
    else write_plate s w p t

unfoldable pub claim_target : Unicode → Scheduler → World → Permit → Target → Pass
unfolding try_apply under_claim
claim_target u s w p t =
    let (claimed, ok) = try_apply s p.id w.done in
    if ok then under_claim u claimed w p t w.fresh else (s, [], false)

unfoldable pub apply_target : Unicode → Scheduler → World → Permit → Target → Pass
unfolding retry_deferred unpark_if_target_changed claim_target
apply_target u s w p t =
    let s' = unpark_if_target_changed u s p.id t.plate in
    if retry_deferred s' w.now p.id then (s', [], false) else claim_target u s' w p t

abbrev pub settle_listed : Unicode → Scheduler → World → Listed → Pass
settle_listed u s w p = settle u s w p.permit.id p.active_registration p.fail_streak

unfoldable pub reconcile_target :
    Unicode → (ℕ → ℕ) → Scheduler → World → Listed → Resolution → Target → Pass
unfolding clear_unscheduled same_plate spread_elapsed apply_target note_unscheduled norm_plate
    settle
reconcile_target u hash s w p res t =
    let id = p.permit.id in
    let shown = norm_plate u p.active_registration in
    if t.empty && not w.can_clear
    then settle_listed u (note_unscheduled s id (Gap.gap_noclear shown)).0 w p
    else if not t.empty && is_empty t.plate
    then (let (s', entered) = note_unscheduled s id (Gap.gap_unresolved res.vehicle_id shown) in
        let (s'', acts, hit) = settle_listed u s' w p in
        (s'', (if entered then Act.report_unresolvable ∷ [] else []) ++ acts, hit))
    else (let s' = clear_unscheduled s id in
        if same_plate u t.plate p.active_registration
        then settle_listed u s' w p
        else if spread_elapsed hash s' id res w.now
        then apply_target u s' w p.permit t
        else (s', [], false))

unfoldable pub reconcile_resolved :
    Unicode → (ℕ → ℕ) → Scheduler → World → Listed → Resolution → Pass
unfolding note_unscheduled norm_plate reconcile_target target_of settle
reconcile_resolved u hash s w p res = elim res.source [
  | Source.source_none ↦
      settle_listed u
        (note_unscheduled s p.permit.id (Gap.gap_none (norm_plate u p.active_registration))).0 w p
  | _ ↦ reconcile_target u hash s w p res (target_of w p.permit.owner res)
]

-- The last component: whether the council was contacted.
unfoldable pub reconcile_permit : Unicode → (ℕ → ℕ) → Location → Scheduler → World → Listed → Pass
unfolding reconcile_resolved resolve
reconcile_permit u hash l s w p = elim w.rules [
  | none ↦ (s, [], false)
  | some rules ↦ elim w.overrides [
    | none ↦ (s, [], false)
    | some overrides ↦ reconcile_resolved u hash s w p (resolve l w.now p.cycle rules overrides)
  ]
]
