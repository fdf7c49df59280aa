-- ===== src/Scheduler/Reconcile/Ready.antt =====
-- When a pass that has a target asks the council for it.
use pstonn.Prelude.{
  List, ◌∷◌, ℕ, ◌≡◌, refl, Bool, true, false, not, ◌&&◌, Option, none, some, [], Text,
  if◌then◌else◌, find, put, number_key, arith, Bool-cases, Option-cases, inl, inr,
}
use pstonn.Model.Plate.{Unicode, same_plate}
use pstonn.Scheduler.{Scheduler}
use pstonn.Scheduler.Retry.{
  Permit, unpark_if_target_changed, unpark_parked, clear_retry, retry_deferred, try_apply, release,
}
use pstonn.Scheduler.Apply.{Fresh, World, Act}
use pstonn.Scheduler.Reconcile.{Target, write_plate, under_claim, claim_target, apply_target}
use pstonn.Scheduler.Reconcile.Written.{written, written-settle, written-after_write}

-- The call that leaves the permit with the target: a clearing if it is to have no plate, and
-- otherwise the plate with its region.
abbrev pub call_of : Target → Act
call_of t = if t.empty then Act.clear_vehicle else Act.set_vehicle t.plate t.region

written-write_plate :
    (s : Scheduler) (w : World) (p : Permit) (t : Target)
    → written (write_plate s w p t).1 ≡ call_of t ∷ []
unfolding write_plate
written-write_plate s w p t =
    ground (arith, written-after_write (release s p.id w.done false) w p t.plate)

-- The permit as it is under the claim still needs the change.
abbrev pub needs : Unicode → Text → Option Fresh → Bool
needs u plate none = false
needs u plate (some f) = not f.inactive && not (same_plate u plate f.active_registration)

abbrev pub when : Bool → Target → List Act
when b t = if b then call_of t ∷ [] else []

written-under_claim :
    (u : Unicode) (s : Scheduler) (w : World) (p : Permit) (t : Target) (f : Option Fresh)
    → written (under_claim u s w p t f).1 ≡ when (needs u t.plate f) t
unfolding under_claim
written-under_claim u s w p t none = refl
written-under_claim u s w p t (some f) = ground (
  arith,
  written-write_plate s w p t,
  written-settle u (release s p.id w.done false) w p.id f.active_registration f.fail_streak,
)

-- Nobody has the claim.
abbrev pub is_free : Option ℕ → Bool
is_free none = true
is_free (some c) = false

applying-unpark :
    (u : Unicode) (s : Scheduler) (permit : ℕ) (want : Text)
    → (unpark_if_target_changed u s permit want).applying ≡ s.applying
unfolding unpark_if_target_changed unpark_parked clear_retry
applying-unpark u s permit want = elim (Option-cases (find permit s.parked_for)) [
  | inl e ↦ ground (arith, e)
  | inr (parked, e) ↦ ground (arith, e)
]

written-claim_target :
    (u : Unicode) (s : Scheduler) (w : World) (p : Permit) (t : Target)
    → written (claim_target u s w p t).1
      ≡ when (is_free (find p.id s.applying) && needs u t.plate w.fresh) t
unfolding claim_target try_apply
written-claim_target u s w p t = elim (Option-cases (find p.id s.applying)) [
  | inl e ↦ ground (
    arith,
    e,
    written-under_claim u (record s { applying = put p.id w.done s.applying }) w p t w.fresh,
  )
  | inr (c, e) ↦ ground (arith, e)
]

-- The permit is held back for this target.
abbrev pub is_deferred : Unicode → Scheduler → ℕ → ℕ → Text → Bool
is_deferred u s now permit want =
    retry_deferred (unpark_if_target_changed u s permit want) now permit

-- The conditions under the target: the permit is not held back, nobody else writes to it, and it
-- still needs the change.
abbrev pub is_ready : Unicode → Scheduler → World → Permit → Text → Bool
is_ready u s w p want =
    not (is_deferred u s w.now p.id want)
    && (is_free (find p.id s.applying) && needs u want w.fresh)

pub written-apply_target :
    (u : Unicode) (s : Scheduler) (w : World) (p : Permit) (t : Target)
    → written (apply_target u s w p t).1 ≡ when (is_ready u s w p t.plate) t
unfolding apply_target
written-apply_target u s w p t =
    let s' = unpark_if_target_changed u s p.id t.plate in
    elim (Bool-cases (retry_deferred s' w.now p.id)) [
      | inl e ↦ ground (arith, e)
      | inr e ↦ ground (arith, e, written-claim_target u s' w p t, applying-unpark u s p.id t.plate)
    ]
