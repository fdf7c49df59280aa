-- ===== src/Scheduler/Reconcile/Written.antt =====
-- What a pass asks of the council: the calls among its acts.
use pstonn.Prelude.{
  Bool, true, false, if◌then◌else◌, ℕ, ◌≡◌, refl, Option, none, some, ◌∷◌, [], ◌++◌, List, Text,
  number_key, arith, Option-cases, inl, inr,
}
use pstonn.Model.Plate.{Unicode}
use pstonn.Provider.{Link}
use pstonn.Scheduler.{Scheduler, Notice}
use pstonn.Scheduler.Retry.{Permit}
use pstonn.Scheduler.Episode.{FailTier}
use pstonn.Scheduler.Apply.{
  Fresh, LastApply, World, Act, ApplyError, close_out, settle_read, settle, handle_apply_failure,
  report_tenant_unavailable, session_notify_threshold, queue_expired, as_acts, session_lost,
  after_error, after_write,
}

-- A call that changes the permit at the council.
abbrev pub is_call : Act → Bool
is_call Act.clear_vehicle = true
is_call (Act.set_vehicle plate region) = true
is_call _ = false

-- The calls among the acts, in their order.
abbrev pub written : List Act → List Act
written [] = []
written (a ∷ acts) = if is_call a then a ∷ written acts else written acts

written-append : (xs ys : List Act) → written (xs ++ ys) ≡ written xs ++ written ys
written-append [] ys = refl
written-append (x ∷ xs) ys = ground (arith, written-append xs ys)

written-close_out :
    (u : Unicode) (active : Text) (l : Option LastApply) → written (close_out u active l) ≡ []
unfolding close_out
written-close_out u active none = refl
written-close_out u active (some l) = ground arith

written-settle_read :
    (u : Unicode) (s : Scheduler) (w : World) (permit : ℕ) (active : Text) (f : Option Fresh)
    → written (settle_read u s w permit active f).1 ≡ []
unfolding settle_read
written-settle_read u s w permit active none = refl
written-settle_read u s w permit active (some f) = ground (
  arith,
  written-close_out u f.active_registration w.last,
  written-append (close_out u f.active_registration w.last)
      (Act.close_episode ∷ Act.clear_streak ∷ []),
)

pub written-settle :
    (u : Unicode) (s : Scheduler) (w : World) (permit : ℕ) (active : Text) (streak : ℕ)
    → written (settle u s w permit active streak).1 ≡ []
unfolding settle
written-settle u s w permit active streak =
    ground (arith, written-settle_read u s w permit active w.settled)

written-as_acts : (ns : List Notice) → written (as_acts ns) ≡ []
written-as_acts [] = refl
written-as_acts (n ∷ ns) = written-as_acts ns

written-handle_apply_failure :
    (s : Scheduler) (w : World) (p : Permit) (want : Text) (cause : List Link)
    → written (handle_apply_failure s w p want cause).1 ≡ []
unfolding handle_apply_failure
written-handle_apply_failure s w p want cause = ground arith

written-session_lost :
    (s : Scheduler) (w : World) (p : Permit) (want : Text) (gen : Option ℕ)
    → written (session_lost s w p want gen).1 ≡ []
unfolding session_lost
written-session_lost s w p want gen =
    let ns = (queue_expired s w p gen).1 in
    ground (
      arith,
      written-append (as_acts ns) (
          Act.log_error want
          ∷ Act.escalate session_notify_threshold FailTier.tier_urgent want
          ∷ []),
      written-as_acts ns,
    )

written-after_error :
    (s : Scheduler) (w : World) (p : Permit) (want : Text) (err : ApplyError)
    → written (after_error s w p want err).1 ≡ []
unfolding after_error report_tenant_unavailable
written-after_error s w p want err = ground (
  arith,
  written-handle_apply_failure s w p want err.cause,
  written-session_lost s w p want err.session_gen,
)

pub written-after_write :
    (s : Scheduler) (w : World) (p : Permit) (want : Text) → written (after_write s w p want).1 ≡ []
unfolding after_write
written-after_write s w p want = elim (Option-cases w.answer) [
  | inl e ↦ ground (arith, e)
  | inr (err, e) ↦ ground (arith, e, written-after_error s w p want err)
]
