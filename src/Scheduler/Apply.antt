-- ===== src/Scheduler/Apply.antt =====
-- internal/scheduler/reconcile.go and notify.go: what follows the council's answer to a plate write, by
-- the kind of the answer (reconcilePermit's switch, handleApplyFailure, reportTenantUnavailable), and
-- settle, which closes a run of failures. What is read of the store is an argument.
use pstonn.Prelude.{
  ℕ, Bool, true, false, not, ◌&&◌, ◌||◌, Option, none, some, ◌∷◌, [], ◌++◌, List, Text, codes, ◌==◌,
  if◌then◌else◌, number_key, leb,
}
use pstonn.Model.Cycle.{Cycle, is_empty}
use pstonn.Model.Plate.{Unicode, same_plate}
use pstonn.Model.Schedule.{WeeklyRule, Override}
use pstonn.Model.Displaced.{VehicleInfo}
use pstonn.Provider.{Link, FailureKind, failure_of}
use pstonn.Scheduler.{Scheduler, Notice}
use pstonn.Scheduler.Retry.{Permit, defer_retry, park_retry, clear_retry}
use pstonn.Scheduler.Reconnect.{enqueue_reconnect}
use pstonn.Scheduler.Episode.{FailTier}

abbrev pub fail_notify_threshold : ℕ
fail_notify_threshold = 3

abbrev pub busy_notify_threshold : ℕ
busy_notify_threshold = 15

abbrev pub block_notify_threshold : ℕ
block_notify_threshold = 4

abbrev pub session_notify_threshold : ℕ
session_notify_threshold = 4

-- The client's sentinels, and an error of it as the chain that errors.Is walks.
pub data ApplyLink : Type 0 where
  tenant_unavailable not_linked council_busy not_captured session_expired other_apply : ApplyLink

pub record ApplyError : Type 0 where
  pub links : List ApplyLink
  pub session_gen : Option ℕ
  pub cause : List Link

abbrev pub is_link : ApplyLink → ApplyLink → Bool
is_link tenant_unavailable tenant_unavailable = true
is_link not_linked not_linked = true
is_link council_busy council_busy = true
is_link not_captured not_captured = true
is_link session_expired session_expired = true
is_link other_apply other_apply = true
is_link _ _ = false

abbrev pub wraps : ApplyLink → List ApplyLink → Bool
wraps l [] = false
wraps l (k ∷ ks) = is_link l k || wraps l ks

-- A permit as the pass listed it, and as the store has it under the claim.
pub record Listed : Type 0 where
  pub permit : Permit
  pub cycle : Cycle
  pub active_registration : Text
  pub fail_streak : ℕ

pub record Fresh : Type 0 where
  pub active_registration : Text
  pub fail_streak : ℕ
  pub inactive : Bool

-- The last row of the activity log.
pub record LastApply : Type 0 where
  pub registration : Text
  pub is_error : Bool

-- What the pass meets. A list or a permit that cannot be read is none, so is the error of a call that
-- succeeds; `settled` is the permit as settle reads it, `streak` is what bumpFailStreak returns, `done` the channel of the claim.
pub record World : Type 0 where
  pub now : ℕ
  pub rules : Option (List WeeklyRule)
  pub overrides : Option (List Override)
  pub vehicle : Text → ℕ → Option VehicleInfo
  pub can_clear : Bool
  pub fresh : Option Fresh
  pub settled : Option Fresh
  pub last : Option LastApply
  pub answer : Option ApplyError
  pub commit_fails : Bool
  pub streak : ℕ
  pub draw : ℕ
  pub done : ℕ
  pub auth_gated : Bool
  pub blocked : Bool

-- What the pass does besides its own state, in order.
pub data Act : Type 0 where
  report_unresolvable clear_vehicle bump_streak succeed close_episode clear_streak : Act
  set_vehicle : Text → Text → Act
  commit_active log_error log_success unapplied : Text → Act
  escalate : ℕ → FailTier → Text → Act
  notify : FailTier → Text → Act
  notice : Notice → Act

abbrev pub Pass : Type 0
Pass = Scheduler × List Act × Bool

-- How the last error of a run of failures is closed out.
unfoldable pub close_out : Unicode → Text → Option LastApply → List Act
unfolding same_plate
close_out u active none = []
close_out u active (some l) =
    if l.is_error && not (is_empty l.registration)
    then (if same_plate u l.registration active
        then Act.log_success l.registration ∷ []
        else Act.log_error l.registration ∷ Act.unapplied l.registration ∷ [])
    else []

unfoldable pub settle_read : Unicode → Scheduler → World → ℕ → Text → Option Fresh → Pass
unfolding same_plate clear_retry close_out
settle_read u s w permit active none = (s, [], false)
settle_read u s w permit active (some f) =
    if f.fail_streak == 0 || not (same_plate u f.active_registration active)
    then (s, [], false)
    else (
      clear_retry s permit,
      (if leb fail_notify_threshold f.fail_streak
            then close_out u f.active_registration w.last
            else [])
          ++ Act.close_episode ∷ Act.clear_streak ∷ [],
      false,
    )

unfoldable pub settle : Unicode → Scheduler → World → ℕ → Text → ℕ → Pass
unfolding settle_read
settle u s w permit active streak =
    if streak == 0 then (s, [], false) else settle_read u s w permit active w.settled

-- A refusal is parked and told at once; anything else is deferred by its streak.
unfoldable pub handle_apply_failure : Scheduler → World → Permit → Text → List Link → Pass
unfolding failure_of park_retry defer_retry
handle_apply_failure s w p want cause = elim (failure_of cause) [
  | FailureKind.fail_rejected ↦ (
    park_retry s w.now p.id want,
    Act.log_error want ∷ Act.escalate 1 FailTier.tier_soft want ∷ [],
    true,
  )
  | _ ↦ (
    defer_retry s w.now w.draw p.id w.streak,
    Act.log_error want ∷ Act.escalate fail_notify_threshold FailTier.tier_soft want ∷ [],
    true,
  )
]

unfoldable pub report_tenant_unavailable : Scheduler → World → Permit → Text → Pass
unfolding defer_retry
report_tenant_unavailable s w p want = (
  defer_retry s w.now w.draw p.id 5,
  Act.log_error want ∷ Act.notify FailTier.tier_soft want ∷ [],
  false,
)

abbrev pub busy_acts : World → Text → List Act
busy_acts w want =
    let confirmed = not w.auth_gated && w.blocked in
    Act.log_error want
    ∷ (if confirmed
        then Act.escalate block_notify_threshold FailTier.tier_urgent want
        else Act.escalate busy_notify_threshold FailTier.tier_soft want)
    ∷ []

unfoldable pub queue_expired : Scheduler → World → Permit → Option ℕ → Scheduler × List Notice
unfolding enqueue_reconnect
queue_expired s w p none = (s, [])
queue_expired s w p (some g) =
    enqueue_reconnect s w.now (record { owner = p.owner; tenant = p.tenant_id }) g

abbrev pub as_acts : List Notice → List Act
as_acts [] = []
as_acts (n ∷ ns) = Act.notice n ∷ as_acts ns

unfoldable pub session_lost : Scheduler → World → Permit → Text → Option ℕ → Pass
unfolding queue_expired defer_retry
session_lost s w p want gen =
    let (s', ns) = queue_expired s w p gen in
    (
      defer_retry s' w.now w.draw p.id 3,
      as_acts ns
          ++ Act.log_error want
            ∷ Act.escalate session_notify_threshold FailTier.tier_urgent want
            ∷ [],
      true,
    )

unfoldable pub after_error : Scheduler → World → Permit → Text → ApplyError → Pass
unfolding report_tenant_unavailable handle_apply_failure session_lost
after_error s w p want err =
    if wraps tenant_unavailable err.links
    then report_tenant_unavailable s w p want
    else if wraps not_linked err.links
    then (s, [], false)
    else if wraps council_busy err.links
    then (s, busy_acts w want, false)
    else if wraps not_captured err.links
    then (let (s', acts, hit) = handle_apply_failure s w p want err.cause in
        (s', Act.notice (Notice.system_alert (codes "not-captured")) ∷ acts, hit))
    else if wraps session_expired err.links
    then session_lost s w p want err.session_gen
    else handle_apply_failure s w p want err.cause

-- Once the claim has been released.
unfoldable pub after_write : Scheduler → World → Permit → Text → Pass
unfolding after_error defer_retry clear_retry
after_write s w p want = elim w.answer [
  | some err ↦ after_error s w p want err
  | none ↦
      if w.commit_fails
      then (
        defer_retry s w.now w.draw p.id 3,
        Act.notice (Notice.system_alert (codes "commit-after-apply")) ∷ Act.bump_streak ∷ [],
        true,
      )
      else (clear_retry s p.id, Act.succeed ∷ [], true)
]
