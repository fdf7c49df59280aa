-- ===== src/Scheduler/Recover/Outcome.antt =====
-- What a round of the worker leaves in the queue.
use pstonn.Prelude.{
  ℕ, ◌+◌, ◌-◌, ◌*◌, ◌≤◌, ◌≡◌, refl, ap, sym, ◌∙◌, Bool, true, false, ◌&&◌, Option, none, some, ◌∷◌,
  [], List, find, if◌then◌else◌, find-drop_if, find-put, arith, text_eq, text_eq_refl, min, subst,
}
use native.Mathlib.Nat.{one-le-pow}
use pstonn.Clock.{minute}
use pstonn.Scheduler.{
  Scheduler, SessionKey, same_session, same_session_iff, session_key, ReconnectItem,
}
use pstonn.Scheduler.Churn.{note_reconnect}
use pstonn.Scheduler.Drift.{note_drift_success}
use pstonn.Scheduler.Warm.{note_warm_success, clear_warm_backoff}
use pstonn.Scheduler.Retry.{Permit, clear_retry, clear_matching, kick_owner_in, kick_owner_where}
use pstonn.Scheduler.Reconnect.{
  queue_reconnect_item, cancel_reconnect_in, cancel_reconnect_where, same_queued, dequeue_reconnect,
  backoff_reconnect, backed_off, next_due_reconnect,
}
use pstonn.Scheduler.Reconnect.Settle.{backoff_reconnect-find}
use pstonn.Scheduler.Recover.{
  ReconnectResult, Attempt, retire, after_login, recover_or_retire, settle, drain_one_reconnect,
}

queue-clear_matching :
    (match : Permit → Bool) (ps : List Permit) (s : Scheduler)
    → (clear_matching s match ps).reconnect_q ≡ s.reconnect_q
unfolding clear_matching clear_retry
queue-clear_matching match [] s = refl
queue-clear_matching match (p ∷ ps) s =
    queue-clear_matching match ps (if match p then clear_retry s p.id else s) ∙ ground arith

queue-kick_owner_in :
    (s : Scheduler) (k : SessionKey) (ps : Option (List Permit))
    → (kick_owner_in (note_warm_success s k) k.tenant ps).0.reconnect_q ≡ s.reconnect_q
unfolding kick_owner_in kick_owner_where note_warm_success clear_warm_backoff
queue-kick_owner_in s k none = refl
queue-kick_owner_in s k (some ps) =
    queue-clear_matching (λ p. text_eq p.tenant_id k.tenant) ps (note_warm_success s k)

dequeue-requeued :
    (s : Scheduler) (k : SessionKey) (item cur : ReconnectItem)
    → find k s.reconnect_q ≡ some cur
    → same_queued cur item ≡ false
    → find k (dequeue_reconnect s k item).reconnect_q ≡ some cur
unfolding dequeue_reconnect
dequeue-requeued s k item cur h e = ground arith

backoff-requeued :
    (s : Scheduler) (now : ℕ) (k : SessionKey) (item cur : ReconnectItem)
    → find k s.reconnect_q ≡ some cur
    → same_queued cur item ≡ false
    → find k (backoff_reconnect s now k item).0.reconnect_q ≡ some cur
unfolding backoff_reconnect
backoff-requeued s now k item cur h e = ground (arith, h, e)

settle-requeued :
    (s : Scheduler) (now : ℕ) (k : SessionKey) (item cur : ReconnectItem)
    (ps : Option (List Permit)) (result : Option ReconnectResult)
    → find k s.reconnect_q ≡ some cur
    → same_queued cur item ≡ false
    → find k (settle s now k item ps result).0.reconnect_q ≡ some cur
unfolding settle note_warm_success clear_warm_backoff
settle-requeued s now k item cur ps none h e = backoff-requeued s now k item cur h e
settle-requeued s now k item cur ps (some ReconnectResult.reconnect_recovered) h e =
    ap (find k) (queue-kick_owner_in (dequeue_reconnect s k item) k ps)
    ∙ dequeue-requeued s k item cur h e
settle-requeued s now k item cur ps (some ReconnectResult.reconnect_retired) h e =
    dequeue-requeued s k item cur h e
settle-requeued s now k item cur ps (some ReconnectResult.reconnect_deferred) h e =
    backoff-requeued s now k item cur h e

-- The entry of a session that has none.
abbrev pub new_item : ℕ → ℕ → Bool → ReconnectItem
new_item t gen counts = record {
  next = t;
  queued_at = t;
  gen = gen;
  attempts = 0;
  counts_churn = counts;
}

queue-cancel_reconnect_in :
    (s : Scheduler) (k : SessionKey)
    → find k (cancel_reconnect_in s k.owner k.tenant).reconnect_q ≡ none
unfolding cancel_reconnect_in cancel_reconnect_where note_drift_success clear_warm_backoff
queue-cancel_reconnect_in s k =
    find-drop_if k (λ j. text_eq j.owner k.owner && text_eq j.tenant k.tenant) s.reconnect_q
    ∙ ground (arith, text_eq_refl k.owner, text_eq_refl k.tenant)

queue-fresh :
    (s : Scheduler) (t : ℕ) (k : SessionKey) (gen : ℕ) (counts : Bool)
    → find k s.reconnect_q ≡ none
    → find k (queue_reconnect_item s t k gen counts).0.reconnect_q ≡ some (new_item t gen counts)
unfolding queue_reconnect_item
queue-fresh s t k gen counts h =
    ground (arith, h, find-put k k (new_item t gen counts) s.reconnect_q, same_session_iff k k)

-- A link or an unlink that cancels the entry while it is being attempted, followed by a new expiry
-- of another generation or at another time, leaves the new entry as it was queued, however the old
-- attempt ends.
pub settle-cancelled :
    (s : Scheduler) (now : ℕ) (k : SessionKey) (item : ReconnectItem) (ps : Option (List Permit))
    (result : Option ReconnectResult) (t gen : ℕ) (counts : Bool)
    → same_queued (new_item t gen counts) item ≡ false
    → find k
        (settle
          (queue_reconnect_item (cancel_reconnect_in s k.owner k.tenant) t k gen counts).0
          now
          k
          item
          ps
          result).0.reconnect_q
      ≡ some (new_item t gen counts)
settle-cancelled s now k item ps result t gen counts e =
    settle-requeued (queue_reconnect_item (cancel_reconnect_in s k.owner k.tenant) t k gen counts).0
      now k item (new_item t gen counts) ps result
      (queue-fresh (cancel_reconnect_in s k.owner k.tenant) t k gen counts
        (queue-cancel_reconnect_in s k))
      e

retire-queue :
    (s : Scheduler) (k : SessionKey) (gen : ℕ) (a : Attempt)
    → (retire s k gen a).scheduler.reconnect_q ≡ s.reconnect_q
unfolding retire
retire-queue s k gen a = ground arith

after_login-queue :
    (s : Scheduler) (now : ℕ) (k : SessionKey) (gen : ℕ) (counts : Bool) (a : Attempt)
    → (after_login s now k gen counts a).scheduler.reconnect_q ≡ s.reconnect_q
unfolding after_login note_reconnect
after_login-queue s now k gen counts a = ground (arith, retire-queue s k gen a)

recover_or_retire-queue :
    (s : Scheduler) (now : ℕ) (k : SessionKey) (gen : ℕ) (counts : Bool) (a : Attempt)
    → (recover_or_retire s now k gen counts a).scheduler.reconnect_q ≡ s.reconnect_q
unfolding recover_or_retire
recover_or_retire-queue s now k gen counts a =
    ground (arith, after_login-queue s now k gen counts a)

-- The entry is gone, or it waits for five minutes at least.
abbrev pub IsSettled : ℕ → Option ReconnectItem → Type 0
IsSettled now none = Unit
IsSettled now (some it) = now + 5 * minute ≤ it.next

backed_off-IsSettled : (now : ℕ) (it : ReconnectItem) → now + 5 * minute ≤ (backed_off now it).next
unfolding backed_off
backed_off-IsSettled now it =
    omega (arith, one-le-pow (min (it.attempts + 1 - 1) 6) 2 (omega arith))

dequeue-none :
    (s : Scheduler) (k : SessionKey) (item : ReconnectItem)
    → find k s.reconnect_q ≡ some item
    → find k (dequeue_reconnect s k item).reconnect_q ≡ none
unfolding dequeue_reconnect same_queued
dequeue-none s k item h =
    ground (arith, h, find-drop_if k (same_session k) s.reconnect_q, same_session_iff k k)

same_queued_refl : (it : ReconnectItem) → same_queued it it ≡ true
unfolding same_queued
same_queued_refl it = ground arith

settle-IsSettled :
    (s : Scheduler) (now : ℕ) (k : SessionKey) (item : ReconnectItem) (ps : Option (List Permit))
    (result : Option ReconnectResult)
    → find k s.reconnect_q ≡ some item
    → IsSettled now (find k (settle s now k item ps result).0.reconnect_q)
unfolding settle note_warm_success clear_warm_backoff
settle-IsSettled s now k item ps none h =
    subst (IsSettled now) (sym (backoff_reconnect-find s now k item item h (same_queued_refl item)))
      (backed_off-IsSettled now item)
settle-IsSettled s now k item ps (some ReconnectResult.reconnect_recovered) h =
    subst (IsSettled now)
      (sym (
        ap (find k) (queue-kick_owner_in (dequeue_reconnect s k item) k ps)
        ∙ dequeue-none s k item h))
      tt
settle-IsSettled s now k item ps (some ReconnectResult.reconnect_retired) h =
    subst (IsSettled now) (sym (dequeue-none s k item h)) tt
settle-IsSettled s now k item ps (some ReconnectResult.reconnect_deferred) h =
    subst (IsSettled now) (sym (backoff_reconnect-find s now k item item h (same_queued_refl item)))
      (backed_off-IsSettled now item)

drain_one_reconnect-due :
    (s : Scheduler) (now later : ℕ) (a : Attempt) (ps : Option (List Permit)) (k : SessionKey)
    (item : ReconnectItem)
    → next_due_reconnect s now ≡ some ((k, item), 0)
    → let r = recover_or_retire s now k item.gen item.counts_churn a in
      (drain_one_reconnect s now later a (λ r. r) ps).0
      ≡ (settle r.scheduler later k item ps (some r.result)).0
unfolding drain_one_reconnect
drain_one_reconnect-due s now later a ps k item due = ground (arith, due)

-- A round that finds an entry due, with nothing else happening to the queue meanwhile, ends with the
-- entry gone or waiting for five minutes at least, so the worker never spins on one session.
pub drain_one_reconnect-IsSettled :
    (s : Scheduler) (now later : ℕ) (a : Attempt) (ps : Option (List Permit)) (k : SessionKey)
    (item : ReconnectItem)
    → find k s.reconnect_q ≡ some item
    → next_due_reconnect s now ≡ some ((k, item), 0)
    → IsSettled later (find k (drain_one_reconnect s now later a (λ r. r) ps).0.reconnect_q)
drain_one_reconnect-IsSettled s now later a ps k item h due =
    let r = recover_or_retire s now k item.gen item.counts_churn a in
    let queue : r.scheduler.reconnect_q ≡ s.reconnect_q =
      recover_or_retire-queue s now k item.gen item.counts_churn a in
    subst (λ t. IsSettled later (find k t.reconnect_q))
      (sym (drain_one_reconnect-due s now later a ps k item due))
      (settle-IsSettled r.scheduler later k item ps (some r.result) (ap (find k) queue ∙ h))
