-- ===== src/Scheduler/KeepWarm/Keeps.antt =====
-- What a pass of keep-warm leaves of the wait and of the place in the queue of a session.
use pstonn.Prelude.{
  ℕ, ◌≡◌, refl, ◌∙◌, Bool, true, false, Option, none, some, [], List, Text, find, arith, find-put,
  find-drop_if, Bool-cases, Option-cases, inl, inr,
}
use pstonn.Provider.{Link, FailureKind, failure_of}
use pstonn.Scheduler.{
  Scheduler, SessionKey, same_session, session_key, TenantSession, key_of, ReconnectItem,
}
use pstonn.Scheduler.Churn.{note_session_expiry}
use pstonn.Scheduler.Drift.{
  note_drift_failure, note_drift_deferred, note_drift_success, clear_drift_request, tally_shape,
}
use pstonn.Scheduler.Warm.{note_warm_success, note_warm_failure, clear_warm_backoff}
use pstonn.Scheduler.Reconnect.{
  reconnect_queued, enqueue_reconnect, queue_reconnect_item, queue_existing,
}
use pstonn.Scheduler.KeepWarm.{ClientError, WarmWorld, queue_tagged, drift_failed, drifted_session}

-- The session still waits as it did, and is in the queue if it was.
pub record Keeps (k : SessionKey) (s s' : Scheduler) : Type 0 where
  pub wait : find k s'.warm_retry_at ≡ find k s.warm_retry_at
  pub queue : reconnect_queued s k ≡ true → reconnect_queued s' k ≡ true

pub Keeps-same : (k : SessionKey) (s : Scheduler) → Keeps k s s
Keeps-same k s = record { wait = refl; queue = λ q. q }

pub Keeps-then : {k : SessionKey} {r s t : Scheduler} → Keeps k r s → Keeps k s t → Keeps k r t
Keeps-then p q = record { wait = q.wait ∙ p.wait; queue = λ h. q.queue (p.queue h) }

pub note_warm_success-Keeps :
    (k j : SessionKey) (s : Scheduler)
    → same_session j k ≡ false
    → Keeps k s (note_warm_success s j)
unfolding note_warm_success clear_warm_backoff reconnect_queued
note_warm_success-Keeps k j s h = record {
  wait = find-drop_if k (same_session j) s.warm_retry_at ∙ rw h refl;
  queue = λ q. q;
}

pub note_warm_failure-Keeps :
    (k j : SessionKey) (s : Scheduler) (now : ℕ)
    → same_session j k ≡ false
    → Keeps k s (note_warm_failure s now j)
unfolding note_warm_failure reconnect_queued
note_warm_failure-Keeps k j s now h = record {
  wait = find-put k j _ s.warm_retry_at ∙ rw h refl;
  queue = λ q. q;
}

queue_reconnect_item-Keeps :
    (k j : SessionKey) (s : Scheduler) (now gen : ℕ) (counts : Bool)
    → Keeps k s (queue_reconnect_item s now j gen counts).0
unfolding queue_reconnect_item queue_existing reconnect_queued
queue_reconnect_item-Keeps k j s now gen counts = elim (Option-cases (find j s.reconnect_q)) [
  | inl e ↦
      let item : ReconnectItem = record {
        next = now;
        queued_at = now;
        gen = gen;
        attempts = 0;
        counts_churn = counts;
      } in
      record {
        wait = ground (arith, e);
        queue = λ q. ground (arith, e, q, find-put k j item s.reconnect_q);
      }
  | inr (it, e) ↦ record {
    wait = ground (arith, e);
    queue =
        λ q. ground (arith, e, q, find-put k j (record it { counts_churn = true }) s.reconnect_q);
  }
]

pub enqueue_reconnect-Keeps :
    (k j : SessionKey) (s : Scheduler) (now gen : ℕ) → Keeps k s (enqueue_reconnect s now j gen).0
unfolding enqueue_reconnect note_session_expiry reconnect_queued
enqueue_reconnect-Keeps k j s now gen =
    let kept = queue_reconnect_item-Keeps k j s now gen true in
    elim (Bool-cases (queue_reconnect_item s now j gen true).1) [
      | inl e ↦ record { wait = rw e kept.wait; queue = λ q. rw e (kept.queue q) }
      | inr e ↦ record { wait = rw e kept.wait; queue = λ q. rw e (kept.queue q) }
    ]

tally_shape-Keeps :
    (k : SessionKey) (s : Scheduler) (now : ℕ) (owner : Text) (kind : FailureKind)
    → Keeps k s (tally_shape s now owner kind).0
unfolding tally_shape reconnect_queued
tally_shape-Keeps k s now owner FailureKind.fail_transient = Keeps-same k s
tally_shape-Keeps k s now owner FailureKind.fail_rejected = Keeps-same k s
tally_shape-Keeps k s now owner FailureKind.fail_unexpected = record {
  wait = ground arith;
  queue = λ q. ground (arith, q);
}

note_drift_failure-Keeps :
    (k : SessionKey) (s : Scheduler) (now : ℕ) (owner : Text) (err : List Link)
    → Keeps k s (note_drift_failure s now owner err).0
unfolding note_drift_failure reconnect_queued
note_drift_failure-Keeps k s now owner err =
    let kept = tally_shape-Keeps k _ now owner (failure_of err) in
    record { wait = kept.wait; queue = λ q. kept.queue q }

queue_tagged-Keeps :
    (k : SessionKey) (s : Scheduler) (now : ℕ) (cs : TenantSession) (gen : Option ℕ)
    → Keeps k s (queue_tagged s now cs gen).0
unfolding queue_tagged
queue_tagged-Keeps k s now cs none = Keeps-same k s
queue_tagged-Keeps k s now cs (some g) = enqueue_reconnect-Keeps k (key_of cs) s now g

drift_failed-Keeps :
    (k : SessionKey) (hash : Text → ℕ) (s : Scheduler) (now : ℕ) (cs : TenantSession)
    (err : ClientError)
    → Keeps k s (drift_failed hash s now cs err).0
unfolding drift_failed note_drift_deferred reconnect_queued
drift_failed-Keeps k hash s now cs err =
    let kept = note_drift_failure-Keeps k s now cs.owner err.cause in
    record { wait = ground (arith, kept.wait); queue = λ q. ground (arith, q, kept.queue q) }

pub drifted_session-Keeps :
    (k : SessionKey) (hash : Text → ℕ) (s : Scheduler) (now : ℕ) (cs : TenantSession)
    (w : WarmWorld) (e : Option ClientError)
    → Keeps k s (drifted_session hash s now cs w e).0
unfolding drifted_session note_drift_success clear_drift_request reconnect_queued
drifted_session-Keeps k hash s now cs w (some err) =
    Keeps-then (drift_failed-Keeps k hash s now cs err)
      (queue_tagged-Keeps k (drift_failed hash s now cs err).0 now cs err.session_gen)
drifted_session-Keeps k hash s now cs w none =
    let kept = note_drift_failure-Keeps k s now cs.owner [] in
    record { wait = ground (arith, kept.wait); queue = λ q. ground (arith, q, kept.queue q) }
