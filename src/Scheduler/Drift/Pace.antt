-- ===== src/Scheduler/Drift/Pace.antt =====
-- How often an owner's permits are read.
use pstonn.Prelude.{
  ℕ, ◌+◌, ◌-◌, ◌*◌, ◌^◌, ◌≤◌, ◌<◌, ◌≡◌, min, true, false, some, List, Text, find, put, text_key,
  find-put, text_eq_refl, arith, refl, capped_pow, ap, ◌∙◌,
}
use pstonn.Clock.{minute, hour}
use pstonn.Provider.{FailureKind, Link, failure_of}
use pstonn.Scheduler.{Scheduler, TenantSession}
use pstonn.Scheduler.Drift.{
  drift_ladder, drift_backoff, drift_backed_off, note_drift_failure, tally_shape, drift_due,
  count_of, request_drift_soon, drift_requested,
}

retry_at-tally_shape :
    (s : Scheduler) (now : ℕ) (owner : Text) (kind : FailureKind)
    → (tally_shape s now owner kind).0.drift_retry_at ≡ s.drift_retry_at
unfolding tally_shape
retry_at-tally_shape s now owner FailureKind.fail_transient = refl
retry_at-tally_shape s now owner FailureKind.fail_rejected = refl
retry_at-tally_shape s now owner FailureKind.fail_unexpected = refl

retry_at-failure :
    (s : Scheduler) (now : ℕ) (owner : Text) (err : List Link)
    → find owner (note_drift_failure s now owner err).0.drift_retry_at
      ≡ some (now + drift_backoff s (count_of (find owner s.drift_fails) + 1))
unfolding note_drift_failure
retry_at-failure s now owner err =
    let n = count_of (find owner s.drift_fails) + 1 in
    ap (find owner) (
      retry_at-tally_shape
        (record s {
          drift_fails = put owner n s.drift_fails;
          drift_retry_at = put owner (now + drift_backoff s n) s.drift_retry_at;
        })
        now owner (failure_of err))
    ∙ find-put owner owner (now + drift_backoff s n) s.drift_retry_at
    ∙ rw (text_eq_refl owner) refl

not_due :
    (hash : Text → ℕ) (s : Scheduler) (cs : TenantSession) (now at : ℕ)
    → find cs.owner s.drift_retry_at ≡ some at
    → now < at
    → drift_due hash s cs now ≡ false
unfolding drift_due drift_backed_off
not_due hash s cs now at e h = ground arith

-- After a read that failed, the owner is not due again before the wait for that many failures in a
-- row has passed, whatever was asked for meanwhile.
drift_due-failure :
    (hash : Text → ℕ) (s : Scheduler) (now later : ℕ) (cs : TenantSession) (err : List Link)
    → later < now + drift_backoff s (count_of (find cs.owner s.drift_fails) + 1)
    → drift_due hash
        (request_drift_soon (note_drift_failure s now cs.owner err).0 cs.owner)
        cs
        later
      ≡ false
drift_due-failure hash s now later cs err h =
    not_due hash (request_drift_soon (note_drift_failure s now cs.owner err).0 cs.owner) cs later
      (now + drift_backoff s (count_of (find cs.owner s.drift_fails) + 1))
      (unfold request_drift_soon in retry_at-failure s now cs.owner err) h

-- A read that was asked for is due at once, unless reads are switched off or held back, and stays
-- so until the request is cleared.
drift_due-request :
    (hash : Text → ℕ) (s : Scheduler) (cs : TenantSession) (now : ℕ)
    → 0 < s.drift_interval
    → drift_backed_off s now cs.owner ≡ false
    → drift_due hash (request_drift_soon s cs.owner) cs now ≡ true
unfolding drift_due request_drift_soon drift_requested drift_backed_off
drift_due-request hash s cs now on free =
    ground (arith, find-put cs.owner cs.owner tt s.drift_asap, text_eq_refl cs.owner)

-- The wait after n failures in a row is 15 minutes times 4 for each failure but the first, cut at
-- the interval: the loop's own bound of four factors never shows, for an interval of up to 64 hours.
drift_backoff-uncut :
    (s : Scheduler) (n : ℕ)
    → 0 < n
    → 0 < s.drift_interval
    → s.drift_interval ≤ 64 * hour
    → drift_backoff s n ≡ min (15 * minute * 4 ^ (n - 1)) s.drift_interval
unfolding drift_backoff drift_ladder
drift_backoff-uncut s n h on short =
    ground
      (arith, capped_pow (15 * minute) 4 (n - 1) 4 s.drift_interval (omega arith) (omega arith))
