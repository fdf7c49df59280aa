-- ===== src/Scheduler/Reconnect.antt =====
-- internal/scheduler/reconnect.go, the queue: sessions that expired wait here for one worker, which
-- takes the earliest, attempts it outside the lock, and then settles what it took.
pub mod Settle
pub mod Stalled
pub mod Order
mod Tests
use pstonn.Prelude.{
  ℕ, ◌+◌, ◌-◌, ◌*◌, ◌/◌, ◌^◌, ◌<◌, min, suc, Bool, true, false, ◌&&◌, ◌||◌, not, Option, none, some,
  ◌∷◌, [], ◌++◌, List, Text, codes, find, put, drop_if, ltb, leb, ◌==◌, if◌then◌else◌, text_eq,
  length,
}
use pstonn.Clock.{hour, minute, second, elapsed, is_zero}
use pstonn.Model.Best.{best_from}
use pstonn.Scheduler.{Scheduler, SessionKey, same_session, session_key, ReconnectItem, Notice}
use pstonn.Scheduler.Churn.{note_session_expiry, session_churn_alert_owners}
use pstonn.Scheduler.Drift.{note_drift_success, is_some}
use pstonn.Scheduler.Warm.{clear_warm_backoff}

abbrev pub reconnect_backoff_min : ℕ
reconnect_backoff_min = 5 * minute

abbrev pub reconnect_backoff_max : ℕ
reconnect_backoff_max = hour

abbrev pub reconnect_stalled_alert_attempts : ℕ
reconnect_stalled_alert_attempts = 5

abbrev pub reconnect_active_window : ℕ
reconnect_active_window = 90 * second

-- The second component: whether the entry is new, or newly to be counted.
unfoldable pub queue_existing : Scheduler → SessionKey → Bool → ReconnectItem → Scheduler × Bool
unfolding put
queue_existing s k counts_churn it =
    if counts_churn && not it.counts_churn
    then (record s { reconnect_q = put k (record it { counts_churn = true }) s.reconnect_q }, true)
    else (s, false)

unfoldable pub queue_reconnect_item : Scheduler → ℕ → SessionKey → ℕ → Bool → Scheduler × Bool
unfolding find put queue_existing
queue_reconnect_item s now k gen counts_churn = elim (find k s.reconnect_q) [
  | some it ↦ queue_existing s k counts_churn it
  | none ↦ (
    record s {
      reconnect_q =
          put k
            (record {
              next = now;
              queued_at = now;
              gen = gen;
              attempts = 0;
              counts_churn = counts_churn;
            })
            s.reconnect_q;
    },
    true,
  )
]

unfoldable pub enqueue_reconnect : Scheduler → ℕ → SessionKey → ℕ → Scheduler × List Notice
unfolding queue_reconnect_item note_session_expiry
enqueue_reconnect s now k gen =
    let (queued, fresh) = queue_reconnect_item s now k gen true in
    if not fresh
    then (queued, [])
    else (let (noted, distinct) = note_session_expiry queued now k.owner in
        (
          noted,
          if leb session_churn_alert_owners distinct
              then Notice.system_alert (codes "session-churn") ∷ []
              else [],
        ))

unfoldable pub queue_reconnect : Scheduler → ℕ → SessionKey → ℕ → Scheduler
unfolding queue_reconnect_item
queue_reconnect s now k gen = (queue_reconnect_item s now k gen false).0

unfoldable pub note_session_expired : Scheduler → ℕ → SessionKey → ℕ → Scheduler × List Notice
unfolding enqueue_reconnect
note_session_expired = enqueue_reconnect

unfoldable pub reconnect_active : Scheduler → ℕ → SessionKey → Bool
unfolding find
reconnect_active s now k = elim (find k s.reconnect_q) [
  | none ↦ false
  | some it ↦ ltb (elapsed now it.queued_at) reconnect_active_window
]

unfoldable pub cancel_reconnect_where : Scheduler → Text → (SessionKey → Bool) → Scheduler
unfolding drop_if note_drift_success clear_warm_backoff
cancel_reconnect_where s owner match =
    let chosen = λ (k : SessionKey). text_eq k.owner owner && match k in
    clear_warm_backoff
      (note_drift_success (record s { reconnect_q = drop_if chosen s.reconnect_q }) owner) chosen

unfoldable pub cancel_reconnect : Scheduler → Text → Scheduler
unfolding cancel_reconnect_where
cancel_reconnect s owner = cancel_reconnect_where s owner (λ _. true)

unfoldable pub cancel_reconnect_in : Scheduler → Text → Text → Scheduler
unfolding cancel_reconnect_where
cancel_reconnect_in s owner tenant = cancel_reconnect_where s owner (λ k. text_eq k.tenant tenant)

unfoldable pub reconnect_queued : Scheduler → SessionKey → Bool
unfolding find
reconnect_queued s k = is_some (find k s.reconnect_q)

-- Go's order of strings.
unfoldable pub text_ltb : Text → Text → Bool
text_ltb [] [] = false
text_ltb [] (b ∷ t) = true
text_ltb (a ∷ s) [] = false
text_ltb (a ∷ s) (b ∷ t) = ltb a b || (a == b && text_ltb s t)

abbrev pub Entry : Type 0
Entry = SessionKey × ReconnectItem

unfoldable pub is_earlier : Entry → Entry → Bool
unfolding text_ltb
is_earlier (k, it) (key, item) =
    ltb it.next item.next
    || (it.next == item.next
        && (text_ltb k.owner key.owner
            || (text_eq k.owner key.owner && text_ltb k.tenant key.tenant)))

-- The loop over the queue.
unfoldable pub earliest : List Entry → Option Entry
unfolding is_earlier best_from
earliest q = best_from (λ _. true) is_earlier none q

-- The entry to attempt next, and how long until then.
unfoldable pub next_due_reconnect : Scheduler → ℕ → Option (Entry × ℕ)
unfolding earliest
next_due_reconnect s now = elim (earliest s.reconnect_q) [
  | none ↦ none
  | some (k, item) ↦ some ((k, item), elapsed item.next now)
]

unfoldable pub same_queued : ReconnectItem → ReconnectItem → Bool
same_queued cur attempted = cur.gen == attempted.gen && cur.queued_at == attempted.queued_at

abbrev pub is_attempted : ReconnectItem → Option ReconnectItem → Bool
is_attempted attempted none = false
is_attempted attempted (some cur) = same_queued cur attempted

unfoldable pub dequeue_reconnect : Scheduler → SessionKey → ReconnectItem → Scheduler
unfolding find drop_if same_queued
dequeue_reconnect s k attempted =
    if is_attempted attempted (find k s.reconnect_q)
    then record s { reconnect_q = drop_if (same_session k) s.reconnect_q }
    else s

abbrev pub backoff_of : ℕ → ℕ
backoff_of attempts = min (reconnect_backoff_min * 2 ^ min (attempts - 1) 6) reconnect_backoff_max

unfoldable pub backed_off : ℕ → ReconnectItem → ReconnectItem
backed_off now it =
    let attempts = it.attempts + 1 in
    record it { attempts = attempts; next = now + backoff_of attempts }

unfoldable pub backoff_reconnect :
    Scheduler → ℕ → SessionKey → ReconnectItem → Scheduler × List Notice
unfolding find put same_queued backed_off
backoff_reconnect s now k attempted = elim (find k s.reconnect_q) [
  | none ↦ (s, [])
  | some it ↦
      if same_queued it attempted
      then (
        record s { reconnect_q = put k (backed_off now it) s.reconnect_q },
        if (backed_off now it).attempts == reconnect_stalled_alert_attempts
            then Notice.alert_reconnect_stalled k ∷ []
            else [],
      )
      else (s, [])
]

-- How many are queued, how many of them are due, and the time at which the oldest was queued.
pub record Backlog : Type 0 where
  pub queued : ℕ
  pub due : ℕ
  pub oldest : ℕ

unfoldable pub tally_backlog : ℕ → List Entry → Backlog → Backlog
tally_backlog now [] b = b
tally_backlog now ((k, it) ∷ es) b = tally_backlog now es (record {
  queued = b.queued + 1;
  due = if leb it.next now then b.due + 1 else b.due;
  oldest = if is_zero b.oldest || ltb it.queued_at b.oldest then it.queued_at else b.oldest;
})

unfoldable pub reconnect_backlog : Scheduler → ℕ → ℕ × ℕ × ℕ
unfolding tally_backlog
reconnect_backlog s now =
    let b = tally_backlog now s.reconnect_q (record { queued = 0; due = 0; oldest = 0 }) in
    (
      b.queued,
      b.due,
      if not (is_zero b.oldest) && ltb b.oldest now then elapsed now b.oldest / second else 0,
    )
