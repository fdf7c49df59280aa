-- ===== src/Scheduler/Reconnect/Settle.antt =====
-- What becomes of an entry of the queue: when it is queued again, backed off, or settled late.
use pstonn.Prelude.{
  ℕ, ◌*◌, ◌^◌, ◌-◌, ◌≡◌, refl, min, Bool, true, not, ◌&&◌, ◌||◌, Option, some, find, find-put,
  arith, Bool-cases, inl, inr, capped_pow,
}
use pstonn.Clock.{minute, hour}
use pstonn.Scheduler.{Scheduler, SessionKey, same_session_iff, session_key, ReconnectItem}
use pstonn.Scheduler.Reconnect.{
  queue_reconnect_item, queue_existing, backoff_reconnect, backed_off, backoff_of, same_queued,
}

-- What a second report of an entry may change: whether it counts, and only to yes.
pub record IsKept (it : ReconnectItem) (o : Option ReconnectItem) : Type 0 where
  pub item : ReconnectItem
  pub found : o ≡ some item
  pub gen : item.gen ≡ it.gen
  pub queued_at : item.queued_at ≡ it.queued_at
  pub next : item.next ≡ it.next
  pub attempts : item.attempts ≡ it.attempts
  pub counts : (it.counts_churn || item.counts_churn) ≡ item.counts_churn

-- A session that is queued already keeps its entry, its generation, its turn and its attempts,
-- whatever generation is reported again; a background report makes it count, and none stops that.
queue_reconnect_item-IsKept :
    (s : Scheduler) (now : ℕ) (k : SessionKey) (gen : ℕ) (counts : Bool) (it : ReconnectItem)
    → find k s.reconnect_q ≡ some it
    → IsKept it (find k (queue_reconnect_item s now k gen counts).0.reconnect_q)
unfolding queue_reconnect_item queue_existing
queue_reconnect_item-IsKept s now k gen counts it h =
    elim (Bool-cases (counts && not it.counts_churn)) [
      | inl e ↦ record {
        item = record it { counts_churn = true };
        found = ground (
          arith,
          h,
          e,
          find-put k k (record it { counts_churn = true }) s.reconnect_q,
          same_session_iff k k,
        );
        gen = refl;
        queued_at = refl;
        next = refl;
        attempts = refl;
        counts = ground arith;
      }
      | inr e ↦ record {
        item = it;
        found = ground (arith, h, e);
        gen = refl;
        queued_at = refl;
        next = refl;
        attempts = refl;
        counts = ground arith;
      }
    ]

-- The entry that a deferred attempt leaves.
pub backoff_reconnect-find :
    (s : Scheduler) (now : ℕ) (k : SessionKey) (it attempted : ReconnectItem)
    → find k s.reconnect_q ≡ some it
    → same_queued it attempted ≡ true
    → find k (backoff_reconnect s now k attempted).0.reconnect_q ≡ some (backed_off now it)
unfolding backoff_reconnect
backoff_reconnect-find s now k it attempted h e =
    ground (arith, h, e, find-put k k (backed_off now it) s.reconnect_q, same_session_iff k k)

-- The wait of an entry after n failures is 5 minutes doubled for each failure but the first, cut at
-- one hour: the code's bound of six doublings never shows.
backoff_of-uncut : (n : ℕ) → backoff_of n ≡ min (5 * minute * 2 ^ (n - 1)) hour
backoff_of-uncut n = capped_pow (5 * minute) 2 (n - 1) 6 hour (omega arith) (omega arith)
