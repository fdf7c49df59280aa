-- ===== src/Scheduler/Reconnect/Stalled.antt =====
-- How often a household is told that reconnecting has stalled while its entry stays in the queue.
use pstonn.Prelude.{
  ℕ, ◌+◌, ◌≡◌, refl, ◌∙◌, true, ◌&&◌, some, ◌∷◌, [], ◌++◌, List, find, ◌==◌, if◌then◌else◌, arith,
  length, ltb, leb,
}
use pstonn.Scheduler.{Scheduler, SessionKey, session_key, Notice, ReconnectItem}
use pstonn.Scheduler.Reconnect.{backoff_reconnect, backed_off, same_queued}
use pstonn.Scheduler.Reconnect.Settle.{backoff_reconnect-find}

-- The attempts on one entry that were deferred, at the times at which they were.
unfoldable pub deferrals : Scheduler → SessionKey → ReconnectItem → List ℕ → Scheduler × List Notice
unfolding backoff_reconnect
deferrals s k attempted [] = (s, [])
deferrals s k attempted (now ∷ nows) =
    let (s', ns) = backoff_reconnect s now k attempted in
    let (s'', ns') = deferrals s' k attempted nows in (s'', ns ++ ns')

backoff_reconnect-notices :
    (s : Scheduler) (now : ℕ) (k : SessionKey) (it attempted : ReconnectItem)
    → find k s.reconnect_q ≡ some it
    → same_queued it attempted ≡ true
    → (backoff_reconnect s now k attempted).1
      ≡ (if it.attempts == 4 then Notice.alert_reconnect_stalled k ∷ [] else [])
unfolding backoff_reconnect backed_off
backoff_reconnect-notices s now k it attempted h e = ground (arith, h, e)

same_queued-backed_off :
    (now : ℕ) (it attempted : ReconnectItem)
    → same_queued (backed_off now it) attempted ≡ same_queued it attempted
unfolding same_queued backed_off
same_queued-backed_off now it attempted = refl

attempts-backed_off :
    (now : ℕ) (it : ReconnectItem) → (backed_off now it).attempts ≡ it.attempts + 1
unfolding backed_off
attempts-backed_off now it = refl

-- However many attempts on one entry of the queue are deferred, the household is sent one alert that
-- reconnecting this session has stalled, by the fifth of them, and nothing else; and nothing at all
-- before that or for an entry that had five attempts already.
pub deferrals_tell_once :
    (s : Scheduler) (k : SessionKey) (it attempted : ReconnectItem) (nows : List ℕ)
    → find k s.reconnect_q ≡ some it
    → same_queued it attempted ≡ true
    → (deferrals s k attempted nows).1 ≡ (
        if ltb it.attempts 5 && leb 5 (it.attempts + length nows)
        then Notice.alert_reconnect_stalled k ∷ []
        else [])
unfolding deferrals
deferrals_tell_once s k it attempted [] h e = ground arith
deferrals_tell_once s k it attempted (now ∷ nows) h e =
    let b = backoff_reconnect s now k attempted in
    let rest =
      deferrals_tell_once b.0 k (backed_off now it) attempted nows
        (backoff_reconnect-find s now k it attempted h e)
        (same_queued-backed_off now it attempted ∙ e) in
    ground
      (arith, rest, backoff_reconnect-notices s now k it attempted h e, attempts-backed_off now it)
