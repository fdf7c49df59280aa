-- ===== src/Scheduler/Churn.antt =====
-- internal/scheduler/reconnect.go, the count of sessions that expire: how many different owners
-- had to sign in again within the last hour.
use pstonn.Prelude.{ℕ, ◌+◌, List, [], ◌∷◌, ◌++◌, Text, length, put, ltb, if◌then◌else◌, text_key}
use pstonn.Clock.{hour}
use pstonn.Scheduler.{Scheduler, ChurnEvent}

abbrev pub churn_window : ℕ
churn_window = hour

abbrev pub session_churn_alert_owners : ℕ
session_churn_alert_owners = 3

-- Older than the window: at or before now.Add(-churnWindow), where now < at + churnWindow is not.
unfoldable pub prune_churn : List ChurnEvent → ℕ → List ChurnEvent
prune_churn [] now = []
prune_churn (e ∷ es) now =
    let kept = prune_churn es now in if ltb now (e.at + churn_window) then e ∷ kept else kept

-- The set `seen` after every event's owner has been put into it.
unfoldable pub seen_owners : List ChurnEvent → List (Text × Unit {0}) → List (Text × Unit {0})
unfolding put
seen_owners [] seen = seen
seen_owners (e ∷ es) seen = seen_owners es (put e.owner tt seen)

abbrev pub distinct_owners : List ChurnEvent → ℕ
distinct_owners es = length (seen_owners es [])

abbrev pub note : List ChurnEvent → ℕ → Text → List ChurnEvent
note es now owner = prune_churn es now ++ record { owner = owner; at = now } ∷ []

unfoldable pub note_session_expiry : Scheduler → ℕ → Text → Scheduler × ℕ
unfolding prune_churn seen_owners
note_session_expiry s now owner =
    let churn = note s.churn_expiry now owner in
    (record s { churn_expiry = churn }, distinct_owners churn)

unfoldable pub note_reconnect : Scheduler → ℕ → Text → Scheduler
unfolding prune_churn
note_reconnect s now owner = record s { churn_reconn = note s.churn_reconn now owner }

unfoldable pub session_churn : Scheduler → ℕ → Scheduler × ℕ × ℕ × ℕ
unfolding prune_churn seen_owners
session_churn s now =
    let expired = prune_churn s.churn_expiry now in
    let reconnected = prune_churn s.churn_reconn now in
    (
      record s { churn_expiry = expired; churn_reconn = reconnected },
      length expired,
      length reconnected,
      distinct_owners expired,
    )
