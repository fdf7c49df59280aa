-- ===== src/Scheduler/Recover.antt =====
-- internal/scheduler/reconnect.go, the worker: one attempt to sign in again with the saved password,
-- and what becomes of the session and of the queue's entry. The attempt runs outside every lock, so
-- what it meets is an argument: the stored sessions when it starts and when it deletes, the answer
-- of the council's client, and what other calls did to the scheduler meanwhile.
pub mod Retire
pub mod Outcome
mod Tests
use pstonn.Prelude.{
  ℕ, Bool, true, false, not, ◌||◌, Option, none, some, ◌∷◌, [], ◌++◌, List, codes, find, drop_if,
  ltb, ◌==◌, if◌then◌else◌,
}
use pstonn.Scheduler.{Scheduler, SessionKey, same_session, session_key, ReconnectItem, Notice}
use pstonn.Scheduler.Churn.{note_reconnect}
use pstonn.Scheduler.Warm.{note_warm_success}
use pstonn.Scheduler.Retry.{Permit, kick_owner_in}
use pstonn.Scheduler.Reconnect.{next_due_reconnect, dequeue_reconnect, backoff_reconnect}

pub data ReconnectResult : Type 0 where
  reconnect_recovered reconnect_retired reconnect_deferred : ReconnectResult

-- The errors that are told apart, each a link of a chain that errors.Is walks.
pub data LoginLink : Type 0 where
  session_superseded no_saved_password login_rejected login_form_unrecognised other_login :
      LoginLink

abbrev pub is_superseded : LoginLink → Bool
is_superseded session_superseded = true
is_superseded _ = false

abbrev pub is_hopeless : LoginLink → Bool
is_hopeless no_saved_password = true
is_hopeless login_rejected = true
is_hopeless _ = false

abbrev pub is_shape : LoginLink → Bool
is_shape login_form_unrecognised = true
is_shape _ = false

abbrev pub has : (LoginLink → Bool) → List LoginLink → Bool
has p [] = false
has p (l ∷ ls) = p l || has p ls

-- The generation of each stored session; a row's key is unique.
abbrev pub Sessions : Type 0
Sessions = List (SessionKey × ℕ)

abbrev pub is_generation : ℕ → Option ℕ → Bool
is_generation gen none = false
is_generation gen (some g) = g == gen

unfoldable pub delete_tenant_session_if_gen : Sessions → SessionKey → ℕ → Sessions × Bool
unfolding find drop_if
delete_tenant_session_if_gen rows k gen =
    if is_generation gen (find k rows) then (drop_if (same_session k) rows, true) else (rows, false)

-- What one attempt meets. `login` is nil for a sign-in that succeeded.
pub record Attempt : Type 0 where
  pub read_fails : Bool
  pub before : Sessions
  pub login : Option (List LoginLink)
  pub delete_fails : Bool
  pub after : Sessions

pub record Recovery : Type 0 where
  pub scheduler : Scheduler
  pub sessions : Sessions
  pub result : ReconnectResult
  pub notices : List Notice

-- Nothing stored changes.
abbrev pub keeping : Scheduler → Attempt → ReconnectResult → List Notice → Recovery
keeping s a r ns = record { scheduler = s; sessions = a.after; result = r; notices = ns }

unfoldable pub retire : Scheduler → SessionKey → ℕ → Attempt → Recovery
unfolding delete_tenant_session_if_gen
retire s k gen a =
    if a.delete_fails
    then keeping s a ReconnectResult.reconnect_deferred
        (Notice.system_alert (codes "retire-delete") ∷ [])
    else (let (rows, deleted) = delete_tenant_session_if_gen a.after k gen in
        if not deleted then keeping s a ReconnectResult.reconnect_retired [] else record {
          scheduler = s;
          sessions = rows;
          result = ReconnectResult.reconnect_retired;
          notices = Notice.alert_relink k ∷ [];
        })

abbrev pub noted_call : SessionKey → Recovery → Recovery
noted_call k r = record r { notices = Notice.reconnect k ∷ r.notices }

unfoldable pub after_login : Scheduler → ℕ → SessionKey → ℕ → Bool → Attempt → Recovery
unfolding retire note_reconnect
after_login s now k gen counts_churn a = elim a.login [
  | none ↦
      keeping (if counts_churn then note_reconnect s now k.owner else s) a
        ReconnectResult.reconnect_recovered []
  | some err ↦
      if has is_superseded err
      then keeping s a ReconnectResult.reconnect_retired []
      else if has is_hopeless err
      then retire s k gen a
      else if has is_shape err
      then keeping s a ReconnectResult.reconnect_deferred
          (Notice.system_alert (codes "login-shape") ∷ [])
      else keeping s a ReconnectResult.reconnect_deferred []
]

unfoldable pub recover_or_retire : Scheduler → ℕ → SessionKey → ℕ → Bool → Attempt → Recovery
unfolding find after_login
recover_or_retire s now k gen counts_churn a =
    if a.read_fails
    then keeping s a ReconnectResult.reconnect_deferred []
    else elim (find k a.before) [
      | none ↦ keeping s a ReconnectResult.reconnect_retired []
      | some g ↦
          if g == gen
          then noted_call k (after_login s now k gen counts_churn a)
          else keeping s a ReconnectResult.reconnect_retired []
    ]

-- After the attempt: `result` is none if it panicked. `ps` are the account's permits, if they can be
-- listed.
unfoldable pub settle :
    Scheduler
    → ℕ
    → SessionKey
    → ReconnectItem
    → Option (List Permit)
    → Option ReconnectResult
    → Scheduler × List Notice
unfolding dequeue_reconnect backoff_reconnect note_warm_success kick_owner_in
settle s now k item ps none =
    let (s', ns) = backoff_reconnect s now k item in
    (s', Notice.system_alert (codes "panic-reconnect") ∷ ns)
settle s now k item ps (some ReconnectResult.reconnect_recovered) =
    kick_owner_in (note_warm_success (dequeue_reconnect s k item) k) k.tenant ps
settle s now k item ps (some ReconnectResult.reconnect_retired) =
    (note_warm_success (dequeue_reconnect s k item) k, [])
settle s now k item ps (some ReconnectResult.reconnect_deferred) = backoff_reconnect s now k item

-- One round of the worker, `later` being the time at which it settles. The last component: whether
-- an entry was due.
unfoldable pub drain_one_reconnect :
    Scheduler
    → ℕ
    → ℕ
    → Attempt
    → (Scheduler → Scheduler)
    → Option (List Permit)
    → Scheduler × Sessions × List Notice × Bool
unfolding next_due_reconnect recover_or_retire settle
drain_one_reconnect s now later a meanwhile ps = elim (next_due_reconnect s now) [
  | none ↦ (s, a.after, [], false)
  | some ((k, item), wait) ↦
      if ltb 0 wait
      then (s, a.after, [], false)
      else (let r = recover_or_retire s now k item.gen item.counts_churn a in
          let (settled, ns) = settle (meanwhile r.scheduler) later k item ps (some r.result) in
          (settled, r.sessions, r.notices ++ ns, true))
]
