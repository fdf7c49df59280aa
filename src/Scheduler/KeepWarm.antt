-- ===== src/Scheduler/KeepWarm.antt =====
-- internal/scheduler/warm.go, warmOne: one pass of keep-warm over one session. What the pass reads
-- of others is an argument: the provider's capabilities, the account's permits and the answers of the
-- store and of the council's client.
pub mod Held
pub mod Keeps
pub mod Passes
pub mod Visits
pub mod Quiet
mod Tests
use pstonn.Prelude.{
  ℕ, Bool, true, false, not, ◌&&◌, ◌||◌, Option, none, some, ◌∷◌, [], ◌++◌, List, Text, text_eq,
  if◌then◌else◌,
}
use pstonn.Provider.{Link}
use pstonn.Scheduler.{Scheduler, SessionKey, TenantSession, key_of, Notice}
use pstonn.Scheduler.Drift.{
  note_drift_failure, note_drift_deferred, note_drift_success, clear_drift_request, drift_due,
}
use pstonn.Scheduler.Warm.{
  WarmAction, decide_warm, warm_threshold_for, idle_window_for, note_warm_success,
  note_warm_failure, warm_backed_off,
}
use pstonn.Scheduler.Retry.{Permit}
use pstonn.Scheduler.Reconnect.{reconnect_queued, enqueue_reconnect}

-- The client's sentinels that the pass tells apart.
pub data ClientLink : Type 0 where
  session_expired not_linked council_busy permit_list_partial other_client : ClientLink

-- An error of the client: its sentinels, the generation it is tagged with, and the provider's error.
pub record ClientError : Type 0 where
  pub links : List ClientLink
  pub session_gen : Option ℕ
  pub cause : List Link

abbrev pub is_expired : ClientLink → Bool
is_expired session_expired = true
is_expired _ = false

abbrev pub is_quiet : ClientLink → Bool
is_quiet not_linked = true
is_quiet council_busy = true
is_quiet _ = false

abbrev pub is_partial : ClientLink → Bool
is_partial permit_list_partial = true
is_partial _ = false

abbrev pub any_link : (ClientLink → Bool) → List ClientLink → Bool
any_link p [] = false
any_link p (l ∷ ls) = p l || any_link p ls

-- `deleted` and `permits` are none where the store fails, `refreshed` and `drifted` where there is no
-- error.
pub record WarmWorld : Type 0 where
  pub declared_idle_window : ℕ
  pub needs_keep_warm : Bool
  pub deleted : Option Bool
  pub permits : Option (List Permit)
  pub refreshed : Option ClientError
  pub blocked : Bool
  pub drifted : Option ClientError
  pub checkpoint_fails : Bool

abbrev pub has_tenant : Text → List Permit → Bool
has_tenant tenant [] = false
has_tenant tenant (p ∷ ps) = if text_eq p.tenant_id tenant then true else has_tenant tenant ps

unfoldable pub owner_has_permit_in : Option (List Permit) → Text → Option Bool
owner_has_permit_in none tenant = none
owner_has_permit_in (some ps) tenant = some (has_tenant tenant ps)

abbrev pub gen_or : ℕ → Option ℕ → ℕ
gen_or gen none = gen
gen_or gen (some g) = g

-- Whether the session is alive after the renewal.
pub record Warmed : Type 0 where
  pub scheduler : Scheduler
  pub alive : Bool
  pub notices : List Notice

abbrev pub dead : Scheduler → List Notice → Warmed
dead s ns = record { scheduler = s; alive = false; notices = ns }

unfoldable pub refreshed_session : Scheduler → ℕ → TenantSession → Option ClientError → Warmed
unfolding note_warm_success note_warm_failure enqueue_reconnect
refreshed_session s now cs none = record {
  scheduler = note_warm_success s (key_of cs);
  alive = true;
  notices = [];
}
refreshed_session s now cs (some err) =
    if any_link is_expired err.links
    then (let (s', ns) =
          enqueue_reconnect s now (key_of cs) (gen_or cs.generation err.session_gen) in
        dead s' ns)
    else if any_link is_quiet err.links
    then dead s []
    else dead (note_warm_failure s now (key_of cs)) []

unfoldable pub renew_session : Scheduler → ℕ → TenantSession → WarmWorld → Warmed
unfolding refreshed_session note_warm_success reconnect_queued warm_backed_off
renew_session s now cs w =
    if not w.needs_keep_warm
    then record { scheduler = note_warm_success s (key_of cs); alive = true; notices = [] }
    else if reconnect_queued s (key_of cs)
    then dead s []
    else if warm_backed_off s now (key_of cs)
    then dead s []
    else (let r = refreshed_session s now cs w.refreshed in
        record r { notices = Notice.refresh (key_of cs) ∷ r.notices })

unfoldable pub warmed : Scheduler → ℕ → TenantSession → WarmWorld → WarmAction → Warmed
unfolding renew_session
warmed s now cs w WarmAction.warm_renew = renew_session s now cs w
warmed s now cs w _ = record { scheduler = s; alive = true; notices = [] }

-- A dead session that a drift read found out is queued under the generation of the failure.
unfoldable pub queue_tagged : Scheduler → ℕ → TenantSession → Option ℕ → Scheduler × List Notice
unfolding enqueue_reconnect
queue_tagged s now cs none = (s, [])
queue_tagged s now cs (some g) = enqueue_reconnect s now (key_of cs) g

-- Only a part of the list that could be read is no failure.
unfoldable pub drift_failed :
    (Text → ℕ) → Scheduler → ℕ → TenantSession → ClientError → Scheduler × List Notice
unfolding note_drift_deferred note_drift_failure
drift_failed hash s now cs err =
    if any_link is_partial err.links
    then (note_drift_deferred hash s now cs.owner, [])
    else note_drift_failure s now cs.owner err.cause

unfoldable pub drifted_session :
    (Text → ℕ)
    → Scheduler
    → ℕ
    → TenantSession
    → WarmWorld
    → Option ClientError
    → Scheduler × List Notice
unfolding drift_failed note_drift_failure note_drift_success clear_drift_request queue_tagged
drifted_session hash s now cs w (some err) =
    let (s', ns) = drift_failed hash s now cs err in
    let (s'', ns') = queue_tagged s' now cs err.session_gen in (s'', ns ++ ns')
drifted_session hash s now cs w none =
    if w.checkpoint_fails
    then note_drift_failure s now cs.owner []
    else (clear_drift_request (note_drift_success s cs.owner) cs.owner, [])

unfoldable pub drift_session :
    (Text → ℕ) → Warmed → ℕ → TenantSession → WarmWorld → Scheduler × List Notice
unfolding drift_due drifted_session
drift_session hash r now cs w =
    if r.alive && (not w.blocked && drift_due hash r.scheduler cs now)
    then (let (s, ns) = drifted_session hash r.scheduler now cs w w.drifted in
        (s, r.notices ++ Notice.drift_read (key_of cs) ∷ ns))
    else (r.scheduler, r.notices)

-- A session whose account has been idle for the bound.
unfoldable pub retire_idle : Scheduler → TenantSession → Option Bool → Scheduler × List Notice
unfolding note_warm_success
retire_idle s cs (some true) =
    (note_warm_success s (key_of cs), Notice.alert_relink (key_of cs) ∷ [])
retire_idle s cs _ = (s, [])

-- The session of an account with or without a permit of that tenant.
unfoldable pub keep_alive :
    (Text → ℕ)
    → Scheduler
    → ℕ
    → TenantSession
    → WarmWorld
    → WarmAction
    → Option Bool
    → Scheduler × List Notice
unfolding note_warm_success warmed drift_session
keep_alive hash s now cs w action none = (s, [])
keep_alive hash s now cs w action (some false) = (note_warm_success s (key_of cs), [])
keep_alive hash s now cs w action (some true) =
    drift_session hash (warmed s now cs w action) now cs w

abbrev pub action_of : (Text → ℕ → ℕ) → Scheduler → ℕ → TenantSession → WarmWorld → WarmAction
action_of warm_hash s now cs w =
    decide_warm now cs.last_active cs.linked_at cs.updated_at s.session_max_age (
      warm_threshold_for warm_hash s cs.owner cs.updated_at
        (idle_window_for s w.declared_idle_window))

unfoldable pub decided :
    (Text → ℕ) → Scheduler → ℕ → TenantSession → WarmWorld → WarmAction → Scheduler × List Notice
unfolding retire_idle keep_alive owner_has_permit_in
decided hash s now cs w WarmAction.warm_retire = retire_idle s cs w.deleted
decided hash s now cs w action =
    let (s', ns) = keep_alive hash s now cs w action (owner_has_permit_in w.permits cs.tenant_id) in
    (s', Notice.remind (key_of cs) ∷ ns)

unfoldable pub warm_one :
    (Text → ℕ)
    → (Text → ℕ → ℕ)
    → Scheduler
    → ℕ
    → TenantSession
    → WarmWorld
    → Scheduler × List Notice
unfolding decided decide_warm warm_threshold_for idle_window_for
warm_one hash warm_hash s now cs w =
    if text_eq cs.cookie []
    then (s, [])
    else decided hash s now cs w (action_of warm_hash s now cs w)
