-- ===== src/Scheduler.antt =====
-- internal/scheduler/scheduler.go: what the scheduler keeps in memory. Each mutex makes the calls
-- under it one step, at the time that the step reads; the channel of a claim is its number.
pub mod Churn
pub mod Drift
pub mod Warm
pub mod Retry
pub mod Rollover
pub mod Episode
pub mod Alerts
pub mod Apply
pub mod Reconcile
pub mod Reconnect
pub mod Recover
pub mod KeepWarm
pub mod Hold
use pstonn.Prelude.{
  ℕ, ◌*◌, ◌≡◌, ap₂, ap, ◌↔◌, Bool, true, ◌&&◌, List, [], Text, text_eq, text_eq_iff, text_eq_refl,
  Key, and_true, if◌then◌else◌, ◌==◌, arith,
}
use pstonn.Clock.{minute, hour}

-- One session: an account's link with one tenant.
pub record SessionKey : Type 0 where
  pub owner : Text
  pub tenant : Text

abbrev pub same_session : SessionKey → SessionKey → Bool
same_session j k = text_eq j.owner k.owner && text_eq j.tenant k.tenant

same_session_sound : (j k : SessionKey) → same_session j k ≡ true → j ≡ k
same_session_sound j k h =
    let (owner, tenant) = and_true (text_eq j.owner k.owner) (text_eq j.tenant k.tenant) h in
    ap₂ (λ o t. record { owner = o; tenant = t }) ((text_eq_iff j.owner k.owner).0 owner)
      ((text_eq_iff j.tenant k.tenant).0 tenant)

same_session_refl : (k : SessionKey) → same_session k k ≡ true
same_session_refl k = ground (arith, text_eq_refl k.owner, text_eq_refl k.tenant)

pub same_session_iff : (j k : SessionKey) → (same_session j k ≡ true) ↔ (j ≡ k)
same_session_iff j k = (same_session_sound j k, λ e. rw e (same_session_refl k))

instance abbrev pub session_key : Key SessionKey
session_key = record { same = same_session; same_iff = same_session_iff }

-- `counts_churn`: the expiry was counted, so that its reconnect is to be counted too.
pub record ReconnectItem : Type 0 where
  pub next : ℕ
  pub queued_at : ℕ
  pub gen : ℕ
  pub attempts : ℕ
  pub counts_churn : Bool

pub record ChurnEvent : Type 0 where
  pub owner : Text
  pub at : ℕ

-- What the scheduler reads of a stored session. The sealed cookie is empty for one that is not linked.
pub record TenantSession : Type 0 where
  pub owner : Text
  pub tenant_id : Text
  pub cookie : Text
  pub last_active : ℕ
  pub linked_at : ℕ
  pub updated_at : ℕ
  pub drift_checked_at : ℕ
  pub generation : ℕ

abbrev pub key_of : TenantSession → SessionKey
key_of cs = record { owner = cs.owner; tenant = cs.tenant_id }

-- Why a permit has nothing to apply, with the plate that it shows: nothing is scheduled, it cannot be
-- left empty, or the vehicle of that number is not known.
pub data Gap : Type 0 where
  gap_none gap_noclear : Text → Gap
  gap_unresolved : ℕ → Text → Gap

-- `jitter_frac` is in thousandths; a retry window is keyed by the permit's id.
pub record Scheduler : Type 0 where
  pub interval : ℕ
  pub session_max_age : ℕ
  pub warm_interval : ℕ
  pub jitter_frac : ℕ
  pub op_drain : ℕ
  pub spread_window : ℕ
  pub drift_interval : ℕ
  pub idle_window : ℕ
  pub warm_safety_margin : ℕ
  pub fleet_size : ℕ
  pub last_alert : List (Text × ℕ)
  pub alert_retry : ℕ
  pub applying : List (ℕ × ℕ)
  pub next_try : List (ℕ × ℕ)
  pub parked_for : List (ℕ × Text)
  pub churn_expiry : List ChurnEvent
  pub churn_reconn : List ChurnEvent
  pub reconnect_q : List (SessionKey × ReconnectItem)
  pub drift_retry_at : List (Text × ℕ)
  pub drift_fails : List (Text × ℕ)
  pub warm_retry_at : List (SessionKey × ℕ)
  pub drift_asap : List (Text × Unit {0})
  pub drift_shape : List ChurnEvent
  pub unscheduled : List (ℕ × Gap)
  pub notify_in_flight : List (Text × Unit {0})
  pub notify_retry_at : List (Text × ℕ)
  pub notify_retry : ℕ

-- The options that the modelled parts read. A duration below 0 is one that is unset, so 0 is too.
pub record Options : Type 0 where
  pub session_max_age : ℕ
  pub warm_interval : ℕ
  pub jitter_frac : ℕ
  pub op_drain : ℕ
  pub spread_window : ℕ
  pub drift_interval : ℕ
  pub idle_window : ℕ
  pub warm_safety_margin : ℕ

abbrev pub default_warm_interval : ℕ
default_warm_interval = 105 * minute

abbrev pub or_default : ℕ → ℕ → ℕ
or_default d n = if n == 0 then d else n

unfoldable pub new : Options → Scheduler
new opts = record {
  interval = minute;
  session_max_age = opts.session_max_age;
  warm_interval = or_default default_warm_interval opts.warm_interval;
  jitter_frac = or_default 200 opts.jitter_frac;
  op_drain = opts.op_drain;
  spread_window = opts.spread_window;
  drift_interval = opts.drift_interval;
  idle_window = opts.idle_window;
  warm_safety_margin = or_default hour opts.warm_safety_margin;
  fleet_size = 0;
  last_alert = [];
  alert_retry = 5 * minute;
  applying = [];
  next_try = [];
  parked_for = [];
  churn_expiry = [];
  churn_reconn = [];
  reconnect_q = [];
  drift_retry_at = [];
  drift_fails = [];
  warm_retry_at = [];
  drift_asap = [];
  drift_shape = [];
  unscheduled = [];
  notify_in_flight = [];
  notify_retry_at = [];
  notify_retry = 5 * minute;
}

-- What a step asks of others: an alert to the operator under its key, a message to the household,
-- or a call of the council's portal.
pub data Notice : Type 0 where
  system_alert : Text → Notice
  alert_relink alert_reconnect_stalled remind : SessionKey → Notice
  kick : Notice
  refresh drift_read reconnect : SessionKey → Notice
