-- ===== src/Scheduler/Episode/Reopened.antt =====
-- What the last key remembers of an episode that has been closed.
use pstonn.Prelude.{
  ◌≡◌, refl, Bool, true, false, Text, text_eq_refl, arith, Bool-cases, inl, inr, ◌∙◌,
}
use pstonn.Model.Plate.{Unicode}
use pstonn.Scheduler.Episode.{
  FailTier, PermitNotify, mark_failure_told, close_failure_episode, adopt, is_told, fail_key,
  notify_user_then, notify_failure,
}

-- The key of the last delivery outlives whatever is adopted from it.
key-adopt :
    (u : Unicode) (tenant reg : Text) (row : PermitNotify)
    → (adopt u tenant reg row).notified_key ≡ row.notified_key
unfolding adopt mark_failure_told
key-adopt u tenant reg row = ground arith

key-notify_user_then :
    (row : PermitNotify) (reg : Text) (tier : FailTier)
    → (notify_user_then row reg tier true).1 ≡ true
    → (notify_user_then row reg tier true).0.notified_key ≡ fail_key reg tier
unfolding notify_user_then mark_failure_told
key-notify_user_then row reg tier h = ground arith

key-close_failure_episode :
    (row : PermitNotify) → (close_failure_episode row).notified_key ≡ row.notified_key
unfolding close_failure_episode
key-close_failure_episode row = ground arith

resent :
    (row : PermitNotify) (reg : Text) (tier : FailTier) (delivered : Bool)
    → row.notified_key ≡ fail_key reg tier
    → (notify_user_then row reg tier delivered).1 ≡ false
unfolding notify_user_then
resent row reg tier delivered h = rw (h, text_eq_refl (fail_key reg tier)) refl

-- The outcome that was delivered last is not delivered again.
notify_failure-same_key :
    (u : Unicode) (tenant reg : Text) (row : PermitNotify) (tier : FailTier) (down delivered : Bool)
    → row.notified_key ≡ fail_key reg tier
    → (notify_failure u tenant row reg tier down delivered).1 ≡ false
unfolding notify_failure
notify_failure-same_key u tenant reg row tier down delivered h =
    let row' = adopt u tenant reg row in
    let again = resent row' reg tier delivered (key-adopt u tenant reg row ∙ h) in
    elim (Bool-cases (is_told u row' reg tier down)) [ inl e ↦ rw e refl | inr e ↦ rw e again ]

key-notify_failure :
    (u : Unicode) (tenant reg : Text) (row : PermitNotify) (tier : FailTier) (down : Bool)
    → (notify_failure u tenant row reg tier down true).1 ≡ true
    → (notify_failure u tenant row reg tier down true).0.notified_key ≡ fail_key reg tier
unfolding notify_failure
key-notify_failure u tenant reg row tier down h =
    let row' = adopt u tenant reg row in
    elim (Bool-cases (is_told u row' reg tier down)) [
      | inl e ↦ cc (rw e at h)
      | inr e ↦ rw e (key-notify_user_then row' reg tier (rw e at h))
    ]

-- An episode that ends without a notice of its own stays in the key: a household that was told of a
-- plate at some tier is not told again at that tier when the episode has been closed and the next
-- one starts with the same plate.
pub notify_failure-reopened :
    (u : Unicode) (tenant reg : Text) (row : PermitNotify) (tier : FailTier)
    (down down' delivered : Bool)
    → (notify_failure u tenant row reg tier down true).1 ≡ true
    → (notify_failure u tenant
        (close_failure_episode (notify_failure u tenant row reg tier down true).0)
        reg
        tier
        down'
        delivered).1
      ≡ false
notify_failure-reopened u tenant reg row tier down down' delivered sent =
    let row' = (notify_failure u tenant row reg tier down true).0 in
    notify_failure-same_key u tenant reg (close_failure_episode row') tier down' delivered
      (key-close_failure_episode row' ∙ key-notify_failure u tenant reg row tier down sent)
