-- ===== src/Scheduler/Alerts/Repeats.antt =====
-- When an alert or a notice is tried again.
use pstonn.Prelude.{
  ℕ, ◌+◌, ◌-◌, ◌≤◌, ◌<◌, ◌≡◌, Bool, true, false, some, Text, find, ltb, leb, if◌then◌else◌, text_eq,
  text_eq_refl, text_key, find-put, find-drop_if, arith, ◌∙◌,
}
use pstonn.Scheduler.{Scheduler}
use pstonn.Scheduler.Alerts.{
  throttle_of, retry_of, system_alert_every, alert_done, claim_notify, release_notify, hold_notify,
  notify_held, sweep_holds,
}

alert-at :
    (x : Scheduler) (later t : ℕ) (key : Text) (every : ℕ)
    → find key x.last_alert ≡ some t
    → (system_alert_every true x later key every).1 ≡ leb (t + throttle_of every) later
unfolding system_alert_every
alert-at x later t key every e = ground (arith, e)

stamp-claimed :
    (s : Scheduler) (now : ℕ) (key : Text) (every : ℕ)
    → (system_alert_every true s now key every).1 ≡ true
    → find key (system_alert_every true s now key every).0.last_alert
      ≡ some (now + retry_of s (throttle_of every) - throttle_of every)
unfolding system_alert_every
stamp-claimed s now key every sent =
    let t = now + retry_of s (throttle_of every) - throttle_of every in
    ground (arith, find-put key key t s.last_alert, text_eq_refl key)

stamp-done :
    (x : Scheduler) (done t : ℕ) (key : Text) (delivered : Bool)
    → find key x.last_alert ≡ some t
    → find key (alert_done x done key delivered).last_alert ≡ some (if delivered then done else t)
unfolding alert_done
stamp-done x done t key true e =
    ground (arith, find-put key key done x.last_alert, text_eq_refl key)
stamp-done x done t key false e = e

-- After an alert that could not be delivered the next one under its key goes out once the short wait
-- is over; after one that was delivered, once the whole interval is.
system_alert_every-again :
    (s : Scheduler) (now done later : ℕ) (key : Text) (every : ℕ) (delivered : Bool)
    → (system_alert_every true s now key every).1 ≡ true
    → throttle_of every ≤ now
    → (system_alert_every true
        (alert_done (system_alert_every true s now key every).0 done key delivered)
        later
        key
        every).1
      ≡ (if delivered
          then leb (done + throttle_of every) later
          else leb (now + retry_of s (throttle_of every)) later)
system_alert_every-again s now done later key every delivered sent h =
    let x = (system_alert_every true s now key every).0 in
    let t = now + retry_of s (throttle_of every) - throttle_of every in
    alert-at (alert_done x done key delivered) later (if delivered then done else t) key every
      (stamp-done x done t key delivered (stamp-claimed s now key every sent))
    ∙ ground arith

-- A notice that reached nobody is held until the wait is over.
notify_held-hold_notify :
    (s : Scheduler) (now later : ℕ) (claim : Text)
    → 0 < s.notify_retry
    → notify_held (hold_notify s now claim) claim later ≡ ltb later (now + s.notify_retry)
unfolding notify_held hold_notify
notify_held-hold_notify s now later claim h = ground (
  arith,
  find-put claim claim (now + s.notify_retry) (sweep_holds now s.notify_retry_at),
  text_eq_refl claim,
)

-- A claimed notice cannot be claimed again until it is released.
claim_notify-exclusive :
    (s : Scheduler) (claim : Text)
    → ((claim_notify (claim_notify s claim).0 claim).1 ≡ false)
      × ((claim_notify (release_notify s claim) claim).1 ≡ true)
unfolding claim_notify release_notify
claim_notify-exclusive s claim = (
  ground (arith, find-put claim claim tt s.notify_in_flight, text_eq_refl claim),
  ground (arith, find-drop_if claim (text_eq claim) s.notify_in_flight, text_eq_refl claim),
)
