-- ===== src/Parking/Client.antt =====
-- internal/parking/owner.go and the gates of parking.go: how one operation against the portal passes
-- the owner's cooldown and the fleet's breaker, and how its outcome is noted. The stored session is
-- read outside: `linked` says that there is one for this tenant, `opens` that it can be unsealed.
pub mod Isolation
pub mod Penalty
pub mod Tests
use pstonn.Prelude.{
  ℕ, ◌+◌, ◌*◌, ◌^◌, min, Bool, true, false, Option, none, some, List, Text, Map, lookup, insert,
  delete, ltb, ◌==◌, if◌then◌else◌,
}
use pstonn.Clock.{minute, hour, elapsed}
use pstonn.Provider.{Link, Signal, Unavailable, classify}
use pstonn.Parking.Breaker.{Breaker, BreakerPermit, Admission, allow, on_pushback, on_success}
use pstonn.Parking.Health.{ConnectorHealth, note_at}

-- The state of a Client that the gates read and the outcomes change.
pub record Client : Type 0 where
  pub cooldown_until : Map ℕ
  pub strikes : Map ℕ
  pub breaker : Option Breaker
  pub health : ConnectorHealth

abbrev pub wait_of : ℕ → Option ℕ → Option ℕ
wait_of now none = none
wait_of now (some t) = if ltb now t then some (elapsed t now) else none

-- cooldownFor: the wait, if there is one.
unfoldable pub cooldown_for : Client → Text → ℕ → Option ℕ
unfolding lookup
cooldown_for c owner now = wait_of now (lookup owner c.cooldown_until)

abbrev pub or_zero : Option ℕ → ℕ
or_zero none = 0
or_zero (some n) = n

-- The pause after the `strikes`-th pushback in a row.
unfoldable pub owner_backoff : ℕ → ℕ → ℕ
owner_backoff strikes retry_after =
    let backoff = if retry_after == 0 then 2 ^ min strikes 6 * minute else retry_after in
    if ltb (2 * hour) backoff then 2 * hour else backoff

unfoldable pub penalize : Client → Text → ℕ → ℕ → Client
unfolding owner_backoff on_pushback
penalize c owner retry_after now =
    let strikes = or_zero (lookup owner c.strikes) + 1 in
    record c {
      strikes = insert owner strikes c.strikes;
      cooldown_until = insert owner (now + owner_backoff strikes retry_after) c.cooldown_until;
      breaker = (on_pushback c.breaker now owner retry_after).0;
    }

unfoldable pub clear_penalty : Client → Text → Client
clear_penalty c owner = record c {
  strikes = delete owner c.strikes;
  cooldown_until = delete owner c.cooldown_until;
}

unfoldable pub note_tenant_success : Client → Text → BreakerPermit → Client
unfolding on_success
note_tenant_success c owner permit = record c { breaker = (on_success c.breaker owner permit).0 }

abbrev pub penalize_for : Client → Text → Option Unavailable → ℕ → Client
penalize_for c owner none now = c
penalize_for c owner (some u) now = penalize c owner u.retry_after now

-- classify of the Client.
unfoldable pub classify_outcome : Client → Text → BreakerPermit → Option (List Link) → ℕ → Client
unfolding clear_penalty note_tenant_success penalize
classify_outcome c owner permit err now =
    let c1 = record c { health = note_at c.health owner err now } in
    let sig = classify err in
    if sig.ok
    then note_tenant_success (clear_penalty c1 owner) owner permit
    else penalize_for c1 owner sig.pushback now

-- How an operation ends: before the portal is asked, or with the portal's answer.
pub data Outcome : Type 0 where
  not_linked : Outcome
  cooling : ℕ → Outcome
  paused : ℕ → Outcome
  unreadable : Outcome
  answered : Option (List Link) → Outcome

-- withSession from its cooldown check on: the gates at `now`, and the answer `err` of the portal,
-- noted at `later`. The first `Option` is the owner's wait.
unfoldable pub pass_gates :
    Client → Text → Bool → ℕ → Option (List Link) → ℕ → Option ℕ → Client × Outcome
unfolding allow classify_outcome
pass_gates c owner opens now err later (some d) = (c, cooling d)
pass_gates c owner opens now err later none =
    let (b, a) = allow c.breaker now in
    let c1 = record c { breaker = b } in
    if a.ok
    then (if opens
        then (classify_outcome c1 owner a.permit err later, answered err)
        else (c1, unreadable))
    else (c1, paused a.wait)

unfoldable pub with_session :
    Client → Text → Bool → Bool → ℕ → Option (List Link) → ℕ → Client × Outcome
unfolding cooldown_for pass_gates
with_session c owner linked opens now err later =
    if linked
    then pass_gates c owner opens now err later (cooldown_for c owner now)
    else (c, not_linked)
