-- ===== src/Scheduler/Retry.antt =====
-- internal/scheduler/scheduler.go, the retries: how a permit whose change failed is held back, how
-- a change that the council refused is parked, and the claim of the one writer of a permit.
pub mod Parked
pub mod Claims
mod Tests
use pstonn.Prelude.{
  ℕ, ◌+◌, ◌*◌, ◌^◌, ◌<◌, min, Bool, true, false, ◌&&◌, ◌||◌, not, Option, none, some, ◌∷◌, [], List,
  Text, find, put, drop_if, ltb, ◌==◌, if◌then◌else◌, text_eq, number_key,
}
use pstonn.Clock.{hour, minute}
use pstonn.Model.Plate.{Unicode, same_plate}
use pstonn.Scheduler.{Scheduler, Notice}
use pstonn.Scheduler.Drift.{scaled, is_before}

-- What the scheduler reads of a permit.
pub record Permit : Type 0 where
  pub id : ℕ
  pub owner : Text
  pub tenant_id : Text

-- d scaled at random; `draw` / 2^53 is rand.Float64.
unfoldable pub jittered : Scheduler → ℕ → ℕ → ℕ
unfolding scaled
jittered s draw d = if s.jitter_frac == 0 || d == 0 then d else scaled s.jitter_frac draw d

abbrev pub retry_step : Scheduler → ℕ → ℕ
retry_step s streak = min (s.interval * 2 ^ min streak 5) (30 * minute)

unfoldable pub defer_retry : Scheduler → ℕ → ℕ → ℕ → ℕ → Scheduler
unfolding put jittered
defer_retry s now draw permit streak = record s {
  next_try = put permit (now + jittered s draw (retry_step s streak)) s.next_try;
}

abbrev pub parked_retry : ℕ
parked_retry = 365 * 24 * hour

unfoldable pub park_retry : Scheduler → ℕ → ℕ → Text → Scheduler
unfolding put
park_retry s now permit registration = record s {
  next_try = put permit (now + parked_retry) s.next_try;
  parked_for = put permit registration s.parked_for;
}

unfoldable pub clear_retry : Scheduler → ℕ → Scheduler
unfolding drop_if
clear_retry s permit = record s {
  next_try = drop_if (λ k. permit == k) s.next_try;
  parked_for = drop_if (λ k. permit == k) s.parked_for;
}

unfoldable pub unpark_parked : Unicode → Scheduler → ℕ → Text → Option Text → Scheduler
unfolding clear_retry
unpark_parked u s permit want none = s
unpark_parked u s permit want (some parked) =
    if same_plate u parked want then s else clear_retry s permit

unfoldable pub unpark_if_target_changed : Unicode → Scheduler → ℕ → Text → Scheduler
unfolding unpark_parked find
unpark_if_target_changed u s permit want = unpark_parked u s permit want (find permit s.parked_for)

unfoldable pub retry_deferred : Scheduler → ℕ → ℕ → Bool
unfolding find
retry_deferred s now permit = is_before now (find permit s.next_try)

unfoldable pub kick_permit : Scheduler → ℕ → Scheduler × List Notice
unfolding clear_retry
kick_permit s permit = (if ltb 0 permit then clear_retry s permit else s, Notice.kick ∷ [])

-- The permits of one owner, none where the list cannot be read.
unfoldable pub clear_matching : Scheduler → (Permit → Bool) → List Permit → Scheduler
unfolding clear_retry
clear_matching s match [] = s
clear_matching s match (p ∷ ps) =
    clear_matching (if match p then clear_retry s p.id else s) match ps

unfoldable pub kick_owner_where :
    Scheduler → (Permit → Bool) → Option (List Permit) → Scheduler × List Notice
unfolding clear_matching
kick_owner_where s match none = (s, Notice.kick ∷ [])
kick_owner_where s match (some ps) = (clear_matching s match ps, Notice.kick ∷ [])

unfoldable pub kick_owner : Scheduler → Option (List Permit) → Scheduler × List Notice
unfolding kick_owner_where
kick_owner s = kick_owner_where s (λ _. true)

unfoldable pub kick_owner_in : Scheduler → Text → Option (List Permit) → Scheduler × List Notice
unfolding kick_owner_where
kick_owner_in s tenant = kick_owner_where s (λ p. text_eq p.tenant_id tenant)

-- The claim of one permit by a fresh channel, its release by that channel. `once` is whether the
-- release has run before.
unfoldable pub try_apply : Scheduler → ℕ → ℕ → Scheduler × Bool
unfolding find put
try_apply s permit done = elim (find permit s.applying) [
  | some busy ↦ (s, false)
  | none ↦ (record s { applying = put permit done s.applying }, true)
]

abbrev pub holds : ℕ → Option ℕ → Bool
holds done none = false
holds done (some c) = c == done

unfoldable pub release : Scheduler → ℕ → ℕ → Bool → Scheduler
unfolding find drop_if
release s permit done once =
    if not once && holds done (find permit s.applying)
    then record s { applying = drop_if (λ k. permit == k) s.applying }
    else s
