-- ===== src/Scheduler/Retry/Parked.antt =====
-- A parked refusal holds back the plate that was refused and no other, and a kick wakes the permits
-- that it is for.
use pstonn.Prelude.{
  ℕ, ◌+◌, ◌*◌, ◌^◌, ◌<◌, ◌≤◌, ◌≡◌, refl, min, Bool, false, none, some, ◌∷◌, [], List, Text, find,
  put, ◌==◌, if◌then◌else◌, text_eq, number_key, find-put, find-drop_if, arith, capped_pow, ◌&&◌,
  ◌||◌, ◌∙◌,
}
use pstonn.Clock.{minute}
use pstonn.Model.Plate.{Unicode, same_plate}
use pstonn.Scheduler.{Scheduler}
use pstonn.Scheduler.Retry.{
  Permit, park_retry, unpark_if_target_changed, unpark_parked, clear_retry, retry_deferred,
  parked_retry, clear_matching, kick_owner_where, kick_owner_in, retry_step,
}

-- For a year after a refusal is parked, and once the permit's target is known, the permit is held
-- back if and only if the target is the plate that was refused.
pub retry_deferred-park_retry :
    (u : Unicode) (s : Scheduler) (now later permit : ℕ) (refused want : Text)
    → later < now + parked_retry
    → retry_deferred
        (unpark_if_target_changed u (park_retry s now permit refused) permit want)
        later
        permit
      ≡ same_plate u refused want
unfolding retry_deferred unpark_if_target_changed unpark_parked park_retry clear_retry
retry_deferred-park_retry u s now later permit refused want h = ground (
  arith,
  find-put permit permit refused s.parked_for,
  find-put permit permit (now + parked_retry) s.next_try,
  find-drop_if permit (λ k. permit == k) (put permit (now + parked_retry) s.next_try),
)

clear_retry-find :
    (s : Scheduler) (permit other : ℕ)
    → find other (clear_retry s permit).next_try
      ≡ (if permit == other then none else find other s.next_try)
unfolding clear_retry
clear_retry-find s permit other = find-drop_if other (λ k. permit == k) s.next_try

-- The permit is listed, and one of those that are to be woken.
unfoldable pub wakes : (Permit → Bool) → ℕ → List Permit → Bool
wakes match permit [] = false
wakes match permit (p ∷ ps) = match p && p.id == permit || wakes match permit ps

clear_matching-find :
    (match : Permit → Bool) (permit : ℕ) (ps : List Permit) (s : Scheduler)
    → find permit (clear_matching s match ps).next_try
      ≡ (if wakes match permit ps then none else find permit s.next_try)
unfolding clear_matching wakes
clear_matching-find match permit [] s = refl
clear_matching-find match permit (p ∷ ps) s =
    clear_matching-find match permit ps (if match p then clear_retry s p.id else s)
    ∙ ground (arith, clear_retry-find s p.id permit)

-- A kick after a new link with one tenant ends the wait, parked refusals included, of exactly those
-- of the account's permits that are with that tenant; every other permit waits as before.
pub kick_owner_in-find :
    (s : Scheduler) (tenant : Text) (ps : List Permit) (permit : ℕ)
    → find permit (kick_owner_in s tenant (some ps)).0.next_try
      ≡ (if wakes (λ p. text_eq p.tenant_id tenant) permit ps then none else find permit s.next_try)
unfolding kick_owner_in kick_owner_where
kick_owner_in-find s tenant ps permit =
    clear_matching-find (λ p. text_eq p.tenant_id tenant) permit ps s

-- The step of the k-th retry is the interval doubled k times, cut at 30 minutes: the code's bound of
-- five doublings never shows, for an interval of at least a minute.
retry_step-uncut :
    (s : Scheduler) (streak : ℕ)
    → minute ≤ s.interval
    → retry_step s streak ≡ min (s.interval * 2 ^ streak) (30 * minute)
retry_step-uncut s streak h =
    capped_pow s.interval 2 streak 5 (30 * minute) (omega arith) (omega arith)
