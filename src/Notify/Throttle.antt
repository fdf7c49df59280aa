-- ===== src/Notify/Throttle.antt =====
-- internal/notify/throttle.go: how many notices one address may be sent in a stretch of time. A nil
-- *sendLimiter is `none`; the mutex makes each call one step, at the time that it reads.
pub mod Window
pub mod Log
pub mod Limit
pub mod Tests
use pstonn.Prelude.{
  ℕ, ◌+◌, Bool, true, false, ◌||◌, Option, none, some, List, [], ◌∷◌, ◌++◌, Text, Map, lookup,
  insert, length, ltb, leb, if◌then◌else◌,
}

abbrev pub send_limiter_max_keys : ℕ
send_limiter_max_keys = 20_000

abbrev pub send_limiter_prune : ℕ
send_limiter_prune = 256

pub record SendLimiter : Type 0 where
  pub limit : ℕ
  pub window : ℕ
  pub hits : Map (List ℕ)
  pub calls : ℕ

unfoldable pub new_send_limiter : ℕ → ℕ → SendLimiter
new_send_limiter limit window = record { limit = limit; window = window; hits = []; calls = 0 }

-- keepAfter with the cutoff `window` before now: t.After(now.Add(-window)) is now < t + window.
unfoldable pub keep_after : ℕ → ℕ → List ℕ → List ℕ
keep_after window now [] = []
keep_after window now (t ∷ ts) =
    let kept = keep_after window now ts in if ltb now (t + window) then t ∷ kept else kept

-- l.hits[key], which is empty for a key that is missing.
abbrev pub or_empty : Option (List ℕ) → List ℕ
or_empty none = []
or_empty (some ts) = ts

abbrev pub hits_of : Text → Map (List ℕ) → List ℕ
hits_of key m = or_empty (lookup key m)

-- One entry of the sweep: dropped if nothing of it is left in the window.
abbrev pub keep_entry : Text → List ℕ → Map (List ℕ) → Map (List ℕ)
keep_entry k [] m = m
keep_entry k (t ∷ ts) m = (k, t ∷ ts) ∷ m

unfoldable pub sweep : ℕ → ℕ → Map (List ℕ) → Map (List ℕ)
unfolding keep_after
sweep window now [] = []
sweep window now ((k, ts) ∷ m) = keep_entry k (keep_after window now ts) (sweep window now m)

-- The call is counted, and the table swept if it is time to or cleared if it has too many keys.
unfoldable pub tidy : SendLimiter → ℕ → SendLimiter
unfolding sweep
tidy l now =
    let calls = l.calls + 1 in
    let full = ltb send_limiter_max_keys (length l.hits) in
    if leb send_limiter_prune calls || full
    then record l { calls = 0; hits = if full then [] else sweep l.window now l.hits }
    else record l { calls = calls }

unfoldable pub allow_at : SendLimiter → ℕ → Text → SendLimiter × Bool
unfolding tidy keep_after
allow_at l now key =
    let l' = tidy l now in
    let kept = keep_after l.window now (hits_of key l'.hits) in
    if leb l.limit (length kept)
    then (record l' { hits = insert key kept l'.hits }, false)
    else (record l' { hits = insert key (kept ++ now ∷ []) l'.hits }, true)

unfoldable pub allow : Option SendLimiter → ℕ → Text → Option SendLimiter × Bool
unfolding allow_at
allow none now key = (none, true)
allow (some l) now key = let (l', ok) = allow_at l now key in (some l', ok)
