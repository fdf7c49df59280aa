-- ===== src/Scheduler/KeepWarm/Visits.antt =====
-- A renewal that is held back stays so through any passes of keep-warm.
use pstonn.Prelude.{ℕ, ◌≤◌, ◌≡◌, true, ◌∷◌, [], List, Text, find, arith, Option-cases, inl, inr}
use pstonn.Scheduler.{Scheduler, SessionKey, session_key, TenantSession}
use pstonn.Scheduler.Warm.{warm_backed_off}
use pstonn.Scheduler.KeepWarm.{WarmWorld, warm_one}
use pstonn.Scheduler.KeepWarm.Held.{is_held}
use pstonn.Scheduler.KeepWarm.Passes.{lets_wait, warm_one-Keeps, held-Keeps}

-- A wait that lasts longer holds earlier too.
held-earlier :
    (k : SessionKey) (s : Scheduler) (now later : ℕ)
    → now ≤ later
    → is_held s later k ≡ true
    → is_held s now k ≡ true
unfolding warm_backed_off
held-earlier k s now later le h = elim (Option-cases (find k s.warm_retry_at)) [
  | inl e ↦ ground (arith, e, h)
  | inr (at, e) ↦ ground (arith, e, h, le)
]

-- One pass: when, over which session, and what it meets.
pub record Visit : Type 0 where
  pub time : ℕ
  pub session : TenantSession
  pub world : WarmWorld

-- The passes in turn.
unfoldable pub visits : (Text → ℕ) → (Text → ℕ → ℕ) → Scheduler → List Visit → Scheduler
unfolding warm_one
visits hash warm_hash s [] = s
visits hash warm_hash s (v ∷ vs) =
    visits hash warm_hash (warm_one hash warm_hash s v.time v.session v.world).0 vs

-- None of the passes is after `later`, and each lets the session wait.
abbrev pub LetWait : SessionKey → ℕ → List Visit → Type 0
LetWait k later [] = Unit
LetWait k later (v ∷ vs) =
    (v.time ≤ later) × (lets_wait k v.session v.world ≡ true) × LetWait k later vs

pub visits-held :
    (k : SessionKey) (hash : Text → ℕ) (warm_hash : Text → ℕ → ℕ) (s : Scheduler) (later : ℕ)
    (vs : List Visit)
    → LetWait k later vs
    → is_held s later k ≡ true
    → is_held (visits hash warm_hash s vs) later k ≡ true
unfolding visits
visits-held k hash warm_hash s later [] h q = q
visits-held k hash warm_hash s later (v ∷ vs) h q =
    let kept =
      warm_one-Keeps k hash warm_hash s v.time v.session v.world h.1
        (held-earlier k s v.time later h.0 q) in
    visits-held k hash warm_hash (warm_one hash warm_hash s v.time v.session v.world).0 later vs h.2
      (held-Keeps k s (warm_one hash warm_hash s v.time v.session v.world).0 later kept q)
