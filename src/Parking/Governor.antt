-- ===== src/Parking/Governor.antt =====
-- internal/parking/governor.go: the ceilings on the rate of outbound requests. Tokens are counted in
-- units of 1 / (60 * 10^9), so that a bucket of `per_min` tokens a minute gains `per_min` units in a
-- nanosecond; the source's floating-point rounding is left out. A bucket's waiting loop is try_take
-- at the times at which its timer fires.
pub mod Rate
pub mod Wait
pub mod Tests
use pstonn.Prelude.{
  ℕ, ◌+◌, ◌-◌, ◌*◌, ◌/◌, Bool, true, false, not, ◌&&◌, Option, none, some, min, ltb, leb, ◌==◌,
  if◌then◌else◌,
}
use pstonn.Clock.{second, minute, hour, is_zero, elapsed}

-- One token.
abbrev pub token : ℕ
token = 60 * second

-- govOr and govIntOr: a limit that is unset, or nonsense, falls back to its default.
unfoldable pub gov_or : ℕ → ℕ → ℕ
gov_or v default = if leb v 0 then default else v

pub record TokenBucket : Type 0 where
  pub tokens : ℕ
  pub burst : ℕ
  pub per_min : ℕ
  pub last : ℕ

-- `burst` is in tokens.
unfoldable pub new_token_bucket : ℕ → ℕ → TokenBucket
new_token_bucket per_min burst = record {
  tokens = burst * token;
  burst = burst * token;
  per_min = per_min;
  last = 0;
}

-- The tokens at `now`: what has accrued since the last call, up to the burst.
unfoldable pub refilled : TokenBucket → ℕ → ℕ
refilled tb now =
    if not (is_zero tb.last) && ltb tb.last now
    then min tb.burst (tb.tokens + elapsed now tb.last * tb.per_min)
    else tb.tokens

-- tryTake: the bucket afterwards, ok, and the wait.
unfoldable pub try_take : TokenBucket → ℕ → TokenBucket × Bool × ℕ
unfolding refilled
try_take tb now =
    let tokens = refilled tb now in
    if leb token tokens then (record tb { tokens = tokens - token; last = now }, true, 0) else (
      record tb { tokens = tokens; last = now },
      false,
      if tb.per_min == 0 then hour else (token - tokens) / tb.per_min,
    )

pub record Governor : Type 0 where
  pub total : TokenBucket
  pub login : TokenBucket
  pub concurrency : ℕ

unfoldable pub new_governor : ℕ → ℕ → ℕ → ℕ → ℕ → Governor
unfolding new_token_bucket
new_governor total_per_min total_burst login_per_min login_burst concurrency = record {
  total = new_token_bucket total_per_min total_burst;
  login = new_token_bucket login_per_min login_burst;
  concurrency = if ltb concurrency 1 then 1 else concurrency;
}

abbrev pub login_flow_requests : ℕ
login_flow_requests = 6

-- The time that one token takes to accrue.
unfoldable pub per_request : TokenBucket → ℕ
per_request tb = if tb.per_min == 0 then 0 else token / tb.per_min

-- loginBudget; a nil governor is `none`.
unfoldable pub login_budget : Option Governor → ℕ
unfolding per_request
login_budget none = 0
login_budget (some g) = login_flow_requests * (per_request g.login + per_request g.total)
