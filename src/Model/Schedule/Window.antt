-- ===== src/Model/Schedule/Window.antt =====
-- The allocation that Resolve reports has begun, and has not ended.
use pstonn.Prelude.{ℕ, ◌≤◌, ◌<◌, ◌≡◌, refl, subst, sym, true, false, List, Memᴰ, arith}
use pstonn.Clock.{Location, zero_day}
use pstonn.Clock.Regular.{IsRegular}
use pstonn.Model.Cycle.{Cycle}
use pstonn.Model.Schedule.{
  WeeklyRule, Override, Resolution, is_allocated, not_ended, is_active, override_resolution,
  rule_resolution, no_resolution, resolve,
}
use pstonn.Model.Schedule.Winner.{is_active_lem, booked, rostered, nothing, resolve-Decides}

pub record IsCurrent (now : ℕ) (r : Resolution) : Type 0 where
  pub begun : r.since ≤ now
  pub lasts : not_ended r.until now ≡ true

override_resolution-IsCurrent :
    (now : ℕ) (b : Override)
    → is_active now b ≡ true
    → b.created_at ≤ now
    → IsCurrent now (override_resolution b)
unfolding override_resolution is_active
override_resolution-IsCurrent now b a h = ground arith

rule_resolution-IsCurrent :
    (l : Location)
    → IsRegular l
    → (now : ℕ) (r : WeeklyRule) → zero_day < l.day now
    → IsCurrent now (rule_resolution l now r)
unfolding rule_resolution
rule_resolution-IsCurrent l reg now r h = record {
  begun = reg.from-midnight now (l.day now) h (omega arith);
  lasts = refl;
}

no_resolution-unallocated : is_allocated no_resolution.source ≡ false
unfolding no_resolution
no_resolution-unallocated = refl

-- In a regular zone after 0001-01-01, if every booking was made by now and the result allocates
-- something, the allocation has begun by now, and its end, if it has one, is still to come.
pub resolve-IsCurrent :
    (l : Location)
    → IsRegular l
    → (now : ℕ) (c : Cycle) (rules : List WeeklyRule) (overrides : List Override)
    → zero_day < l.day now
    → ((o : Override) → Memᴰ o overrides → o.created_at ≤ now)
    → is_allocated (resolve l now c rules overrides).source ≡ true
    → IsCurrent now (resolve l now c rules overrides)
resolve-IsCurrent l reg now c rules overrides h made allocated =
    elim (resolve-Decides l now c rules overrides) [
      | booked b best e ↦ subst (IsCurrent now) (sym e) (
          override_resolution-IsCurrent now b ((is_active_lem now b).1 best.live)
            (made b best.member))
      | rostered r idle best e ↦
          subst (IsCurrent now) (sym e) (rule_resolution-IsCurrent l reg now r h)
      | nothing idle blank e ↦ cc (e, no_resolution-unallocated, allocated)
    ]
