-- ===== src/Model/Schedule/NextChange/Constant.antt =====
-- Between two midnights and two boundaries of bookings the schedule asks for one thing.
use pstonn.Prelude.{
  ℕ, ◌≤◌, ◌<◌, ◌≡◌, refl, sym, ap, ap₂, ◌∙◌, not, ◌&&◌, ◌||◌, Option, none, some, List, Memᴰ, ltb,
  leb, if◌then◌else◌, arith, inl, inr,
}
use pstonn.Clock.{Location, midnight, noon, weekday, weekday_of_day, sub_days}
use pstonn.Clock.DateText.{parse_date}
use pstonn.Model.Cycle.{Cycle, is_empty, sunday_noon, cycle_index, week_at}
use pstonn.Model.Best.{best_from_keep}
use pstonn.Model.Schedule.{
  WeeklyRule, Override, is_active, is_fresher, not_ended, best_override, best_rule, resolve_rule,
  resolve,
}
use pstonn.Model.Schedule.Winner.{resolve_with, resolve-eq}
use pstonn.Model.Schedule.NextChange.Candidates.{IsBoundary}

-- No booking starts or ends after `p` and up to `u`.
abbrev pub IsQuiet : ℕ → ℕ → List Override → Type 0
IsQuiet p u overrides =
    (o : Override) → Memᴰ o overrides → (t : ℕ) → IsBoundary t o → p < t → t ≤ u → ⊥

started_constant : (p u s : ℕ) → p ≤ u → (p < s → s ≤ u → ⊥) → ltb p s ≡ ltb u s
started_constant p u s le h = ground arith

ended_constant :
    (p u : ℕ) (e : Option ℕ)
    → p ≤ u
    → ((t : ℕ) → e ≡ some t → p < t → t ≤ u → ⊥)
    → not_ended e p ≡ not_ended e u
ended_constant p u none le h = refl
ended_constant p u (some t) le h = started_constant p u t le (h t refl)

active_constant :
    (p u : ℕ) (o : Override)
    → p ≤ u
    → ((t : ℕ) → IsBoundary t o → p < t → t ≤ u → ⊥)
    → is_active p o ≡ is_active u o
unfolding is_active
active_constant p u o le h =
    ap₂ (λ a b. not a && b) (started_constant p u o.starts_at le (h o.starts_at (inl refl)))
      (ended_constant p u o.ends_at le (λ t e. h t (inr e)))

week_at_constant :
    (l : Location) (p u : ℕ) (c : Cycle) → l.day p ≡ l.day u → week_at l p c ≡ week_at l u c
unfolding week_at sunday_noon
week_at_constant l p u c e =
    ap
      (λ (d : ℕ). if leb c.weeks 1 || is_empty c.anchor then 0 else elim (parse_date c.anchor) [
        | none ↦ 0
        | some day ↦
            cycle_index c.weeks (sub_days l (noon l d) (weekday_of_day d))
              (sunday_noon l (midnight l day))
      ])
      e

resolve_rule_constant :
    (l : Location) (p u : ℕ) (r : Option WeeklyRule)
    → l.day p ≡ l.day u
    → resolve_rule l p r ≡ resolve_rule l u r
unfolding resolve_rule
resolve_rule_constant l p u none e = refl
resolve_rule_constant l p u (some r) e = ground (arith, ap (midnight l) e)

resolve_with_constant :
    (l : Location) (p u : ℕ) (o : Option Override) (r : Option WeeklyRule)
    → l.day p ≡ l.day u
    → resolve_with l p o r ≡ resolve_with l u o r
resolve_with_constant l p u none r e = resolve_rule_constant l p u r e
resolve_with_constant l p u (some o) r e = refl

-- Two instants of one day with no boundary between them resolve alike.
pub resolve_constant :
    (l : Location) (p u : ℕ) (c : Cycle) (rules : List WeeklyRule) (overrides : List Override)
    → p ≤ u
    → l.day p ≡ l.day u
    → IsQuiet p u overrides
    → resolve l p c rules overrides ≡ resolve l u c rules overrides
unfolding best_override
resolve_constant l p u c rules overrides le day quiet =
    resolve-eq l p c rules overrides
    ∙ ap₂ (resolve_with l p)
        (best_from_keep (is_active p) (is_active u) is_fresher none overrides
          (λ o m. active_constant p u o le (quiet o m)))
        (ap₂ (λ wk wd. best_rule wk wd rules) (week_at_constant l p u c day)
          (ap weekday_of_day day))
    ∙ resolve_with_constant l p u (best_override u overrides)
        (best_rule (week_at l u c) (weekday l u) rules) day
    ∙ sym (resolve-eq l u c rules overrides)
