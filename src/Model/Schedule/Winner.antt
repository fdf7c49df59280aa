-- ===== src/Model/Schedule/Winner.antt =====
-- What Resolve chooses, described without its loops.
use pstonn.Prelude.{
  ℕ, ◌≡◌, refl, ap₂, ◌∙◌, true, false, not, ◌≤◌, ◌<◌, ◌≢◌, ◌↔◌, ◌⊎◌, ltb, ltb→lt, lt→ltb,
  ltb_false→le, and_true, Option, none, some, List, Memᴰ, arith, Option-cases, inl, inr,
}
use pstonn.Clock.{Location, weekday}
use pstonn.Model.Cycle.{Cycle, week_at}
use pstonn.Model.Best.{IsStrict, best_from-none-IsBest, best_from-none-none}
use pstonn.Model.Schedule.{
  WeeklyRule, Override, Resolution, not_ended, is_active, is_fresher, best_override, rule_matches,
  is_later_rule, best_rule, override_resolution, rule_resolution, no_resolution, resolve_rule,
  resolve,
}

pub is_fresher-IsStrict : IsStrict is_fresher
unfolding is_fresher
is_fresher-IsStrict = record {
  irrefl = λ x. ground arith;
  trans = λ x y z p q. ground arith;
  split = λ x y z p. ground arith;
}

pub is_later_rule-IsStrict : IsStrict is_later_rule
unfolding is_later_rule
is_later_rule-IsStrict = record {
  irrefl = λ x. ground arith;
  trans = λ x y z p q. ground arith;
  split = λ x y z p. ground arith;
}

abbrev pub Lasts : Option ℕ → ℕ → Type 0
Lasts none now = Unit
Lasts (some e) now = now < e

-- The booking's window is open.
abbrev pub IsLive : ℕ → Override → Type 0
IsLive now o = (o.starts_at ≤ now) × Lasts o.ends_at now

not_ended_lem : (e : Option ℕ) (now : ℕ) → (not_ended e now ≡ true) ↔ Lasts e now
not_ended_lem none now = (λ p. tt, λ p. refl)
not_ended_lem (some e) now = (ltb→lt now e, lt→ltb now e)

pub is_active_lem : (now : ℕ) (o : Override) → (is_active now o ≡ true) ↔ IsLive now o
unfolding is_active
is_active_lem now o =
    let ended = not_ended_lem o.ends_at now in
    (
      λ h.
          let (s, e) = and_true (not (ltb now o.starts_at)) (not_ended o.ends_at now) h in
          (ground (arith, s), ended.0 e),
      λ i. ground (arith, i.0, ended.1 i.1),
    )

-- `b` is open, and no other open booking was made later, or at the same time under a higher number.
pub record IsFreshest (now : ℕ) (b : Override) (overrides : List Override) : Type 0 where
  pub member : Memᴰ b overrides
  pub live : IsLive now b
  pub others :
      (o : Override)
      → Memᴰ o overrides
      → IsLive now o
      → (o.created_at < b.created_at) ⊎ ((o.created_at ≡ b.created_at) × (o.id ≤ b.id))

-- `r` is for day `wd` of week `wk`, and no other such rule has a higher number.
pub record IsLatest (wk wd : ℕ) (r : WeeklyRule) (rules : List WeeklyRule) : Type 0 where
  pub member : Memᴰ r rules
  pub matches : (r.week ≡ wk) × (r.weekday ≡ wd)
  pub others : (x : WeeklyRule) → Memᴰ x rules → x.week ≡ wk → x.weekday ≡ wd → x.id ≤ r.id

abbrev pub NoneLive : ℕ → List Override → Type 0
NoneLive now overrides = (o : Override) → Memᴰ o overrides → ¬ IsLive now o

abbrev pub NoneMatches : ℕ → ℕ → List WeeklyRule → Type 0
NoneMatches wk wd rules = (r : WeeklyRule) → Memᴰ r rules → r.week ≡ wk → r.weekday ≢ wd

-- The three ways in which the schedule decides.
pub data Decides (l : Location) (now : ℕ) (c : Cycle) (rules : List WeeklyRule)
    (overrides : List Override) (res : Resolution) : Type 0 where
  booked :
      (b : Override)
      → IsFreshest now b overrides
      → res ≡ override_resolution b
      → Decides l now c rules overrides res
  rostered :
      (r : WeeklyRule)
      → NoneLive now overrides
      → IsLatest (week_at l now c) (weekday l now) r rules
      → res ≡ rule_resolution l now r
      → Decides l now c rules overrides res
  nothing :
      NoneLive now overrides
      → NoneMatches (week_at l now c) (weekday l now) rules
      → res ≡ no_resolution
      → Decides l now c rules overrides res

is_fresher-false :
    (o b : Override)
    → is_fresher o b ≡ false
    → (o.created_at < b.created_at) ⊎ ((o.created_at ≡ b.created_at) × (o.id ≤ b.id))
unfolding is_fresher
is_fresher-false o b h = ground arith

best_override-IsFreshest :
    (now : ℕ) (overrides : List Override) {b : Override}
    → best_override now overrides ≡ some b
    → IsFreshest now b overrides
unfolding best_override
best_override-IsFreshest now overrides {b} e =
    let best = best_from-none-IsBest (is_active now) is_fresher is_fresher-IsStrict overrides e in
    record {
      member = best.member;
      live = (is_active_lem now b).0 best.kept;
      others = λ o m i. is_fresher-false o b (best.unbeaten o m ((is_active_lem now o).1 i));
    }

best_override-none :
    (now : ℕ) (overrides : List Override)
    → best_override now overrides ≡ none
    → NoneLive now overrides
unfolding best_override
best_override-none now overrides e o m i =
    let idle = best_from-none-none (is_active now) is_fresher is_fresher-IsStrict overrides e o m in
    cc (idle, (is_active_lem now o).1 i)

rule_matches_lem :
    (wk wd : ℕ) (r : WeeklyRule)
    → (rule_matches wk wd r ≡ true) ↔ ((r.week ≡ wk) × (r.weekday ≡ wd))
unfolding rule_matches
rule_matches_lem wk wd r = (λ h. ground arith, λ h. ground arith)

best_rule-IsLatest :
    (wk wd : ℕ) (rules : List WeeklyRule) {r : WeeklyRule}
    → best_rule wk wd rules ≡ some r
    → IsLatest wk wd r rules
unfolding best_rule
best_rule-IsLatest wk wd rules {r} e =
    let best =
      best_from-none-IsBest (rule_matches wk wd) is_later_rule is_later_rule-IsStrict rules e in
    record {
      member = best.member;
      matches = (rule_matches_lem wk wd r).0 best.kept;
      others = λ x m p q.
          unfold is_later_rule in
          ltb_false→le _ _ (best.unbeaten x m ((rule_matches_lem wk wd x).1 (p, q)));
    }

best_rule-none :
    (wk wd : ℕ) (rules : List WeeklyRule) → best_rule wk wd rules ≡ none → NoneMatches wk wd rules
unfolding best_rule
best_rule-none wk wd rules e r m p q =
    let none_kept =
      best_from-none-none (rule_matches wk wd) is_later_rule is_later_rule-IsStrict rules e r m in
    cc (none_kept, (rule_matches_lem wk wd r).1 (p, q))

abbrev pub resolve_with : Location → ℕ → Option Override → Option WeeklyRule → Resolution
resolve_with l now none r = resolve_rule l now r
resolve_with l now (some best) r = override_resolution best

-- Resolve in terms of its two choices.
pub resolve-eq :
    (l : Location) (now : ℕ) (c : Cycle) (rules : List WeeklyRule) (overrides : List Override)
    → resolve l now c rules overrides
      ≡ resolve_with l now
          (best_override now overrides)
          (best_rule (week_at l now c) (weekday l now) rules)
unfolding resolve
resolve-eq l now c rules overrides = ground arith

-- The freshest active booking wins; with none active, the last of the rules for this day of this
-- week of the cycle; with neither, nothing is allocated.
pub resolve-Decides :
    (l : Location) (now : ℕ) (c : Cycle) (rules : List WeeklyRule) (overrides : List Override)
    → Decides l now c rules overrides (resolve l now c rules overrides)
unfolding resolve_rule
resolve-Decides l now c rules overrides = elim (Option-cases (best_override now overrides)) [
  | inr (b, e) ↦
      booked b (best_override-IsFreshest now overrides e)
        (resolve-eq l now c rules overrides ∙ ap₂ (resolve_with l now) e refl)
  | inl e ↦
      let idle = best_override-none now overrides e in
      elim (Option-cases (best_rule (week_at l now c) (weekday l now) rules)) [
        | inr (r, f) ↦
            rostered r idle (best_rule-IsLatest (week_at l now c) (weekday l now) rules f)
              (resolve-eq l now c rules overrides ∙ ap₂ (resolve_with l now) e f)
        | inl f ↦
            nothing idle (best_rule-none (week_at l now c) (weekday l now) rules f)
              (resolve-eq l now c rules overrides ∙ ap₂ (resolve_with l now) e f)
      ]
]
