-- ===== src/Model/Schedule/Order.antt =====
-- The order in which the rules and the bookings are read does not matter.
use pstonn.Prelude.{ℕ, ◌≡◌, sym, ◌∙◌, false, List, Memᴰ, arith, ap₂}
use pstonn.Clock.{Location, weekday}
use pstonn.Model.Cycle.{Cycle, week_at}
use pstonn.Model.Best.{best_from_same}
use pstonn.Model.Schedule.{
  WeeklyRule, Override, is_active, is_fresher, best_override, rule_matches, is_later_rule,
  best_rule, resolve,
}
use pstonn.Model.Schedule.Winner.{
  is_fresher-IsStrict, is_later_rule-IsStrict, resolve_with, resolve-eq,
}

-- The two lists have the same elements.
pub record SameMembers {ℓ} {A : Type ℓ} (xs ys : List A) : Type ℓ where
  pub left : (x : A) → Memᴰ x xs → Memᴰ x ys
  pub right : (x : A) → Memᴰ x ys → Memᴰ x xs

-- An identifier names one element of the list.
abbrev pub UniqueIds {ℓ} : {A : Type ℓ} → (A → ℕ) → List A → Type ℓ
UniqueIds {A} id xs = (x y : A) → Memᴰ x xs → Memᴰ y xs → id x ≡ id y → x ≡ y

tied_id : (x y : Override) → is_fresher x y ≡ false → is_fresher y x ≡ false → x.id ≡ y.id
unfolding is_fresher
tied_id x y p q = ground arith

tied_rule_id :
    (x y : WeeklyRule) → is_later_rule x y ≡ false → is_later_rule y x ≡ false → x.id ≡ y.id
unfolding is_later_rule
tied_rule_id x y p q = ground arith

best_override_same :
    (now : ℕ) (xs ys : List Override)
    → SameMembers xs ys
    → UniqueIds (λ o. o.id) xs
    → best_override now xs ≡ best_override now ys
unfolding best_override
best_override_same now xs ys same ids =
    best_from_same (is_active now) is_fresher is_fresher-IsStrict xs ys same.left same.right
      (λ x y i j p q. ids x y i j (tied_id x y p q))

best_rule_same :
    (wk wd : ℕ) (xs ys : List WeeklyRule)
    → SameMembers xs ys
    → UniqueIds (λ r. r.id) xs
    → best_rule wk wd xs ≡ best_rule wk wd ys
unfolding best_rule
best_rule_same wk wd xs ys same ids =
    best_from_same (rule_matches wk wd) is_later_rule is_later_rule-IsStrict xs ys same.left
      same.right (λ x y i j p q. ids x y i j (tied_rule_id x y p q))

-- Rules with unique identifiers, and bookings with unique identifiers, resolve alike in any order
-- and with any repetitions.
pub resolve_unordered :
    (l : Location) (now : ℕ) (c : Cycle) (rules rules' : List WeeklyRule)
    (overrides overrides' : List Override)
    → SameMembers rules rules'
    → UniqueIds (λ r. r.id) rules
    → SameMembers overrides overrides'
    → UniqueIds (λ o. o.id) overrides
    → resolve l now c rules overrides ≡ resolve l now c rules' overrides'
resolve_unordered l now c rules rules' overrides overrides' sr ur so uo =
    resolve-eq l now c rules overrides
    ∙ ap₂ (resolve_with l now) (best_override_same now overrides overrides' so uo)
        (best_rule_same (week_at l now c) (weekday l now) rules rules' sr ur)
    ∙ sym (resolve-eq l now c rules' overrides')
