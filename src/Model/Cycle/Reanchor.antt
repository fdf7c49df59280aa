-- ===== src/Model/Cycle/Reanchor.antt =====
-- How the index of the week moves on with time, and how it survives a change of the cycle's length.
use pstonn.Prelude.{
  ℕ, ◌+◌, ◌-◌, ◌*◌, ◌/◌, ◌%◌, ◌≤◌, ◌<◌, ◌≡◌, sym, ap, ap₂, ◌∙◌, ◌||◌, none, some, leb, arith,
  Bool-cases, inl, inr, lt→leb_false, leb_false→lt, or_false, mod_unique, mod-shift, max, Option,
}
use native.Mathlib.Nat.{mod-lt, mod-add-mod, add_right_comm}
use pstonn.Clock.{Location, zero_day, midnight, weekday}
use pstonn.Clock.Regular.{IsRegular}
use pstonn.Clock.Civil.{year_of_day-lt}
use pstonn.Clock.DateText.{parse_date, format_date, parse-format}
use pstonn.Model.Cycle.{
  Cycle, is_empty, sunday_noon, rounded_days, cycle_index, week_at, reanchored_cycle,
}
use pstonn.Model.Cycle.Weeks.{week_of, IsIndex, IsNear, week_at-IsIndex}

cycle_index-lt : (n s a : ℕ) → 0 < n → cycle_index n s a < n
unfolding cycle_index
cycle_index-lt n s a h =
    ground (arith, mod-lt (rounded_days s a / 7) h, mod-lt (rounded_days a s / 7) h)

-- Whatever the clock, the zone's data and the anchor's text, the index is one of the cycle's weeks;
-- a cycle of no weeks counts as one of one week.
pub week_at-lt : (l : Location) (now : ℕ) (c : Cycle) → week_at l now c < max c.weeks 1
unfolding week_at
week_at-lt l now c = elim (Bool-cases (leb c.weeks 1 || is_empty c.anchor)) [
  | inl e ↦ rw e (omega arith)
  | inr e ↦ rw e (anchored (parse_date c.anchor) (leb_false→lt _ _ (or_false _ _ e).0))
]
  where
    anchored :
        (o : Option ℕ)
        → 1 < c.weeks
        → elim o [
          | none ↦ 0
          | some day ↦ cycle_index c.weeks (sunday_noon l now) (sunday_noon l (midnight l day))
        ]
          < max c.weeks 1
    anchored none h = omega arith
    anchored (some day) h =
        omega (arith, cycle_index-lt c.weeks (sunday_noon l now) (sunday_noon l (midnight l day)))

-- An index is the only one of its class.
IsIndex-unique : (n base w i j : ℕ) → IsIndex n base w i → IsIndex n base w j → i ≡ j
IsIndex-unique n base w i j p q =
    mod_unique n base i j p.inside q.inside (p.congruent ∙ sym q.congruent)

-- In a regular zone, for a cycle of two weeks or more whose anchor is readable and within 10,000
-- weeks of both instants, an instant whose civil week is `k` weeks later has the index moved on by
-- `k`, modulo the cycle's length; with `k` zero, the index does not move within a week, whatever
-- the clock changes in it.
pub week_at-later :
    (l : Location)
    → IsRegular l
    → (now later k : ℕ) (c : Cycle) {a : ℕ} → 1 < c.weeks
    → parse_date c.anchor ≡ some a
    → IsNear a (l.day now)
    → IsNear a (l.day later)
    → week_of (l.day later) ≡ week_of (l.day now) + k
    → week_at l later c ≡ (week_at l now c + k) % c.weeks
week_at-later l reg now later k c {a} h e v v' m =
    let p = week_at-IsIndex l reg now c h e v in
    let q = week_at-IsIndex l reg later c h e v' in
    IsIndex-unique c.weeks (week_of a) (week_of (l.day later)) _ _ q (record {
      inside = mod-lt (week_at l now c + k) (omega arith);
      congruent =
          mod-add-mod (week_at l now c + k) c.weeks (week_of a)
          ∙ ap (λ t. t % c.weeks) (add_right_comm (week_at l now c) k (week_of a))
          ∙ mod-shift c.weeks (week_at l now c + week_of a) (week_of (l.day now)) k p.congruent
          ∙ ap (λ t. t % c.weeks) (sym m);
    })

module _ (l : Location) (reg : IsRegular l) (now : ℕ) (old : Cycle) (n : ℕ) where
  abbrev index : ℕ
  index = week_at l now old % n

  index-lt : 0 < n → index < n
  index-lt h = mod-lt (week_at l now old) h

  abbrev new_anchor : ℕ
  new_anchor = l.day now - (weekday l now + 7 * index)

  reanchored-eq :
      1 < n
      → zero_day + 14 + 7 * n < l.day now
      → reanchored_cycle l now old n ≡ record { weeks = n; anchor = format_date new_anchor }
  unfolding reanchored_cycle
  reanchored-eq h late = rw (lt→leb_false _ _ h) (
      ap (λ d. record { weeks = n; anchor = format_date d })
        (ap₂ (λ (d c : ℕ). l.day (l.date (d - (weekday l now + 7 * index)) c))
            (reg.day-noon (l.day now) (omega arith)) (reg.clock-noon (l.day now) (omega arith))
          ∙ reg.day-noon new_anchor (omega (arith, index-lt (omega arith)))))

  new_anchor-IsNear :
      1 < n → n ≤ 10_000 → zero_day + 14 + 7 * n < l.day now → IsNear new_anchor (l.day now)
  new_anchor-IsNear h small late = let lt : index < n = index-lt (omega arith) in omega arith

  index-IsIndex :
      1 < n
      → zero_day + 14 + 7 * n < l.day now
      → IsIndex n (week_of new_anchor) (week_of (l.day now)) index
  index-IsIndex h late =
      let lt : index < n = index-lt (omega arith) in
      record { inside = lt; congruent = ap (λ t. t % n) (omega arith) }

  -- In a regular zone, before the year 9994 and more than 7 n + 14 days after 0001-01-01: changing
  -- the cycle's length to n weeks, from 2 to 10,000, gives the current week the index it had,
  -- modulo the new length.
  pub week_at-reanchored :
      1 < n
      → n ≤ 10_000
      → zero_day + 14 + 7 * n < l.day now
      → l.day now < 3_650_000
      → week_at l now (reanchored_cycle l now old n) ≡ week_at l now old % n
  week_at-reanchored h small late early =
      ap (week_at l now) (reanchored-eq h late)
      ∙ IsIndex-unique n (week_of new_anchor) (week_of (l.day now)) _ index
          (week_at-IsIndex l reg now (record { weeks = n; anchor = format_date new_anchor }) h
            (parse-format new_anchor (year_of_day-lt new_anchor (omega arith)))
            (new_anchor-IsNear h small late))
          (index-IsIndex h late)
