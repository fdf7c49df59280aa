-- ===== src/Model/Cycle/Weeks.antt =====
-- WeekAt counts whole weeks, from Sunday to Saturday, modulo the length of the cycle.
use pstonn.Prelude.{
  ℕ, ◌+◌, ◌-◌, ◌*◌, ◌/◌, ◌%◌, ◌≤◌, ◌<◌, ◌≡◌, refl, zero, suc, sym, ap, ap₂, ◌∙◌, true, false, some,
  [], ◌∷◌, Text, leb, ◌==◌, if◌then◌else◌, arith, Bool-cases, inl, inr, le→leb, lt→leb_false,
  leb→le, leb_false→lt, subst₂,
}
use native.Mathlib.Nat.{mod-lt, mod-add-mod, div-add-mod, add_comm, add-zero, add-mul-mod_self_left}
use pstonn.Clock.{Location, zero_day, midnight, noon, weekday, weekday_of_day}
use pstonn.Clock.Regular.{IsRegular}
use pstonn.Clock.DateText.{parse_date}
use pstonn.Model.Cycle.{Cycle, is_empty, sunday_noon, rounded_days, cycle_index, week_at}

-- The number of the week of a civil day: weeks begin on Sundays.
abbrev pub week_of : ℕ → ℕ
week_of d = (d + 6) / 7

-- The Sunday on which a week begins.
abbrev pub sunday_of : ℕ → ℕ
sunday_of d = d - weekday_of_day d

-- `i` is the index of week `w` in a cycle of `n` weeks in which week `base` has index 0.
pub record IsIndex (n base w i : ℕ) : Type 0 where
  pub inside : i < n
  pub congruent : (i + base) % n ≡ w % n

-- What the source does with a count of weeks ahead of the anchor, and behind it.
ahead-IsIndex : (n base k : ℕ) → 0 < n → IsIndex n base (base + k) (k % n)
ahead-IsIndex n base k h = record {
  inside = mod-lt k h;
  congruent = mod-add-mod k n base ∙ ap (λ t. t % n) (add_comm k base);
}

wrapped : ℕ → ℕ → ℕ
wrapped n k = if k % n == 0 then 0 else n - k % n

wrapped-lt : (n k : ℕ) → 0 < n → wrapped n k < n
unfolding wrapped
wrapped-lt n k h = ground (arith, mod-lt k h)

wrapped_whole : (n w k : ℕ) → (k % n == 0) ≡ true → wrapped n k + (w + k) ≡ w + n * (k / n)
unfolding wrapped
wrapped_whole n w k e = rw e (grind (arith, div-add-mod k n))

wrapped_part :
    (n w k : ℕ) → 0 < n → (k % n == 0) ≡ false → wrapped n k + (w + k) ≡ w + n * (k / n + 1)
unfolding wrapped
wrapped_part n w k h e = rw e (omega (arith, div-add-mod k n, mod-lt k h))

behind-IsIndex : (n w k : ℕ) → 0 < n → IsIndex n (w + k) w (wrapped n k)
behind-IsIndex n w k h = record {
  inside = wrapped-lt n k h;
  congruent = elim (Bool-cases (k % n == 0)) [
    | inl e ↦ ap (λ t. t % n) (wrapped_whole n w k e) ∙ add-mul-mod_self_left w n (k / n)
    | inr e ↦ ap (λ t. t % n) (wrapped_part n w k h e) ∙ add-mul-mod_self_left w n (k / n + 1)
  ];
}

module _ (l : Location) (reg : IsRegular l) where
  pub sunday_noon-eq :
      (t : ℕ) → zero_day + 7 < l.day t → sunday_noon l t ≡ noon l (sunday_of (l.day t))
  unfolding sunday_noon
  sunday_noon-eq t h =
      ap₂ (λ (d c : ℕ). l.date (d - weekday l t) c) (reg.day-noon (l.day t) (omega arith))
        (reg.clock-noon (l.day t) (omega arith))

  -- Between the noons of two days less than 292 years apart the rounded count is exact.
  pub rounded_days-noon :
      (d k : ℕ) → zero_day < d → k ≤ 100_000 → rounded_days (noon l (d + k)) (noon l d) ≡ k
  unfolding rounded_days
  rounded_days-noon d k h b = omega (arith, reg.noon_ahead d k h, reg.noon_behind d k h)

  noon-le : (d k : ℕ) → zero_day < d → noon l d ≤ noon l (d + k)
  noon-le d zero h = omega (arith, ap (noon l) (add-zero d))
  noon-le d (suc k) h = omega (arith, reg.noon_behind d (suc k) h)

  noon-lt : (d k : ℕ) → zero_day < d → 0 < k → noon l d < noon l (d + k)
  noon-lt d k h p = omega (arith, reg.noon_behind d k h)

  -- Two Sundays `k` weeks apart.
  cycle_index-ahead :
      (n d k : ℕ)
      → zero_day < d
      → k ≤ 10_000
      → cycle_index n (noon l (d + 7 * k)) (noon l d) ≡ k % n
  unfolding cycle_index
  cycle_index-ahead n d k h b =
      rw (le→leb _ _ (noon-le d (7 * k) h), rounded_days-noon d (7 * k) h (omega arith))
        (ap (λ t. t % n) (omega arith))

  cycle_index-behind :
      (n d k : ℕ)
      → zero_day < d
      → 0 < k
      → k ≤ 10_000
      → cycle_index n (noon l d) (noon l (d + 7 * k)) ≡ wrapped n k
  unfolding cycle_index wrapped
  cycle_index-behind n d k h p b =
      rw
        (
          lt→leb_false _ _ (noon-lt d (7 * k) h (omega arith)),
          rounded_days-noon d (7 * k) h (omega arith),
        )
        (ap (λ (t : ℕ). let q = t % n in if q == 0 then 0 else n - q) (omega arith))

  sunday_noon-midnight :
      (a : ℕ) → zero_day + 7 < a → sunday_noon l (midnight l a) ≡ noon l (sunday_of a)
  sunday_noon-midnight a h =
      sunday_noon-eq (midnight l a) (omega (arith, reg.day-midnight a (omega arith)))
      ∙ ap (λ d. noon l (sunday_of d)) (reg.day-midnight a (omega arith))

  -- `a` is the anchor's day and `d` the current one; neither is 190 years from the other.
  cycle_index-IsIndex :
      (n a d : ℕ)
      → 0 < n
      → zero_day + 7 < a
      → zero_day + 7 < d
      → week_of d ≤ week_of a + 10_000
      → week_of a ≤ week_of d + 10_000
      → IsIndex n
          (week_of a)
          (week_of d)
          (cycle_index n (noon l (sunday_of d)) (noon l (sunday_of a)))
  cycle_index-IsIndex n a d h ha hd near near' = elim (Bool-cases (leb (week_of a) (week_of d))) [
    | inl e ↦
        let k = week_of d - week_of a in
        let le = leb→le _ _ e in
        subst₂ (λ w i. IsIndex n (week_of a) w i) (omega arith)
          (sym (cycle_index-ahead n (sunday_of a) k (omega arith) (omega arith))
            ∙ ap (λ s. cycle_index n (noon l s) (noon l (sunday_of a))) (omega arith))
          (ahead-IsIndex n (week_of a) k h)
    | inr e ↦
        let k = week_of a - week_of d in
        let lt = leb_false→lt _ _ e in
        subst₂ (λ w i. IsIndex n w (week_of d) i) (omega arith)
          (sym (cycle_index-behind n (sunday_of d) k (omega arith) (omega arith) (omega arith))
            ∙ ap (λ s. cycle_index n (noon l (sunday_of d)) (noon l s)) (omega arith))
          (behind-IsIndex n (week_of d) k h)
  ]

parse_date-empty : (s : Text) {a : ℕ} → parse_date s ≡ some a → is_empty s ≡ false
unfolding parse_date
parse_date-empty [] e = cc
parse_date-empty (c ∷ s) e = refl

-- The days that the counts below are about: after the year 1, and within 190 years of one another.
pub record IsNear (a d : ℕ) : Type 0 where
  pub anchor_late : zero_day + 7 < a
  pub day_late : zero_day + 7 < d
  pub ahead : week_of d ≤ week_of a + 10_000
  pub behind : week_of a ≤ week_of d + 10_000

week_at-eq :
    (l : Location) (now : ℕ) (c : Cycle) {a : ℕ}
    → 1 < c.weeks
    → parse_date c.anchor ≡ some a
    → week_at l now c ≡ cycle_index c.weeks (sunday_noon l now) (sunday_noon l (midnight l a))
unfolding week_at
week_at-eq l now c h e = rw (lt→leb_false _ _ h, parse_date-empty c.anchor e, e) refl

-- In a regular zone, for a cycle of two weeks or more whose anchor is a readable date within 10,000
-- weeks of now (both more than a week after 0001-01-01), the index is inside the cycle and counts
-- the Sundays passed since the anchor's week modulo the cycle's length, before the anchor as well
-- as after it.
pub week_at-IsIndex :
    (l : Location)
    → IsRegular l
    → (now : ℕ) (c : Cycle) {a : ℕ} → 1 < c.weeks
    → parse_date c.anchor ≡ some a
    → IsNear a (l.day now)
    → IsIndex c.weeks (week_of a) (week_of (l.day now)) (week_at l now c)
week_at-IsIndex l reg now c {a} h e v =
    rw
      (
        week_at-eq l now c h e,
        sunday_noon-eq l reg now v.day_late,
        sunday_noon-midnight l reg a v.anchor_late,
      )
      (cycle_index-IsIndex l reg c.weeks a (l.day now) (omega arith) v.anchor_late v.day_late
        v.ahead v.behind)
