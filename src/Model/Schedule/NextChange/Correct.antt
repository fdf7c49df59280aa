-- ===== src/Model/Schedule/NextChange/Correct.antt =====
-- NextChange is the first instant of the horizon, of all instants, at which a write is required.
use pstonn.Prelude.{
  ℕ, ◌+◌, ◌≤◌, ◌<◌, ◌≡◌, refl, sym, ap, ◌∙◌, Bool, true, false, not, ◌&&◌, ◌||◌, none, some, List,
  [], ◌∷◌, arith, Bool-cases, ◌⊎◌, inl, inr, ltb, ltb→lt, ltb_false→le, leb,
}
use native.Mathlib.Nat.{le_refl}
use pstonn.Clock.{Location, midnight, zero_day}
use pstonn.Clock.Regular.{IsRegular}
use pstonn.Model.Cycle.{Cycle}
use pstonn.Model.Plate.{Unicode}
use pstonn.Model.Schedule.{WeeklyRule, Override, Resolution, is_allocated, same_target, resolve}
use pstonn.Model.Schedule.NextChange.{candidates, next_change}
use pstonn.Model.Schedule.NextChange.Sort.{In, first, first-none, IsFirst, first-IsFirst}
use pstonn.Model.Schedule.NextChange.Scan.{requires_write, scan-first, same_target_refl}
use pstonn.Model.Schedule.NextChange.Candidates.{
  candidates_sound, candidates-midnight, candidates-boundary, candidates-IsSorted,
}
use pstonn.Model.Schedule.NextChange.Constant.{IsQuiet, resolve_constant}

-- The last of `now` and the candidates that is not after `u`.
record IsLast (now u : ℕ) (ts : List ℕ) (p : ℕ) : Type 0 where
  origin : (p ≡ now) ⊎ In p ts
  after : now ≤ p
  before : p ≤ u
  last : (q : ℕ) → In q ts → q ≤ u → q ≤ p

IsLast-before : (now u : ℕ) (ts : List ℕ) → now ≤ u → (p : ℕ) × IsLast now u ts p
IsLast-before now u [] h =
    (now, record { origin = inl refl; after = omega arith; before = h; last = λ q i. absurd i })
IsLast-before now u (t ∷ ts) h =
    let (p, v) = IsLast-before now u ts h in
    elim (Bool-cases (ltb p t && leb t u)) [
      | inl e ↦ (
        t,
        record {
          origin = inr (inl refl);
          after = ground (arith, v.after);
          before = ground arith;
          last = λ q i le. ground (arith, v.last q);
        },
      )
      | inr e ↦ (
        p,
        record {
          origin = ground (arith, v.origin);
          after = v.after;
          before = v.before;
          last = λ q i le. ground (arith, v.last q);
        },
      )
    ]

-- Civil days do not run backwards.
day_mono : (l : Location) → IsRegular l → (a b : ℕ) → zero_day < l.day a → a ≤ b → l.day a ≤ l.day b
day_mono l reg a b late le = elim (Bool-cases (ltb (l.day b) (l.day a))) [
  | inr e ↦ ltb_false→le _ _ e
  | inl e ↦ absurd (
      omega (
        arith,
        reg.before-midnight b (l.day a) late (ltb→lt _ _ e),
        reg.from-midnight a (l.day a) late (le_refl (l.day a)),
      ))
]

-- At `t` something is allocated, and it is not what was in place at now.
abbrev pub changes : Unicode → Location → ℕ → Cycle → List WeeklyRule → List Override → ℕ → Bool
changes u l now c rules overrides t =
    let at = λ (t : ℕ). resolve l t c rules overrides in
    requires_write u at (at now) (is_allocated (at now).source) t

module _ (u : Unicode) (l : Location) (reg : IsRegular l) (now horizon : ℕ) (c : Cycle)
    (rules : List WeeklyRule) (overrides : List Override) (late : zero_day < l.day now) where
  abbrev at : ℕ → Resolution
  at t = resolve l t c rules overrides

  abbrev writes : ℕ → Bool
  writes = requires_write u at (at now) (is_allocated (at now).source)

  abbrev cands : List ℕ
  cands = candidates l now (now + horizon) overrides

  next_change-first : next_change u l now horizon c rules overrides ≡ first writes cands
  unfolding next_change
  next_change-first = scan-first u at (at now) (is_allocated (at now).source) cands

  writes-now : writes now ≡ false
  writes-now = ground (arith, same_target_refl u (at now))

  -- No midnight passes between the last candidate and `t`.
  same_day : (t p : ℕ) → t ≤ now + horizon → IsLast now t cands p → l.day p ≡ l.day t
  same_day t p le v =
      let early = day_mono l reg now p late v.after in
      let up = day_mono l reg p t (omega arith) v.before in
      elim (Bool-cases (ltb (l.day p) (l.day t))) [
        | inr e ↦ omega (arith, ltb_false→le _ _ e)
        | inl e ↦
            let lt = ltb→lt _ _ e in
            let m = reg.from-midnight t (l.day t) (omega arith) (le_refl (l.day t)) in
            let i =
              candidates-midnight l reg now (now + horizon) overrides late (l.day t) (omega arith)
                (day_mono l reg t (now + horizon) (omega arith) le) (omega arith) in
            absurd (
              omega (
                arith,
                v.last (midnight l (l.day t)) i m,
                reg.before-midnight p (l.day t) (omega arith) lt,
              ))
      ]

  writes-last : (t p : ℕ) → t ≤ now + horizon → IsLast now t cands p → writes t ≡ writes p
  writes-last t p le v =
      ap
        (λ r.
          is_allocated r.source
          && (not (is_allocated (at now).source) || not (same_target u r (at now))))
        (sym (resolve_constant l p t c rules overrides v.before (same_day t p le v) quiet))
    where
      quiet : IsQuiet p t overrides
      quiet o m s b lt ge =
          let i =
            candidates-boundary l reg now (now + horizon) overrides late s o m b
              (omega (arith, v.after)) (omega arith) in
          omega (arith, v.last s i ge)

  -- A write is required at `t` only if it was already required at some candidate up to `t`.
  writes-candidate :
      (t : ℕ)
      → now ≤ t
      → t ≤ now + horizon
      → writes t ≡ true
      → (p : ℕ) × In p cands × (p ≤ t) × (writes p ≡ true)
  writes-candidate t ge le w =
      let (p, v) = IsLast-before now t cands ge in
      let same = writes-last t p le v in
      elim v.origin [
        | inl e ↦ cc (ap writes e, same, w, writes-now)
        | inr i ↦ (p, i, v.before, sym same ∙ w)
      ]

  -- For a regular zone and a now after 0001-01-01: with no result, no instant of the horizon
  -- requires a write.
  pub next_change-none :
      next_change u l now horizon c rules overrides ≡ none
      → (t : ℕ) → now < t
      → t ≤ now + horizon
      → changes u l now c rules overrides t ≡ false
  next_change-none e t lt le = elim (Bool-cases (writes t)) [
    | inr f ↦ f
    | inl w ↦
        let (p, i, _, wp) = writes-candidate t (omega arith) le w in
        cc (first-none writes cands (sym next_change-first ∙ e) p i, wp)
  ]

  -- For a regular zone and a now after 0001-01-01: a result lies in the horizon, requires a write,
  -- and no earlier instant after now does. An instant requires a write if it resolves to an
  -- allocation and either now resolves to none or the two are different targets.
  pub next_change-some :
      {t : ℕ}
      → next_change u l now horizon c rules overrides ≡ some t
      → (now < t)
        × (t ≤ now + horizon)
        × (changes u l now c rules overrides t ≡ true)
        × ((s : ℕ) → now < s → s < t → changes u l now c rules overrides s ≡ false)
  next_change-some {t} e =
      let f =
        first-IsFirst writes cands (candidates-IsSorted l reg now (now + horizon) overrides late)
          (sym next_change-first ∙ e) in
      let b = candidates_sound l reg now (now + horizon) overrides late t f.member in
      (b.0, b.1, f.passes, earlier f b.1)
    where
      earlier :
          IsFirst writes cands t → t ≤ now + horizon → (s : ℕ) → now < s → s < t → writes s ≡ false
      earlier f b s lt st = elim (Bool-cases (writes s)) [
        | inr k ↦ k
        | inl w ↦
            let (p, i, ps, wp) = writes-candidate s (omega arith) (omega arith) w in
            absurd (omega (arith, f.least p i wp))
      ]
