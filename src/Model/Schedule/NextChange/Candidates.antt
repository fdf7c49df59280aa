-- ===== src/Model/Schedule/NextChange/Candidates.antt =====
-- The candidates are the midnights and the booking boundaries in the horizon, and nothing else.
use pstonn.Prelude.{
  ℕ, zero, suc, ◌+◌, ◌-◌, ◌≤◌, ◌<◌, ◌≡◌, refl, sym, ap, ap₂, ◌∙◌, some, List, [], ◌∷◌, ◌++◌, Memᴰ,
  ltb, if◌then◌else◌, arith, ◌⊎◌, inl, inr, lt→ltb, subst,
}
use native.Mathlib.Nat.{add-zero, suc-add}
use pstonn.Clock.{Location, midnight, add_days, zero_day}
use pstonn.Clock.Regular.{IsRegular}
use pstonn.Model.Schedule.{Override}
use pstonn.Model.Schedule.NextChange.{
  start_of_day, later_midnights, within, end_within, boundaries, candidates,
}
use pstonn.Model.Schedule.NextChange.Sort.{
  In, In-append, append-In_left, append-In_right, In-sort, sort-In, IsSorted, sort-IsSorted,
}

module _ (l : Location) (reg : IsRegular l) where
  add_days-midnight : (d : ℕ) → zero_day < d → add_days l (midnight l d) 1 ≡ midnight l (d + 1)
  add_days-midnight d h =
      ap₂ (λ (x c : ℕ). l.date (x + 1) c) (reg.day-midnight d h) (reg.clock-midnight d h)

  -- Midnights are in the order of their days.
  midnight_mono : (d k : ℕ) → zero_day < d → midnight l d ≤ midnight l (d + k)
  midnight_mono d k h =
      reg.from-midnight (midnight l (d + k)) d h
        (omega (arith, reg.day-midnight (d + k) (omega arith)))

  -- One round of the loop.
  later_midnights-suc :
      (fuel d end : ℕ)
      → zero_day < d
      → later_midnights (suc fuel) l (midnight l d) end ≡ (
          if ltb end (midnight l d)
          then []
          else midnight l d ∷ later_midnights fuel l (midnight l (d + 1)) end)
  unfolding later_midnights
  later_midnights-suc fuel d end h =
      ap (λ m. if ltb end (midnight l d) then [] else midnight l d ∷ later_midnights fuel l m end)
        (add_days-midnight d h)

  -- A member of the loop's list is at or after the first midnight, and not after the end.
  later_midnights_sound :
      (fuel d end t : ℕ)
      → zero_day < d
      → In t (later_midnights fuel l (midnight l d) end)
      → (t ≤ end) × (midnight l d ≤ t)
  later_midnights_sound zero d end t h i = absurd (unfold later_midnights in i)
  later_midnights_sound (suc fuel) d end t h i =
      let j = subst (In t) (later_midnights-suc fuel d end h) i in
      ground (arith, later_midnights_sound fuel (d + 1) end t (omega arith), midnight_mono d 1 h)

  -- Each midnight that the fuel reaches and that is not after the end is a member.
  later_midnights_complete :
      (fuel d k end : ℕ)
      → zero_day < d
      → k < fuel
      → midnight l (d + k) ≤ end
      → In (midnight l (d + k)) (later_midnights fuel l (midnight l d) end)
  later_midnights_complete zero d k end h lt le = elim lt [ ]
  later_midnights_complete (suc fuel) d zero end h lt le =
      subst (In (midnight l (d + 0))) (sym (later_midnights-suc fuel d end h))
        (ground (arith, ap (midnight l) (add-zero d)))
  later_midnights_complete (suc fuel) d (suc k) end h lt le =
      let e : d + suc k ≡ d + 1 + k = omega arith in
      subst (In (midnight l (d + suc k))) (sym (later_midnights-suc fuel d end h)) (
        ground (
          arith,
          ap (midnight l) e,
          midnight_mono d (suc k) h,
          later_midnights_complete fuel (d + 1) k end (omega arith) (omega arith),
        ))

  later_midnights-at :
      (fuel d m end : ℕ)
      → zero_day < d
      → d ≤ m
      → m < d + fuel
      → midnight l m ≤ end
      → In (midnight l m) (later_midnights fuel l (midnight l d) end)
  later_midnights-at fuel d m end h ge lt le =
      let e : d + (m - d) ≡ m = omega arith in
      subst (λ x. In (midnight l x) (later_midnights fuel l (midnight l d) end)) e
        (later_midnights_complete fuel d (m - d) end h (omega arith)
          (omega (arith, ap (midnight l) e)))

  later_midnights_over :
      (fuel d end : ℕ)
      → zero_day < d
      → end < midnight l d
      → later_midnights fuel l (midnight l d) end ≡ []
  later_midnights_over zero d end h lt = unfold later_midnights in refl
  later_midnights_over (suc fuel) d end h lt = later_midnights-suc fuel d end h ∙ rw (lt→ltb _ _ lt)

  -- The fuel given is enough: with more the loop ends no later.
  pub later_midnights_enough :
      (fuel more d end : ℕ)
      → zero_day < d
      → end < midnight l (d + fuel)
      → later_midnights (fuel + more) l (midnight l d) end
        ≡ later_midnights fuel l (midnight l d) end
  later_midnights_enough zero more d end h lt =
      later_midnights_over (0 + more) d end h (omega (arith, ap (midnight l) (add-zero d)))
      ∙ sym (later_midnights_over 0 d end h (omega (arith, ap (midnight l) (add-zero d))))
  later_midnights_enough (suc fuel) more d end h lt =
      let e : d + suc fuel ≡ d + 1 + fuel = omega arith in
      let ih =
        later_midnights_enough fuel more (d + 1) end (omega arith)
          (omega (arith, ap (midnight l) e)) in
      ap (λ f. later_midnights f l (midnight l d) end) (suc-add fuel more)
      ∙ later_midnights-suc (fuel + more) d end h
      ∙ ap (λ r. if ltb end (midnight l d) then [] else midnight l d ∷ r) ih
      ∙ sym (later_midnights-suc fuel d end h)

boundaries_sound :
    (now end t : ℕ) (os : List Override) → In t (boundaries now end os) → (now < t) × (t ≤ end)
unfolding boundaries
boundaries_sound now end t [] i = absurd i
boundaries_sound now end t (o ∷ os) i =
    elim (In-append t (within now end o.starts_at)
      (end_within now end o.ends_at ++ boundaries now end os) i) [
        | inl a ↦ ground arith
        | inr r ↦ elim (In-append t (end_within now end o.ends_at) (boundaries now end os) r) [
          | inl b ↦ ground arith
          | inr c ↦ boundaries_sound now end t os c
        ]
      ]

-- The boundary of a booking.
abbrev pub IsBoundary : ℕ → Override → Type 0
IsBoundary t o = (o.starts_at ≡ t) ⊎ (o.ends_at ≡ some t)

boundaries_complete :
    (now end t : ℕ) (o : Override) (os : List Override)
    → Memᴰ o os
    → IsBoundary t o
    → now < t
    → t ≤ end
    → In t (boundaries now end os)
unfolding boundaries
boundaries_complete now end t o [] m b lt le = elim m [ ]
boundaries_complete now end t o (x ∷ os) (Memᴰ.head e) (inl b) lt le =
    append-In_left t (within now end x.starts_at)
      (end_within now end x.ends_at ++ boundaries now end os)
      (ground (arith, ap (λ (y : Override). y.starts_at) e))
boundaries_complete now end t o (x ∷ os) (Memᴰ.head e) (inr b) lt le =
    append-In_right t (within now end x.starts_at)
      (end_within now end x.ends_at ++ boundaries now end os)
      (append-In_left t (end_within now end x.ends_at) (boundaries now end os)
        (ground (arith, ap (λ (y : Override). y.ends_at) e)))
boundaries_complete now end t o (x ∷ os) (Memᴰ.tail m) b lt le =
    append-In_right t (within now end x.starts_at)
      (end_within now end x.ends_at ++ boundaries now end os)
      (append-In_right t (end_within now end x.ends_at) (boundaries now end os)
        (boundaries_complete now end t o os m b lt le))

module _ (l : Location) (reg : IsRegular l) (now end : ℕ) (overrides : List Override)
    (late : zero_day < l.day now) where
  first_midnight : add_days l (start_of_day l now) 1 ≡ midnight l (l.day now + 1)
  unfolding start_of_day
  first_midnight = add_days-midnight l reg (l.day now) late

  abbrev midnights : List ℕ
  midnights = later_midnights (l.day end - l.day now) l (add_days l (start_of_day l now) 1) end

  -- Every candidate lies in the horizon.
  pub candidates_sound : (t : ℕ) → In t (candidates l now end overrides) → (now < t) × (t ≤ end)
  unfolding candidates
  candidates_sound t i =
      elim (In-append t midnights (boundaries now end overrides)
        (In-sort t (midnights ++ boundaries now end overrides) i)) [
          | inl a ↦
              let b =
                later_midnights_sound l reg (l.day end - l.day now) (l.day now + 1) end t
                  (omega arith)
                  (subst (λ m. In t (later_midnights (l.day end - l.day now) l m end))
                    first_midnight a) in
              let c = reg.before-midnight now (l.day now + 1) (omega arith) (omega arith) in
              omega arith
          | inr b ↦ boundaries_sound now end t overrides b
        ]

  -- Every midnight in the horizon is one.
  pub candidates-midnight :
      (d : ℕ)
      → l.day now < d
      → d ≤ l.day end
      → midnight l d ≤ end
      → In (midnight l d) (candidates l now end overrides)
  unfolding candidates
  candidates-midnight d lt le m =
      sort-In (midnight l d) (midnights ++ boundaries now end overrides) (
        append-In_left (midnight l d) midnights (boundaries now end overrides) (
          subst (λ f. In (midnight l d) (later_midnights (l.day end - l.day now) l f end))
            (sym first_midnight)
            (later_midnights-at l reg (l.day end - l.day now) (l.day now + 1) d end (omega arith)
              (omega arith) (omega arith) m)))

  -- Every boundary of a booking in the horizon is one.
  pub candidates-boundary :
      (t : ℕ) (o : Override)
      → Memᴰ o overrides
      → IsBoundary t o
      → now < t
      → t ≤ end
      → In t (candidates l now end overrides)
  unfolding candidates
  candidates-boundary t o m b lt le = sort-In t (midnights ++ boundaries now end overrides) (
      append-In_right t midnights (boundaries now end overrides)
        (boundaries_complete now end t o overrides m b lt le))

  pub candidates-IsSorted : IsSorted (candidates l now end overrides)
  unfolding candidates
  candidates-IsSorted = sort-IsSorted (midnights ++ boundaries now end overrides)
