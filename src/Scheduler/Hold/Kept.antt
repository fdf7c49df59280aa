-- ===== src/Scheduler/Hold/Kept.antt =====
-- What the schedule resolves to while a plate is held.
use pstonn.Prelude.{
  ◌&&◌, [], subst, ltb, ℕ, ◌≡◌, ◌≤◌, ◌<◌, refl, ap, ◌∙◌, true, false, Option, none, some, List,
  Text, Memᴰ, arith, Bool-cases, Option-cases, inl, inr, ltb, ◌⊎◌,
}
use mathlib.Core.Option.{some-injective}
use pstonn.Clock.{Location}
use pstonn.Model.Cycle.{Cycle, is_empty}
use pstonn.Model.Plate.{Unicode}
use pstonn.Model.Schedule.{
  Source, WeeklyRule, Override, Resolution, resolve, override_resolution, is_allocated,
}
use pstonn.Model.Schedule.Winner.{
  IsLive, IsFreshest, Decides, booked, rostered, nothing, resolve-Decides,
}
use pstonn.Scheduler.Drift.{is_some}
use pstonn.Scheduler.Hold.{
  Detail, stored, live_count, create_plate_override, hold_end, hold_read, hold_external_change,
  external_actor, held_by, max_live_overrides_per_permit,
}

-- `b` is among the bookings, and every other was made earlier, or in the same second under a lower
-- number.
pub record IsNewest (b : Override) (overrides : List Override) : Type 0 where
  pub member : Memᴰ b overrides
  pub others :
      (o : Override)
      → Memᴰ o overrides
      → (o ≡ b) ⊎ ((o.created_at < b.created_at) ⊎ ((o.created_at ≡ b.created_at) × (o.id < b.id)))

-- The newest booking decides while its window is open.
resolve-newest :
    (l : Location) (t : ℕ) (c : Cycle) (rules : List WeeklyRule) (overrides : List Override)
    (b : Override)
    → IsNewest b overrides
    → IsLive t b
    → resolve l t c rules overrides ≡ override_resolution b
resolve-newest l t c rules overrides b n live = go (resolve-Decides l t c rules overrides)
  where
    same : (x : Override) → IsFreshest t x overrides → x ≡ b
    same x f = elim (n.others x f.member) [
      | inl e ↦ e
      | inr earlier ↦ absurd (elim (f.others b n.member live) [
        | inl p ↦ elim earlier [ inl q ↦ omega (arith, p, q) | inr q ↦ omega (arith, p, q.0) ]
        | inr p ↦ elim earlier [ inl q ↦ omega (arith, p.0, q) | inr q ↦ omega (arith, p.1, q.1) ]
      ])
    ]

    go : {res : _} → Decides l t c rules overrides res → res ≡ override_resolution b
    go (booked x f e) = e ∙ ap override_resolution (same x f)
    go (rostered r idle _ _) = absurd (idle b n.member live)
    go (nothing idle _ _) = absurd (idle b n.member live)

-- The row that CreatePlateOverride adds.
record IsRow (b : Override) (registration : Text) (starts_at ends_at : ℕ) : Type 0 where
  plate : b.registration ≡ registration
  kept : b.empty ≡ false
  start : b.starts_at ≡ stored starts_at
  end : b.ends_at ≡ some (stored ends_at)

create_plate_override-IsRow :
    (clock : ℕ) (id : Option ℕ) (rows : List Override) (permit : ℕ) (registration state : Text)
    (starts_at ends_at : ℕ) (created_by : Text) {b : Override}
    → create_plate_override clock id rows permit registration state starts_at ends_at created_by
      ≡ some b
    → IsRow b registration starts_at ends_at
unfolding create_plate_override
create_plate_override-IsRow clock none rows permit registration state starts_at ends_at by {b} e =
    cc
create_plate_override-IsRow clock (some id) rows permit registration state starts_at ends_at by {b}
      e =
    elim (Bool-cases (ltb (live_count (stored clock) rows) max_live_overrides_per_permit)) [
      | inl f ↦
          let p = some-injective _ b (rw f at e) in
          subst (λ y. IsRow y registration starts_at ends_at) p
            (record { plate = refl; kept = refl; start = refl; end = refl })
      | inr f ↦ cc (rw f at e)
    ]

held_by-kept :
    (actual : Text) (vehicles : List (ℕ × Text)) (res later : Resolution) (end : ℕ)
    (booking : Option Override) {until : ℕ}
    → (held_by actual vehicles res later end booking).detail ≡ Detail.kept_until until
    → (b : Override) × (booking ≡ some b)
      × ((held_by actual vehicles res later end booking).booking ≡ some b)
      × (until ≡ end)
held_by-kept actual vehicles res later end none {until} h = elim (Bool-cases res.empty) [
  | inl e ↦ cc (rw e at h)
  | inr e ↦ cc (rw e at h)
]
held_by-kept actual vehicles res later end (some b) {until} h = (b, refl, refl, ground (arith, h))

-- The booking that a line in the log speaks of.
hold_read-IsRow :
    (u : Unicode) (l : Location) (now clock : ℕ) (id : Option ℕ) (permit : ℕ) (c : Cycle)
    (actual : Text) (vehicles : List (ℕ × Text)) (rules : List WeeklyRule)
    (overrides : List Override) {until : ℕ}
    → (hold_read u l now clock id permit c actual vehicles rules overrides).detail
      ≡ Detail.kept_until until
    → (b : Override) × ((hold_read u l now clock id permit c actual vehicles rules
          overrides).booking
        ≡ some b)
      × IsRow b actual now until
      × (until ≡ hold_end u l now c rules overrides)
unfolding hold_read
hold_read-IsRow u l now clock id permit c actual vehicles rules overrides {until} h =
    let at = λ (t : ℕ). resolve l t c rules overrides in
    let end = hold_end u l now c rules overrides in
    let made = create_plate_override clock id overrides permit actual [] now end external_actor in
    elim (Bool-cases (is_empty actual)) [
      | inl e ↦ cc (rw e at h)
      | inr e ↦
          let (b, m, q, same) =
            held_by-kept actual vehicles (at now) (at end) end made (rw e at h) in
          let row =
            create_plate_override-IsRow clock id overrides permit actual [] now end external_actor
              m in
          (b, rw e q, rw same row, same)
    ]

-- While the row's window is open and nothing was booked since, the schedule asks for its plate.
resolve-IsRow :
    (l : Location) (c : Cycle) (rules : List WeeklyRule) (overrides : List Override) (t : ℕ)
    (b : Override) (plate : Text) (now until : ℕ)
    → IsRow b plate now until
    → IsNewest b overrides
    → now ≤ t
    → t < stored until
    → let r = resolve l t c rules overrides in
      (r.source ≡ Source.source_override) × (r.registration ≡ plate) × (r.empty ≡ false)
unfolding override_resolution
resolve-IsRow l c rules overrides t b plate now until row newest from before =
    let live : IsLive t b = (rw row.start (omega (arith, from)), rw row.end before) in
    rw (resolve-newest l t c rules overrides b newest live) (refl, row.plate, row.kept)

-- The booking, if one is made, is the newest.
abbrev pub IsNewestMade : Option Override → List Override → Type 0
IsNewestMade none overrides = Unit
IsNewestMade (some b) overrides = IsNewest b overrides

hold_external_change-IsRow :
    (u : Unicode) (l : Location) (now clock : ℕ) (id : Option ℕ) (permit : ℕ) (c : Cycle)
    (actual : Text) (vehicles : Option (List (ℕ × Text))) (rules : Option (List WeeklyRule))
    (overrides : Option (List Override)) {until : ℕ}
    → (hold_external_change u l now clock id permit c actual vehicles rules overrides).detail
      ≡ Detail.kept_until until
    → (b : Override) × ((hold_external_change u l now clock id permit c actual vehicles rules
          overrides).booking
        ≡ some b)
      × IsRow b actual now until
unfolding hold_external_change
hold_external_change-IsRow u l now clock id permit c actual vehicles none overrides {until} h = cc
hold_external_change-IsRow u l now clock id permit c actual vehicles (some rules) none {until} h =
    cc
hold_external_change-IsRow u l now clock id permit c actual vehicles (some rules) (some overrides)
      {until} h =
    let res = resolve l now c rules overrides in
    elim (Bool-cases (is_allocated res.source)) [
      | inr e ↦ cc (rw e at h)
      | inl e ↦ elim (Bool-cases (res.empty && is_empty actual)) [
        | inl f ↦ cc (rw (e, f) at h)
        | inr f ↦ elim (Option-cases vehicles) [
          | inl v ↦ cc (rw (e, f, v) at h)
          | inr (vs, v) ↦
              let (b, q, row, _) =
                hold_read-IsRow u l now clock id permit c actual vs rules overrides
                  (rw (e, f, v) at h) in
              (b, rw (e, f, v) q, row)
        ]
      ]
    ]

-- If the line in the log says that the plate which somebody put on at the council is kept until
-- `until`, then it is booked, and the booking holds: with whatever cycle, roster and bookings the
-- schedule is read later, at every time from now until then, counted in whole seconds, if the booking
-- is among them and every other was made before it, the schedule asks for this plate.
pub hold_external_change-kept :
    (u : Unicode) (l : Location) (now clock : ℕ) (id : Option ℕ) (permit : ℕ) (c : Cycle)
    (actual : Text) (vehicles : Option (List (ℕ × Text))) (rules : Option (List WeeklyRule))
    (overrides : Option (List Override)) {until : ℕ}
    → let h = hold_external_change u l now clock id permit c actual vehicles rules overrides in
      h.detail ≡ Detail.kept_until until
      → (c' : Cycle) (rules' : List WeeklyRule) (overrides' : List Override) (t : ℕ)
      → IsNewestMade h.booking overrides'
      → now ≤ t
      → t < stored until
      → let r = resolve l t c' rules' overrides' in
        (is_some h.booking ≡ true)
        × (r.source ≡ Source.source_override)
        × (r.registration ≡ actual)
        × (r.empty ≡ false)
hold_external_change-kept u l now clock id permit c actual vehicles rules overrides {until} h c'
      rules' overrides' t newest from before =
    let (b, q, row) =
      hold_external_change-IsRow u l now clock id permit c actual vehicles rules overrides h in
    let newest' : IsNewest b overrides' = subst (λ x. IsNewestMade x overrides') q newest in
    let asked = resolve-IsRow l c' rules' overrides' t b actual now until row newest' from before in
    (ap is_some q, asked.0, asked.1, asked.2)
