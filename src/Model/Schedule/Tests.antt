-- ===== src/Model/Schedule/Tests.antt =====
-- A weekday roster with two bookings, in a zone ten hours east.
use pstonn.Prelude.{
  ℕ, ◌+◌, ◌-◌, ◌*◌, ◌≤◌, ◌<◌, ◌≡◌, ◌≢◌, refl, sym, ap, ◌∙◌, true, false, none, some, List, [], ◌∷◌,
  Memᴰ, arith, codes, text_eq,
}
use pstonn.Clock.{Location, hour, day_length, zero_day, fixed_zone}
use pstonn.Clock.Regular.{IsRegular, fixed_zone-IsRegular}
use pstonn.Model.Cycle.{Cycle, week_at}
use pstonn.Model.Plate.{norm_plate}
use pstonn.Model.Plate.Tests.{ascii}
use pstonn.Model.Schedule.{WeeklyRule, Override, Resolution, resolve, same_target}
use pstonn.Model.Schedule.Winner.{Decides, resolve-Decides}
use pstonn.Model.Schedule.Order.{SameMembers, UniqueIds, resolve_unordered}
use pstonn.Model.Schedule.NextChange.{next_change}
use pstonn.Model.Schedule.NextChange.Correct.{changes, next_change-none, next_change-some}

abbrev pub melbourne : Location
melbourne = fixed_zone (10 * hour)

pub melbourne-IsRegular : IsRegular melbourne
unfolding fixed_zone
melbourne-IsRegular = fixed_zone-IsRegular (10 * hour) (omega arith)

-- 10 am on Thursday 26 November 2026.
abbrev pub thursday : ℕ
thursday = (740311 - zero_day) * day_length

abbrev pub weekly : Cycle
weekly = record { weeks = 1; anchor = [] }

abbrev rule : ℕ → ℕ → ℕ → WeeklyRule
rule id wd vehicle = record {
  id = id;
  permit_id = 1;
  week = 0;
  weekday = wd;
  vehicle_id = vehicle;
  empty = false;
}

-- Car 5 on Thursdays, car 6 on Fridays.
abbrev pub roster : List WeeklyRule
roster = rule 1 4 5 ∷ rule 2 5 6 ∷ []

-- A visitor from 2 pm to 8 pm on Thursday, booked the day before.
abbrev pub visit : Override
visit = record {
  id = 9;
  permit_id = 1;
  vehicle_id = 0;
  registration = codes "ABC123";
  state = [];
  starts_at = thursday + 4 * hour;
  ends_at = some (thursday + 10 * hour);
  created_by = codes "pa@example.com";
  created_at = thursday - day_length;
  guest_token_id = 0;
  empty = false;
}

abbrev at : ℕ → Resolution
at t = resolve melbourne t weekly roster (visit ∷ [])

morning : (at thursday).vehicle_id ≡ 5
unfolding fixed_zone resolve week_at
morning = refl

afternoon : (at (thursday + 5 * hour)).registration ≡ codes "ABC123"
unfolding fixed_zone resolve week_at
afternoon = refl

change_at_two :
    next_change ascii melbourne thursday day_length weekly roster (visit ∷ [])
    ≡ some (thursday + 4 * hour)
unfolding fixed_zone next_change resolve week_at same_target norm_plate text_eq
change_at_two = refl

no_change_by_one : next_change ascii melbourne thursday (3 * hour) weekly roster (visit ∷ []) ≡ none
unfolding fixed_zone next_change resolve week_at same_target norm_plate text_eq
no_change_by_one = refl

resolve-Decides_example : Decides melbourne thursday weekly roster (visit ∷ []) (at thursday)
resolve-Decides_example = resolve-Decides melbourne thursday weekly roster (visit ∷ [])

abbrev evening : Override
evening = record visit { id = 10; starts_at = thursday + 8 * hour }

swap_members : SameMembers (visit ∷ evening ∷ []) (evening ∷ visit ∷ [])
swap_members = record { left = to; right = from }
  where
    to : (x : Override) → Memᴰ x (visit ∷ evening ∷ []) → Memᴰ x (evening ∷ visit ∷ [])
    to x (Memᴰ.head e) = Memᴰ.tail (Memᴰ.head e)
    to x (Memᴰ.tail (Memᴰ.head e)) = Memᴰ.head e
    to x (Memᴰ.tail (Memᴰ.tail i)) = elim i [ ]

    from : (x : Override) → Memᴰ x (evening ∷ visit ∷ []) → Memᴰ x (visit ∷ evening ∷ [])
    from x (Memᴰ.head e) = Memᴰ.tail (Memᴰ.head e)
    from x (Memᴰ.tail (Memᴰ.head e)) = Memᴰ.head e
    from x (Memᴰ.tail (Memᴰ.tail i)) = elim i [ ]

unique_two {ℓ} : {A : Type ℓ} (id : A → ℕ) (a b : A) → id a ≢ id b → UniqueIds id (a ∷ b ∷ [])
unique_two id a b ne x y (Memᴰ.head p) (Memᴰ.head q) e = p ∙ sym q
unique_two id a b ne x y (Memᴰ.head p) (Memᴰ.tail (Memᴰ.head q)) e =
    absurd (ne (ap id (sym p) ∙ e ∙ ap id q))
unique_two id a b ne x y (Memᴰ.tail (Memᴰ.head p)) (Memᴰ.head q) e =
    absurd (ne (ap id (sym q) ∙ sym e ∙ ap id p))
unique_two id a b ne x y (Memᴰ.tail (Memᴰ.head p)) (Memᴰ.tail (Memᴰ.head q)) e = p ∙ sym q
unique_two id a b ne x y (Memᴰ.tail (Memᴰ.tail p)) j e = elim p [ ]
unique_two id a b ne x y i (Memᴰ.tail (Memᴰ.tail q)) e = elim q [ ]

resolve_unordered_example :
    resolve melbourne thursday weekly roster (visit ∷ evening ∷ [])
    ≡ resolve melbourne thursday weekly roster (evening ∷ visit ∷ [])
resolve_unordered_example =
    resolve_unordered melbourne thursday weekly roster roster (visit ∷ evening ∷ [])
      (evening ∷ visit ∷ []) (record { left = λ x i. i; right = λ x i. i })
      (unique_two (λ (r : WeeklyRule). r.id) (rule 1 4 5) (rule 2 5 6) (omega arith)) swap_members
      (unique_two (λ (o : Override). o.id) visit evening (omega arith))

visit_made : (o : Override) → Memᴰ o (visit ∷ []) → o.created_at ≤ thursday
visit_made o (Memᴰ.head e) = omega (arith, ap (λ (x : Override). x.created_at) e)
visit_made o (Memᴰ.tail i) = elim i [ ]

next_change-some_example :
    (thursday < thursday + 4 * hour)
    × (thursday + 4 * hour ≤ thursday + day_length)
    × (changes ascii melbourne thursday weekly roster (visit ∷ []) (thursday + 4 * hour) ≡ true)
    × ((s : ℕ)
        → thursday < s
        → s < thursday + 4 * hour
        → changes ascii melbourne thursday weekly roster (visit ∷ []) s ≡ false)
unfolding fixed_zone
next_change-some_example =
    next_change-some ascii melbourne melbourne-IsRegular thursday day_length weekly roster
      (visit ∷ []) (omega arith) change_at_two

next_change-none_example :
    changes ascii melbourne thursday weekly roster (visit ∷ []) (thursday + 2 * hour) ≡ false
unfolding fixed_zone
next_change-none_example =
    next_change-none ascii melbourne melbourne-IsRegular thursday (3 * hour) weekly roster
      (visit ∷ []) (omega arith) no_change_by_one (thursday + 2 * hour) (omega arith) (omega arith)
