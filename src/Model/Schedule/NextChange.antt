-- ===== src/Model/Schedule/NextChange.antt =====
-- NextChange: the first instant within a horizon at which the schedule requires a write.
pub mod Sort
pub mod Scan
pub mod Candidates
pub mod Constant
pub mod Correct
use pstonn.Prelude.{
  ℕ, zero, suc, ◌+◌, ◌-◌, Bool, true, false, not, ◌&&◌, ◌||◌, Option, none, some, List, [], ◌∷◌,
  ◌++◌, ltb, leb, if◌then◌else◌,
}
use pstonn.Clock.{Location, midnight, add_days}
use pstonn.Model.Cycle.{Cycle}
use pstonn.Model.Plate.{Unicode}
use pstonn.Model.Schedule.{WeeklyRule, Override, Resolution, is_allocated, same_target, resolve}

unfoldable pub start_of_day : Location → ℕ → ℕ
start_of_day l t = midnight l (l.day t)

-- `for d := first; !d.After(end); d = d.AddDate(0, 0, 1)`. There are as many rounds as civil days
-- between now and the end.
unfoldable pub later_midnights : ℕ → Location → ℕ → ℕ → List ℕ
later_midnights zero l d end = []
later_midnights (suc fuel) l d end =
    let rest = d ∷ later_midnights fuel l (add_days l d 1) end in if ltb end d then [] else rest

-- A boundary of a booking counts if it lies in the horizon.
abbrev pub within : ℕ → ℕ → ℕ → List ℕ
within now end t = if ltb now t && not (ltb end t) then t ∷ [] else []

abbrev pub end_within : ℕ → ℕ → Option ℕ → List ℕ
end_within now end none = []
end_within now end (some e) = within now end e

unfoldable pub boundaries : ℕ → ℕ → List Override → List ℕ
boundaries now end [] = []
boundaries now end (o ∷ os) =
    within now end o.starts_at ++ (end_within now end o.ends_at ++ boundaries now end os)

-- sort.Slice by Before. Equal instants are equal values, so any sorting gives this list.
unfoldable pub insert_sorted : ℕ → List ℕ → List ℕ
insert_sorted t [] = t ∷ []
insert_sorted t (s ∷ ts) = if leb t s then t ∷ s ∷ ts else s ∷ insert_sorted t ts

unfoldable pub sort : List ℕ → List ℕ
unfolding insert_sorted
sort [] = []
sort (t ∷ ts) = insert_sorted t (sort ts)

unfoldable pub candidates : Location → ℕ → ℕ → List Override → List ℕ
unfolding sort later_midnights boundaries start_of_day
candidates l now end overrides = sort (
    later_midnights (l.day end - l.day now) l (add_days l (start_of_day l now) 1) end
    ++ boundaries now end overrides)

-- The loop over the candidates, with `last` and `haveLast`; `at t` is what t resolves to.
unfoldable pub scan : Unicode → (ℕ → Resolution) → Resolution → Bool → List ℕ → Option ℕ
scan u at last have_last [] = none
scan u at last have_last (t ∷ ts) =
    let gap = scan u at last have_last ts in
    let same = scan u at (at t) true ts in
    if not (is_allocated (at t).source)
    then gap
    else (if not have_last || not (same_target u (at t) last) then some t else same)

-- NextChange, for `end` = now + horizon.
unfoldable pub next_change :
    Unicode → Location → ℕ → ℕ → Cycle → List WeeklyRule → List Override → Option ℕ
unfolding candidates scan
next_change u l now horizon c rules overrides =
    let at = λ (t : ℕ). resolve l t c rules overrides in
    scan u at (at now) (is_allocated (at now).source) (candidates l now (now + horizon) overrides)
