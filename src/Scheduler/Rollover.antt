-- ===== src/Scheduler/Rollover.antt =====
-- internal/scheduler/reconcile.go, the rollover: changes that fall due at one boundary for the whole
-- fleet are spread over a window, each permit in a slot of its own.
pub mod Slots
mod Tests
use pstonn.Prelude.{
  ℕ, ◌+◌, ◌-◌, ◌*◌, ◌/◌, ◌^◌, min, Bool, true, false, ◌&&◌, ◌||◌, not, Option, none, some, ltb, leb,
  ◌==◌, if◌then◌else◌,
}
use pstonn.Clock.{minute, is_zero}
use pstonn.Model.Schedule.{Resolution, Source}
use pstonn.Scheduler.{Scheduler}
use pstonn.Scheduler.Drift.{unit_scale}

abbrev pub spread_override_cap : ℕ
spread_override_cap = 10 * minute

abbrev pub spread_spacing_factor : ℕ
spread_spacing_factor = 2

unfoldable pub effective_spread : Scheduler → ℕ
effective_spread s =
    if s.spread_window == 0 || s.op_drain == 0
    then 0
    else if s.fleet_size == 0
    then 0
    else let want = s.fleet_size * s.op_drain * spread_spacing_factor in
      if ltb s.spread_window want then s.spread_window else want

-- `hash` is the 64-bit FNV-1a sum of the permit's id as eight bytes.
unfoldable pub spread_offset : (ℕ → ℕ) → ℕ → ℕ → ℕ
spread_offset hash permit window = hash permit / 2 ^ 11 * window / unit_scale

-- A tenth of the booking, if it has an end.
unfoldable pub tenth_of : ℕ → Option ℕ → ℕ → ℕ
tenth_of since none offset = offset
tenth_of since (some until) offset =
    let d = until - since in if ltb 0 d && ltb (d / 10) offset then d / 10 else offset

-- How long after its start the change is held.
unfoldable pub hold_of : Resolution → ℕ → ℕ
unfolding tenth_of
hold_of res offset = elim res.source [
  | Source.source_override ↦
      let held = tenth_of res.since res.until offset in
      if ltb spread_override_cap held then spread_override_cap else held
  | _ ↦ offset
]

-- It would be over by then: !res.Until.After(res.Since.Add(offset)).
abbrev pub ends_by : Option ℕ → ℕ → Bool
ends_by none t = false
ends_by (some until) t = leb until t

unfoldable pub spread_elapsed : (ℕ → ℕ) → Scheduler → ℕ → Resolution → ℕ → Bool
unfolding effective_spread spread_offset hold_of
spread_elapsed hash s permit res now =
    let window = effective_spread s in
    if window == 0 || (not res.scheduled || is_zero res.since)
    then true
    else if ltb now res.since
    then true
    else if leb window (now - res.since)
    then true
    else let hold = hold_of res (spread_offset hash permit window) in
      if ends_by res.until (res.since + hold) then true else leb hold (now - res.since)

unfoldable pub rollover_bound : Scheduler → ℕ → ℕ × Bool
rollover_bound s n =
    if n == 0
    then (0, false)
    else let drain = n * s.op_drain in
      let want = n * s.op_drain * spread_spacing_factor in
      let window = if ltb s.spread_window want then s.spread_window else want in
      ((if ltb drain window then window else drain) + s.interval, ltb drain window)
