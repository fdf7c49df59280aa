-- ===== src/Scheduler/Episode.antt =====
-- internal/scheduler/notify.go and internal/store/notify.go: how a household hears of a change that
-- does not land. One row of permit_notify for each permit holds what was told, and the outcome that
-- was delivered last. Writes of that row succeed here.
pub mod Tiers
pub mod Outage
pub mod Alternate
pub mod Cleared
pub mod Reopened
mod Tests
use pstonn.Prelude.{
  ℕ, Bool, true, false, not, ◌&&◌, ◌||◌, Option, none, some, ◌∷◌, [], ◌++◌, List, Text, codes,
  text_eq, ◌==◌, if◌then◌else◌, leb,
}
use pstonn.Model.Plate.{Unicode, same_plate}

pub data FailTier : Type 0 where
  tier_soft tier_urgent : FailTier

abbrev pub is_urgent : FailTier → Bool
is_urgent tier_soft = false
is_urgent tier_urgent = true

abbrev pub tier_name : FailTier → Text
tier_name tier_soft = codes "soft"
tier_name tier_urgent = codes "urgent"

-- No plate is told where `plate` is empty.
pub record PermitNotify : Type 0 where
  pub notified_key : Text
  pub plate : Text
  pub urgent : Bool

unfoldable pub mark_failure_told : PermitNotify → Text → Bool → PermitNotify
mark_failure_told row plate urgent = record row {
  plate = plate;
  urgent = if text_eq plate row.plate then row.urgent || urgent else urgent;
}

unfoldable pub close_failure_episode : PermitNotify → PermitNotify
close_failure_episode row =
    if text_eq row.plate [] then row else record row { plate = []; urgent = false }

-- strings.Cut at the bar.
unfoldable pub cut : Text → Text × Text × Bool
cut [] = ([], [], false)
cut (c ∷ s) =
    let (before, after, found) = cut s in
    if c == 124 then ([], s, true) else (c ∷ before, after, found)

abbrev pub has_prefix : Text → Text → Bool
has_prefix s [] = true
has_prefix [] (b ∷ p) = false
has_prefix (a ∷ s) (b ∷ p) = a == b && has_prefix s p

abbrev pub one_of : Text → List Text → Bool
one_of k [] = false
one_of k (n ∷ ns) = text_eq k n || one_of k ns

abbrev pub soft_kinds : List Text
soft_kinds = codes "error" ∷ codes "rejected" ∷ codes "busy" ∷ codes "unapplied" ∷ []

abbrev pub urgent_kinds : List Text
urgent_kinds = codes "busy-blocked" ∷ codes "session" ∷ []

-- The tier that a kind of key stands for, none for a kind that is not about a target plate.
unfoldable pub legacy_urgent : Text → Text → Option Bool
legacy_urgent kind rest =
    if one_of kind soft_kinds
    then some false
    else if one_of kind urgent_kinds
    then some true
    else if text_eq kind (codes "fail")
    then some (has_prefix rest (codes "urgent"))
    else none

abbrev pub about_plate : Unicode → Text → Text → Option Bool → Option (Text × Bool)
about_plate u plate reg none = none
about_plate u plate reg (some urgent) =
    if same_plate u plate reg then some (plate, urgent) else none

unfoldable pub legacy_failure_told : Unicode → Text → Text → Text → Option (Text × Bool)
unfolding cut legacy_urgent same_plate
legacy_failure_told u key reg tenant =
    let (kind, rest, found) = cut key in
    let (plate, rest', _) = cut rest in
    if not found
    then none
    else if text_eq kind (codes "tenant-unavailable")
    then (if not (text_eq tenant []) && text_eq plate tenant then some (reg, false) else none)
    else about_plate u plate reg (legacy_urgent kind rest')

abbrev pub adopted : PermitNotify → Option (Text × Bool) → PermitNotify
adopted row none = row
adopted row (some (plate, urgent)) = mark_failure_told row plate urgent

-- A notice from before the episode's columns is taken over from the last key.
unfoldable pub adopt : Unicode → Text → Text → PermitNotify → PermitNotify
unfolding legacy_failure_told mark_failure_told
adopt u tenant reg row =
    if text_eq row.plate []
    then adopted row (legacy_failure_told u row.notified_key reg tenant)
    else row

unfoldable pub is_told : Unicode → PermitNotify → Text → FailTier → Bool → Bool
unfolding same_plate
is_told u row reg tier council_down =
    let outage = council_down || is_urgent tier in
    let already = not (text_eq row.plate []) && (outage || same_plate u row.plate reg) in
    already && (not (is_urgent tier) || row.urgent)

unfoldable pub fail_key : Text → FailTier → Text
fail_key reg tier = codes "fail|" ++ reg ++ codes "|" ++ tier_name tier

-- The delivery, unless this outcome is the one that was delivered last. `delivered` is whether it
-- reached everyone; one that is held back or in flight reaches nobody.
unfoldable pub notify_user_then : PermitNotify → Text → FailTier → Bool → PermitNotify × Bool
unfolding fail_key mark_failure_told
notify_user_then row reg tier delivered =
    let key = fail_key reg tier in
    if text_eq row.notified_key key || not delivered
    then (row, false)
    else (mark_failure_told (record row { notified_key = key }) reg (is_urgent tier), true)

-- The second component: whether the household was told now.
unfoldable pub notify_failure :
    Unicode → Text → PermitNotify → Text → FailTier → Bool → Bool → PermitNotify × Bool
unfolding adopt is_told notify_user_then
notify_failure u tenant row reg tier council_down delivered =
    let row' = adopt u tenant reg row in
    if is_told u row' reg tier council_down
    then (row', false)
    else notify_user_then row' reg tier delivered

-- One more tick without success: the streak, and the notice once it has reached the threshold.
unfoldable pub escalate_failure :
    Unicode → Text → PermitNotify → ℕ → ℕ → Text → FailTier → Bool → Bool → PermitNotify × Bool
unfolding notify_failure
escalate_failure u tenant row streak threshold reg tier council_down delivered =
    if leb threshold streak
    then notify_failure u tenant row reg tier council_down delivered
    else (row, false)
