-- ===== src/Scheduler/Episode/Outage.antt =====
-- How many notices an episode earns.
use pstonn.Prelude.{
  ℕ, ◌+◌, ◌≤◌, ◌≡◌, Bool, true, false, ◌&&◌, ◌||◌, ◌∷◌, [], List, Text, text_eq, if◌then◌else◌,
  arith, and_true, ◌*◌, Bool-cases, inl, inr,
}
use pstonn.Model.Plate.{Unicode}
use pstonn.Scheduler.Episode.{
  FailTier, is_urgent, PermitNotify, mark_failure_told, adopt, is_told, notify_user_then,
  notify_failure,
}
use pstonn.Scheduler.Episode.Tiers.{
  Failure, notify_one, run, AreNamed, plate_changes, run_stretches,
}

-- The council's sign-in is down, or it refuses the address.
abbrev pub is_outage : Failure → Bool
is_outage f = f.council_down || is_urgent f.tier

abbrev pub all_outage : List Failure → Bool
all_outage [] = true
all_outage (f ∷ fs) = is_outage f && all_outage fs

-- How much has been told: nothing, softly, urgently.
unfoldable level : PermitNotify → ℕ
level row = if text_eq row.plate [] then 0 else if row.urgent then 2 else 1

level-bound : (row : PermitNotify) → level row ≤ 2
unfolding level
level-bound row = ground arith

level-adopt :
    (u : Unicode) (tenant reg : Text) (row : PermitNotify)
    → level row ≤ level (adopt u tenant reg row)
unfolding adopt level
level-adopt u tenant reg row = ground arith

level-notify_user_then :
    (u : Unicode) (reg : Text) (row : PermitNotify) (tier : FailTier) (down delivered : Bool)
    → text_eq reg [] ≡ false
    → (down || is_urgent tier) ≡ true
    → is_told u row reg tier down ≡ false
    → level row + (if (notify_user_then row reg tier delivered).1 then 1 else 0)
      ≤ level (notify_user_then row reg tier delivered).0
unfolding level notify_user_then mark_failure_told is_told
level-notify_user_then u reg row FailTier.tier_soft down delivered h o e = ground arith
level-notify_user_then u reg row FailTier.tier_urgent down delivered h o e = ground arith

level-notify_failure :
    (u : Unicode) (tenant : Text) (row : PermitNotify) (f : Failure)
    → text_eq f.plate [] ≡ false
    → (f.council_down || is_urgent f.tier) ≡ true
    → level row + (if (notify_one u tenant row f).1 then 1 else 0)
      ≤ level (notify_one u tenant row f).0
unfolding notify_failure
level-notify_failure u tenant row f h o =
    let row' = adopt u tenant f.plate row in
    elim (Bool-cases (is_told u row' f.plate f.tier f.council_down)) [
      | inl e ↦ ground (arith, e, level-adopt u tenant f.plate row)
      | inr e ↦ ground (
        arith,
        e,
        level-adopt u tenant f.plate row,
        level-notify_user_then u f.plate row' f.tier f.council_down f.delivered h o e,
      )
    ]

run-level :
    (u : Unicode) (tenant : Text) (row : PermitNotify) (fs : List Failure)
    → AreNamed fs
    → all_outage fs ≡ true
    → (run u tenant row fs).1 + level row ≤ 2
unfolding run
run-level u tenant row [] h o = omega (arith, level-bound row)
run-level u tenant row (f ∷ fs) h o =
    let (now, rest) = and_true (is_outage f) (all_outage fs) o in
    omega (
      arith,
      level-notify_failure u tenant row f h.0 now,
      run-level u tenant (notify_one u tenant row f).0 fs h.1 rest,
    )

-- How many notices an episode earns while it stays open, whatever the tiers, the causes and the
-- deliveries of its failures, with no failure to leave the permit without a plate among them: two at
-- most if they are all of an outage, whatever their plates; and otherwise two, and two more for each
-- change of the plate from one failure to the next.
pub run-bound :
    (u : Unicode) (tenant : Text) (row : PermitNotify) (f : Failure) (fs : List Failure)
    → AreNamed (f ∷ fs)
    → (run u tenant row (f ∷ fs)).1
      ≤ 2 + (if all_outage (f ∷ fs) then 0 else 2 * plate_changes u f.plate fs)
run-bound u tenant row f fs h = elim (Bool-cases (all_outage (f ∷ fs))) [
  | inl o ↦ rw o (omega (arith, run-level u tenant row (f ∷ fs) h o))
  | inr o ↦ rw o (run_stretches u tenant row f fs h)
]
