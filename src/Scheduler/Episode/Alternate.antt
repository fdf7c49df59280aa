-- ===== src/Scheduler/Episode/Alternate.antt =====
-- Two plates that fail in turn: the row remembers the last plate that was told, and no other.
use mathlib.Core.List.{append_cancel_left, append_cancel_right}
use pstonn.Prelude.{
  ℕ, zero, suc, ◌≡◌, refl, ap, true, false, ◌∷◌, [], ◌++◌, List, Text, text_eq, text_eq_refl,
  text_eq_iff, codes, arith, Bool-cases, inl, inr,
}
use pstonn.Model.Plate.{Unicode, same_plate, norm_plate}
use pstonn.Scheduler.Episode.{
  FailTier, PermitNotify, mark_failure_told, adopt, is_told, fail_key, tier_name, notify_user_then,
  notify_failure,
}
use pstonn.Scheduler.Episode.Tiers.{Failure, notify_one, run}

-- A write that failed, with the council up; its notice reaches everyone.
abbrev pub plain : Text → Failure
plain plate = record {
  plate = plate;
  tier = FailTier.tier_soft;
  council_down = false;
  delivered = true;
}

-- So many failures, of the two plates in turn.
abbrev pub in_turn : ℕ → Text → Text → List Failure
in_turn zero a b = []
in_turn (suc n) a b = plain a ∷ in_turn n b a

-- The row says that this plate was told.
record IsTold (row : PermitNotify) (plate : Text) : Type 0 where
  told : row.plate ≡ plate
  key : row.notified_key ≡ fail_key plate FailTier.tier_soft

fail_key-ne :
    (u : Unicode) (a b : Text)
    → same_plate u a b ≡ false
    → text_eq (fail_key a FailTier.tier_soft) (fail_key b FailTier.tier_soft) ≡ false
unfolding fail_key same_plate
fail_key-ne u a b h =
    elim (Bool-cases (text_eq (fail_key a FailTier.tier_soft) (fail_key b FailTier.tier_soft))) [
      | inr e ↦ e
      | inl e ↦
          let head = λ (x : Text). codes "fail|" ++ x in
          let p =
            append_cancel_right (head a ++ codes "|") (head b ++ codes "|")
              (tier_name FailTier.tier_soft) ((text_eq_iff _ _).0 e) in
          let q = append_cancel_right (head a) (head b) (codes "|") p in
          let r = append_cancel_left (codes "fail|") a b q in
          cc (
            h,
            text_eq_refl (norm_plate u b),
            ap (λ x. text_eq (norm_plate u x) (norm_plate u b)) r,
          )
    ]

notify_one-IsTold :
    (u : Unicode) (tenant : Text) (row : PermitNotify) (plate : Text)
    → (notify_one u tenant row (plain plate)).1 ≡ true
    → IsTold (notify_one u tenant row (plain plate)).0 plate
unfolding notify_failure notify_user_then mark_failure_told
notify_one-IsTold u tenant row plate h =
    let row' = adopt u tenant plate row in
    elim (Bool-cases (is_told u row' plate FailTier.tier_soft false)) [
      | inl e ↦ cc (rw e at h)
      | inr e ↦ elim (Bool-cases (text_eq row'.notified_key (fail_key plate FailTier.tier_soft))) [
        | inl f ↦ cc (rw (e, f) at h)
        | inr f ↦ record { told = rw (e, f) refl; key = rw (e, f) refl }
      ]
    ]

adopt-named :
    (u : Unicode) (tenant reg : Text) (row : PermitNotify)
    → text_eq row.plate [] ≡ false
    → adopt u tenant reg row ≡ row
unfolding adopt
adopt-named u tenant reg row h = rw h refl

is_told-other :
    (u : Unicode) (row : PermitNotify) (plate : Text)
    → same_plate u row.plate plate ≡ false
    → is_told u row plate FailTier.tier_soft false ≡ false
unfolding is_told
is_told-other u row plate h = ground (arith, h)

sent-new_key :
    (row : PermitNotify) (plate : Text)
    → text_eq row.notified_key (fail_key plate FailTier.tier_soft) ≡ false
    → (notify_user_then row plate FailTier.tier_soft true).1 ≡ true
unfolding notify_user_then
sent-new_key row plate h = rw h refl

-- Another plate is told, whatever was told of it before.
sent-other :
    (u : Unicode) (tenant : Text) (row : PermitNotify) (a b : Text)
    → text_eq a [] ≡ false
    → same_plate u a b ≡ false
    → IsTold row a
    → (notify_one u tenant row (plain b)).1 ≡ true
unfolding notify_failure
sent-other u tenant row a b named other t =
    let same = adopt-named u tenant b row (rw t.told named) in
    let untold = is_told-other u row b (rw t.told other) in
    rw (same, untold) (sent-new_key row b (rw t.key (fail_key-ne u a b other)))

run-in_turn :
    (u : Unicode) (tenant : Text) (row : PermitNotify) (a b : Text) (n : ℕ)
    → text_eq a [] ≡ false
    → text_eq b [] ≡ false
    → same_plate u a b ≡ false
    → same_plate u b a ≡ false
    → IsTold row a
    → (run u tenant row (in_turn n b a)).1 ≡ n
unfolding run
run-in_turn u tenant row a b zero p q h k t = refl
run-in_turn u tenant row a b (suc n) p q h k t =
    let sent = sent-other u tenant row a b p h t in
    let rest =
      run-in_turn u tenant (notify_one u tenant row (plain b)).0 b a n q p k h
        (notify_one-IsTold u tenant row b sent) in
    rw (sent, rest) (omega arith)

-- Where two plates fail in turn, the household is told of each of them every time: from a failure on
-- that is told, while the episode stays open, the council is up and every notice is delivered, each
-- further failure is told too, however often its plate has been.
pub run-alternating :
    (u : Unicode) (tenant : Text) (row : PermitNotify) (a b : Text) (n : ℕ)
    → text_eq a [] ≡ false
    → text_eq b [] ≡ false
    → same_plate u a b ≡ false
    → same_plate u b a ≡ false
    → (notify_one u tenant row (plain a)).1 ≡ true
    → (run u tenant row (in_turn (suc n) a b)).1 ≡ suc n
unfolding run
run-alternating u tenant row a b n p q h k sent =
    let told = notify_one-IsTold u tenant row a sent in
    let rest = run-in_turn u tenant (notify_one u tenant row (plain a)).0 a b n p q h k told in
    rw (sent, rest) (omega arith)
