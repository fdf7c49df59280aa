-- ===== src/Prelude/Keyed.antt =====
-- Go maps keyed by any type whose equality is a test, as association lists. `put` replaces the
-- entry of its key, and `drop_if` is a loop that deletes every key of a kind.
use Prim.Native.Nat.{ℕ}
use mathlib.Core.Path.{◌≡◌, refl}
use mathlib.Core.Bool.{Bool, true}
use mathlib.Core.Logic.{◌↔◌}
use mathlib.Core.Option.{Option, none, some}
use mathlib.Core.List.{List, [], ◌∷◌}
use native.Mathlib.Omega.{arith}
use pstonn.Prelude.Tests.{if◌then◌else◌, ◌==◌, ==_iff}
use pstonn.Prelude.Texts.{Text, text_eq, text_eq_iff}

pub record Key (K : Type 0) : Type 0 where
  pub same : K → K → Bool
  pub same_iff : (j k : K) → (same j k ≡ true) ↔ (j ≡ k)

instance abbrev pub number_key : Key ℕ
number_key = record { same = ◌==◌; same_iff = ==_iff }

instance abbrev pub text_key : Key Text
text_key = record { same = text_eq; same_iff = text_eq_iff }

module _ {ℓ} {K : Type 0} {V : Type ℓ} ⦃key : Key K⦄ where
  unfoldable pub find : K → List (K × V) → Option V
  find k [] = none
  find k ((j, v) ∷ m) = if key.same j k then some v else find k m

  unfoldable pub put : K → V → List (K × V) → List (K × V)
  put k v [] = (k, v) ∷ []
  put k v ((j, w) ∷ m) = if key.same j k then (k, v) ∷ m else (j, w) ∷ put k v m

  unfoldable pub drop_if : (K → Bool) → List (K × V) → List (K × V)
  drop_if p [] = []
  drop_if p ((j, w) ∷ m) = let rest = drop_if p m in if p j then rest else (j, w) ∷ rest

  pub find-put :
      (j k : K) (v : V) (m : List (K × V))
      → find j (put k v m) ≡ (if key.same k j then some v else find j m)
  unfolding find put
  find-put j k v [] = refl
  find-put j k v ((i, w) ∷ m) =
      ground (arith, key.same_iff k j, key.same_iff i k, key.same_iff i j, find-put j k v m)

  pub find-drop_if :
      (j : K) (p : K → Bool) (m : List (K × V))
      → find j (drop_if p m) ≡ (if p j then none else find j m)
  unfolding find drop_if
  find-drop_if j p [] = ground arith
  find-drop_if j p ((i, w) ∷ m) = ground (arith, key.same_iff i j, find-drop_if j p m)
