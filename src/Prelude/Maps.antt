-- ===== src/Prelude/Maps.antt =====
-- Go maps keyed by strings, as association lists. An insertion replaces the entry of its key.
use mathlib.Core.Path.{◌≡◌, refl}
use mathlib.Core.Bool.{Bool, false}
use mathlib.Core.Logic.{inl, inr}
use mathlib.Core.Option.{Option, none, some}
use mathlib.Core.List.{List, [], ◌∷◌}
use Prim.Native.Nat.{◌≤◌}
use native.Mathlib.Omega.{arith}
use pstonn.Prelude.Tests.{if◌then◌else◌, Bool-cases}
use pstonn.Prelude.Lists.{length}
use pstonn.Prelude.Texts.{Text, text_eq, text_eq_iff, text_eq_refl}

abbrev pub Map {ℓ} : Type ℓ → Type ℓ
Map V = List (Text × V)

module _ {ℓ} {V : Type ℓ} where
  unfoldable pub lookup : Text → Map V → Option V
  lookup k [] = none
  lookup k ((j, v) ∷ m) = if text_eq j k then some v else lookup k m

  unfoldable pub insert : Text → V → Map V → Map V
  insert k v [] = (k, v) ∷ []
  insert k v ((j, w) ∷ m) = if text_eq j k then (k, v) ∷ m else (j, w) ∷ insert k v m

  unfoldable pub delete : Text → Map V → Map V
  delete k [] = []
  delete k ((j, w) ∷ m) = if text_eq j k then m else (j, w) ∷ delete k m

  -- The entries whose value passes the test.
  unfoldable pub keep_values : (V → Bool) → Map V → Map V
  keep_values p [] = []
  keep_values p ((j, w) ∷ m) = if p w then (j, w) ∷ keep_values p m else keep_values p m

  -- No two entries have one key, so that `length` counts keys.
  abbrev pub Distinct : Map V → Type ℓ
  Distinct [] = Unit
  Distinct ((k, v) ∷ m) = (lookup k m ≡ none) × Distinct m

  pub lookup-insert :
      (j k : Text) (v : V) (m : Map V)
      → lookup j (insert k v m) ≡ (if text_eq k j then some v else lookup j m)
  unfolding lookup insert
  lookup-insert j k v [] = refl
  lookup-insert j k v ((i, w) ∷ m) =
      ground (arith, text_eq_iff k j, text_eq_iff i k, text_eq_iff i j, lookup-insert j k v m)

  pub lookup-delete-none :
      (j k : Text) (m : Map V) → lookup j m ≡ none → lookup j (delete k m) ≡ none
  unfolding lookup delete
  lookup-delete-none j k [] h = refl
  lookup-delete-none j k ((i, w) ∷ m) h = ground (arith, lookup-delete-none j k m)

  pub lookup-keep_values-none :
      (j : Text) (p : V → Bool) (m : Map V) → lookup j m ≡ none → lookup j (keep_values p m) ≡ none
  unfolding lookup keep_values
  lookup-keep_values-none j p [] h = refl
  lookup-keep_values-none j p ((i, w) ∷ m) h = ground (arith, lookup-keep_values-none j p m)

  pub insert-Distinct : (k : Text) (v : V) (m : Map V) → Distinct m → Distinct (insert k v m)
  unfolding insert
  insert-Distinct k v [] d = (unfold lookup in refl, tt)
  insert-Distinct k v ((i, w) ∷ m) d =
      ground
        (arith, text_eq_iff i k, text_eq_iff k i, lookup-insert i k v m, insert-Distinct k v m d.1)

  pub delete-Distinct : (k : Text) (m : Map V) → Distinct m → Distinct (delete k m)
  unfolding delete
  delete-Distinct k [] d = tt
  delete-Distinct k ((i, w) ∷ m) d =
      ground (arith, lookup-delete-none i k m d.0, delete-Distinct k m d.1)

  pub keep_values-Distinct : (p : V → Bool) (m : Map V) → Distinct m → Distinct (keep_values p m)
  unfolding keep_values
  keep_values-Distinct p [] d = tt
  keep_values-Distinct p ((i, w) ∷ m) d =
      ground (arith, lookup-keep_values-none i p m d.0, keep_values-Distinct p m d.1)

  pub length-keep_values : (p : V → Bool) (m : Map V) → length (keep_values p m) ≤ length m
  unfolding keep_values
  length-keep_values p [] = omega arith
  length-keep_values p ((i, w) ∷ m) = ground (arith, length-keep_values p m)

  -- The map knows no key but `k`.
  abbrev pub Only : Text → Map V → Type ℓ
  Only k m = (j : Text) → text_eq k j ≡ false → lookup j m ≡ none

  Only-key : (owner k : Text) (v : V) (m : Map V) → Only owner ((k, v) ∷ m) → owner ≡ k
  unfolding lookup
  Only-key owner k v m o = elim (Bool-cases (text_eq owner k)) [
    | inl e ↦ (text_eq_iff owner k).0 e
    | inr e ↦ absurd (ground (arith, o k e, text_eq_refl k))
  ]

  -- A map that knows one key at most has one entry at most.
  pub length-Only : (owner : Text) (m : Map V) → Distinct m → Only owner m → length m ≤ 1
  unfolding lookup
  length-Only owner [] d o = omega arith
  length-Only owner ((k, v) ∷ []) d o = omega arith
  length-Only owner ((k, v) ∷ (j, w) ∷ m) d o = absurd (
      ground (
        arith,
        Only-key owner k v ((j, w) ∷ m) o,
        o j,
        text_eq_iff owner j,
        text_eq_iff k j,
        text_eq_iff j k,
        text_eq_refl j,
      ))
