-- ===== src/Model/Schedule/NextChange/Sort.antt =====
-- Sorting keeps the elements; the first of them that passes a test is the least that does.
use pstonn.Prelude.{
  ℕ, ◌≤◌, ◌≡◌, refl, ap, subst, Bool, true, false, Option, none, some, List, [], ◌∷◌, ◌++◌, leb,
  if◌then◌else◌, arith, Bool-cases, ◌⊎◌, inl, inr,
}
use mathlib.Core.Option.{some-injective}
use pstonn.Model.Schedule.NextChange.{insert_sorted, sort}

-- `t` stands in the list.
abbrev pub In : ℕ → List ℕ → Type 0
In t [] = ⊥
In t (x ∷ xs) = (t ≡ x) ⊎ In t xs

pub In-append : (t : ℕ) (xs ys : List ℕ) → In t (xs ++ ys) → In t xs ⊎ In t ys
In-append t [] ys i = inr i
In-append t (x ∷ xs) ys (inl e) = inl (inl e)
In-append t (x ∷ xs) ys (inr i) = ground (arith, In-append t xs ys i)

pub append-In_left : (t : ℕ) (xs ys : List ℕ) → In t xs → In t (xs ++ ys)
append-In_left t [] ys i = absurd i
append-In_left t (x ∷ xs) ys (inl e) = inl e
append-In_left t (x ∷ xs) ys (inr i) = inr (append-In_left t xs ys i)

pub append-In_right : (t : ℕ) (xs ys : List ℕ) → In t ys → In t (xs ++ ys)
append-In_right t [] ys i = i
append-In_right t (x ∷ xs) ys i = inr (append-In_right t xs ys i)

In-insert_sorted : (t s : ℕ) (ts : List ℕ) → In s (insert_sorted t ts) → (s ≡ t) ⊎ In s ts
unfolding insert_sorted
In-insert_sorted t s [] i = i
In-insert_sorted t s (x ∷ ts) i = ground (arith, In-insert_sorted t s ts)

insert_sorted-In : (t s : ℕ) (ts : List ℕ) → (s ≡ t) ⊎ In s ts → In s (insert_sorted t ts)
unfolding insert_sorted
insert_sorted-In t s [] i = i
insert_sorted-In t s (x ∷ ts) i = ground (arith, insert_sorted-In t s ts)

pub In-sort : (s : ℕ) (ts : List ℕ) → In s (sort ts) → In s ts
unfolding sort
In-sort s [] i = i
In-sort s (t ∷ ts) i = ground (arith, In-insert_sorted t s (sort ts) i, In-sort s ts)

pub sort-In : (s : ℕ) (ts : List ℕ) → In s ts → In s (sort ts)
unfolding sort
sort-In s [] i = i
sort-In s (t ∷ ts) (inl e) = insert_sorted-In t s (sort ts) (inl e)
sort-In s (t ∷ ts) (inr i) = insert_sorted-In t s (sort ts) (inr (sort-In s ts i))

-- Every element is at most those behind it.
abbrev pub IsSorted : List ℕ → Type 0
IsSorted [] = Unit
IsSorted (t ∷ ts) = ((s : ℕ) → In s ts → t ≤ s) × IsSorted ts

insert_sorted-IsSorted : (t : ℕ) (ts : List ℕ) → IsSorted ts → IsSorted (insert_sorted t ts)
unfolding insert_sorted
insert_sorted-IsSorted t [] h = (λ s i. absurd i, tt)
insert_sorted-IsSorted t (x ∷ ts) h = elim (Bool-cases (leb t x)) [
  | inl e ↦ rw e (λ s i. ground (arith, h.0 s), h)
  | inr e ↦
      rw e
        (λ s i. ground (arith, In-insert_sorted t s ts i, h.0 s), insert_sorted-IsSorted t ts h.1)
]

pub sort-IsSorted : (ts : List ℕ) → IsSorted (sort ts)
unfolding sort
sort-IsSorted [] = tt
sort-IsSorted (t ∷ ts) = insert_sorted-IsSorted t (sort ts) (sort-IsSorted ts)

-- The first element that passes a test.
unfoldable pub first : (ℕ → Bool) → List ℕ → Option ℕ
first p [] = none
first p (t ∷ ts) = if p t then some t else first p ts

pub first-none : (p : ℕ → Bool) (ts : List ℕ) → first p ts ≡ none → (s : ℕ) → In s ts → p s ≡ false
unfolding first
first-none p [] e s i = absurd i
first-none p (t ∷ ts) e s (inl q) = rw q (ground arith)
first-none p (t ∷ ts) e s (inr i) = first-none p ts (ground arith) s i

-- It stands in the list, passes, and is the least that does.
pub record IsFirst (p : ℕ → Bool) (ts : List ℕ) (t : ℕ) : Type 0 where
  pub member : In t ts
  pub passes : p t ≡ true
  pub least : (s : ℕ) → In s ts → p s ≡ true → t ≤ s

IsFirst-here :
    (p : ℕ → Bool) (t : ℕ) (ts : List ℕ)
    → ((s : ℕ) → In s ts → t ≤ s)
    → p t ≡ true
    → IsFirst p (t ∷ ts) t
IsFirst-here p t ts h k = record {
  member = inl refl;
  passes = k;
  least = λ s i q. ground (arith, h s);
}

IsFirst-later :
    (p : ℕ → Bool) (t x : ℕ) (ts : List ℕ) → p x ≡ false → IsFirst p ts t → IsFirst p (x ∷ ts) t
IsFirst-later p t x ts k f = record {
  member = inr f.member;
  passes = f.passes;
  least = λ s i q. elim i [ inl e ↦ cc (ap p e) | inr j ↦ f.least s j q ];
}

pub first-IsFirst :
    (p : ℕ → Bool) (ts : List ℕ) {t : ℕ} → IsSorted ts → first p ts ≡ some t → IsFirst p ts t
unfolding first
first-IsFirst p [] h e = cc
first-IsFirst p (x ∷ ts) {t} h e = elim (Bool-cases (p x)) [
  | inl k ↦ subst (IsFirst p (x ∷ ts)) (some-injective x t (rw k at e)) (IsFirst-here p x ts h.0 k)
  | inr k ↦ IsFirst-later p t x ts k (first-IsFirst p ts h.1 (rw (k, first) at e))
]
