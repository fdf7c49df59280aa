-- ===== src/Model/Best.antt =====
-- The loops of model.go that keep a pointer to the best element seen so far.
use pstonn.Prelude.{
  ◌≡◌, ◌≢◌, refl, sym, ap, subst, ◌∙◌, Bool, true, false, Option, none, some, List, [], ◌∷◌, Memᴰ,
  if◌then◌else◌, arith, Bool-cases, Option-cases, inl, inr, ◌⊎◌,
}
use mathlib.Core.Option.{some-injective}

module _ {ℓ} {A : Type ℓ} where
  -- `best = x` if there is no best yet or `x` beats it.
  unfoldable pub challenge : (A → A → Bool) → Option A → A → Option A
  challenge beats none x = some x
  challenge beats (some b) x = if beats x b then some x else some b

  unfoldable pub best_from : (A → Bool) → (A → A → Bool) → Option A → List A → Option A
  unfolding challenge
  best_from keep beats best [] = best
  best_from keep beats best (x ∷ xs) =
      best_from keep beats (if keep x then challenge beats best x else best) xs

-- The order by which the best is chosen: a strict one in which incomparable elements are tied.
pub record IsStrict {ℓ} {A : Type ℓ} (beats : A → A → Bool) : Type ℓ where
  pub irrefl : (x : A) → beats x x ≡ false
  pub trans : (x y z : A) → beats x y ≡ true → beats y z ≡ true → beats x z ≡ true
  pub split : (x y z : A) → beats x z ≡ true → (beats x y ≡ true) ⊎ (beats y z ≡ true)

-- `b` is one of the elements of `xs` that are kept, and none of those beats it.
pub record IsBest {ℓ} {A : Type ℓ} (keep : A → Bool) (beats : A → A → Bool) (b : A) (xs : List A)
    : Type ℓ where
  pub member : Memᴰ b xs
  pub kept : keep b ≡ true
  pub unbeaten : (x : A) → Memᴰ x xs → keep x ≡ true → beats x b ≡ false

module _ {ℓ} {A : Type ℓ} (keep : A → Bool) (beats : A → A → Bool) (o : IsStrict beats) where
  IsBest-one : (a : A) → keep a ≡ true → IsBest keep beats a (a ∷ [])
  IsBest-one a k = record { member = Memᴰ.head refl; kept = k; unbeaten = only }
    where
      only : (x : A) → Memᴰ x (a ∷ []) → keep x ≡ true → beats x a ≡ false
      only x (Memᴰ.head e) _ = ap (λ y. beats y a) e ∙ o.irrefl a
      only x (Memᴰ.tail i) _ = elim i [ ]

  Memᴰ-second : {a x y : A} {xs : List A} → Memᴰ y (a ∷ xs) → Memᴰ y (a ∷ x ∷ xs)
  Memᴰ-second (Memᴰ.head e) = Memᴰ.head e
  Memᴰ-second (Memᴰ.tail i) = Memᴰ.tail (Memᴰ.tail i)

  -- The element behind the head changes nothing if it is not kept, or does not beat the head.
  IsBest-second :
      (a b x : A) (xs : List A)
      → (keep x ≡ true → beats x b ≡ false)
      → IsBest keep beats b (a ∷ xs)
      → IsBest keep beats b (a ∷ x ∷ xs)
  IsBest-second a b x xs loses h = record {
    member = Memᴰ-second h.member;
    kept = h.kept;
    unbeaten = others;
  }
    where
      others : (y : A) → Memᴰ y (a ∷ x ∷ xs) → keep y ≡ true → beats y b ≡ false
      others y (Memᴰ.head e) k = h.unbeaten y (Memᴰ.head e) k
      others y (Memᴰ.tail (Memᴰ.head e)) k = rw e (loses (rw (← e) k))
      others y (Memᴰ.tail (Memᴰ.tail i)) k = h.unbeaten y (Memᴰ.tail i) k

  IsBest-behind :
      (a b : A) (xs : List A)
      → beats a b ≡ false
      → IsBest keep beats b xs
      → IsBest keep beats b (a ∷ xs)
  IsBest-behind a b xs loses h = record {
    member = Memᴰ.tail h.member;
    kept = h.kept;
    unbeaten = others;
  }
    where
      others : (y : A) → Memᴰ y (a ∷ xs) → keep y ≡ true → beats y b ≡ false
      others y (Memᴰ.head e) k = rw e loses
      others y (Memᴰ.tail i) k = h.unbeaten y i k

  best_from-IsBest :
      (a : A) (xs : List A) {b : A}
      → keep a ≡ true
      → best_from keep beats (some a) xs ≡ some b
      → IsBest keep beats b (a ∷ xs)
  unfolding best_from
  best_from-IsBest a [] {b} k e =
      subst (λ y. IsBest keep beats y (a ∷ [])) (some-injective a b e) (IsBest-one a k)
  best_from-IsBest a (x ∷ xs) {b} k e = elim (Bool-cases (keep x)) [
    | inr drop ↦
        IsBest-second a b x xs (λ k'. cc) (best_from-IsBest a xs k (rw (drop, best_from) at e))
    | inl kx ↦ elim (Bool-cases (beats x a)) [
      | inl wins ↦
          let h = best_from-IsBest x xs kx (rw (kx, wins) at e) in
          IsBest-behind a b (x ∷ xs) (beaten h kx wins) h
      | inr loses ↦
          let h = best_from-IsBest a xs k (rw (kx, loses) at e) in
          IsBest-second a b x xs (λ _. tied h loses) h
    ]
  ]
    where
      beaten : IsBest keep beats b (x ∷ xs) → keep x ≡ true → beats x a ≡ true → beats a b ≡ false
      beaten h kx wins = elim (Bool-cases (beats a b)) [
        | inl t ↦ cc (o.trans x a b wins t, h.unbeaten x (Memᴰ.head refl) kx)
        | inr f ↦ f
      ]

      tied : IsBest keep beats b (a ∷ xs) → beats x a ≡ false → beats x b ≡ false
      tied h loses = elim (Bool-cases (beats x b)) [
        | inl t ↦ elim (o.split x a b t) [
          | inl p ↦ cc
          | inr q ↦ cc (h.unbeaten a (Memᴰ.head refl) k)
        ]
        | inr f ↦ f
      ]

  -- The loop from no best ends with the best of the list.
  pub best_from-none-IsBest :
      (xs : List A) {b : A} → best_from keep beats none xs ≡ some b → IsBest keep beats b xs
  unfolding best_from
  best_from-none-IsBest [] e = cc
  best_from-none-IsBest (x ∷ xs) {b} e = elim (Bool-cases (keep x)) [
    | inl k ↦ best_from-IsBest x xs k (rw k at e)
    | inr k ↦ IsBest-skip (best_from-none-IsBest xs (rw (k, best_from) at e)) k
  ]
    where
      IsBest-skip : IsBest keep beats b xs → keep x ≡ false → IsBest keep beats b (x ∷ xs)
      IsBest-skip h k = record { member = Memᴰ.tail h.member; kept = h.kept; unbeaten = others }
        where
          others : (y : A) → Memᴰ y (x ∷ xs) → keep y ≡ true → beats y b ≡ false
          others y (Memᴰ.head e) k' = cc
          others y (Memᴰ.tail i) k' = h.unbeaten y i k'

  best_from-ne-none : (a : A) (xs : List A) → best_from keep beats (some a) xs ≢ none
  unfolding best_from
  best_from-ne-none a [] e = cc
  best_from-ne-none a (x ∷ xs) e = ground (arith, best_from-ne-none a xs, best_from-ne-none x xs)

  -- It finds none only if nothing is kept.
  pub best_from-none-none :
      (xs : List A) → best_from keep beats none xs ≡ none → (x : A) → Memᴰ x xs → keep x ≡ false
  unfolding best_from
  best_from-none-none [] e x i = elim i [ ]
  best_from-none-none (y ∷ xs) e x (Memᴰ.head p) = rw p (elim (Bool-cases (keep y)) [
    | inl k ↦ absurd (best_from-ne-none y xs (rw k at e))
    | inr k ↦ k
  ])
  best_from-none-none (y ∷ xs) e x (Memᴰ.tail i) = elim (Bool-cases (keep y)) [
    | inl k ↦ absurd (best_from-ne-none y xs (rw k at e))
    | inr k ↦ best_from-none-none xs (rw (k, best_from) at e) x i
  ]

-- Lists with the same elements have the same best, if no two of them are tied.
module _ {ℓ} {A : Type ℓ} (keep : A → Bool) (beats : A → A → Bool) (o : IsStrict beats)
    (xs ys : List A) (left : (x : A) → Memᴰ x xs → Memᴰ x ys)
    (right : (x : A) → Memᴰ x ys → Memᴰ x xs)
    (tied : (x y : A) → Memᴰ x xs → Memᴰ y xs → beats x y ≡ false → beats y x ≡ false → x ≡ y) where
  IsBest-same : {a b : A} → IsBest keep beats a xs → IsBest keep beats b ys → a ≡ b
  IsBest-same {a} {b} p q =
      tied a b p.member (right b q.member) (q.unbeaten a (left a p.member) p.kept)
        (p.unbeaten b (right b q.member) q.kept)

  pub best_from_same : best_from keep beats none xs ≡ best_from keep beats none ys
  best_from_same = elim (Option-cases (best_from keep beats none xs)) [
    | inl e ↦ elim (Option-cases (best_from keep beats none ys)) [
      | inl f ↦ e ∙ sym f
      | inr (b, f) ↦
          let q = best_from-none-IsBest keep beats o ys f in
          cc (best_from-none-none keep beats o xs e b (right b q.member), q.kept)
    ]
    | inr (a, e) ↦
        let p = best_from-none-IsBest keep beats o xs e in
        elim (Option-cases (best_from keep beats none ys)) [
          | inl f ↦ cc (best_from-none-none keep beats o ys f a (left a p.member), p.kept)
          | inr (b, f) ↦
              e ∙ ap some (IsBest-same p (best_from-none-IsBest keep beats o ys f)) ∙ sym f
        ]
  ]

-- Only what is kept matters.
pub best_from_keep {ℓ} :
    {A : Type ℓ} (keep keep' : A → Bool) (beats : A → A → Bool) (best : Option A) (xs : List A)
    → ((x : A) → Memᴰ x xs → keep x ≡ keep' x)
    → best_from keep beats best xs ≡ best_from keep' beats best xs
unfolding best_from
best_from_keep keep keep' beats best [] h = refl
best_from_keep keep keep' beats best (x ∷ xs) h =
    best_from_keep keep keep' beats (if keep x then challenge beats best x else best) xs
      (λ y i. h y (Memᴰ.tail i))
    ∙ ap (λ k. best_from keep' beats (if k then challenge beats best x else best) xs)
        (h x (Memᴰ.head refl))
