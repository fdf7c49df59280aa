-- ===== src/Scheduler/Reconnect/Order.antt =====
-- The worker's choice of the next entry.
use pstonn.Prelude.{
  ◌≡◌, ◌⊎◌, refl, Bool, true, false, ◌&&◌, ◌||◌, some, ◌∷◌, [], List, Text, ◌==◌, arith, Bool-cases,
  inl, inr, ltb, text_eq, text_eq_iff, Memᴰ, ap₂, subst, sym, ◌∙◌,
}
use pstonn.Model.Best.{IsStrict, IsBest, best_from-none-IsBest, best_from_same}
use pstonn.Model.Schedule.Order.{SameMembers}
use pstonn.Scheduler.{SessionKey, same_session, same_session_iff}
use pstonn.Scheduler.Reconnect.{text_ltb, Entry, is_earlier, earliest}

text_ltb_irrefl : (s : Text) → text_ltb s s ≡ false
unfolding text_ltb
text_ltb_irrefl [] = refl
text_ltb_irrefl (a ∷ s) = ground (arith, text_ltb_irrefl s)

text_ltb_trans : (s t u : Text) → text_ltb s t ≡ true → text_ltb t u ≡ true → text_ltb s u ≡ true
unfolding text_ltb
text_ltb_trans [] [] u p q = cc
text_ltb_trans [] (b ∷ t) [] p q = cc
text_ltb_trans [] (b ∷ t) (c ∷ u) p q = refl
text_ltb_trans (a ∷ s) [] u p q = cc
text_ltb_trans (a ∷ s) (b ∷ t) [] p q = cc
text_ltb_trans (a ∷ s) (b ∷ t) (c ∷ u) p q = ground (arith, text_ltb_trans s t u)

text_ltb_total : (s t : Text) → text_ltb s t ≡ false → text_ltb t s ≡ false → s ≡ t
unfolding text_ltb
text_ltb_total [] [] p q = refl
text_ltb_total [] (b ∷ t) p q = cc
text_ltb_total (a ∷ s) [] p q = cc
text_ltb_total (a ∷ s) (b ∷ t) p q =
    ap₂ ◌∷◌ (ground arith) (text_ltb_total s t (ground arith) (ground arith))

-- The order of the keys, in which two entries are queued for the same time.
key_ltb : SessionKey → SessionKey → Bool
key_ltb k j = text_ltb k.owner j.owner || (text_eq k.owner j.owner && text_ltb k.tenant j.tenant)

key_ltb_trans : (x y z : SessionKey) → key_ltb x y ≡ true → key_ltb y z ≡ true → key_ltb x z ≡ true
unfolding key_ltb
key_ltb_trans x y z p q = ground (
  arith,
  text_ltb_trans x.owner y.owner z.owner,
  text_ltb_trans x.tenant y.tenant z.tenant,
  text_eq_iff x.owner y.owner,
  text_eq_iff y.owner z.owner,
  text_eq_iff x.owner z.owner,
)

key_ltb_total :
    (x y : SessionKey) → key_ltb x y ≡ false → key_ltb y x ≡ false → same_session x y ≡ true
unfolding key_ltb
key_ltb_total x y p q = ground (
  arith,
  text_ltb_total x.owner y.owner,
  text_ltb_total x.tenant y.tenant,
  text_eq_iff x.owner y.owner,
  text_eq_iff y.owner x.owner,
  text_eq_iff x.tenant y.tenant,
)

is_earlier-key :
    (x y : Entry)
    → is_earlier x y ≡ (ltb x.1.next y.1.next || (x.1.next == y.1.next && key_ltb x.0 y.0))
unfolding is_earlier key_ltb
is_earlier-key x y = refl

key_ltb_irrefl : (x : SessionKey) → key_ltb x x ≡ false
unfolding key_ltb
key_ltb_irrefl x = ground (arith, text_ltb_irrefl x.owner, text_ltb_irrefl x.tenant)

key_ltb_split :
    (x y z : SessionKey) → key_ltb x z ≡ true → (key_ltb x y ≡ true) ⊎ (key_ltb y z ≡ true)
key_ltb_split x y z p = elim (Bool-cases (key_ltb x y)) [
  | inl e ↦ inl e
  | inr e ↦ elim (Bool-cases (key_ltb y x)) [
    | inl f ↦ inr (key_ltb_trans y x z f p)
    | inr f ↦
        let e' : x ≡ y = (same_session_iff x y).0 (key_ltb_total x y e f) in
        inr (subst (λ w. key_ltb w z ≡ true) e' p)
  ]
]

is_earlier-IsStrict : IsStrict is_earlier
is_earlier-IsStrict = record {
  irrefl = λ x. ground (arith, is_earlier-key x x, key_ltb_irrefl x.0);
  trans = λ x y z p q. ground (
    arith,
    is_earlier-key x y,
    is_earlier-key y z,
    is_earlier-key x z,
    key_ltb_trans x.0 y.0 z.0,
  );
  split = λ x y z p. ground (
    arith,
    is_earlier-key x y,
    is_earlier-key y z,
    is_earlier-key x z,
    key_ltb_split x.0 y.0 z.0,
  );
}

-- A key names one entry of the queue.
abbrev pub UniqueKeys : List Entry → Type 0
UniqueKeys q = (x y : Entry) → Memᴰ x q → Memᴰ y q → x.0 ≡ y.0 → x ≡ y

tied_key : (x y : Entry) → is_earlier x y ≡ false → is_earlier y x ≡ false → x.0 ≡ y.0
tied_key x y p q = (same_session_iff x.0 y.0).0 (
    key_ltb_total x.0 y.0 (ground (arith, is_earlier-key x y, is_earlier-key y x))
      (ground (arith, is_earlier-key x y, is_earlier-key y x)))

-- Whatever the order in which the queue is walked, the worker chooses the same entry: one that is
-- due no later than any other.
pub earliest-IsBest :
    (q walk : List Entry) (e : Entry)
    → UniqueKeys q
    → SameMembers q walk
    → earliest q ≡ some e
    → (earliest walk ≡ some e) × IsBest (λ _. true) is_earlier e q
unfolding earliest
earliest-IsBest q walk e unique same h = (
  sym (
        best_from_same (λ _. true) is_earlier is_earlier-IsStrict q walk same.left same.right
          (λ x y i j p r. unique x y i j (tied_key x y p r)))
      ∙ h,
  best_from-none-IsBest (λ _. true) is_earlier is_earlier-IsStrict q h,
)
