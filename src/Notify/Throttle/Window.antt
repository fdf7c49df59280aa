-- ===== src/Notify/Throttle/Window.antt =====
-- The window of timestamps, and the table of the throttle, as the sweeps leave them.
use pstonn.Prelude.{
  ℕ, ◌+◌, ◌≤◌, ◌≡◌, refl, ap, ◌∙◌, false, none, List, [], ◌∷◌, ◌++◌, Text, Map, Distinct, lookup,
  insert, lookup-insert, text_eq, text_eq_iff, length, if◌then◌else◌, arith,
}
use pstonn.Notify.Throttle.{keep_after, hits_of, or_empty, keep_entry, sweep}

pub keep_after-append :
    (window now : ℕ) (xs ys : List ℕ)
    → keep_after window now (xs ++ ys) ≡ keep_after window now xs ++ keep_after window now ys
unfolding keep_after
keep_after-append window now [] ys = refl
keep_after-append window now (t ∷ xs) ys = ground (arith, keep_after-append window now xs ys)

-- What has left the window stays out of it.
pub keep_after-later :
    (window now later : ℕ) (ts : List ℕ)
    → now ≤ later
    → keep_after window later (keep_after window now ts) ≡ keep_after window later ts
unfolding keep_after
keep_after-later window now later [] h = refl
keep_after-later window now later (t ∷ ts) h =
    ground (arith, keep_after-later window now later ts h)

pub length-keep_after :
    (window now : ℕ) (ts : List ℕ) → length (keep_after window now ts) ≤ length ts
unfolding keep_after
length-keep_after window now [] = omega arith
length-keep_after window now (t ∷ ts) = ground (arith, length-keep_after window now ts)

lookup-keep_entry-none :
    (key k : Text) (kept : List ℕ) (m : Map (List ℕ))
    → text_eq k key ≡ false
    → lookup key m ≡ none
    → lookup key (keep_entry k kept m) ≡ none
unfolding lookup
lookup-keep_entry-none key k [] m ne h = h
lookup-keep_entry-none key k (t ∷ ts) m ne h = rw ne h

keep_entry-Distinct :
    (k : Text) (kept : List ℕ) (m : Map (List ℕ))
    → lookup k m ≡ none
    → Distinct m
    → Distinct (keep_entry k kept m)
keep_entry-Distinct k [] m h d = d
keep_entry-Distinct k (t ∷ ts) m h d = (h, d)

length-keep_entry :
    (k : Text) (kept : List ℕ) (m : Map (List ℕ)) → length (keep_entry k kept m) ≤ length m + 1
length-keep_entry k [] m = omega arith
length-keep_entry k (t ∷ ts) m = omega arith

hits_of-keep_entry :
    (key k : Text) (kept : List ℕ) (m : Map (List ℕ))
    → lookup k m ≡ none
    → hits_of key (keep_entry k kept m) ≡ (if text_eq k key then kept else hits_of key m)
unfolding lookup
hits_of-keep_entry key k [] m h = ground (arith, text_eq_iff k key)
hits_of-keep_entry key k (t ∷ ts) m h = ground arith

lookup-sweep-none :
    (window now : ℕ) (key : Text) (m : Map (List ℕ))
    → lookup key m ≡ none
    → lookup key (sweep window now m) ≡ none
unfolding lookup sweep
lookup-sweep-none window now key [] h = refl
lookup-sweep-none window now key ((k, ts) ∷ m) h = ground (
  arith,
  lookup-keep_entry-none key k (keep_after window now ts) (sweep window now m),
  lookup-sweep-none window now key m,
)

pub sweep-Distinct :
    (window now : ℕ) (m : Map (List ℕ)) → Distinct m → Distinct (sweep window now m)
unfolding sweep
sweep-Distinct window now [] d = tt
sweep-Distinct window now ((k, ts) ∷ m) d =
    keep_entry-Distinct k (keep_after window now ts) (sweep window now m)
      (lookup-sweep-none window now k m d.0) (sweep-Distinct window now m d.1)

pub length-sweep : (window now : ℕ) (m : Map (List ℕ)) → length (sweep window now m) ≤ length m
unfolding sweep
length-sweep window now [] = omega arith
length-sweep window now ((k, ts) ∷ m) = omega (
  arith,
  length-keep_entry k (keep_after window now ts) (sweep window now m),
  length-sweep window now m,
)

pub hits_of-sweep :
    (window now later : ℕ) (key : Text) (m : Map (List ℕ))
    → now ≤ later
    → Distinct m
    → keep_after window later (hits_of key (sweep window now m))
      ≡ keep_after window later (hits_of key m)
unfolding lookup sweep
hits_of-sweep window now later key [] h d = refl
hits_of-sweep window now later key ((k, ts) ∷ m) h d = ground (
  arith,
  hits_of-keep_entry key k (keep_after window now ts) (sweep window now m)
      (lookup-sweep-none window now k m d.0),
  keep_after-later window now later ts h,
  hits_of-sweep window now later key m h d.1,
)

pub hits_of-insert :
    (key k : Text) (ts : List ℕ) (m : Map (List ℕ))
    → hits_of key (insert k ts m) ≡ (if text_eq k key then ts else hits_of key m)
hits_of-insert key k ts m = ap or_empty (lookup-insert key k ts m) ∙ ground arith
