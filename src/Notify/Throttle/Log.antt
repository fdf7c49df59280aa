-- ===== src/Notify/Throttle/Log.antt =====
-- The throttle decides as one that keeps the whole log of what it has granted.
use pstonn.Prelude.{
  ℕ, ◌+◌, ◌≤◌, ◌≡◌, sym, ap, subst, ◌∙◌, ◌&&◌, List, [], ◌∷◌, ◌++◌, Text, Map, Distinct, insert,
  insert-Distinct, text_eq, text_eq_iff, length, ltb, leb, le→ltb_false, if◌then◌else◌, Bool-cases,
  inl, inr, arith,
}
use pstonn.Notify.Throttle.{
  SendLimiter, send_limiter_max_keys, send_limiter_prune, keep_after, hits_of, tidy, allow_at,
}
use pstonn.Notify.Throttle.Window.{
  keep_after-append, keep_after-later, sweep-Distinct, hits_of-sweep, hits_of-insert,
}

unfoldable pub run : SendLimiter → List (ℕ × Text) → SendLimiter
run l [] = l
run l ((now, key) ∷ cs) = run (allow_at l now key).0 cs

-- The times at which the calls were granted a notice to `key`.
unfoldable pub granted : SendLimiter → Text → List (ℕ × Text) → List ℕ
granted l key [] = []
granted l key ((now, k) ∷ cs) =
    let rest = granted (allow_at l now k).0 key cs in
    if (allow_at l now k).1 && text_eq k key then now ∷ rest else rest

-- The calls' times do not decrease from `from` to `stop`.
abbrev pub Ordered : ℕ → List (ℕ × Text) → ℕ → Type 0
Ordered from [] stop = from ≤ stop
Ordered from ((t, k) ∷ cs) stop = (from ≤ t) × Ordered t cs stop

-- The table never has so many keys that it is cleared.
abbrev pub Fits : SendLimiter → List (ℕ × Text) → Type 0
Fits l [] = length l.hits ≤ send_limiter_max_keys
Fits l ((now, key) ∷ cs) = (length l.hits ≤ send_limiter_max_keys) × Fits (allow_at l now key).0 cs

-- The table knows what the log `g` of the grants to `key` says of the windows from now on.
pub record Tracks (l : SendLimiter) (key : Text) (g : List ℕ) (now : ℕ) : Type 0 where
  pub distinct : Distinct l.hits
  pub agrees :
      (later : ℕ)
      → now ≤ later
      → keep_after l.window later (hits_of key l.hits) ≡ keep_after l.window later g

tidy-Tracks :
    (l : SendLimiter) (key : Text) (g : List ℕ) (from now : ℕ)
    → from ≤ now
    → length l.hits ≤ send_limiter_max_keys
    → Tracks l key g from
    → Tracks (tidy l now) key g now
unfolding tidy
tidy-Tracks l key g from now h fits v =
    let roomy = le→ltb_false send_limiter_max_keys (length l.hits) fits in
    elim (Bool-cases (leb send_limiter_prune (l.calls + 1))) [
      | inl e ↦
          rw (e, roomy)
            (record {
              distinct = sweep-Distinct l.window now l.hits v.distinct;
              agrees = λ later p.
                  hits_of-sweep l.window now later key l.hits p v.distinct
                  ∙ v.agrees later (omega arith);
            })
      | inr e ↦
          rw (e, roomy)
            (record { distinct = v.distinct; agrees = λ later p. v.agrees later (omega arith) })
    ]

tidy-window : (l : SendLimiter) (now : ℕ) → (tidy l now).window ≡ l.window
unfolding tidy
tidy-window l now = ground arith

pub settings :
    (l : SendLimiter) (now : ℕ) (key : Text)
    → ((allow_at l now key).0.limit ≡ l.limit) × ((allow_at l now key).0.window ≡ l.window)
unfolding allow_at tidy
settings l now key = ground arith

-- What is left of the log in the window decides.
pub decided :
    (l : SendLimiter) (key : Text) (g : List ℕ) (from now : ℕ)
    → from ≤ now
    → length l.hits ≤ send_limiter_max_keys
    → Tracks l key g from
    → (allow_at l now key).1 ≡ ltb (length (keep_after l.window now g)) l.limit
unfolding allow_at
decided l key g from now h fits v =
    let t = tidy-Tracks l key g from now h fits v in
    ground (arith, t.agrees now (omega arith), tidy-window l now)

-- A refusal stores what is left of the key's window; a grant adds its time.
refused-agrees :
    (window now later : ℕ) (key k : Text) (m : Map (List ℕ)) (g : List ℕ)
    → now ≤ later
    → keep_after window later (hits_of key m) ≡ keep_after window later g
    → keep_after window later (hits_of key (insert k (keep_after window now (hits_of k m)) m))
      ≡ keep_after window later g
refused-agrees window now later key k m g p a =
    let i = hits_of-insert key k (keep_after window now (hits_of k m)) m in
    elim (Bool-cases (text_eq k key)) [
      | inl e ↦
          let same = (text_eq_iff k key).0 e in
          rw (i, e) (rw same (keep_after-later window now later (hits_of key m) p ∙ a))
      | inr e ↦ rw (i, e) a
    ]

given-agrees :
    (window now later : ℕ) (key k : Text) (m : Map (List ℕ)) (g : List ℕ)
    → now ≤ later
    → keep_after window later (hits_of key m) ≡ keep_after window later g
    → keep_after window later
        (hits_of key (insert k (keep_after window now (hits_of k m) ++ now ∷ []) m))
      ≡ keep_after window later (if text_eq k key then g ++ now ∷ [] else g)
given-agrees window now later key k m g p a =
    let i = hits_of-insert key k (keep_after window now (hits_of k m) ++ now ∷ []) m in
    elim (Bool-cases (text_eq k key)) [
      | inl e ↦
          let same = (text_eq_iff k key).0 e in
          rw (i, e)
            (rw same (
              keep_after-append window later (keep_after window now (hits_of key m)) (now ∷ [])
              ∙ ap (λ ts. ts ++ keep_after window later (now ∷ []))
                  (keep_after-later window now later (hits_of key m) p ∙ a)
              ∙ sym (keep_after-append window later g (now ∷ []))))
      | inr e ↦ rw (i, e) a
    ]

pub step-Tracks :
    (l : SendLimiter) (key k : Text) (g : List ℕ) (from now : ℕ)
    → from ≤ now
    → length l.hits ≤ send_limiter_max_keys
    → Tracks l key g from
    → Tracks
        (allow_at l now k).0
        key
        (if (allow_at l now k).1 && text_eq k key then g ++ now ∷ [] else g)
        now
unfolding allow_at
step-Tracks l key k g from now h fits v =
    let t = tidy-Tracks l key g from now h fits v in
    let kept = keep_after l.window now (hits_of k (tidy l now).hits) in
    elim (Bool-cases (leb l.limit (length kept))) [
      | inl e ↦ rw e (record {
        distinct = insert-Distinct k kept (tidy l now).hits t.distinct;
        agrees = λ later p. rw (tidy-window l now) (
            refused-agrees l.window now later key k (tidy l now).hits g p (
              subst (λ w. keep_after w later (hits_of key (tidy l now).hits) ≡ keep_after w later g)
                (tidy-window l now) (t.agrees later p)));
      })
      | inr e ↦ rw e (record {
        distinct = insert-Distinct k (kept ++ now ∷ []) (tidy l now).hits t.distinct;
        agrees = λ later p. rw (tidy-window l now) (
            given-agrees l.window now later key k (tidy l now).hits g p (
              subst (λ w. keep_after w later (hits_of key (tidy l now).hits) ≡ keep_after w later g)
                (tidy-window l now) (t.agrees later p)));
      })
    ]
