-- ===== src/Notify/Throttle/Limit.antt =====
-- What the throttle promises over any sequence of calls.
use pstonn.Prelude.{
  ℕ, ◌+◌, ◌≤◌, ◌≡◌, refl, ap, ap₂, subst, subst₂, ◌∙◌, ◌&&◌, List, [], ◌∷◌, ◌++◌, Text, Map, lookup,
  insert, text_eq, text_eq_iff, length, length-append, ltb, if◌then◌else◌, Bool-cases, inl, inr,
  arith,
}
use mathlib.Core.List.{append-nil, append_assoc}
use pstonn.Notify.Throttle.{
  SendLimiter, send_limiter_max_keys, new_send_limiter, keep_after, hits_of, tidy, allow_at,
}
use pstonn.Notify.Throttle.Window.{
  keep_after-append, keep_after-later, length-keep_after, length-sweep,
}
use pstonn.Notify.Throttle.Log.{run, granted, Ordered, Fits, Tracks, settings, decided, step-Tracks}

-- The log so far keeps to the limit in every window that ends from now on.
abbrev Limited : SendLimiter → List ℕ → ℕ → Type 0
Limited l g now = (later : ℕ) → now ≤ later → length (keep_after l.window later g) ≤ l.limit

-- One more grant adds one at most to a later window.
length-keep_after-later :
    (window now later : ℕ) (g : List ℕ)
    → now ≤ later
    → length (keep_after window later (g ++ now ∷ [])) ≤ length (keep_after window now g) + 1
length-keep_after-later window now later g p = omega (
  arith,
  ap length (keep_after-append window later g (now ∷ [])),
  length-append (keep_after window later g) (keep_after window later (now ∷ [])),
  length-keep_after window later (now ∷ []),
  ap length (keep_after-later window now later g p),
  length-keep_after window later (keep_after window now g),
)

length-insert : (k : Text) (ts : List ℕ) (m : Map (List ℕ)) → length (insert k ts m) ≤ length m + 1
unfolding insert
length-insert k ts [] = omega arith
length-insert k ts ((j, w) ∷ m) = ground (arith, length-insert k ts m)

-- A log with what one call adds to it.
abbrev logged : SendLimiter → ℕ → Text → Text → List ℕ → List ℕ
logged l now k key g = if (allow_at l now k).1 && text_eq k key then g ++ now ∷ [] else g

step-Limited :
    (l : SendLimiter) (key k : Text) (g : List ℕ) (from now : ℕ)
    → from ≤ now
    → length l.hits ≤ send_limiter_max_keys
    → Tracks l key g from
    → Limited l g from
    → Limited (allow_at l now k).0 (logged l now k key g) now
step-Limited l key k g from now h fits v b later p =
    rw ((settings l now k).0, (settings l now k).1)
      (elim (Bool-cases (text_eq k key)) [
        | inr e ↦ ground (arith, e, b later (omega arith))
        | inl e ↦
            let d = decided l key g from now h fits v in
            ground (
              arith,
              d,
              e,
              (text_eq_iff k key).0 e,
              b later (omega arith),
              length-keep_after-later l.window now later g p,
            )
      ])

logged-append :
    (l : SendLimiter) (now : ℕ) (k key : Text) (g rest : List ℕ)
    → logged l now k key g ++ rest
      ≡ g ++ (if (allow_at l now k).1 && text_eq k key then now ∷ rest else rest)
logged-append l now k key g rest = elim (Bool-cases ((allow_at l now k).1 && text_eq k key)) [
  | inl e ↦ rw e (append_assoc g (now ∷ []) rest)
  | inr e ↦ rw e refl
]

-- The state after some calls knows the log, and the log keeps to the limit.
run-Tracks :
    (l : SendLimiter) (key : Text) (g : List ℕ) (from : ℕ) (cs : List (ℕ × Text)) (stop : ℕ)
    → Ordered from cs stop
    → Fits l cs
    → Tracks l key g from
    → Limited l g from
    → Tracks (run l cs) key (g ++ granted l key cs) stop
      × Limited (run l cs) (g ++ granted l key cs) stop
      × (length (run l cs).hits ≤ send_limiter_max_keys)
unfolding run granted
run-Tracks l key g from [] stop o f v b = rw (append-nil g) (
  record { distinct = v.distinct; agrees = λ later p. v.agrees later (omega arith) },
  (λ later p. b later (omega arith)),
  f,
)
run-Tracks l key g from ((now, k) ∷ cs) stop o f v b =
    subst
      (λ log.
        Tracks (run (allow_at l now k).0 cs) key log stop
        × Limited (run (allow_at l now k).0 cs) log stop
        × (length (run (allow_at l now k).0 cs).hits ≤ send_limiter_max_keys))
      (logged-append l now k key g (granted (allow_at l now k).0 key cs))
      (run-Tracks (allow_at l now k).0 key (logged l now k key g) now cs stop o.1 f.1
        (step-Tracks l key k g from now o.0 f.0 v) (step-Limited l key k g from now o.0 f.0 v b))

new_send_limiter-Tracks :
    (limit window : ℕ) (key : Text) (now : ℕ) → Tracks (new_send_limiter limit window) key [] now
unfolding new_send_limiter lookup
new_send_limiter-Tracks limit window key now = record { distinct = tt; agrees = λ later p. refl }

run-settings :
    (l : SendLimiter) (cs : List (ℕ × Text))
    → ((run l cs).limit ≡ l.limit) × ((run l cs).window ≡ l.window)
unfolding run
run-settings l [] = (refl, refl)
run-settings l ((now, k) ∷ cs) =
    let r = run-settings (allow_at l now k).0 cs in
    let s = settings l now k in (r.0 ∙ s.0, r.1 ∙ s.1)

-- A call leaves the table with at most 20,001 keys, whatever it held before.
pub length-allow_at :
    (l : SendLimiter) (now : ℕ) (key : Text)
    → length (allow_at l now key).0.hits ≤ send_limiter_max_keys + 1
unfolding allow_at tidy
length-allow_at l now key = ground (
  arith,
  length-sweep l.window now l.hits,
  length-insert key (keep_after l.window now (hits_of key (tidy l now).hits)) (tidy l now).hits,
  length-insert key (keep_after l.window now (hits_of key (tidy l now).hits) ++ now ∷ [])
      (tidy l now).hits,
)

module _ (limit window : ℕ) (key : Text) (cs : List (ℕ × Text)) (stop : ℕ) (o : Ordered 0 cs stop)
    (f : Fits (new_send_limiter limit window) cs) where
  abbrev fresh : SendLimiter
  fresh = new_send_limiter limit window

  reached :
      Tracks (run fresh cs) key (granted fresh key cs) stop
      × Limited (run fresh cs) (granted fresh key cs) stop
      × (length (run fresh cs).hits ≤ send_limiter_max_keys)
  unfolding keep_after new_send_limiter
  reached =
      run-Tracks fresh key [] 0 cs stop o f (new_send_limiter-Tracks limit window key 0)
        (λ later p. omega arith)

  -- Over any calls to a new throttle at non-decreasing times up to `stop`, in which the table stays
  -- within 20,000 keys, no more than `limit` notices to one key are granted within any window that
  -- ends at `stop`.
  pub length-granted : length (keep_after window stop (granted fresh key cs)) ≤ limit
  unfolding new_send_limiter
  length-granted =
      let r = run-settings fresh cs in
      subst₂ (λ w n. length (keep_after w stop (granted fresh key cs)) ≤ n) r.1 r.0
        (reached.1 stop (omega arith))

  -- After any calls to a new throttle at non-decreasing times, in which the table stays within
  -- 20,000 keys, a call is granted exactly if fewer than `limit` notices to its key have been granted
  -- within the window that ends with it.
  pub allow_at-granted :
      (allow_at (run fresh cs) stop key).1
      ≡ ltb (length (keep_after window stop (granted fresh key cs))) limit
  unfolding new_send_limiter
  allow_at-granted =
      let r = run-settings fresh cs in
      decided (run fresh cs) key (granted fresh key cs) stop stop (omega arith) reached.2 reached.0
      ∙ ap₂ (λ w n. ltb (length (keep_after w stop (granted fresh key cs))) n) r.1 r.0
