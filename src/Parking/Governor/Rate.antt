-- ===== src/Parking/Governor/Rate.antt =====
-- No schedule of calls gets more out of a bucket than its burst and its rate.
use pstonn.Prelude.{
  ℕ, ◌+◌, ◌-◌, ◌*◌, ◌≤◌, ◌≡◌, sym, ap, ◌∙◌, subst, subst₂, List, [], ◌∷◌, if◌then◌else◌, arith,
}
use pstonn.Clock.{elapsed}
use pstonn.Parking.Governor.{TokenBucket, token, refilled, try_take}

-- The number of requests that get a token, asked for at the given times.
unfoldable pub granted : TokenBucket → List ℕ → ℕ
granted tb [] = 0
granted tb (t ∷ ts) = (if (try_take tb t).1 then 1 else 0) + granted (try_take tb t).0 ts

-- The times do not run backwards, and end by `stop`.
abbrev pub Ordered : ℕ → List ℕ → ℕ → Type 0
Ordered from [] stop = from ≤ stop
Ordered from (t ∷ ts) stop = (from ≤ t) × Ordered t ts stop

Ordered-le : (from stop : ℕ) (ts : List ℕ) → Ordered from ts stop → from ≤ stop
Ordered-le from stop [] o = o
Ordered-le from stop (t ∷ ts) o = omega (arith, o.0, Ordered-le t stop ts o.1)

mul_mono : (a b p : ℕ) → a ≤ b → a * p ≤ b * p
mul_mono a b p h = grind arith

span :
    (from mid stop p : ℕ)
    → from ≤ mid
    → mid ≤ stop
    → (mid - from) * p + (stop - mid) * p ≡ (stop - from) * p
span from mid stop p h k = add_mul (mid - from) (stop - mid) p ∙ ap (λ (x : ℕ). x * p) (omega arith)
  where
    add_mul : (a b p : ℕ) → a * p + b * p ≡ (a + b) * p
    add_mul a b p = omega arith

refilled-le : (tb : TokenBucket) (t : ℕ) → refilled tb t ≤ tb.tokens + (t - tb.last) * tb.per_min
unfolding refilled
refilled-le tb t =
    ground (arith, mul_mono (elapsed t tb.last) (t - tb.last) tb.per_min (omega arith))

refilled-burst : (tb : TokenBucket) (t : ℕ) → tb.tokens ≤ tb.burst → refilled tb t ≤ tb.burst
unfolding refilled
refilled-burst tb t h = ground arith

-- A call spends what it grants out of what it finds.
try_take-balance :
    (tb : TokenBucket) (t : ℕ)
    → (if (try_take tb t).1 then 1 else 0) * token + (try_take tb t).0.tokens ≡ refilled tb t
unfolding try_take
try_take-balance tb t = ground arith

try_take-kept :
    (tb : TokenBucket) (t : ℕ)
    → ((try_take tb t).0.per_min ≡ tb.per_min)
      × ((try_take tb t).0.last ≡ t)
      × ((try_take tb t).0.burst ≡ tb.burst)
unfolding try_take
try_take-kept tb t = ground arith

granted-from :
    (tb : TokenBucket) (ts : List ℕ) (stop : ℕ)
    → Ordered tb.last ts stop
    → granted tb ts * token ≤ tb.tokens + (stop - tb.last) * tb.per_min
unfolding granted
granted-from tb [] stop o = omega arith
granted-from tb (t ∷ ts) stop o =
    let (rate, last, _) = try_take-kept tb t in
    let rest =
      granted-from (try_take tb t).0 ts stop (subst (λ f. Ordered f ts stop) (sym last) o.1) in
    let rest' =
      subst₂
        (λ (f p : ℕ).
          granted (try_take tb t).0 ts * token ≤ (try_take tb t).0.tokens + (stop - f) * p)
        last rate rest in
    omega (
      arith,
      rest',
      try_take-balance tb t,
      refilled-le tb t,
      span tb.last t stop tb.per_min o.0 (Ordered-le t stop ts o.1),
    )

-- A bucket that holds at most its burst grants, to calls at non-decreasing times between `from` and
-- `stop`, at most its burst and what accrues over the stretch.
pub rate_ceiling :
    (tb : TokenBucket) (ts : List ℕ) (from stop : ℕ)
    → tb.tokens ≤ tb.burst
    → Ordered from ts stop
    → granted tb ts * token ≤ tb.burst + (stop - from) * tb.per_min
unfolding granted
rate_ceiling tb [] from stop h o = omega arith
rate_ceiling tb (t ∷ ts) from stop h o =
    let (rate, last, _) = try_take-kept tb t in
    let rest =
      granted-from (try_take tb t).0 ts stop (subst (λ f. Ordered f ts stop) (sym last) o.1) in
    let rest' =
      subst₂
        (λ (f p : ℕ).
          granted (try_take tb t).0 ts * token ≤ (try_take tb t).0.tokens + (stop - f) * p)
        last rate rest in
    omega (
      arith,
      rest',
      try_take-balance tb t,
      refilled-burst tb t h,
      mul_mono (stop - t) (stop - from) tb.per_min (omega (arith, o.0)),
    )

-- A call keeps the tokens within the burst, so that the ceiling holds after any calls.
pub try_take_within :
    (tb : TokenBucket) (t : ℕ)
    → tb.tokens ≤ tb.burst
    → (try_take tb t).0.tokens ≤ (try_take tb t).0.burst
try_take_within tb t h =
    omega (arith, try_take-balance tb t, refilled-burst tb t h, try_take-kept tb t)
