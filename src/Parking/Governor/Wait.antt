-- ===== src/Parking/Governor/Wait.antt =====
-- A refused request is told a wait that is long enough, and not too long.
use pstonn.Prelude.{
  ℕ, suc, ◌+◌, ◌-◌, ◌*◌, ◌/◌, ◌≤◌, ◌<◌, ◌≡◌, sym, ap, subst₂, ◌∙◌, true, false, min, arith,
}
use native.Mathlib.Nat.{div-add-mod, mod-lt, div-le_self}
use pstonn.Clock.{elapsed}
use pstonn.Parking.Governor.{TokenBucket, token, refilled, try_take}

wait-eq :
    (tb : TokenBucket) (now : ℕ)
    → 0 < tb.per_min
    → (try_take tb now).1 ≡ false
    → ((try_take tb now).2 ≡ (token - refilled tb now) / tb.per_min)
      × ((try_take tb now).0.tokens ≡ refilled tb now)
      × ((try_take tb now).0.last ≡ now)
      × ((try_take tb now).0.per_min ≡ tb.per_min)
      × ((try_take tb now).0.burst ≡ tb.burst)
unfolding try_take
wait-eq tb now p h = ground arith

enough : (need p : ℕ) → 0 < p → need ≤ suc (need / p) * p
enough need p h = grind (arith, div-add-mod need p, mod-lt need h)

take_ok : (tb : TokenBucket) (t : ℕ) → token ≤ refilled tb t → (try_take tb t).1 ≡ true
unfolding try_take
take_ok tb t h = ground arith

refilled-eq :
    (tb : TokenBucket) (t : ℕ)
    → 0 < tb.last
    → tb.last < t
    → refilled tb t ≡ min tb.burst (tb.tokens + elapsed t tb.last * tb.per_min)
unfolding refilled
refilled-eq tb t h k = ground arith

elapsed-eq : (now w : ℕ) → w ≤ token → elapsed (now + w + 1) now ≡ suc w
elapsed-eq now w h = omega arith

-- The bucket that a refusal leaves, asked again at the end of the wait `w`.
refilled-after :
    (tb : TokenBucket) (now w need : ℕ)
    → tb.last ≡ now
    → 0 < now
    → w ≤ token
    → need ≤ suc w * tb.per_min
    → min tb.burst (tb.tokens + need) ≤ refilled tb (now + w + 1)
refilled-after tb now w need e pos h k =
    let r = refilled-eq tb (now + w + 1) (omega arith) (omega arith) in
    let d = ap (λ x. elapsed (now + w + 1) x) e ∙ elapsed-eq now w h in
    omega (arith, r, ap (λ x. x * tb.per_min) d)

-- For a bucket with a rate and room for a token, asked after the zero Time: a refusal names a wait,
-- and a caller that asks again one nanosecond after it is granted a token.
pub try_take_after_wait :
    (tb : TokenBucket) (now : ℕ)
    → 0 < now
    → 0 < tb.per_min
    → token ≤ tb.burst
    → (try_take tb now).1 ≡ false
    → (try_take (try_take tb now).0 (now + (try_take tb now).2 + 1)).1 ≡ true
try_take_after_wait tb now pos p b h =
    let (w, tokens, last, rate, burst) = wait-eq tb now p h in
    let need = token - refilled tb now in
    let short =
      subst₂ (λ (x y : ℕ). need ≤ suc x * y) (sym w) (sym rate) (enough need tb.per_min p) in
    let bound = div-le_self need tb.per_min in
    let r =
      refilled-after (try_take tb now).0 now (try_take tb now).2 need last pos
        (omega (arith, w, bound)) short in
    take_ok (try_take tb now).0 (now + (try_take tb now).2 + 1) (omega (arith, r, tokens, burst))
