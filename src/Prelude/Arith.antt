-- ===== src/Prelude/Arith.antt =====
-- Remainders by a variable modulus, and powers with a cap.
use Prim.Native.Nat.{ℕ, zero, suc, ◌+◌, ◌-◌, ◌*◌, ◌/◌, ◌%◌, ◌^◌, ◌<◌, ◌≤◌, min}
use mathlib.Core.Logic.{inl, inr}
use pstonn.Prelude.Tests.{leb, leb→le, leb_false→lt, Bool-cases}
use mathlib.Core.Path.{◌≡◌, sym, ap, ◌∙◌}
use native.Mathlib.Nat.{
  mod-add-mod, add-mul-mod_self_right, mod-eq_of_lt, min-eq_left, min-eq_right, mul-le-mul_left,
  div-le_of_le-mul, pow-le-pow_right,
}
use native.Mathlib.Omega.{arith}

regroup : (n x a : ℕ) → 0 < n → x + a + (a * n - a) ≡ x + a * n
regroup zero x a h = elim h [ ]
regroup (suc n) x a h = omega arith

mod-regroup : (n x a : ℕ) → 0 < n → (x + a + (a * n - a)) % n ≡ (x + a * n) % n
mod-regroup n x a h = ap (λ t. t % n) (regroup n x a h)

-- Adding `a` and then what completes `a` to a multiple of `n` changes no remainder.
mod_complete : (n x a : ℕ) → 0 < n → ((x + a) % n + (a * n - a)) % n ≡ x % n
mod_complete n x a h =
    mod-add-mod (x + a) n (a * n - a) ∙ mod-regroup n x a h ∙ add-mul-mod_self_right x a n

pub mod-cancel : (n a x y : ℕ) → 0 < n → (x + a) % n ≡ (y + a) % n → x % n ≡ y % n
mod-cancel n a x y h e =
    sym (mod_complete n x a h) ∙ ap (λ t. (t + (a * n - a)) % n) e ∙ mod_complete n y a h

-- A remainder is determined by its bound and by its class.
pub mod_unique : (n a x y : ℕ) → x < n → y < n → (x + a) % n ≡ (y + a) % n → x ≡ y
mod_unique n a x y hx hy e =
    sym (mod-eq_of_lt hx) ∙ mod-cancel n a x y (omega arith) e ∙ mod-eq_of_lt hy

-- Remainders that agree still agree after `k` more.
pub mod-shift : (n x y k : ℕ) → x % n ≡ y % n → (x + k) % n ≡ (y + k) % n
mod-shift n x y k e = sym (mod-add-mod x n k) ∙ ap (λ t. (t + k) % n) e ∙ mod-add-mod y n k

-- A cap on the number of factors never shows below a bound that the capped power reaches.
pub capped_pow :
    (a b k c m : ℕ) → 0 < b → m ≤ a * b ^ c → min (a * b ^ min k c) m ≡ min (a * b ^ k) m
capped_pow a b k c m h reach = elim (Bool-cases (leb k c)) [
  | inl few ↦ ap (λ i. min (a * b ^ i) m) (min-eq_left (leb→le k c few))
  | inr many ↦
      let more : c ≤ k = omega (arith, leb_false→lt k c many) in
      let grows : a * b ^ c ≤ a * b ^ k = mul-le-mul_left a (pow-le-pow_right h more) in
      ap (λ i. min (a * b ^ i) m) (min-eq_right more) ∙ omega (arith, grows)
]

-- A fraction of a number that is at most one.
pub scaled_le : (a b c : ℕ) → b ≤ c → a * b / c ≤ a
scaled_le a b c h =
    let grows : a * b ≤ a * c = mul-le-mul_left a h in div-le_of_le-mul c (omega (arith, grows))
