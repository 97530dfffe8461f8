-- ===== src/Bits/Pow.antt =====
-- Powers of two as units: sums of exponents, rounding down, and multiples.
use native.Mathlib.Nat.{
  pow-suc, one-le-pow, le-div_iff_mul-le, div-mul-le_self, lt-div-mul-add, mul-le-mul_right,
}
use tauos.Base.{ℕ, zero, suc, ◌+◌, ◌*◌, ◌/◌, ◌^◌, ◌≤◌, ◌<◌, ◌≡◌, ap, arith}

pub pow-pos : (k : ℕ) → 0 < 2 ^ k
pow-pos k = one-le-pow k 2 (omega arith)

pub pow_add : (a b : ℕ) → 2 ^ (a + b) ≡ 2 ^ a * 2 ^ b
pow_add zero b = let e : zero + b ≡ b = omega arith in rw e (omega arith)
pow_add (suc a) b =
    let e : suc a + b ≡ suc (a + b) = omega arith in
    rw e (omega (arith, pow-suc 2 (a + b), ap (λ (t : ℕ). t * 2 ^ b) (pow-suc 2 a), pow_add a b))

-- The largest multiple of `2 ^ k` that is not above `x`.
abbrev pub down : ℕ → ℕ → ℕ
down k x = x / 2 ^ k * 2 ^ k

pub down-le : (k x : ℕ) → down k x ≤ x
down-le k x = div-mul-le_self x (2 ^ k)

pub lt-down : (k x : ℕ) → x < down k x + 2 ^ k
lt-down k x = lt-div-mul-add (pow-pos k)

-- A coarser unit rounds further down.
pub down_anti : (i d x : ℕ) → down (i + d) x ≤ down i x
down_anti i d x =
    let q = x / 2 ^ (i + d) in
    let e : q * 2 ^ d * 2 ^ i ≡ q * 2 ^ (i + d) =
      omega (arith, ap (λ (t : ℕ). q * t) (pow_add i d)) in
    let below : q * 2 ^ d ≤ x / 2 ^ i =
      (le-div_iff_mul-le (pow-pos i)).1 (rw e (down-le (i + d) x)) in
    omega (arith, mul-le-mul_right (2 ^ i) below)
