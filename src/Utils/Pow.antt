-- ===== src/Utils/Pow.antt =====
-- `fast_non0_prev_pow2` and `fast_non0_next_pow2` of kernel/src/utils/mod.rs.
use native.Mathlib.Nat.{pow-suc, one-le-pow, mod-eq_of_lt}
use native.Mathlib.Decide.{dec_le}
use tauos.Base.{ℕ, zero, suc, ◌-◌, ◌*◌, ◌%◌, ◌^◌, ◌≤◌, ◌<◌, bit_or, max, ◌≡◌, refl, ap, ◌∙◌, arith}
use tauos.Bits.{modulus, ◌<<◌, sub64}
use tauos.Bits.Digits.{pow-le}
use tauos.Bits.Masks.{le-or_left, or_comm, or-lt}
use tauos.Utils.{fast_non0_prev_pow2, fast_non0_next_pow2}
use tauos.Utils.Log.{IsTop, log2-top, IsTop-exists, leading_zeros-top}

pub pow-lt-modulus : (k : ℕ) → k < 64 → 2 ^ k < modulus
pow-lt-modulus k l = omega (arith, pow-le (suc k) 64 l, pow-suc 2 k, one-le-pow k 2)

pub one-shl : (k : ℕ) → k < 64 → (1 << k) ≡ 2 ^ k
one-shl k l =
    rw (mod-eq_of_lt l)
      (ap (λ (t : ℕ). t % modulus) (omega arith) ∙ mod-eq_of_lt (pow-lt-modulus k l))

pub lt_of_pow-lt : (a b : ℕ) → 2 ^ a < 2 ^ b → a < b
lt_of_pow-lt a b h = elim (dec_le b a) [
  | yes p ↦ absurd (omega (arith, pow-le b a p))
  | no p ↦ omega arith
]

pub prev_pow2-top : (k n : ℕ) → k < 64 → IsTop k n → fast_non0_prev_pow2 n ≡ 2 ^ k
unfolding fast_non0_prev_pow2
prev_pow2-top k n l h = rw (log2-top k n l h) (one-shl k l)

-- For every nonzero usize, fast_non0_prev_pow2 is a power of two, at most the value, and twice it
-- is above the value.
pub prev_pow2_bounds :
    (n : ℕ)
    → 0 < n
    → n < modulus
    → (k : ℕ) × (k < 64) × (fast_non0_prev_pow2 n ≡ 2 ^ k) × (2 ^ k ≤ n) × (n < 2 * 2 ^ k)
prev_pow2_bounds n p h =
    let (k, l, top) = IsTop-exists 64 n p h in
    (k, l, prev_pow2-top k n l top, top.0, omega (arith, top.1, pow-suc 2 k))

-- `n` lies above half of `2 ^ k`, and not above it.
abbrev pub IsCeil : ℕ → ℕ → Type 0
IsCeil k n = (n ≤ 2 ^ k) × (2 ^ k < 2 * n)

pub IsCeil-exists : (n : ℕ) → 0 < n → n ≤ 2 ^ 63 → (k : ℕ) × (k < 64) × IsCeil k n
IsCeil-exists zero p h = absurd (omega arith)
IsCeil-exists (suc zero) p h = (0, omega arith, (omega arith, omega arith))
IsCeil-exists (suc (suc n)) p h =
    let (k, l, (lo, hi)) = IsTop-exists 63 (suc n) (omega arith) (omega arith) in
    (suc k, omega arith, (omega arith, omega (arith, pow-suc 2 k)))

pub next_pow2-ceil : (k n : ℕ) → 0 < n → k < 64 → IsCeil k n → fast_non0_next_pow2 n ≡ 2 ^ k
unfolding fast_non0_next_pow2
next_pow2-ceil zero n p l h = let e : n ≡ 1 = omega arith in rw e refl
next_pow2-ceil (suc k) n p l h =
    let e : sub64 n 1 ≡ n - 1 = omega (arith, pow-lt-modulus (suc k) l) in
    let top : IsTop k (n - 1) =
      (omega (arith, pow-suc 2 k), omega (arith, pow-suc 2 k, one-le-pow k 2)) in
    let s : 64 - (63 - k) ≡ suc k = omega arith in
    rw (e, leading_zeros-top k (n - 1) (omega arith) top, s) (one-shl (suc k) l)

-- For a nonzero value of at most 2 ^ 63, fast_non0_next_pow2 is the least power of two that is not
-- below the value.
pub next_pow2_least :
    (n : ℕ)
    → 0 < n
    → n ≤ 2 ^ 63
    → (k : ℕ) × (k < 64)
      × (fast_non0_next_pow2 n ≡ 2 ^ k)
      × (n ≤ 2 ^ k)
      × ((j : ℕ) → n ≤ 2 ^ j → k ≤ j)
next_pow2_least n p h =
    let (k, l, c) = IsCeil-exists n p h in
    (
      k,
      l,
      next_pow2-ceil k n p l c,
      c.0,
      λ j le. elim (dec_le k j) [
        | yes q ↦ q
        | no q ↦ absurd (omega (arith, c.1, pow-le (suc j) k (omega arith), pow-suc 2 j))
      ],
    )

-- The top bit of an or is the higher of the two.
pub IsTop-or : (a b x y : ℕ) → IsTop a x → IsTop b y → IsTop (max a b) (bit_or x y)
IsTop-or a b x y p q = elim (dec_le a b) [
  | yes l ↦
      let e : max a b ≡ b = omega arith in
      let above = le-or_left y x in
      rw e (
        omega (arith, rw or_comm at above),
        or-lt (suc b) x y (omega (arith, pow-le (suc a) (suc b) (omega arith))) q.1,
      )
  | no l ↦
      let e : max a b ≡ a = omega arith in
      rw e (
        omega (arith, le-or_left x y),
        or-lt (suc a) x y p.1 (omega (arith, pow-le (suc b) (suc a) (omega arith))),
      )
]

pub IsTop-pow : (k : ℕ) → IsTop k (2 ^ k)
IsTop-pow k = (omega arith, omega (arith, pow-suc 2 k, one-le-pow k 2))
