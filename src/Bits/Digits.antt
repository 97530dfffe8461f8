-- ===== src/Bits/Digits.antt =====
-- Bit `i` of a number, and what each operation of a word does to it.
use tauos.Base.{
  ℕ, zero, suc, ◌+◌, ◌-◌, ◌/◌, ◌%◌, ◌^◌, ◌≤◌, ◌<◌, min, max, bit_and, bit_or, bit_xor, ◌≡◌, refl,
  ◌∙◌, arith, ◌==◌, if◌then◌else◌,
}
use tauos.Bits.{modulus, not64}
use tauos.Bits.Step.{or_step, and_step, xor_step}
use native.Mathlib.Nat.{pow-suc, one-le-pow}

-- bit `i` of `n`, 0 or 1
unfoldable pub test_bit : ℕ → ℕ → ℕ
test_bit n zero = n % 2
test_bit n (suc i) = test_bit (n / 2) i

pub test_bit-lt : (n i : ℕ) → test_bit n i < 2
unfolding test_bit
test_bit-lt n zero = omega arith
test_bit-lt n (suc i) = test_bit-lt (n / 2) i

pub test_bit-or : (a b i : ℕ) → test_bit (bit_or a b) i ≡ max (test_bit a i) (test_bit b i)
unfolding test_bit
test_bit-or a b zero = omega (arith, or_step a b)
test_bit-or a b (suc i) =
    let half : bit_or a b / 2 ≡ bit_or (a / 2) (b / 2) = omega (arith, or_step a b) in
    rw half (test_bit-or (a / 2) (b / 2) i)

pub test_bit-and : (a b i : ℕ) → test_bit (bit_and a b) i ≡ min (test_bit a i) (test_bit b i)
unfolding test_bit
test_bit-and a b zero = omega (arith, and_step a b)
test_bit-and a b (suc i) =
    let half : bit_and a b / 2 ≡ bit_and (a / 2) (b / 2) = omega (arith, and_step a b) in
    rw half (test_bit-and (a / 2) (b / 2) i)

pub test_bit-xor : (a b i : ℕ) → test_bit (bit_xor a b) i ≡ (test_bit a i + test_bit b i) % 2
unfolding test_bit
test_bit-xor a b zero = omega (arith, xor_step a b)
test_bit-xor a b (suc i) =
    let half : bit_xor a b / 2 ≡ bit_xor (a / 2) (b / 2) = omega (arith, xor_step a b) in
    rw half (test_bit-xor (a / 2) (b / 2) i)

pub test_bit-zero : (i : ℕ) → test_bit 0 i ≡ 0
unfolding test_bit
test_bit-zero zero = refl
test_bit-zero (suc i) = test_bit-zero i

half_pow : (k : ℕ) → 2 ^ suc k / 2 ≡ 2 ^ k
half_pow k = omega (arith, pow-suc 2 k)

pub test_bit-pow : (k i : ℕ) → test_bit (2 ^ k) i ≡ (if k == i then 1 else 0)
unfolding test_bit
test_bit-pow zero zero = refl
test_bit-pow zero (suc i) = ground (arith, test_bit-zero i)
test_bit-pow (suc k) zero = ground (arith, pow-suc 2 k)
test_bit-pow (suc k) (suc i) = rw half_pow (test_bit-pow k i ∙ ground arith)

-- The complement below 2 ^ w.
pub test_bit-complement :
    (w n i : ℕ) → n < 2 ^ w → i < w → test_bit (2 ^ w - 1 - n) i ≡ 1 - test_bit n i
unfolding test_bit
test_bit-complement zero n i h l = absurd (omega arith)
test_bit-complement (suc w) n zero h l = omega (arith, pow-suc 2 w, one-le-pow w 2)
test_bit-complement (suc w) n (suc i) h l =
    let half : (2 ^ suc w - 1 - n) / 2 ≡ 2 ^ w - 1 - n / 2 =
      omega (arith, pow-suc 2 w, one-le-pow w 2) in
    rw half (test_bit-complement w (n / 2) i (omega (arith, pow-suc 2 w)) (omega arith))

pub test_bit-not : (n i : ℕ) → n < modulus → i < 64 → test_bit (not64 n) i ≡ 1 - test_bit n i
test_bit-not n i h l = test_bit-complement 64 n i h l

-- No bit at or above `k` is set exactly below 2 ^ k.
pub test_bit-above : (k n i : ℕ) → n < 2 ^ k → k ≤ i → test_bit n i ≡ 0
unfolding test_bit
test_bit-above zero n i h l = let e : n ≡ 0 = omega arith in rw e (test_bit-zero i)
test_bit-above (suc k) n zero h l = absurd (omega arith)
test_bit-above (suc k) n (suc i) h l =
    test_bit-above k (n / 2) i (omega (arith, pow-suc 2 k)) (omega arith)

-- Two numbers with the same bits are equal.
test_bit_ext_below :
    (k a b : ℕ) → a < 2 ^ k → b < 2 ^ k → ((i : ℕ) → test_bit a i ≡ test_bit b i) → a ≡ b
unfolding test_bit
test_bit_ext_below zero a b p q h = omega arith
test_bit_ext_below (suc k) a b p q h = omega (
  arith,
  h 0,
  test_bit_ext_below k (a / 2) (b / 2) (omega (arith, pow-suc 2 k)) (omega (arith, pow-suc 2 k))
      (λ i. h (suc i)),
)

pub lt-pow : (n : ℕ) → n < 2 ^ n
lt-pow zero = omega arith
lt-pow (suc n) = omega (arith, pow-suc 2 n, lt-pow n)

pub pow-le : (a b : ℕ) → a ≤ b → 2 ^ a ≤ 2 ^ b
pow-le zero b h = omega (arith, one-le-pow b 2)
pow-le (suc a) zero h = absurd (omega arith)
pow-le (suc a) (suc b) h = omega (arith, pow-suc 2 a, pow-suc 2 b, pow-le a b (omega arith))

pub test_bit_ext : (a b : ℕ) → ((i : ℕ) → test_bit a i ≡ test_bit b i) → a ≡ b
test_bit_ext a b h =
    test_bit_ext_below (a + b) a b (omega (arith, lt-pow a, pow-le a (a + b) (omega arith)))
      (omega (arith, lt-pow b, pow-le b (a + b) (omega arith))) h
