-- ===== src/Bits/Masks.antt =====
-- Masks, fields and single flags of a word, as arithmetic.
use native.Mathlib.Nat.{
  pow-suc, pow-succ', one-le-pow, div-div-eq-div-mul, div-add-mod', mod-eq_of_lt,
}
use tauos.Base.{
  ℕ, zero, suc, ◌+◌, ◌-◌, ◌*◌, ◌/◌, ◌%◌, ◌^◌, ◌≤◌, ◌<◌, bit_and, bit_or, bit_xor, ◌≡◌, sym, ap, ◌∙◌,
  arith, ◌==◌, if◌then◌else◌,
}
use native.Mathlib.Decide.{dec_lt}
use tauos.Base.Order.{strong}
use tauos.Bits.{modulus, not64}
use tauos.Bits.Step.{or_step, and_step}
use tauos.Bits.Digits.{
  test_bit, test_bit-lt, test_bit-or, test_bit-and, test_bit-xor, test_bit-pow, test_bit-not,
  test_bit-above, test_bit-zero, test_bit_ext, pow-le,
}

pub and-zero : (a : ℕ) → bit_and a 0 ≡ 0
and-zero a = test_bit_ext _ _ λ i. ground (arith, test_bit-and a 0 i, test_bit-zero i)

pub or-zero : (a : ℕ) → bit_or a 0 ≡ a
or-zero a = test_bit_ext _ _ λ i. ground (arith, test_bit-or a 0 i, test_bit-zero i)

pub zero-or : (a : ℕ) → bit_or 0 a ≡ a
zero-or a = test_bit_ext _ _ λ i. ground (arith, test_bit-or 0 a i, test_bit-zero i)

pub and_comm : (a b : ℕ) → bit_and a b ≡ bit_and b a
and_comm a b = test_bit_ext _ _ λ i. ground (arith, test_bit-and a b i, test_bit-and b a i)

pub or_comm : (a b : ℕ) → bit_or a b ≡ bit_or b a
or_comm a b = test_bit_ext _ _ λ i. ground (arith, test_bit-or a b i, test_bit-or b a i)

pub xor-xor : (a b : ℕ) → bit_xor (bit_xor a b) b ≡ a
xor-xor a b = test_bit_ext _ _ λ i.
    omega
      (arith, test_bit-xor a b i, test_bit-xor (bit_xor a b) b i, test_bit-lt a i, test_bit-lt b i)

pub div-div-pow : (a k : ℕ) → a / 2 / 2 ^ k ≡ a / 2 ^ suc k
div-div-pow a k = div-div-eq-div-mul a 2 (2 ^ k) ∙ ap (λ (t : ℕ). a / t) (sym (pow-succ' 2 k))

pub mod_half : (k a : ℕ) → a % 2 ^ suc k ≡ a / 2 % 2 ^ k * 2 + a % 2
mod_half k a = omega (
  arith,
  div-add-mod' a (2 ^ suc k),
  div-add-mod' (a / 2) (2 ^ k),
  ap (λ (t : ℕ). t * 2 ^ k) (div-div-pow a k),
  ap (λ (t : ℕ). a / 2 ^ suc k * t) (pow-suc 2 k),
)

-- `a & (2^k - 1)`
pub and_low : (k a : ℕ) → bit_and a (2 ^ k - 1) ≡ a % 2 ^ k
and_low zero a = rw and-zero (omega arith)
and_low (suc k) a =
    let half : (2 ^ suc k - 1) / 2 ≡ 2 ^ k - 1 = omega (arith, pow-suc 2 k, one-le-pow k 2) in
    let step = and_step a (2 ^ suc k - 1) in
    omega (arith, rw half at step, and_low k (a / 2), mod_half k a, pow-suc 2 k, one-le-pow k 2)

half_pow : (k : ℕ) → 2 ^ suc k / 2 ≡ 2 ^ k
half_pow k = omega (arith, pow-suc 2 k)

-- `a & m` for the mask `m` of the `j` bits from bit `k` on.
pub and_high : (k j a : ℕ) → a < 2 ^ (k + j) → bit_and a (2 ^ (k + j) - 2 ^ k) ≡ a / 2 ^ k * 2 ^ k
and_high zero j a h =
    let e : zero + j ≡ j = omega arith in
    let h' = rw e at h in rw e (and_low j a ∙ mod-eq_of_lt h' ∙ omega arith)
and_high (suc k) j a h =
    let e : suc k + j ≡ suc (k + j) = omega arith in
    let h' = rw e at h in
    let half : (2 ^ suc (k + j) - 2 ^ suc k) / 2 ≡ 2 ^ (k + j) - 2 ^ k =
      omega (arith, pow-suc 2 (k + j), pow-suc 2 k) in
    let step = and_step a (2 ^ suc (k + j) - 2 ^ suc k) in
    rw e (
      omega (
        arith,
        rw half at step,
        and_high k j (a / 2) (omega (arith, pow-suc 2 (k + j), h')),
        ap (λ (t : ℕ). t * 2 ^ k) (div-div-pow a k),
        ap (λ (t : ℕ). a / 2 ^ suc k * t) (pow-suc 2 k),
        pow-suc 2 (k + j),
        pow-suc 2 k,
      ))

-- `a & !(2^k - 1)`
pub and_not_low :
    (k a : ℕ) → k ≤ 64 → a < modulus → bit_and a (not64 (2 ^ k - 1)) ≡ a / 2 ^ k * 2 ^ k
and_not_low k a h l =
    let e : k + (64 - k) ≡ 64 = omega arith in
    let m : 2 ^ (k + (64 - k)) - 2 ^ k ≡ not64 (2 ^ k - 1) = rw e (omega (arith, one-le-pow k 2)) in
    rw (← m) (and_high k (64 - k) a (rw e l))

-- `a & (1 << k)`
pub and_pow : (k a : ℕ) → bit_and a (2 ^ k) ≡ test_bit a k * 2 ^ k
unfolding test_bit
and_pow zero a = omega (arith, and_step a 1, and-zero (a / 2))
and_pow (suc k) a =
    let step = and_step a (2 ^ suc k) in
    omega (
      arith,
      rw half_pow at step,
      pow-suc 2 k,
      and_pow k (a / 2),
      ap (λ (t : ℕ). test_bit (a / 2) k * t) (pow-suc 2 k),
    )

pub test_bit-eq-div : (n i : ℕ) → test_bit n i ≡ n / 2 ^ i % 2
unfolding test_bit
test_bit-eq-div n zero = omega arith
test_bit-eq-div n (suc i) = test_bit-eq-div (n / 2) i ∙ rw div-div-pow

pub le-or_left : (a b : ℕ) → a ≤ bit_or a b
le-or_left a = strong (λ a. (b : ℕ) → a ≤ bit_or a b) step a
  where
    step : (a : ℕ) → ((m : ℕ) → m < a → (b : ℕ) → m ≤ bit_or m b) → (b : ℕ) → a ≤ bit_or a b
    step zero ih b = omega arith
    step (suc a) ih b = omega (arith, or_step (suc a) b, ih (suc a / 2) (omega arith) (b / 2))

pub or-lt : (k a b : ℕ) → a < 2 ^ k → b < 2 ^ k → bit_or a b < 2 ^ k
or-lt zero a b p q =
    let ea : a ≡ 0 = omega arith in let eb : b ≡ 0 = omega arith in rw (ea, eb) (omega arith)
or-lt (suc k) a b p q = omega (
  arith,
  or_step a b,
  pow-suc 2 k,
  or-lt k (a / 2) (b / 2) (omega (arith, pow-suc 2 k)) (omega (arith, pow-suc 2 k)),
)

-- `(q << k) | r` is a sum when `r` fits `k` bits.
pub or_fields : (k q r : ℕ) → r < 2 ^ k → bit_or (q * 2 ^ k) r ≡ q * 2 ^ k + r
or_fields zero q r h = let e : r ≡ 0 = omega arith in rw e (or-zero _ ∙ omega arith)
or_fields (suc k) q r h = ground (
  arith,
  or_step (q * 2 ^ suc k) r,
  ap (λ (t : ℕ). q * t) (pow-suc 2 k),
  or_fields k q (r / 2) (omega (arith, pow-suc 2 k)),
)

-- Setting, clearing and toggling one flag leaves the others alone.
pub test_bit-set :
    (a k i : ℕ) → test_bit (bit_or a (2 ^ k)) i ≡ (if k == i then 1 else test_bit a i)
test_bit-set a k i = ground (arith, test_bit-or a (2 ^ k) i, test_bit-pow k i, test_bit-lt a i)

pub test_bit-toggle :
    (a k i : ℕ)
    → test_bit (bit_xor a (2 ^ k)) i ≡ (if k == i then 1 - test_bit a i else test_bit a i)
test_bit-toggle a k i = ground (arith, test_bit-xor a (2 ^ k) i, test_bit-pow k i, test_bit-lt a i)

pub test_bit-clear :
    (a k i : ℕ)
    → a < modulus
    → k < 64
    → test_bit (bit_and a (not64 (2 ^ k))) i ≡ (if k == i then 0 else test_bit a i)
test_bit-clear a k i h l =
    let small : 2 ^ k < modulus = omega (arith, pow-le (suc k) 64 l, pow-suc 2 k, one-le-pow k 2) in
    elim (dec_lt i 64) [
      | yes p ↦ ground (
        arith,
        test_bit-and a (not64 (2 ^ k)) i,
        test_bit-not (2 ^ k) i small p,
        test_bit-pow k i,
        test_bit-lt a i,
      )
      | no p ↦
          ground (arith, test_bit-and a (not64 (2 ^ k)) i, test_bit-above 64 a i h (omega arith))
    ]

pub and-le : (a b : ℕ) → bit_and a b ≤ a
and-le a = strong (λ a. (b : ℕ) → bit_and a b ≤ a) step a
  where
    step : (a : ℕ) → ((m : ℕ) → m < a → (b : ℕ) → bit_and m b ≤ m) → (b : ℕ) → bit_and a b ≤ a
    step zero ih b = omega (arith, and_comm 0 b, and-zero b)
    step (suc a) ih b = omega (arith, and_step (suc a) b, ih (suc a / 2) (omega arith) (b / 2))
