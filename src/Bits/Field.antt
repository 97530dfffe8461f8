-- ===== src/Bits/Field.antt =====
-- Masks of a field of bits, and the arithmetic shift to the right.
use native.Mathlib.Nat.{pow-suc}
use tauos.Base.{
  ℕ, zero, suc, ◌+◌, ◌-◌, ◌*◌, ◌/◌, ◌%◌, ◌^◌, ◌<◌, bit_and, bit_or, ◌≡◌, refl, ap, ◌∙◌, arith, ltb,
  if◌then◌else◌,
}
use tauos.Bits.{modulus, not64}
use native.Mathlib.Decide.{dec_lt}
use tauos.Bits.Step.{and_step, or_step}
use tauos.Bits.Digits.{
  test_bit-and, test_bit-not, test_bit-lt, test_bit-zero, test_bit-above, test_bit_ext,
}
use tauos.Bits.Masks.{and_low, div-div-pow, or_fields, or_comm}

-- `x >> k` on the `isize` value of a word.
abbrev pub asr : ℕ → ℕ → ℕ
asr x k =
    if ltb x (2 ^ 63) then x / 2 ^ (k % 64) else x / 2 ^ (k % 64) + (modulus - 2 ^ (64 - k % 64))

-- `a & m` for the mask `m` of the `j` bits from bit `k` on.
pub and_field : (k j a : ℕ) → bit_and a (2 ^ (k + j) - 2 ^ k) ≡ a / 2 ^ k % 2 ^ j * 2 ^ k
and_field zero j a =
    let e : zero + j ≡ j = omega arith in
    rw e (and_low j a ∙ ap (λ (t : ℕ). t % 2 ^ j) {y = a / 2 ^ zero} (omega arith) ∙ omega arith)
and_field (suc k) j a =
    let e : suc k + j ≡ suc (k + j) = omega arith in
    let half : (2 ^ suc (k + j) - 2 ^ suc k) / 2 ≡ 2 ^ (k + j) - 2 ^ k =
      omega (arith, pow-suc 2 (k + j), pow-suc 2 k) in
    let step = and_step a (2 ^ suc (k + j) - 2 ^ suc k) in
    rw e (
      omega (
        arith,
        rw half at step,
        and_field k j (a / 2),
        ap (λ (t : ℕ). t % 2 ^ j * 2 ^ k) (div-div-pow a k),
        ap (λ (t : ℕ). a / 2 ^ suc k % 2 ^ j * t) (pow-suc 2 k),
        pow-suc 2 (k + j),
        pow-suc 2 k,
      ))

-- A mask and its complement share out the bits.
pub and_complement :
    (w a m : ℕ) → a < 2 ^ w → m < 2 ^ w → bit_and a (2 ^ w - 1 - m) + bit_and a m ≡ a
and_complement zero a m p q =
    let ea : a ≡ 0 = omega arith in let em : m ≡ 0 = omega arith in rw (ea, em) refl
and_complement (suc w) a m p q =
    let half : (2 ^ suc w - 1 - m) / 2 ≡ 2 ^ w - 1 - m / 2 = omega (arith, pow-suc 2 w) in
    let step = and_step a (2 ^ suc w - 1 - m) in
    omega (
      arith,
      rw half at step,
      and_step a m,
      and_complement w (a / 2) (m / 2) (omega (arith, pow-suc 2 w)) (omega (arith, pow-suc 2 w)),
      pow-suc 2 w,
    )

-- An or and an and together have the bits of both.
pub or_and : (w a b : ℕ) → a < 2 ^ w → b < 2 ^ w → bit_or a b + bit_and a b ≡ a + b
or_and zero a b p q =
    let ea : a ≡ 0 = omega arith in let eb : b ≡ 0 = omega arith in rw (ea, eb) refl
or_and (suc w) a b p q = omega (
  arith,
  or_step a b,
  and_step a b,
  or_and w (a / 2) (b / 2) (omega (arith, pow-suc 2 w)) (omega (arith, pow-suc 2 w)),
)

-- A masked value and one masked by the complement have no bit in common.
pub and_apart :
    (m a b : ℕ) → m < modulus → a < modulus → bit_and (bit_and a (not64 m)) (bit_and b m) ≡ 0
and_apart m a b l la = test_bit_ext _ _ λ i. elim (dec_lt i 64) [
  | yes p ↦ omega (
    arith,
    test_bit-and (bit_and a (not64 m)) (bit_and b m) i,
    test_bit-and a (not64 m) i,
    test_bit-and b m i,
    test_bit-not m i l p,
    test_bit-lt m i,
    test_bit-zero i,
  )
  | no p ↦ omega (
    arith,
    test_bit-and (bit_and a (not64 m)) (bit_and b m) i,
    test_bit-and a (not64 m) i,
    test_bit-above 64 a i la (omega arith),
    test_bit-zero i,
  )
]

-- A field put above what is there already.
pub join_field : (k q r : ℕ) → r < 2 ^ k → bit_or r (q * 2 ^ k) ≡ q * 2 ^ k + r
join_field k q r l = or_comm r (q * 2 ^ k) ∙ or_fields k q r l
