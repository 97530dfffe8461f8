-- ===== src/Utils/Trailing.antt =====
-- What `trailing_zeros` counts.
use tauos.Base.{
  ℕ, zero, suc, ◌+◌, ◌*◌, ◌/◌, ◌%◌, ◌^◌, ◌<◌, ◌≡◌, ap, arith, ◌==◌, inl, inr, Bool-cases,
}
use tauos.Bits.{modulus}
use tauos.Utils.{low_zeros, trailing_zeros}
use native.Mathlib.Nat.{pow-suc}

-- `n` is an odd multiple of `2 ^ k`.
abbrev pub OddMultiple : ℕ → ℕ → Type 0
OddMultiple k n = (m : ℕ) × (n ≡ (2 * m + 1) * 2 ^ k)

low_zeros_lem : (f n : ℕ) → 0 < n → n < 2 ^ f → OddMultiple (low_zeros f n) n × (low_zeros f n < f)
unfolding low_zeros
low_zeros_lem zero n p h = absurd (omega arith)
low_zeros_lem (suc f) n p h = elim (Bool-cases (n % 2 == 0)) [
  | inl even ↦
      let ((m, e), l) = low_zeros_lem f (n / 2) (ground arith) (omega (arith, pow-suc 2 f)) in
      rw (even, low_zeros)
        (
          (m, ground (arith, ap (λ (t : ℕ). (2 * m + 1) * t) (pow-suc 2 (low_zeros f (n / 2))))),
          omega arith,
        )
  | inr odd ↦ rw (odd, low_zeros) ((n / 2, ground arith), omega arith)
]

-- A nonzero `usize` is an odd multiple of 2 to the count of its trailing zeros.
pub trailing_zeros_lem :
    (n : ℕ) → 0 < n → n < modulus → OddMultiple (trailing_zeros n) n × (trailing_zeros n < 64)
unfolding trailing_zeros
trailing_zeros_lem n p h = low_zeros_lem 64 n p h
