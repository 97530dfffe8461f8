-- ===== src/Utils.antt =====
-- kernel/src/utils/mod.rs: logarithms and powers of two of a `usize`, by the counts of leading and
-- trailing zero bits that the language provides.
pub mod Log
pub mod Pow
pub mod Trailing
pub mod Copy
pub mod Examples
use tauos.Base.{ℕ, zero, suc, ◌+◌, ◌-◌, ◌/◌, ◌%◌, bit_xor, true, false, ◌==◌}
use tauos.Bits.{◌<<◌, sub64}

-- The number of binary digits, at most the fuel.
pub bit_length : ℕ → ℕ → ℕ
bit_length zero n = 0
bit_length (suc f) n = elim (n == 0) [ true ↦ 0 | false ↦ suc (bit_length f (n / 2)) ]

-- `usize::leading_zeros`
unfoldable pub leading_zeros : ℕ → ℕ
unfolding bit_length
leading_zeros n = 64 - bit_length 64 n

-- The number of trailing zero bits, at most the fuel.
pub low_zeros : ℕ → ℕ → ℕ
low_zeros zero n = 0
low_zeros (suc f) n = elim (n % 2 == 0) [ true ↦ suc (low_zeros f (n / 2)) | false ↦ 0 ]

-- `usize::trailing_zeros`
unfoldable pub trailing_zeros : ℕ → ℕ
unfolding low_zeros
trailing_zeros n = low_zeros 64 n

-- `usize::BITS - 1 ^ val.leading_zeros()`; `-` binds tighter than `^`.
unfoldable pub fast_non0_log2 : ℕ → ℕ
unfolding leading_zeros
fast_non0_log2 val = bit_xor (64 - 1) (leading_zeros val)

unfoldable pub fast_non0_prev_pow2 : ℕ → ℕ
fast_non0_prev_pow2 val = 1 << fast_non0_log2 val

unfoldable pub fast_non0_next_pow2 : ℕ → ℕ
unfolding leading_zeros
fast_non0_next_pow2 val = 1 << (64 - leading_zeros (sub64 val 1))
