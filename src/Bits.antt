-- ===== src/Bits.antt =====
-- Machine words of 64 bits and bytes: the operators that the source applies to `usize`, `isize`
-- and `u8`. A word is a number below 2 ^ 64. Arithmetic wraps around; a shift takes its distance
-- modulo the width, as compiled code does (the overflow checks of a debug build panic instead,
-- and the theorems stay within the ranges where none of them fires).
pub mod Step
pub mod Digits
pub mod Masks
pub mod Pow
pub mod Top
pub mod Field
pub mod Table
use tauos.Base.{ℕ, ◌+◌, ◌-◌, ◌*◌, ◌/◌, ◌%◌, ◌^◌, Bool, ltb, leb}

abbrev pub modulus : ℕ
modulus = 2 ^ 64

abbrev pub wrap : ℕ → ℕ
wrap n = n % modulus

abbrev pub add64 : ℕ → ℕ → ℕ
add64 a b = wrap (a + b)

abbrev pub sub64 : ℕ → ℕ → ℕ
sub64 a b = wrap (a + modulus - b)

infixl 60 ◌<<◌ ◌>>>◌
abbrev pub ◌<<◌ : ℕ → ℕ → ℕ
x << k = wrap (x * 2 ^ (k % 64))

abbrev pub ◌>>>◌ : ℕ → ℕ → ℕ
x >>> k = x / 2 ^ (k % 64)

-- `!x`
abbrev pub not64 : ℕ → ℕ
not64 x = modulus - 1 - x

-- `a < b` and `a <= b` on the `isize` values of two words.
abbrev pub signed_lt : ℕ → ℕ → Bool
signed_lt a b = ltb (wrap (a + 2 ^ 63)) (wrap (b + 2 ^ 63))

abbrev pub signed_le : ℕ → ℕ → Bool
signed_le a b = leb (wrap (a + 2 ^ 63)) (wrap (b + 2 ^ 63))
