-- ===== src/Talloc/Flags.antt =====
-- The bitmap of `Talloc` as a function from offsets to bits: `read_bitflag` and `toggle_bitflag`.
use native.Mathlib.Nat.{pow-suc, one-le-pow, mod-eq_of_lt}
use tauos.Base.{
  ℕ, ◌-◌, ◌*◌, ◌/◌, ◌%◌, ◌^◌, ◌<◌, suc, ◌≡◌, bit_and, List, arith, ◌∙◌, ◌==◌, if◌then◌else◌, get_or,
  length, length-set, get_or-set_self, get_or-set_ne, Bool-cases, inl, inr,
}
use tauos.Bits.Digits.{test_bit, test_bit-lt, pow-le}
use tauos.Bits.Masks.{and_low, and_pow, test_bit-toggle}
use tauos.Talloc.{bit_mask, read_bitflag, toggle_bitflag}

-- The bit at an offset, 0 or 1.
unfoldable pub flag : List ℕ → ℕ → ℕ
flag bitmap o = test_bit (get_or bitmap (o / 8) 0) (o % 8)

pub flag-lt : (bitmap : List ℕ) (o : ℕ) → flag bitmap o < 2
unfolding flag
flag-lt bitmap o = test_bit-lt _ (o % 8)

bit_mask-eq : (o : ℕ) → bit_mask o ≡ 2 ^ (o % 8)
bit_mask-eq o =
    let low : bit_and o (8 - 1) ≡ o % 8 = and_low 3 o in
    rw low (
      mod-eq_of_lt (
        omega
          (arith, pow-le (suc (o % 8)) 8 (omega arith), pow-suc 2 (o % 8), one-le-pow (o % 8) 2)))

-- `read_bitflag` is true exactly where the bit is 1.
pub read_bitflag-flag : (bitmap : List ℕ) (o : ℕ) → read_bitflag bitmap o ≡ (flag bitmap o == 1)
unfolding read_bitflag flag
read_bitflag-flag bitmap o =
    rw (bit_mask-eq o, and_pow (o % 8) (get_or bitmap (o / 8) 0))
      (ground (arith, one-le-pow (o % 8) 2, test_bit-lt (get_or bitmap (o / 8) 0) (o % 8)))

pub length-toggle : (bitmap : List ℕ) (o : ℕ) → length (toggle_bitflag bitmap o) ≡ length bitmap
unfolding toggle_bitflag
length-toggle bitmap o = length-set bitmap _ _

-- For an offset inside the bitmap, toggle_bitflag inverts the bit at that offset and leaves every
-- other bit as it was.
pub flag-toggle :
    (bitmap : List ℕ) (o p : ℕ)
    → o < 8 * length bitmap
    → flag (toggle_bitflag bitmap o) p ≡ (if o == p then 1 - flag bitmap p else flag bitmap p)
unfolding toggle_bitflag flag
flag-toggle bitmap o p h = rw (bit_mask-eq o) (elim (Bool-cases (o / 8 == p / 8)) [
  | inl same ↦
      let e : o / 8 ≡ p / 8 = ground arith in
      rw (← e, get_or-set_self bitmap (o / 8) _ 0 (omega arith))
        (test_bit-toggle _ (o % 8) (p % 8) ∙ ground arith)
  | inr differ ↦ rw (get_or-set_ne bitmap (o / 8) (p / 8) _ 0 (ground arith)) (ground arith)
])
