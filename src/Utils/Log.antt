-- ===== src/Utils/Log.antt =====
-- What the fast logarithms and powers of kernel/src/utils/mod.rs compute.
use native.Mathlib.Nat.{pow-suc, one-le-pow}
use tauos.Base.{
  ℕ, zero, suc, ◌-◌, ◌/◌, ◌^◌, ◌≤◌, ◌<◌, bit_xor, ◌≡◌, refl, ◌∙◌, Bool, true, ◌&&◌, arith, ◌==◌,
  inl, inr, Bool-cases, ltb,
}
use tauos.Bits.{modulus}
use tauos.Utils.{bit_length, leading_zeros, fast_non0_log2}

-- `2 ^ k ≤ n < 2 ^ (k + 1)`: the top bit of `n` is bit `k`.
abbrev pub IsTop : ℕ → ℕ → Type 0
IsTop k n = (2 ^ k ≤ n) × (n < 2 ^ suc k)

bit_length-top : (f k n : ℕ) → k < f → IsTop k n → bit_length f n ≡ suc k
unfolding bit_length
bit_length-top zero k n l h = absurd (omega arith)
bit_length-top (suc f) zero n l h = ground (arith, bit_length-zero f)
  where
    bit_length-zero : (f : ℕ) → bit_length f 0 ≡ 0
    bit_length-zero zero = refl
    bit_length-zero (suc f) = refl
bit_length-top (suc f) (suc k) n l h = ground (
  arith,
  pow-suc 2 k,
  pow-suc 2 (suc k),
  one-le-pow k 2,
  bit_length-top f k (n / 2) (omega arith)
      (omega (arith, pow-suc 2 k), omega (arith, pow-suc 2 (suc k))),
)

bit_length-zero : bit_length 64 0 ≡ 0
unfolding bit_length
bit_length-zero = refl

sub_table : ℕ → Bool
sub_table zero = true
sub_table (suc n) = (bit_xor 63 n == 63 - n) && sub_table n

sub_table_sound : (n x : ℕ) → sub_table n ≡ true → x < n → bit_xor 63 x ≡ 63 - x
unfolding sub_table
sub_table_sound zero x h l = absurd (omega arith)
sub_table_sound (suc n) x h l = ground (arith, sub_table_sound n x)

xor_63 : (x : ℕ) → x < 64 → bit_xor 63 x ≡ 63 - x
unfolding sub_table
xor_63 x l = sub_table_sound 64 x refl l

-- `fast_non0_log2` is the index of the top bit.
pub log2-top : (k n : ℕ) → k < 64 → IsTop k n → fast_non0_log2 n ≡ k
unfolding fast_non0_log2
log2-top k n l h = rw (bit_length-top 64 k n l h) (xor_63 (64 - suc k) (omega arith) ∙ omega arith)

-- Each number below 2 ^ w, but 0, has a top bit.
pub IsTop-exists : (w n : ℕ) → 0 < n → n < 2 ^ w → (k : ℕ) × (k < w) × IsTop k n
IsTop-exists zero n p h = absurd (omega arith)
IsTop-exists (suc w) n p h = elim (Bool-cases (ltb n 2)) [
  | inl small ↦ (0, omega arith, (ground arith, ground arith))
  | inr large ↦
      let (k, l, (lo, hi)) = IsTop-exists w (n / 2) (ground arith) (omega (arith, pow-suc 2 w)) in
      (suc k, omega arith, (omega (arith, pow-suc 2 k), omega (arith, pow-suc 2 (suc k))))
]

-- For every nonzero usize, fast_non0_log2 is the floor of the binary logarithm, and is below 64.
pub log2_bounds :
    (n : ℕ) → 0 < n → n < modulus → IsTop (fast_non0_log2 n) n × (fast_non0_log2 n < 64)
log2_bounds n p h = let (k, l, top) = IsTop-exists 64 n p h in rw (log2-top k n l top) (top, l)

pub leading_zeros-top : (k n : ℕ) → k < 64 → IsTop k n → leading_zeros n ≡ 63 - k
unfolding leading_zeros
leading_zeros-top k n l h = rw (bit_length-top 64 k n l h) (omega arith)
