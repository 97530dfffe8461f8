-- ===== src/Talloc/Sizes.antt =====
-- `layout_to_size`.
use tauos.Base.{ℕ, ◌^◌, ◌≤◌, ◌<◌, ◌≡◌, max, arith, bit_or}
use tauos.Bits.Digits.{pow-le}
use tauos.Utils.Log.{IsTop}
use tauos.Utils.Pow.{next_pow2_least, prev_pow2-top, IsTop-or, IsTop-pow}
use tauos.Talloc.{Talloc, Layout, layout_to_size}

-- For a nonzero size of at most 2 ^ 63 and powers of two below 2 ^ 64 for the alignment and the
-- smallest block, layout_to_size is the least power of two that is not below any of the three.
pub layout_to_size_least :
    (t : Talloc) (layout : Layout) (a m : ℕ)
    → 0 < layout.size
    → layout.size ≤ 2 ^ 63
    → a < 64
    → m < 64
    → layout.align ≡ 2 ^ a
    → t.smlst_block ≡ 2 ^ m
    → (k : ℕ) × ((k < 64)
        × ((layout_to_size t layout ≡ 2 ^ k)
            × (((layout.size ≤ 2 ^ k) × ((a ≤ k) × (m ≤ k)))
                × ((j : ℕ) → layout.size ≤ 2 ^ j → a ≤ j → m ≤ j → k ≤ j))))
unfolding layout_to_size
layout_to_size_least t layout a m p small la lm align smlst =
    let (c, lc, e, fits, least) = next_pow2_least layout.size p small in
    let k = max (max c a) m in
    let top : IsTop (max (max c a) m) (bit_or (bit_or (2 ^ c) (2 ^ a)) (2 ^ m)) =
      IsTop-or (max c a) m _ _ (IsTop-or c a _ _ (IsTop-pow c) (IsTop-pow a)) (IsTop-pow m) in
    (
      max (max c a) m,
      (
        omega arith,
        (
          rw (e, align, smlst) (prev_pow2-top (max (max c a) m) _ (omega arith) top),
          (
            (
              omega (arith, fits, pow-le c (max (max c a) m) (omega arith)),
              (omega arith, omega arith),
            ),
            λ j x y z. omega (arith, least j x),
          ),
        ),
      ),
    )
