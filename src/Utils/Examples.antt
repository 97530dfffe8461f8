-- ===== src/Utils/Examples.antt =====
-- Uses of the theorems on the fast logarithms and powers at given numbers, and tests.
use tauos.Base.{◌<◌, ◌≡◌, refl, arith, some, [], ◌∷◌}
use tauos.Utils.Copy.{copy_slice_bits, copy_rotated, rotate_left}
use tauos.Utils.{fast_non0_log2, fast_non0_next_pow2, trailing_zeros, leading_zeros}
use tauos.Utils.Trailing.{OddMultiple, trailing_zeros_lem}

test_log2 : fast_non0_log2 4097 ≡ 12
unfolding fast_non0_log2 leading_zeros
test_log2 = refl

test_next_pow2 : fast_non0_next_pow2 4097 ≡ 8192
unfolding fast_non0_next_pow2 leading_zeros
test_next_pow2 = refl

trailing_zeros_lem_example : OddMultiple (trailing_zeros 4160) 4160 × (trailing_zeros 4160 < 64)
trailing_zeros_lem_example = trailing_zeros_lem 4160 (omega arith) (omega arith)

-- Copies inside one byte and of a whole byte.
copy_tests :
    (copy_slice_bits (0xff ∷ []) (0x0c ∷ []) 4 2 2 ≡ some (0xff ∷ []))
    × ((copy_slice_bits (0xff ∷ []) (0x00 ∷ []) 4 2 2 ≡ some (0xcf ∷ []))
        × (copy_slice_bits (0x12 ∷ 0x34 ∷ []) (0x56 ∷ []) 8 0 8 ≡ some (0x12 ∷ 0x56 ∷ [])))
unfolding copy_slice_bits copy_rotated rotate_left
copy_tests = (refl, (refl, refl))

-- Eight bits over a byte boundary, from a byte of ones, into zeros above the first four bits: the
-- upper half of the first byte ends as it was, and the upper half of the second, which is not copied
-- to, is cleared.
copy_over_bytes : copy_slice_bits (0x00 ∷ 0xa0 ∷ []) (0xff ∷ []) 4 0 8 ≡ some (0x00 ∷ 0x0f ∷ [])
unfolding copy_slice_bits copy_rotated rotate_left
copy_over_bytes = refl
