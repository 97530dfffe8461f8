-- ===== src/Talloc/Offsets.antt =====
-- `block_granularity`, `bitmap_offset` and `is_lower_buddy` in terms of the arena's geometry.
use native.Mathlib.Nat.{
  pow-suc, mod-eq_of_lt, div-eq_of_lt-le, mul-le-mul_right, lt_of_mul-lt-mul_right,
}
use tauos.Base.{
  ℕ, zero, suc, ◌+◌, ◌-◌, ◌*◌, ◌/◌, ◌%◌, ◌^◌, ◌≤◌, ◌<◌, ◌≡◌, sym, ap, ◌∙◌, arith, ◌==◌,
}
use tauos.Bits.{modulus, add64, sub64, ◌<<◌, ◌>>>◌}
use tauos.Bits.Digits.{test_bit-lt}
use tauos.Bits.Masks.{and_not_low, and_pow, test_bit-eq-div}
use tauos.Bits.Pow.{pow-pos, pow_add, down, down-le, lt-down}
use tauos.Utils.Log.{log2-top, leading_zeros-top}
use tauos.Utils.Pow.{IsTop-pow, pow-lt-modulus}
use tauos.Talloc.{Talloc, is_lower_buddy, block_granularity, bitmap_offset}
use tauos.Talloc.Arena.{IsBlock, zone, zone-le, place, pair-le, pair-lt}

-- `size << 1` for a power of two.
pub shl-pow : (j : ℕ) → j < 63 → ((2 ^ j) << 1) ≡ 2 ^ suc j
shl-pow j l =
    mod-eq_of_lt (omega (arith, pow-lt-modulus (suc j) (omega arith), pow-suc 2 j))
    ∙ omega (arith, pow-suc 2 j)

pub shr-pow : (g j : ℕ) → g < 64 → (2 ^ (g + j) >>> g) ≡ 2 ^ j
shr-pow g j l =
    rw (mod-eq_of_lt l, pow_add g j)
      (div-eq_of_lt-le (2 ^ g) (omega arith) (omega (arith, pow-pos g)))

-- For an arena of 2 ^ (g + j) bytes with g + j below 63, block_granularity of 2 ^ j is g.
pub block_granularity-eq :
    (t : Talloc) (g j : ℕ)
    → t.arena_size_pow2 ≡ 2 ^ (g + j)
    → g + j < 63
    → block_granularity t (2 ^ j) ≡ g
unfolding block_granularity
block_granularity-eq t g j e l =
    rw
      (
        e,
        leading_zeros-top j (2 ^ j) (omega arith) (IsTop-pow j),
        leading_zeros-top (g + j) (2 ^ (g + j)) (omega arith) (IsTop-pow (g + j)),
      )
      (omega arith)

pub is_lower_buddy-eq : (j b : ℕ) → is_lower_buddy b (2 ^ j) ≡ (b / 2 ^ j % 2 == 0)
unfolding is_lower_buddy
is_lower_buddy-eq j b =
    rw (and_pow j b) (ground (arith, test_bit-eq-div b j, test_bit-lt b j, pow-pos j))

quotient_by :
    (h a p u b : ℕ) → a ≤ p → p * u ≤ b → b < p * u + u → (h * u + (b - a * u)) / u ≡ h + (p - a)
quotient_by h a p u b l lo hi =
    let split : p ≡ a + (p - a) = omega arith in
    let e : p * u ≡ a * u + (p - a) * u = ap (λ (t : ℕ). t * u) split ∙ omega arith in
    div-eq_of_lt-le u (omega arith) (omega arith)

quotient :
    (base g j b : ℕ)
    → IsBlock base g j b
    → (2 ^ (g + j) + (b - down (suc j) base)) / 2 ^ suc j ≡ place base g j b
unfolding place
quotient base zero j b block =
    let e : zero + j ≡ j = omega arith in
    let end = rw e at block.below in
    let one_pair = pair-lt base zero j b block in
    let first = pair-le base j b block.above in
    let none_before : place base zero j b ≡ 0 = omega (arith, one_pair, first) in
    rw (e, none_before)
      (div-eq_of_lt-le (2 ^ suc j) (omega arith) (omega (arith, pow-suc 2 j, pow-pos j)))
quotient base (suc g) j b block =
    let e : 2 ^ (suc g + j) ≡ 2 ^ g * 2 ^ suc j =
      ap (λ (t : ℕ). 2 ^ t) {y = g + suc j} (omega arith) ∙ pow_add g (suc j) in
    let half : 2 ^ suc g / 2 ≡ 2 ^ g = omega (arith, pow-suc 2 g) in
    rw (e, half)
      (quotient_by (2 ^ g) (base / 2 ^ suc j) (b / 2 ^ suc j) (2 ^ suc j) b
        (pair-le base j b block.above) (down-le (suc j) b) (lt-down (suc j) b))

-- The zone ends below the end of the address space.
pub zone_end : (base k : ℕ) → base < modulus → k < 63 → zone base k + 2 ^ suc k ≤ modulus
zone_end base k small l =
    let whole : 63 - k + suc k ≡ 64 = omega arith in
    let e : 2 ^ (63 - k) * 2 ^ suc k ≡ modulus =
      sym (pow_add (63 - k) (suc k)) ∙ ap (λ (t : ℕ). 2 ^ t) whole in
    let q : base / 2 ^ suc k < 2 ^ (63 - k) =
      lt_of_mul-lt-mul_right (2 ^ suc k) (omega (arith, down-le (suc k) base)) in
    omega (arith, mul-le-mul_right (2 ^ suc k) q)

-- For a block of granularity g and 2 ^ j bytes inside the arena's zone of 2 ^ (g + j) bytes, with g
-- + j below 63 and the base a usize, bitmap_offset does not overflow and gives half of 2 ^ g plus
-- the number of pairs between the arena's base and the block.
pub bitmap_offset-eq :
    (t : Talloc) (g j b : ℕ)
    → t.arena_size_pow2 ≡ 2 ^ (g + j)
    → t.arena_base < modulus
    → g + j < 63
    → IsBlock t.arena_base g j b
    → bitmap_offset t b (2 ^ j) ≡ place t.arena_base g j b
unfolding bitmap_offset
bitmap_offset-eq t g j b e small l block =
    let base = t.arena_base in
    let j_small : j < 63 = omega arith in
    let two : sub64 (2 ^ suc j) 1 ≡ 2 ^ suc j - 1 =
      omega (arith, pow-lt-modulus (suc j) (omega arith), pow-pos (suc j)) in
    let rounded = and_not_low (suc j) base (omega arith) small in
    let near = zone-le base g j in
    let end = zone_end base (g + j) small l in
    let double = pow-suc 2 (g + j) in
    let inside : b < modulus = omega (arith, pow-pos (g + j), block.below) in
    let field : sub64 b (down (suc j) base) ≡ b - down (suc j) base =
      omega (arith, down-le (suc j) base, block.above) in
    let total : add64 (2 ^ (g + j)) (b - down (suc j) base)
        ≡ 2 ^ (g + j) + (b - down (suc j) base) =
      mod-eq_of_lt (omega (arith, block.below, pow-pos j)) in
    let shift : (j + 1) % 64 ≡ suc j = omega arith in
    rw
      (
        shl-pow j j_small,
        two,
        rounded,
        field,
        e,
        total,
        log2-top j (2 ^ j) (omega arith) (IsTop-pow j),
        shift,
      )
      (quotient base g j b block)
