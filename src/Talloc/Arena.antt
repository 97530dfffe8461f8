-- ===== src/Talloc/Arena.antt =====
-- Where blocks lie: the arena's zone of `2 ^ K` bytes, blocks of granularity `g`, buddies, and the
-- place of a block's bit in the bitmap.
use native.Mathlib.Nat.{pow-suc, lt_of_mul-lt-mul_right, div-div-eq-div-mul, div-add-mod'}
use native.Mathlib.Decide.{dec_lt}
use tauos.Base.{
  ℕ, zero, suc, ◌+◌, ◌-◌, ◌*◌, ◌/◌, ◌%◌, ◌^◌, ◌≤◌, ◌<◌, ◌≡◌, sym, ap, ◌∙◌, ◌⊎◌, inl, inr, arith,
  ◌==◌, ==_iff, Bool-cases, if◌then◌else◌,
}
use tauos.Bits.Digits.{pow-le}
use tauos.Bits.Pow.{pow-pos, pow_add, down, down-le, lt-down, down_anti}

-- The start of the aligned span of `2 ^ (k + 1)` bytes that holds the arena's base. Blocks lie in
-- its lower half.
abbrev pub zone : (base k : ℕ) → ℕ
zone base k = down (suc k) base

-- A block of `2 ^ j` bytes at `b`, where the zone has `2 ^ (g + j)`.
pub record IsBlock (base g j b : ℕ) : Type 0 where
  pub aligned : b % 2 ^ j ≡ 0
  pub above : base ≤ b
  pub below : b + 2 ^ j ≤ zone base (g + j) + 2 ^ (g + j)

-- The other block of the pair.
unfoldable pub buddy : (j b : ℕ) → ℕ
buddy j b = if b / 2 ^ j % 2 == 0 then b + 2 ^ j else b - 2 ^ j

-- The place of a pair's bit: each granularity has a field of its own, as wide as it starts.
unfoldable pub place : (base g j b : ℕ) → ℕ
place base g j b = 2 ^ g / 2 + (b / 2 ^ suc j - base / 2 ^ suc j)

-- The aligned base that the code rounds down to lies in the zone.
pub zone-le : (base g j : ℕ) → zone base (g + j) ≤ down (suc j) base
zone-le base g j = let e : suc (g + j) ≡ suc j + g = omega arith in rw e (down_anti (suc j) g base)

pub pair-le : (base j b : ℕ) → base ≤ b → base / 2 ^ suc j ≤ b / 2 ^ suc j
pair-le base j b h =
    let near = lt-down (suc j) b in
    let start = down-le (suc j) base in
    let step : base / 2 ^ suc j < b / 2 ^ suc j + 1 =
      lt_of_mul-lt-mul_right (2 ^ suc j) (omega arith) in
    omega arith

-- A pair lies fewer than `2 ^ (g - 1)` pairs behind the base's; the whole arena is one pair.
pub pair-lt :
    (base g j b : ℕ) → IsBlock base g j b → b / 2 ^ suc j < base / 2 ^ suc j + (2 ^ g - 2 ^ g / 2)
pair-lt base zero j b block =
    let e : zero + j ≡ j = omega arith in
    let end = rw e at block.below in
    lt_of_mul-lt-mul_right (2 ^ suc j) (omega (arith, down-le (suc j) b, pow-pos j, pow-suc 2 j))
pair-lt base (suc g) j b block =
    let e : suc g + j ≡ g + suc j = omega arith in
    let end = rw e at block.below in
    let half : 2 ^ suc g - 2 ^ suc g / 2 ≡ 2 ^ g = omega (arith, pow-suc 2 g) in
    let start : zone base (g + suc j) ≤ down (suc j) base = rw (← e) (zone-le base (suc g) j) in
    rw half (
      lt_of_mul-lt-mul_right (2 ^ suc j)
        (omega (arith, down-le (suc j) b, pow-pos j, pow_add g (suc j))))

pub place-lt : (base g j b : ℕ) → IsBlock base g j b → place base g j b < 2 ^ g
unfolding place
place-lt base g j b block =
    omega (arith, pair-lt base g j b block, pair-le base j b block.above, pow-pos g)

-- The fields of two granularities do not overlap.
field_apart : (g h o : ℕ) → g < h → o < 2 ^ g → 2 ^ h / 2 ≤ o → ⊥
field_apart g zero o l a b = elim l [ ]
field_apart g (suc h) o l a b = absurd (omega (arith, pow-le g h (omega arith), pow-suc 2 h))

pub place_granularity :
    (base g j b h i c : ℕ)
    → IsBlock base g j b
    → IsBlock base h i c
    → place base g j b ≡ place base h i c
    → g ≡ h
unfolding place
place_granularity base g j b h i c p q e = elim (dec_lt g h) [
  | yes l ↦ absurd (field_apart g h (place base g j b) l (place-lt base g j b p) (omega arith))
  | no l ↦ elim (dec_lt h g) [
    | yes k ↦ absurd (field_apart h g (place base h i c) k (place-lt base h i c q) (omega arith))
    | no k ↦ omega arith
  ]
]

pub unit_half : (j b : ℕ) → b / 2 ^ suc j ≡ b / 2 ^ j / 2
unit_half j b = sym (div-div-eq-div-mul b (2 ^ j) 2 ∙ ap (λ (t : ℕ). b / t) (sym (pow-suc 2 j)))

by_index :
    (j b c : ℕ)
    → b ≡ b / 2 ^ j * 2 ^ j
    → c ≡ c / 2 ^ j * 2 ^ j
    → b / 2 ^ j / 2 ≡ c / 2 ^ j / 2
    → (c ≡ b) ⊎ (c ≡ buddy j b)
unfolding buddy
by_index j b c eb ec pair = elim (Bool-cases (b / 2 ^ j == c / 2 ^ j)) [
  | inl same ↦ inl (omega (arith, ap (λ (t : ℕ). t * 2 ^ j) ((==_iff _ _).0 same)))
  | inr differ ↦ inr (elim (Bool-cases (b / 2 ^ j % 2 == 0)) [
    | inl even ↦
        let n : c / 2 ^ j ≡ b / 2 ^ j + 1 = ground arith in
        rw even (omega (arith, ap (λ (t : ℕ). t * 2 ^ j) n))
    | inr odd ↦
        let n : c / 2 ^ j + 1 ≡ b / 2 ^ j = ground arith in
        rw odd (omega (arith, ap (λ (t : ℕ). t * 2 ^ j) n))
  ])
]

-- Two blocks of one granularity with the same bit are the same block or buddies.
pub place_pair :
    (base g j b c : ℕ)
    → IsBlock base g j b
    → IsBlock base g j c
    → place base g j b ≡ place base g j c
    → (c ≡ b) ⊎ (c ≡ buddy j b)
unfolding place
place_pair base g j b c p q e =
    let pair : b / 2 ^ j / 2 ≡ c / 2 ^ j / 2 =
      omega
        (arith, pair-le base j b p.above, pair-le base j c q.above, unit_half j b, unit_half j c) in
    let eb : b ≡ b / 2 ^ j * 2 ^ j = omega (arith, div-add-mod' b (2 ^ j), p.aligned) in
    let ec : c ≡ c / 2 ^ j * 2 ^ j = omega (arith, div-add-mod' c (2 ^ j), q.aligned) in
    by_index j b c eb ec pair
