-- ===== src/Talloc/Buddies.antt =====
-- Buddies share a bit, and nothing else does.
use native.Mathlib.Nat.{div-eq_of_lt-le, mul-le-mul_right}
use native.Mathlib.Decide.{ℕ_discrete}
use tauos.Base.{
  ℕ, suc, ◌+◌, ◌-◌, ◌/◌, ◌%◌, ◌^◌, ◌≤◌, ◌≡◌, ◌≢◌, true, false, sym, ap, ◌∙◌, inl, inr, arith, ◌==◌,
  Bool-cases,
}
use tauos.Bits.Pow.{pow-pos, down-le, lt-down}
use tauos.Talloc.Arena.{IsBlock, buddy, place, place_pair, unit_half}

div_next : (j b : ℕ) → (b + 2 ^ j) / 2 ^ j ≡ b / 2 ^ j + 1
div_next j b = div-eq_of_lt-le (2 ^ j) (omega (arith, down-le j b)) (omega (arith, lt-down j b))

div_before : (j b : ℕ) → 2 ^ j ≤ b → (b - 2 ^ j) / 2 ^ j + 1 ≡ b / 2 ^ j
div_before j b h =
    sym (ap (λ (t : ℕ). t / 2 ^ j) {y = b - 2 ^ j + 2 ^ j} (omega arith) ∙ div_next j (b - 2 ^ j))

-- An odd block does not start at the bottom.
pub odd-le : (j b : ℕ) → (b / 2 ^ j % 2 == 0) ≡ false → 2 ^ j ≤ b
odd-le j b h =
    let one_up : 1 ≤ b / 2 ^ j = ground arith in
    omega (arith, down-le j b, mul-le-mul_right (2 ^ j) one_up)

pub buddy-ne : (j b : ℕ) → buddy j b ≢ b
unfolding buddy
buddy-ne j b e = elim (Bool-cases (b / 2 ^ j % 2 == 0)) [
  | inl even ↦ absurd (omega (arith, rw even at e, pow-pos j))
  | inr odd ↦ absurd (omega (arith, rw odd at e, pow-pos j, odd-le j b odd))
]

pub buddy-buddy : (j b : ℕ) → buddy j (buddy j b) ≡ b
unfolding buddy
buddy-buddy j b = elim (Bool-cases (b / 2 ^ j % 2 == 0)) [
  | inl even ↦
      rw (even, div_next j b)
        (let o : ((b / 2 ^ j + 1) % 2 == 0) ≡ false = ground arith in rw o (omega arith))
  | inr odd ↦
      let low = odd-le j b odd in
      let before = div_before j b low in
      let o : ((b - 2 ^ j) / 2 ^ j % 2 == 0) ≡ true = ground arith in rw (odd, o) (omega arith)
]

-- Buddies share their bit.
pub place-buddy : (base g j b : ℕ) → place base g j (buddy j b) ≡ place base g j b
unfolding buddy place
place-buddy base g j b =
    let same : buddy j b / 2 ^ suc j ≡ b / 2 ^ suc j = elim (Bool-cases (b / 2 ^ j % 2 == 0)) [
      | inl even ↦ rw even (unit_half j (b + 2 ^ j) ∙ ground (arith, div_next j b, unit_half j b))
      | inr odd ↦
          rw odd (
            unit_half j (b - 2 ^ j)
            ∙ ground (arith, div_before j b (odd-le j b odd), unit_half j b))
    ] in
    rw same

-- How a block of one granularity can lie to another: the same, its buddy, or in another pair.
pub data Pairing (base g j b c : ℕ) : Type 0 where
  same : c ≡ b → Pairing base g j b c
  twin : c ≡ buddy j b → buddy j c ≡ b → c ≢ b → Pairing base g j b c
  other : place base g j b ≢ place base g j c → c ≢ b → buddy j c ≢ b → Pairing base g j b c

pub pairing : (base g j b c : ℕ) → IsBlock base g j b → IsBlock base g j c → Pairing base g j b c
pairing base g j b c p q = elim (ℕ_discrete (place base g j b) (place base g j c)) [
  | yes e ↦ elim (place_pair base g j b c p q e) [
    | inl i ↦ same i
    | inr i ↦ twin i (rw i (buddy-buddy j b)) (λ k. buddy-ne j b (sym i ∙ k))
  ]
  | no ne ↦
      other ne (λ k. ne (ap (place base g j) (sym k)))
        (λ k. ne (ap (place base g j) (sym k) ∙ place-buddy base g j c))
]
