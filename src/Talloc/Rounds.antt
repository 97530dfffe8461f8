-- ===== src/Talloc/Rounds.antt =====
-- One round of the loop of `release`, on abstract block sizes.
use native.Mathlib.Nat.{mod-eq_of_lt}
use tauos.Base.{
  ℕ, suc, ◌+◌, ◌-◌, ◌^◌, ◌≤◌, ◌<◌, ◌≡◌, ◌⊎◌, inl, inr, refl, ap, ◌∙◌, arith, true, false, some, leb,
}
use tauos.Bits.{modulus, add64, sub64, ◌<<◌, signed_le}
use tauos.Utils.{trailing_zeros, fast_non0_prev_pow2}
use tauos.Utils.Log.{IsTop}
use tauos.Utils.Pow.{prev_pow2-top, one-shl}
use tauos.Talloc.{State}
use tauos.Talloc.Alloc.{dealloc}
use tauos.Talloc.Release.{block_layout, release_blocks}

pub asc-fits :
    (fuel : ℕ) (s u : State) (base acme size : ℕ)
    → (1 << trailing_zeros base) ≡ size
    → signed_le (add64 base size) acme ≡ true
    → dealloc s base (block_layout size) ≡ some u
    → release_blocks (suc fuel) true s base acme ≡ release_blocks fuel true u (add64 base size) acme
unfolding release_blocks
asc-fits fuel s u base acme size shift fits result =
    rw (release_blocks, shift, fits, shift, result) refl

pub asc-over :
    (fuel : ℕ) (s : State) (base acme size : ℕ)
    → (1 << trailing_zeros base) ≡ size
    → signed_le (add64 base size) acme ≡ false
    → release_blocks (suc fuel) true s base acme ≡ release_blocks fuel false s base acme
unfolding release_blocks
asc-over fuel s base acme size shift over = rw (release_blocks, shift, over) refl

pub desc-fits :
    (fuel : ℕ) (s u : State) (base acme size : ℕ)
    → fast_non0_prev_pow2 (sub64 acme base) ≡ size
    → leb s.talloc.smlst_block (sub64 acme base) ≡ true
    → dealloc s base (block_layout size) ≡ some u
    → release_blocks (suc fuel) false s base acme
      ≡ release_blocks fuel false u (add64 base size) acme
unfolding release_blocks
desc-fits fuel s u base acme size power fits result = rw (release_blocks, fits, power, result) refl

pub desc-stop :
    (fuel : ℕ) (s : State) (base acme : ℕ)
    → leb s.talloc.smlst_block (sub64 acme base) ≡ false
    → release_blocks (suc fuel) false s base acme ≡ some s
unfolding release_blocks
desc-stop fuel s base acme small = rw (release_blocks, small) refl

-- The memory lies in the lower quarter of the address space, or in its upper half: there the signed
-- addresses of the source are in order.
abbrev pub InHalf : (base acme : ℕ) → Type 0
InHalf base acme = (acme < 2 ^ 62) ⊎ ((2 ^ 63 ≤ base) × (acme < modulus))

-- Where a block fits is decided rightly, although the sum may wrap around at the upper end.
pub signed_le-sum :
    (base acme size : ℕ)
    → base ≤ acme
    → InHalf base acme
    → size ≤ base
    → base + size ≤ modulus
    → signed_le (add64 base size) acme ≡ leb (base + size) acme
signed_le-sum base acme size l (inl low) small room = ground arith
signed_le-sum base acme size l (inr (high, top)) small room = ground arith

pub InHalf-top : (base acme : ℕ) → InHalf base acme → acme < modulus
InHalf-top base acme (inl low) = omega (arith, low)
InHalf-top base acme (inr (high, top)) = top

pub InHalf-up : (base acme size : ℕ) → InHalf base acme → InHalf (base + size) acme
InHalf-up base acme size (inl low) = inl low
InHalf-up base acme size (inr (high, top)) = inr (omega (arith, high), top)

-- A block of the size of the start's unit fits.
pub asc-round :
    (fuel k : ℕ) (s u : State) (base acme : ℕ)
    → trailing_zeros base ≡ k
    → k < 64
    → signed_le (add64 base (2 ^ k)) acme ≡ leb (base + 2 ^ k) acme
    → base + 2 ^ k ≤ acme
    → acme < modulus
    → dealloc s base (block_layout (2 ^ k)) ≡ some u
    → release_blocks (suc fuel) true s base acme ≡ release_blocks fuel true u (base + 2 ^ k) acme
asc-round fuel k s u base acme zeros few test fits top result =
    asc-fits fuel s u base acme (2 ^ k) (rw zeros (one-shl k few)) (test ∙ ground arith) result
    ∙ ap (λ (b : ℕ). release_blocks fuel true u b acme) (mod-eq_of_lt (omega (arith, fits, top)))

-- It does not fit: the loop turns to falling sizes.
pub asc-turn :
    (fuel k : ℕ) (s : State) (base acme : ℕ)
    → trailing_zeros base ≡ k
    → k < 64
    → signed_le (add64 base (2 ^ k)) acme ≡ leb (base + 2 ^ k) acme
    → acme < base + 2 ^ k
    → release_blocks (suc fuel) true s base acme ≡ release_blocks fuel false s base acme
asc-turn fuel k s base acme zeros few test over =
    asc-over fuel s base acme (2 ^ k) (rw zeros (one-shl k few)) (test ∙ ground arith)

-- The largest power of two that fits is freed.
pub desc-round :
    (fuel k m : ℕ) (s u : State) (base acme : ℕ)
    → s.talloc.smlst_block ≡ 2 ^ m
    → k < 64
    → IsTop k (acme - base)
    → 2 ^ m ≤ acme - base
    → base ≤ acme
    → acme < modulus
    → dealloc s base (block_layout (2 ^ k)) ≡ some u
    → release_blocks (suc fuel) false s base acme ≡ release_blocks fuel false u (base + 2 ^ k) acme
desc-round fuel k m s u base acme smallest few top large le bound result =
    let delta : sub64 acme base ≡ acme - base = omega (arith, le, bound) in
    desc-fits fuel s u base acme (2 ^ k) (rw delta (prev_pow2-top k (acme - base) few top))
      (rw (delta, smallest) (ground arith)) result
    ∙ ap (λ (b : ℕ). release_blocks fuel false u b acme)
        (mod-eq_of_lt (omega (arith, top.0, le, bound)))

-- Less than a smallest block is left: the loop ends.
pub desc-end :
    (fuel m : ℕ) (s : State) (base acme : ℕ)
    → s.talloc.smlst_block ≡ 2 ^ m
    → acme - base < 2 ^ m
    → base ≤ acme
    → acme < modulus
    → release_blocks (suc fuel) false s base acme ≡ some s
desc-end fuel m s base acme smallest small le bound =
    let delta : sub64 acme base ≡ acme - base = omega (arith, le, bound) in
    desc-stop fuel s base acme (rw (delta, smallest) (ground arith))
