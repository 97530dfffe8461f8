-- ===== src/Talloc/Join.antt =====
-- Two reserved buddies are one reserved block of the granularity above, for the loop of `dealloc`.
use native.Mathlib.Nat.{pow-suc, div-add-mod', mul-mod_left}
use tauos.Base.{
  ℕ, suc, ◌+◌, ◌-◌, ◌*◌, ◌/◌, ◌%◌, ◌^◌, ◌≤◌, ◌≡◌, ◌↔◌, ◌⊎◌, inl, inr, refl, ap, arith, ◌==◌,
  Bool-cases, if◌then◌else◌,
}
use tauos.Bits.Pow.{pow-pos, down-le}
use tauos.Llist.{Ptr}
use tauos.Talloc.{NodeSlice}
use tauos.Talloc.Arena.{IsBlock, buddy}
use tauos.Talloc.Buddies.{buddy-ne, odd-le}
use tauos.Talloc.Books.{FreeLists}
use tauos.Talloc.Regions.{IsReserved, Region}
use tauos.Talloc.Halves.{size-suc}

-- The lower block of a pair.
abbrev pub lower : (j b : ℕ) → ℕ
lower j b = if b / 2 ^ j % 2 == 0 then b else b - 2 ^ j

-- Where a block and its buddy lie.
pub lower_pair :
    (j b : ℕ)
    → ((b ≡ lower j b) × (buddy j b ≡ lower j b + 2 ^ j))
      ⊎ ((b ≡ lower j b + 2 ^ j) × (buddy j b ≡ lower j b))
unfolding buddy
lower_pair j b = elim (Bool-cases (b / 2 ^ j % 2 == 0)) [
  | inl even ↦ rw even (inl (refl, refl))
  | inr odd ↦ rw odd (inr (omega (arith, odd-le j b odd), refl))
]

-- The whole arena's block has no buddy in the arena.
pub whole-no_buddy : (base j b : ℕ) → IsBlock base 0 j b → IsBlock base 0 j (buddy j b) → ⊥
whole-no_buddy base j b p q =
    let e : 0 + j ≡ j = omega arith in
    let start = down-le (suc j) base in
    buddy-ne j b (
      omega
        (arith, p.above, q.above, rw e at p.below, rw e at q.below, start, down-le (suc j) base))

lower-aligned : (j b : ℕ) → b % 2 ^ j ≡ 0 → lower j b % 2 ^ suc j ≡ 0
lower-aligned j b h =
    let unit : b ≡ b / 2 ^ j * 2 ^ j = omega (arith, div-add-mod' b (2 ^ j), h) in
    let wide = ap (λ (t : ℕ). b / 2 ^ j / 2 * t) (pow-suc 2 j) in
    let even_index : lower j b ≡ b / 2 ^ j / 2 * 2 ^ suc j =
      elim (Bool-cases (b / 2 ^ j % 2 == 0)) [
        | inl even ↦
            let n : b / 2 ^ j ≡ b / 2 ^ j / 2 * 2 = ground arith in
            rw even (omega (arith, unit, ap (λ (t : ℕ). t * 2 ^ j) n, wide))
        | inr odd ↦
            let n : b / 2 ^ j ≡ b / 2 ^ j / 2 * 2 + 1 = ground arith in
            rw odd (omega (arith, unit, ap (λ (t : ℕ). t * 2 ^ j) n, wide))
      ] in
    rw even_index (mul-mod_left (b / 2 ^ j / 2) (2 ^ suc j))

module _ (base : ℕ) (sl : NodeSlice) (K : ℕ) (free : FreeLists) (g : ℕ) (b : Ptr) (l : suc g ≤ K)
    (r : IsReserved base sl K free (suc g) b)
    (q : IsReserved base sl K free (suc g) (buddy (K - suc g) b)) where
  j : ℕ
  j = K - suc g

  lower-IsBlock : IsBlock base g (K - g) (lower (K - suc g) b)
  lower-IsBlock =
      let e : K - g ≡ suc (K - suc g) = omega arith in
      let sum : suc g + (K - suc g) ≡ K = omega arith in
      let whole : g + (K - g) ≡ K = omega arith in
      let parts = lower_pair (K - suc g) b in
      let end_b = rw sum at r.block.below in
      let end_q = rw sum at q.block.below in
      record {
        aligned = rw e (lower-aligned (K - suc g) b r.block.aligned);
        above = ground (arith, parts, r.block.above, q.block.above);
        below =
            rw whole
              (rw (size-suc K g l) (ground (arith, parts, end_b, end_q, pow-pos (K - suc g))));
      }

  -- The two buddies' bytes are the larger block's.
  pub join-Region :
      (x : ℕ)
      → Region (K - g) (lower (K - suc g) b) x
        ↔ (Region (K - suc g) b x ⊎ Region (K - suc g) (buddy (K - suc g) b) x)
  join-Region x =
      let size = size-suc K g l in
      let parts = lower_pair (K - suc g) b in
      (λ i. ground (arith, parts, i, size), λ i. ground (arith, parts, i, size))

  pub join-IsReserved : IsReserved base sl K free g (lower (K - suc g) b)
  join-IsReserved = record {
    level = omega (arith, r.level);
    block = lower-IsBlock;
    disjoint = λ h c m i. ground (
      arith,
      lower_pair (K - suc g) b,
      r.disjoint h c m i,
      q.disjoint h c m i,
      size-suc K g l,
      pow-pos (K - h),
    );
    spared =
        λ h m. ground (arith, lower_pair (K - suc g) b, r.spared h m, q.spared h m, size-suc K g l);
  }
