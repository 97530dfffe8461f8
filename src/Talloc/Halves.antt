-- ===== src/Talloc/Halves.antt =====
-- A reserved block is two reserved halves, and two reserved buddies are one reserved block.
use native.Mathlib.Nat.{pow-suc, mul-mod_left, div-add-mod', add-mod_right}
use tauos.Base.{ℕ, suc, ◌+◌, ◌-◌, ◌*◌, ◌/◌, ◌%◌, ◌^◌, ◌≤◌, ◌<◌, ◌≡◌, inl, inr, ap, ◌∙◌, arith}
use tauos.Llist.{Ptr}
use tauos.Talloc.{NodeSlice}
use tauos.Talloc.Arena.{IsBlock, zone}
use tauos.Talloc.Books.{FreeLists}
use tauos.Talloc.Regions.{Adds, mem_more, IsReserved, Separate}

-- The size of a granularity is twice that of the next.
pub size-suc : (K g : ℕ) → suc g ≤ K → 2 ^ (K - g) ≡ 2 * 2 ^ (K - suc g)
size-suc K g l =
    ap (λ (t : ℕ). 2 ^ t) {y = suc (K - suc g)} (omega arith) ∙ omega (arith, pow-suc 2 (K - suc g))

pub aligned_half : (u b : ℕ) → b % (2 * u) ≡ 0 → b % u ≡ 0
aligned_half u b h =
    let e : b ≡ b / (2 * u) * 2 * u = omega (arith, div-add-mod' b (2 * u)) in
    rw e (mul-mod_left (b / (2 * u) * 2) u)

module _ (base K g b : ℕ) (l : suc g ≤ K) (block : IsBlock base g (K - g) b) where
  below : b + 2 * 2 ^ (K - suc g) ≤ zone base K + 2 ^ K
  below = let e : g + (K - g) ≡ K = omega arith in rw (← size-suc K g l) (rw e at block.below)

  aligned : b % (2 * 2 ^ (K - suc g)) ≡ 0
  aligned = rw (← size-suc K g l) block.aligned

  pub low-IsBlock : IsBlock base (suc g) (K - suc g) b
  low-IsBlock =
      let e : suc g + (K - suc g) ≡ K = omega arith in
      record {
        aligned = aligned_half (2 ^ (K - suc g)) b aligned;
        above = block.above;
        below = rw e (omega (arith, below));
      }

  pub high-IsBlock : IsBlock base (suc g) (K - suc g) (b + 2 ^ (K - suc g))
  high-IsBlock =
      let e : suc g + (K - suc g) ≡ K = omega arith in
      record {
        aligned = rw add-mod_right (aligned_half (2 ^ (K - suc g)) b aligned);
        above = omega (arith, block.above);
        below = rw e (omega (arith, below));
      }

module _ (base : ℕ) (sl : NodeSlice) (K : ℕ) (free : FreeLists) (g : ℕ) (b : Ptr) (l : suc g ≤ K)
    (in_range : suc g < sl.len) (r : IsReserved base sl K free g b) where
  pub low-IsReserved : IsReserved base sl K free (suc g) b
  low-IsReserved = record {
    level = in_range;
    block = low-IsBlock base K g b l r.block;
    disjoint = λ h c m i. ground (arith, r.disjoint h c m i, size-suc K g l);
    spared = λ h m. ground (arith, r.spared h m, size-suc K g l);
  }

  pub high-IsReserved : IsReserved base sl K free (suc g) (b + 2 ^ (K - suc g))
  high-IsReserved = record {
    level = in_range;
    block = high-IsBlock base K g b l r.block;
    disjoint = λ h c m i. ground (arith, r.disjoint h c m i, size-suc K g l);
    spared = λ h m. ground (arith, r.spared h m, size-suc K g l);
  }

-- A reserved block stays so when a block apart from it is registered.
pub add-IsReserved :
    {less more : FreeLists} {h : ℕ} {c : Ptr}
    → Adds less more h c
    → (base : ℕ) (sl : NodeSlice) (K g : ℕ) (b : Ptr) → Separate (K - g) b (K - h) c
    → IsReserved base sl K less g b
    → IsReserved base sl K more g b
add-IsReserved adds base sl K g b apart r = record {
  level = r.level;
  block = r.block;
  disjoint = λ k d m i. elim (mem_more adds k d i) [
    | inl j ↦ r.disjoint k d m j
    | inr (e, f) ↦ rw (← e, ← f) apart
  ];
  spared = r.spared;
}
