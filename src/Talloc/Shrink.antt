-- ===== src/Talloc/Shrink.antt =====
-- `shrink`: the block keeps its base, and what it gives up becomes free.
use native.Mathlib.Nat.{pow-suc}
use native.Mathlib.Decide.{dec_lt}
use tauos.Base.{ℕ, suc, ◌+◌, ◌-◌, ◌^◌, ◌≤◌, ◌<◌, ◌≡◌, inl, inr, arith, ◌==◌, Bool-cases, ==_iff}
use tauos.Bits.Digits.{pow-le}
use tauos.Bits.Pow.{pow-pos}
use tauos.Llist.{Ptr}
use tauos.Talloc.{State, Layout, layout_to_size, block_granularity}
use tauos.Talloc.Alloc.{shrink, split_blocks}
use tauos.Talloc.Offsets.{block_granularity-eq}
use tauos.Talloc.Books.{FreeLists, IsArena}
use tauos.Talloc.Regions.{Valid, Reserved}
use tauos.Talloc.Split.{IsSplit, split_blocks-IsSplit}

granularity-eq :
    (s : State) (K g : ℕ)
    → IsArena s.talloc K
    → g < s.talloc.llists.len
    → block_granularity s.talloc (2 ^ (K - g)) ≡ g
granularity-eq s K g arena l =
    let sum : g + (K - g) ≡ K = omega (arith, arena.levels) in
    block_granularity-eq s.talloc g (K - g) (rw sum arena.pow2) (rw sum arena.small)

same_size : (K g n : ℕ) → g + n ≤ K → 2 ^ (K - g) ≡ 2 ^ (K - (g + n)) → n ≡ 0
same_size K g n l e = elim (dec_lt 0 n) [
  | no p ↦ omega arith
  | yes p ↦ absurd (
      omega (
        arith,
        e,
        pow-le (suc (K - (g + n))) (K - g) (omega arith),
        pow-suc 2 (K - (g + n)),
        pow-pos (K - (g + n)),
      ))
]

-- In a valid state, shrink of a reserved block of granularity g to a layout of granularity g + n
-- gives a valid state in which the block of granularity g + n at the same base is reserved and
-- exactly the rest of the old block has become free.
pub shrink-IsSplit :
    (s : State) (K : ℕ) (free : FreeLists) (g n : ℕ) (b : Ptr) (old_layout new_layout : Layout)
    → Valid s K free
    → Reserved s K free g b
    → g + n < s.talloc.llists.len
    → layout_to_size s.talloc old_layout ≡ 2 ^ (K - g)
    → layout_to_size s.talloc new_layout ≡ 2 ^ (K - (g + n))
    → IsSplit s (shrink s b old_layout new_layout) K free g (g + n) b
unfolding shrink
shrink-IsSplit s K free g n b old_layout new_layout v r l old new =
    let arena = v.books.arena in
    let split = split_blocks-IsSplit n g s K free b v r l in
    let rounds : g + n - g ≡ n = omega arith in
    rw (old, new, granularity-eq s K g arena r.level, granularity-eq s K (g + n) arena l, rounds)
      (elim (Bool-cases (2 ^ (K - g) == 2 ^ (K - (g + n)))) [
        | inr differ ↦ rw differ split
        | inl same ↦
            let none = same_size K g n (omega (arith, arena.levels)) ((==_iff _ _).0 same) in
            rw (same, none) (unfold split_blocks in rw none at split)
      ])
