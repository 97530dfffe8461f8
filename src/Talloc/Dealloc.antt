-- ===== src/Talloc/Dealloc.antt =====
-- `dealloc`: merging a block with its buddies while they are free.
use tauos.Base.{ℕ, zero, suc, ◌+◌, ◌-◌, ◌^◌, ◌<◌, ◌≡◌, inl, inr, ◌∙◌, arith, some, Bool-cases}
use tauos.Llist.{Ptr}
use tauos.Llist.Links.{has}
use tauos.Talloc.{State, Layout, layout_to_size, block_granularity}
use tauos.Talloc.Alloc.{merge, dealloc}
use tauos.Talloc.Arena.{buddy}
use tauos.Talloc.Offsets.{block_granularity-eq}
use tauos.Talloc.Books.{FreeLists, bit_place}
use tauos.Talloc.Take.{IsListed}
use tauos.Talloc.Regions.{Valid, Reserved}
use tauos.Talloc.Join.{lower, whole-no_buddy}
use tauos.Talloc.Steps.{offset-eq}
use tauos.Talloc.Merge.{
  IsFreed, listed_split, stop, merged, merged_lists, merged-Valid, lower-Reserved, merged-Covers,
  merge-suc,
}

-- In a valid state, the loop of dealloc on a reserved block of granularity g ends within any number
-- of rounds above g, the new state is valid, and exactly the block's addresses have become free.
pub merge-IsFreed :
    (fuel g : ℕ) (s : State) (K : ℕ) (free : FreeLists) (b : Ptr)
    → Valid s K free
    → Reserved s K free g b
    → g < fuel
    → (u : State) × ((merge fuel s b (2 ^ (K - g)) g (bit_place s.talloc K g b) ≡ some u)
        × IsFreed s u K free g b)
merge-IsFreed zero g s K free b v r l = elim l [ ]
merge-IsFreed (suc fuel) zero s K free b v r l =
    elim (Bool-cases (has (buddy (K - 0) b) (free 0))) [
      | inr alone ↦ stop s K free 0 b v r fuel (2 ^ (K - 0)) alone
      | inl twin ↦ absurd (
          whole-no_buddy s.talloc.arena_base (K - 0) b r.block
            (v.books.blocks 0 (buddy (K - 0) b) r.level twin))
    ]
merge-IsFreed (suc fuel) (suc g) s K free b v r l =
    elim (Bool-cases (has (buddy (K - suc g) b) (free (suc g)))) [
      | inr alone ↦ stop s K free (suc g) b v r fuel (2 ^ (K - suc g)) alone
      | inl twin ↦
          let (ws, ys, e) = listed_split (buddy (K - suc g) b) (free (suc g)) twin in
          let there : IsListed s.talloc free (suc g) ws (buddy (K - suc g) b) ys = record {
            level = r.level;
            listed = e;
          } in
          let (u, (result, freed)) =
            merge-IsFreed fuel g (merged s K free g b v r ws ys there) K
              (merged_lists s K free g b v r ws ys there) (lower (K - suc g) b)
              (merged-Valid s K free g b v r ws ys there)
              (lower-Reserved s K free g b v r ws ys there) (omega arith) in
          (
            u,
            (
              merge-suc s K free g b v r ws ys there fuel ∙ result,
              record {
                lists = freed.lists;
                valid = freed.valid;
                covers = λ x.
                    let first = merged-Covers s K free g b v r ws ys there x in
                    let rest = freed.covers x in (λ c. first.0 (rest.0 c), λ c. rest.1 (first.1 c));
              },
            ),
          )
    ]

-- In a valid state, dealloc of a reserved block whose layout has its size returns within its 64
-- rounds: the new state is valid, and exactly the block's addresses have become free.
pub dealloc-IsFreed :
    (s : State) (K : ℕ) (free : FreeLists) (g : ℕ) (b : Ptr) (layout : Layout)
    → Valid s K free
    → Reserved s K free g b
    → layout_to_size s.talloc layout ≡ 2 ^ (K - g)
    → (u : State) × ((dealloc s b layout ≡ some u) × IsFreed s u K free g b)
unfolding dealloc
dealloc-IsFreed s K free g b layout v r size =
    let sum : g + (K - g) ≡ K = omega (arith, v.books.arena.levels, r.level) in
    let granularity : block_granularity s.talloc (2 ^ (K - g)) ≡ g =
      block_granularity-eq s.talloc g (K - g) (rw sum v.books.arena.pow2)
        (rw sum v.books.arena.small) in
    rw (size, granularity, offset-eq s K g b v.books.arena r.level r.block)
      (merge-IsFreed 64 g s K free b v r (omega (arith, v.books.arena.small, sum)))
