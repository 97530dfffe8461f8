-- ===== src/Talloc/Examples.antt =====
-- Uses of the allocator's theorems at the small arena of Talloc.Empty, and tests.
use tauos.Base.{ℕ, ◌-◌, ◌^◌, ◌≤◌, ◌<◌, ◌≡◌, ◌↔◌, refl, false, [], arith, some}
use tauos.Llist.{Ptr}
use tauos.Utils.{fast_non0_log2, fast_non0_next_pow2, fast_non0_prev_pow2, leading_zeros}
use tauos.Talloc.{
  State, Layout, layout_to_size, bitmap_offset, toggle_bitflag, add_block_next, remove_block,
  remove_block_next,
}
use tauos.Talloc.Alloc.{done, alloc_error, OomHandler, alloc, split_blocks, merge, dealloc, shrink}
use tauos.Talloc.Arena.{place}
use tauos.Talloc.Books.{update, occupied, bit_place}
use tauos.Talloc.Regions.{Valid}
use tauos.Talloc.Fresh.{no_blocks}
use tauos.Talloc.Empty.{
  empty_state, empty-Valid, whole-Reserved, whole_lists, whole_state, whole-Valid,
}
use tauos.Talloc.Steps.{add-Valid, take-Valid}
use tauos.Talloc.Take.{IsListed, remove_block_next-eq}
use tauos.Talloc.Offsets.{bitmap_offset-eq}
use tauos.Talloc.Split.{IsSplit, split_blocks-IsSplit}
use tauos.Talloc.Shrink.{shrink-IsSplit}
use tauos.Talloc.Merge.{IsFreed}
use tauos.Talloc.Dealloc.{merge-IsFreed, dealloc-IsFreed}
use tauos.Talloc.Allocated.{IsAllocated}
use tauos.Talloc.BestFit.{IsBestFit, alloc-IsAllocated, alloc_exhausted}
use tauos.Talloc.Sizes.{layout_to_size_least}

-- A handler that fails.
abbrev no_memory : OomHandler
no_memory s layout = (s, false)

abbrev small : Layout
small = record { size = 12; align = 8 }

abbrev large : Layout
large = record { size = 40; align = 8 }

large_size : layout_to_size empty_state.talloc large ≡ 2 ^ (6 - 0)
unfolding layout_to_size fast_non0_prev_pow2 fast_non0_next_pow2 fast_non0_log2 leading_zeros
large_size = refl

small_size : layout_to_size empty_state.talloc small ≡ 2 ^ (6 - 2)
unfolding layout_to_size fast_non0_prev_pow2 fast_non0_next_pow2 fast_non0_log2 leading_zeros
small_size = refl

whole_size : layout_to_size whole_state.talloc small ≡ 2 ^ (6 - 2)
unfolding layout_to_size fast_non0_prev_pow2 fast_non0_next_pow2 fast_non0_log2 leading_zeros
    add_block_next
whole_size = refl

-- A block of 16 bytes from the free arena of 64.
alloc-IsAllocated_example :
    (u : State) × (b : Ptr) × ((alloc no_memory 1 whole_state small ≡ done u b)
      × (IsAllocated whole_state u 6 whole_lists 2 b × IsBestFit whole_lists 2 b))
alloc-IsAllocated_example =
    alloc-IsAllocated whole_state 6 whole_lists whole-Valid 2 (unfold add_block_next in omega arith)
      no_memory 0 small 0 whole_size (unfold add_block_next in omega arith) (omega arith) refl

alloc_exhausted_example :
    (alloc no_memory 1 empty_state large ≡ alloc_error empty_state)
    ↔ ((h : ℕ) → h ≤ 0 → occupied (no_blocks h) ≡ 0)
alloc_exhausted_example =
    alloc_exhausted empty_state 6 no_blocks empty-Valid 0 (omega arith) no_memory 0 large
      empty_state large_size (omega arith) refl

-- The arena in use, broken down to its first 16 bytes.
split_arena : IsSplit empty_state (split_blocks 2 1 32 0 empty_state) 6 no_blocks 0 2 0
split_arena =
    split_blocks-IsSplit 2 0 empty_state 6 no_blocks 0 empty-Valid whole-Reserved (omega arith)

shrink-IsSplit_example : IsSplit empty_state (shrink empty_state 0 large small) 6 no_blocks 0 2 0
shrink-IsSplit_example =
    shrink-IsSplit empty_state 6 no_blocks 0 2 0 large small empty-Valid whole-Reserved
      (omega arith) large_size small_size

split_size : layout_to_size (split_blocks 2 1 32 0 empty_state).talloc small ≡ 2 ^ (6 - 2)
unfolding layout_to_size fast_non0_prev_pow2 fast_non0_next_pow2 fast_non0_log2 leading_zeros
    split_blocks add_block_next toggle_bitflag bitmap_offset
split_size = refl

-- Freeing those 16 bytes merges twice.
dealloc-IsFreed_example :
    (u : State) × ((dealloc (split_blocks 2 1 32 0 empty_state) 0 small ≡ some u)
      × IsFreed (split_blocks 2 1 32 0 empty_state) u 6 split_arena.lists 2 0)
dealloc-IsFreed_example =
    dealloc-IsFreed (split_blocks 2 1 32 0 empty_state) 6 split_arena.lists 2 0 small
      split_arena.valid split_arena.reserved split_size

merge-IsFreed_example :
    (u : State) × ((merge 1 empty_state 0 64 0 (bit_place empty_state.talloc 6 0 0) ≡ some u)
      × IsFreed empty_state u 6 no_blocks 0 0)
merge-IsFreed_example =
    merge-IsFreed 1 0 empty_state 6 no_blocks 0 empty-Valid whole-Reserved (omega arith)

add-Valid_example : Valid whole_state 6 whole_lists
add-Valid_example = add-Valid empty_state 6 no_blocks 0 0 empty-Valid whole-Reserved

whole-IsListed : IsListed whole_state.talloc whole_lists 0 [] 0 []
whole-IsListed = record { level = unfold add_block_next in omega arith; listed = refl }

take-Valid_example :
    Valid
      (remove_block whole_state 0 (bit_place whole_state.talloc 6 0 0) 0)
      6
      (update whole_lists 0 [])
take-Valid_example = take-Valid whole_state 6 whole_lists 0 [] 0 [] whole-Valid whole-IsListed

remove_block_next-eq_example :
    remove_block_next whole_state 0 64
    ≡ (remove_block whole_state 0 (bit_place whole_state.talloc 6 0 0) 0, 0)
remove_block_next-eq_example = remove_block_next-eq whole-Valid.books 0 0 [] whole-IsListed

bitmap_offset-eq_example : bitmap_offset empty_state.talloc 0 64 ≡ place 0 0 6 0
bitmap_offset-eq_example =
    bitmap_offset-eq empty_state.talloc 0 6 0 refl (omega arith) (omega arith) whole-Reserved.block

layout_to_size_least_example :
    (k : ℕ) × ((k < 64)
      × ((layout_to_size empty_state.talloc small ≡ 2 ^ k)
          × (((12 ≤ 2 ^ k) × ((3 ≤ k) × (4 ≤ k)))
              × ((j : ℕ) → 12 ≤ 2 ^ j → 3 ≤ j → 4 ≤ j → k ≤ j))))
layout_to_size_least_example =
    layout_to_size_least empty_state.talloc small 3 4 (omega arith) (omega arith) (omega arith)
      (omega arith) refl refl
