-- ===== src/Talloc/Runs.antt =====
-- Clients of the allocator: calls in a row, each as its contract allows, and the heap they leave.
use tauos.Base.{ℕ, suc, ◌+◌, ◌-◌, ◌^◌, ◌%◌, ◌≤◌, ◌<◌, ◌≡◌, ◌⊎◌, inl, sym, ◌∙◌, arith, false, some}
use tauos.Bits.{modulus}
use tauos.Bits.Digits.{test_bit}
use tauos.Bits.Pow.{down}
use tauos.Llist.{Ptr}
use tauos.Talloc.{State, Layout, layout_to_size}
use tauos.Talloc.Alloc.{done, OomHandler, alloc, dealloc, shrink}
use tauos.Talloc.Arena.{zone}
use tauos.Talloc.Regions.{node_at}
use tauos.Talloc.Span.{IsSpan, dealloc-IsSame}
use tauos.Talloc.Releases.{up, release-IsReleased}
use tauos.Talloc.Release.{release}
use tauos.Talloc.Rounds.{InHalf}
use tauos.Talloc.Dealloc.{dealloc-IsFreed}
use tauos.Talloc.Shrink.{shrink-IsSplit}
use tauos.Talloc.BestFit.{alloc-IsAllocated}
use tauos.Talloc.Heap.{Heap, HeapStep, Unused, put, drop, give}
use tauos.Talloc.Represents.{Represents}
use tauos.Talloc.RefineAlloc.{alloc-Represents, shrink-Represents}
use tauos.Talloc.RefineFree.{dealloc-Represents, release-Represents}

-- In a state that represents a heap, when the availability bit of some granularity of at most g is
-- set and the layout has the size of granularity g, at most the size of the arena: alloc returns a
-- block that is unused in the heap and aligned, and the new state represents the heap with the
-- block allocated.
pub alloc-refines :
    (s : State) (K m g k : ℕ) (h : Heap) (oom_handler : OomHandler) (fuel : ℕ) (layout : Layout)
    → Represents s K m h
    → g < s.talloc.llists.len
    → layout_to_size s.talloc layout ≡ 2 ^ (K - g)
    → 2 ^ (K - g) ≤ s.talloc.arena_size
    → k ≤ g
    → test_bit s.talloc.avails k ≡ 1
    → (u : State) × ((b : Ptr) × ((alloc oom_handler (suc fuel) s layout ≡ done u b)
          × (Represents u K m (put h b g) × (Unused K h g b × (b % 2 ^ (K - g) ≡ 0)))))
alloc-refines s K m g k h oom_handler fuel layout rep l size room le some_block =
    let (u, b, (result, (allocated, _))) =
      alloc-IsAllocated s K rep.lists rep.valid g l oom_handler fuel layout k size room le
        (sym (rep.valid.books.avail k (omega arith)) ∙ some_block) in
    (u, (b, (result, alloc-Represents s u K m h g b rep allocated)))

-- In a state that represents a heap, dealloc of an allocated block with a layout of its size
-- returns, and the new state represents the heap without that block.
pub dealloc-refines :
    (s : State) (K m g : ℕ) (h : Heap) (b : Ptr) (layout : Layout)
    → Represents s K m h
    → h.live b ≡ some g
    → layout_to_size s.talloc layout ≡ 2 ^ (K - g)
    → (u : State) × ((dealloc s b layout ≡ some u)
        × (Represents u K m (drop h b) × HeapStep K h (drop h b)))
dealloc-refines s K m g h b layout rep here size =
    let (u, (result, freed)) =
      dealloc-IsFreed s K rep.lists g b layout rep.valid (rep.reserved b g here) size in
    (
      u,
      (
        result,
        dealloc-Represents s u K m h g b rep here (dealloc-IsSame s u b layout result) freed,
      ),
    )

-- In a state that represents a heap, shrink of an allocated block of granularity g to a layout of
-- granularity g + n leads to a state that represents the heap with the block of granularity g + n
-- at the same base.
pub shrink-refines :
    (s : State) (K m g n : ℕ) (h : Heap) (b : Ptr) (old_layout new_layout : Layout)
    → Represents s K m h
    → h.live b ≡ some g
    → g + n < s.talloc.llists.len
    → layout_to_size s.talloc old_layout ≡ 2 ^ (K - g)
    → layout_to_size s.talloc new_layout ≡ 2 ^ (K - (g + n))
    → Represents (shrink s b old_layout new_layout) K m (put h b (g + n))
      × HeapStep K h (put h b (g + n))
shrink-refines s K m g n h b old_layout new_layout rep here l old new =
    shrink-Represents s (shrink s b old_layout new_layout) K m h g n b rep here (
      shrink-IsSplit s K rep.lists g n b old_layout new_layout rep.valid (rep.reserved b g here) l
        old new)

-- What `release` requires: memory of the arena that was not given before, has no sentinel in it,
-- lies in its zone and not in the last smallest block of the address space, and holds a boundary of
-- smallest blocks. The arena ends below 2 ^ 62 or begins at 2 ^ 63 or above.
pub record IsGivable (s : State) (K m : ℕ) (h : Heap) (ptr : Ptr) (len : ℕ) : Type 0 where
  pub half : InHalf s.talloc.arena_base (s.talloc.arena_base + s.talloc.arena_size)
  pub room : ptr + len + 2 ^ m ≤ modulus
  pub not_null : 0 < up m ptr
  pub boundary : up m ptr ≤ down m (ptr + len)
  pub above : s.talloc.arena_base ≤ up m ptr
  pub below : down m (ptr + len) ≤ s.talloc.arena_base + s.talloc.arena_size
  pub in_zone : down m (ptr + len) ≤ zone s.talloc.arena_base K + 2 ^ K
  pub fresh : (x : ℕ) → up m ptr ≤ x → x < down m (ptr + len) → h.pool x ≡ false
  pub spared :
      (i : ℕ)
      → i < s.talloc.llists.len
      → (node_at s.talloc.llists i < up m ptr) ⊎ (down m (ptr + len) ≤ node_at s.talloc.llists i)

-- In a state that represents a heap, release of memory that may be given returns, and the new state
-- represents the heap with the memory between the first and the last boundary of smallest blocks
-- given in addition.
pub release-refines :
    (s : State) (K m : ℕ) (h : Heap) (ptr : Ptr) (len : ℕ)
    → Represents s K m h
    → IsGivable s K m h ptr len
    → (u : State) × ((release s ptr len ≡ some u)
        × (Represents u K m (give h (up m ptr) (down m (ptr + len)))
            × HeapStep K h (give h (up m ptr) (down m (ptr + len)))))
release-refines s K m h ptr len rep givable =
    let span : IsSpan s K rep.lists (up m ptr) (down m (ptr + len)) = record {
      above = givable.above;
      below = givable.in_zone;
      clear = λ x p q c. ground (arith, (rep.cover x).1 (inl c), givable.fresh x p q);
      spared = givable.spared;
    } in
    let (u, (result, released)) =
      release-IsReleased s K m rep.lists ptr len rep.valid rep.smallest givable.half givable.room
        givable.not_null givable.boundary givable.below span in
    (
      u,
      (
        result,
        release-Represents s u K m h (up m ptr) (down m (ptr + len)) rep givable.fresh released,
      ),
    )
