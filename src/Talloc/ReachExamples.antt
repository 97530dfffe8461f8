-- ===== src/Talloc/ReachExamples.antt =====
-- Uses of the theorems about clients, at the states of Talloc.Client.
use tauos.Base.{ℕ, ◌+◌, ◌-◌, ◌^◌, ◌%◌, ◌≡◌, refl, inl, inr, arith, true, some, []}
use tauos.Utils.{leading_zeros, fast_non0_log2, fast_non0_prev_pow2, fast_non0_next_pow2}
use tauos.Llist.{Ptr}
use tauos.Talloc.{State, layout_to_size}
use tauos.Talloc.Alloc.{done, alloc, dealloc, shrink}
use tauos.Talloc.Extend.{new}
use tauos.Talloc.Release.{release}
use tauos.Talloc.New.{new-IsFirst, IsFirst}
use tauos.Talloc.Regions.{Region, Separate}
use tauos.Talloc.Heap.{HeapStep, Unused, put, drop, give}
use tauos.Talloc.Represents.{Represents}
use tauos.Talloc.Fresh.{no_blocks}
use tauos.Talloc.Empty.{empty_state, empty-Valid}
use tauos.Talloc.Runs.{IsGivable, alloc-refines, dealloc-refines, shrink-refines, release-refines}
use tauos.Talloc.Tallock.{Tallock, resized, alloc_zeroed, realloc}
use tauos.Talloc.Realloc.{IsLayout, IsMoved, IsZeroed, realloc-IsMoved, alloc_zeroed-IsZeroed}
use tauos.Talloc.Reach.{
  HeapRun, first_heap, Reachable-Represents, Reachable-Separate, Reachable-HeapRun,
}
use tauos.Talloc.Client.{
  blank, small-IsSetup, first, no_memory, small, middle, one, two, wide, small_size, middle_size,
  heap_one, heap_two, heap_wide, first_reached, one_reached, two_reached, wide_reached,
  first-IsKnown, one-IsKnown, wide-IsKnown,
}

new-IsFirst_example :
    (u : State) × ((new blank 0 128 16 0 128 ≡ some u) × IsFirst u 0 128 16 7 4 96 128)
new-IsFirst_example = new-IsFirst blank 0 128 16 0 128 7 4 small-IsSetup

Reachable-Separate_example :
    Separate (7 - 3) 96 (7 - 3) 112
    × ((96 % 2 ^ (7 - 3) ≡ 0) × ((x : ℕ) → Region (7 - 3) 96 x → heap_two.pool x ≡ true))
Reachable-Separate_example =
    Reachable-Separate 7 4 two heap_two 96 112 3 3 two_reached refl refl (λ e. omega (arith, e))

Reachable-HeapRun_example : (base : ℕ) × ((acme : ℕ) × HeapRun 7 (first_heap base acme) heap_two)
Reachable-HeapRun_example = Reachable-HeapRun 7 4 two_reached

Reachable-Represents_example : Represents two 7 4 heap_two
Reachable-Represents_example = Reachable-Represents 7 4 two_reached

alloc-refines_example :
    (u : State) × ((b : Ptr) × ((alloc no_memory 1 first small ≡ done u b)
        × (Represents u 7 4 (put (first_heap 96 128) b 3)
            × (Unused 7 (first_heap 96 128) 3 b × (b % 2 ^ (7 - 3) ≡ 0)))))
alloc-refines_example =
    alloc-refines first 7 4 3 2 (first_heap 96 128) no_memory 0 small
      (Reachable-Represents 7 4 first_reached) (omega (arith, first-IsKnown))
      (small_size first first-IsKnown.smallest) (omega (arith, first-IsKnown))
      (omega (arith, first-IsKnown)) first-IsKnown.bit

dealloc-refines_example :
    (u : State) × ((dealloc one 96 small ≡ some u)
      × (Represents u 7 4 (drop heap_one 96) × HeapStep 7 heap_one (drop heap_one 96)))
dealloc-refines_example =
    dealloc-refines one 7 4 3 heap_one 96 small (Reachable-Represents 7 4 one_reached) refl
      (small_size one one-IsKnown.smallest)

shrink-refines_example :
    Represents (shrink wide 96 middle small) 7 4 (put heap_wide 96 (2 + 1))
    × HeapStep 7 heap_wide (put heap_wide 96 (2 + 1))
shrink-refines_example =
    shrink-refines wide 7 4 2 1 heap_wide 96 middle small (Reachable-Represents 7 4 wide_reached)
      refl (omega (arith, wide-IsKnown)) (middle_size wide wide-IsKnown.smallest)
      (small_size wide wide-IsKnown.smallest)

-- The arena of Talloc.Empty, with nothing given to it yet.
empty-Represents : Represents empty_state 6 4 (first_heap 0 0)
empty-Represents = record {
  lists = no_blocks;
  valid = empty-Valid;
  smallest = (refl, (omega arith, omega arith));
  reserved = λ b g is. absurd (ground (arith, is));
  apart = λ b c g k p q differ. absurd (ground (arith, p));
  cover = λ x. (
    λ p. absurd (ground (arith, p)),
    λ c. elim c [
      | inl free ↦ absurd (ground (arith, free.listed))
      | inr l ↦ absurd (ground (arith, l.is))
    ],
  );
}

givable : IsGivable empty_state 6 4 (first_heap 0 0) 10 50
givable = record {
  half = inl (omega arith);
  room = omega arith;
  not_null = omega arith;
  boundary = omega arith;
  above = omega arith;
  below = omega arith;
  in_zone = omega arith;
  fresh = λ x p q. ground arith;
  spared = λ i l. inr (omega arith);
}

release-refines_example :
    (u : State) × ((release empty_state 10 50 ≡ some u)
      × (Represents u 6 4 (give (first_heap 0 0) 16 48)
          × HeapStep 6 (first_heap 0 0) (give (first_heap 0 0) 16 48)))
release-refines_example =
    release-refines empty_state 6 4 (first_heap 0 0) 10 50 empty-Represents givable

abbrev locked_one : Tallock
locked_one = record { talloc = one; accesses = [] }

small-IsLayout : IsLayout small
small-IsLayout = record {
  some_size = omega arith;
  small_size = omega arith;
  order = 3;
  order_small = omega arith;
  align_pow2 = refl;
}

grown_size :
    (s : State)
    → s.talloc.smlst_block ≡ 16
    → layout_to_size s.talloc (resized small 16) ≡ 2 ^ (7 - 3)
unfolding layout_to_size leading_zeros fast_non0_log2 fast_non0_prev_pow2 fast_non0_next_pow2
grown_size s e = rw e refl

-- From the 12 bytes at 96 to 16 bytes in the other block.
realloc-IsMoved_example :
    (u : Tallock) × ((b : Ptr) × ((realloc no_memory 1 1 locked_one 96 small 16 ≡ some (u, b))
        × IsMoved locked_one u 7 4 heap_one 3 3 96 b 12))
realloc-IsMoved_example =
    realloc-IsMoved no_memory 1 0 locked_one 7 4 3 3 3 heap_one 96 small 16
      (Reachable-Represents 7 4 one_reached) small-IsLayout (omega arith) refl
      (small_size one one-IsKnown.smallest) (omega (arith, one-IsKnown))
      (omega (arith, one-IsKnown)) (grown_size one one-IsKnown.smallest)
      (omega (arith, one-IsKnown)) (omega (arith, one-IsKnown)) one-IsKnown.bit

alloc_zeroed-IsZeroed_example :
    (u : Tallock) × ((b : Ptr) × ((alloc_zeroed no_memory 1 1 locked_one small ≡ some (u, b))
        × IsZeroed locked_one u 7 4 heap_one 3 b 12))
alloc_zeroed-IsZeroed_example =
    alloc_zeroed-IsZeroed no_memory 1 0 locked_one 7 4 3 3 heap_one small
      (Reachable-Represents 7 4 one_reached) small-IsLayout (omega (arith, one-IsKnown))
      (small_size one one-IsKnown.smallest) (omega (arith, one-IsKnown))
      (omega (arith, one-IsKnown)) one-IsKnown.bit
