-- ===== src/Talloc/Client.antt =====
-- A client in concrete numbers: an arena of 128 bytes at address 0, of which the status data takes
-- the first 82, and two blocks of 16 bytes.
use tauos.Base.{ℕ, ◌-◌, ◌^◌, ◌≡◌, refl, inl, arith, false, Option, some, none, []}
use tauos.Bits.Digits.{test_bit}
use tauos.Utils.{
  leading_zeros, trailing_zeros, fast_non0_log2, fast_non0_prev_pow2, fast_non0_next_pow2,
}
use tauos.Llist.{Ptr, Mem, new_llist, mov, remove}
use tauos.Utils.Copy.{copy_slice_bits, copy_rotated, rotate_left}
use tauos.Llist
use tauos.Talloc.{
  State, Layout, layout_to_size, block_granularity, bitmap_offset, read_bitflag, toggle_bitflag,
  is_lower_buddy, add_block_next, remove_block_next, remove_block,
}
use tauos.Talloc.Alloc.{
  done, alloc_error, out_of_fuel, Outcome, OomHandler, alloc, alloc_sized, grow_arena, find_larger,
  alloc_larger, split_blocks, merge, dealloc,
}
use tauos.Talloc.Extend.{
  new, extend, extend_status, take_over, release_old, move_llists, copy_fields, slice_bytes, log2,
  next_power_of_two,
}
use tauos.Talloc.Release.{release, release_in, release_blocks}
use tauos.Talloc.Status.{IsSetup}
use tauos.Talloc.Heap.{Heap, put}
use tauos.Talloc.Reach.{Reachable, Call, first_heap}

abbrev pub blank : Mem (Unit {0})
blank a = record { content = tt; next = 0; prev = 0 }

pub no_setup : State
no_setup = record {
  talloc = record {
    arena_base = 0;
    arena_size = 0;
    arena_size_pow2 = 0;
    smlst_block = 0;
    avails = 0;
    llists = record { ptr = 0; len = 0 };
    bitmap = [];
  };
  mem = blank;
}

pub small-IsSetup : IsSetup 0 128 16 0 128 7 4
small-IsSetup = record {
  sizes = record {
    least = omega arith;
    most = omega arith;
    ceil = (omega arith, omega arith);
    smallest_pow2 = refl;
    holds_node = omega arith;
    level = omega arith;
  };
  half = inl (omega arith);
  in_zone = omega arith;
  above = omega arith;
  below = omega arith;
  room = omega arith;
  boundary = omega arith;
}

pub value : Option State → State
value (some s) = s
value none = no_setup

pub first : State
first = value (new blank 0 128 16 0 128)

abbrev pub no_memory : OomHandler
no_memory s layout = (s, false)

abbrev pub small : Layout
small = record { size = 12; align = 8 }

-- 32 bytes
abbrev pub middle : Layout
middle = record { size = 20; align = 8 }

pub state : Outcome Ptr → State
state (done s b) = s
state (alloc_error s) = s
state out_of_fuel = no_setup

pub one : State
one = state (alloc no_memory 1 first small)

pub two : State
two = state (alloc no_memory 1 one small)

pub wide : State
wide = state (alloc no_memory 1 first middle)

pub first_eq : new blank 0 128 16 0 128 ≡ some first
unfolding first one two state value new extend extend_status take_over release_old move_llists
    copy_fields slice_bytes log2 next_power_of_two release release_in release_blocks alloc
    alloc_sized grow_arena find_larger alloc_larger split_blocks dealloc merge layout_to_size
    block_granularity bitmap_offset read_bitflag toggle_bitflag is_lower_buddy add_block_next
    remove_block remove_block_next leading_zeros trailing_zeros fast_non0_log2 fast_non0_prev_pow2
    fast_non0_next_pow2
first_eq = refl

pub one_eq : alloc no_memory 1 first small ≡ done one 96
unfolding first one two state value new extend extend_status take_over release_old move_llists
    copy_fields slice_bytes log2 next_power_of_two release release_in release_blocks alloc
    alloc_sized grow_arena find_larger alloc_larger split_blocks dealloc merge layout_to_size
    block_granularity bitmap_offset read_bitflag toggle_bitflag is_lower_buddy add_block_next
    remove_block remove_block_next leading_zeros trailing_zeros fast_non0_log2 fast_non0_prev_pow2
    fast_non0_next_pow2 Llist.new new_llist
one_eq = refl

pub two_eq : alloc no_memory 1 one small ≡ done two 112
unfolding first one two state value new extend extend_status take_over release_old move_llists
    copy_fields slice_bytes log2 next_power_of_two release release_in release_blocks alloc
    alloc_sized grow_arena find_larger alloc_larger split_blocks dealloc merge layout_to_size
    block_granularity bitmap_offset read_bitflag toggle_bitflag is_lower_buddy add_block_next
    remove_block remove_block_next leading_zeros trailing_zeros fast_non0_log2 fast_non0_prev_pow2
    fast_non0_next_pow2 Llist.new new_llist
two_eq = refl

pub wide_eq : alloc no_memory 1 first middle ≡ done wide 96
unfolding first one two wide state value new extend extend_status take_over release_old move_llists
    copy_fields slice_bytes log2 next_power_of_two release release_in release_blocks alloc
    alloc_sized grow_arena find_larger alloc_larger split_blocks dealloc merge layout_to_size
    block_granularity bitmap_offset read_bitflag toggle_bitflag is_lower_buddy add_block_next
    remove_block remove_block_next leading_zeros trailing_zeros fast_non0_log2 fast_non0_prev_pow2
    fast_non0_next_pow2 Llist.new new_llist test_bit
wide_eq = refl

pub small_size :
    (s : State) → s.talloc.smlst_block ≡ 16 → layout_to_size s.talloc small ≡ 2 ^ (7 - 3)
unfolding layout_to_size leading_zeros fast_non0_log2 fast_non0_prev_pow2 fast_non0_next_pow2
small_size s e = rw e refl

pub middle_size :
    (s : State) → s.talloc.smlst_block ≡ 16 → layout_to_size s.talloc middle ≡ 2 ^ (7 - 2)
unfolding layout_to_size leading_zeros fast_non0_log2 fast_non0_prev_pow2 fast_non0_next_pow2
middle_size s e = rw e refl

abbrev pub heap_one : Heap
heap_one = put (first_heap 96 128) 96 3

abbrev pub heap_two : Heap
heap_two = put heap_one 112 3

abbrev pub heap_wide : Heap
heap_wide = put (first_heap 96 128) 96 2

-- What the calls need to know of a state of this arena.
pub record IsKnown (s : State) (i v : ℕ) : Type 0 where
  pub len : s.talloc.llists.len ≡ 4
  pub size : s.talloc.arena_size ≡ 128
  pub smallest : s.talloc.smlst_block ≡ 16
  pub bit : test_bit s.talloc.avails i ≡ v

pub first-IsKnown : IsKnown first 2 1
unfolding first one two state value new extend extend_status take_over release_old move_llists
    copy_fields slice_bytes log2 next_power_of_two release release_in release_blocks alloc
    alloc_sized grow_arena find_larger alloc_larger split_blocks dealloc merge layout_to_size
    block_granularity bitmap_offset read_bitflag toggle_bitflag is_lower_buddy add_block_next
    remove_block remove_block_next leading_zeros trailing_zeros fast_non0_log2 fast_non0_prev_pow2
    fast_non0_next_pow2 Llist.new new_llist test_bit
first-IsKnown = record { len = refl; size = refl; smallest = refl; bit = refl }

pub one-IsKnown : IsKnown one 3 1
unfolding first one two state value new extend extend_status take_over release_old move_llists
    copy_fields slice_bytes log2 next_power_of_two release release_in release_blocks alloc
    alloc_sized grow_arena find_larger alloc_larger split_blocks dealloc merge layout_to_size
    block_granularity bitmap_offset read_bitflag toggle_bitflag is_lower_buddy add_block_next
    remove_block remove_block_next leading_zeros trailing_zeros fast_non0_log2 fast_non0_prev_pow2
    fast_non0_next_pow2 Llist.new new_llist test_bit
one-IsKnown = record { len = refl; size = refl; smallest = refl; bit = refl }

pub wide-IsKnown : IsKnown wide 2 0
unfolding first wide state value new extend extend_status take_over release_old move_llists
    copy_fields slice_bytes log2 next_power_of_two release release_in release_blocks alloc
    alloc_sized grow_arena find_larger alloc_larger split_blocks dealloc merge layout_to_size
    block_granularity bitmap_offset read_bitflag toggle_bitflag is_lower_buddy add_block_next
    remove_block remove_block_next leading_zeros trailing_zeros fast_non0_log2 fast_non0_prev_pow2
    fast_non0_next_pow2 Llist.new new_llist test_bit
wide-IsKnown = record { len = refl; size = refl; smallest = refl; bit = refl }

pub first_reached : Reachable 7 4 first (first_heap 96 128)
first_reached = Reachable.constructed blank 0 128 16 0 128 first small-IsSetup first_eq

pub one_reached : Reachable 7 4 one heap_one
one_reached = Reachable.called first_reached (
    Call.alloc_call no_memory 0 3 2 small 96 (omega (arith, first-IsKnown))
      (small_size first first-IsKnown.smallest) (omega (arith, first-IsKnown))
      (omega (arith, first-IsKnown)) first-IsKnown.bit one_eq)

pub two_reached : Reachable 7 4 two heap_two
two_reached = Reachable.called one_reached (
    Call.alloc_call no_memory 0 3 3 small 112 (omega (arith, one-IsKnown))
      (small_size one one-IsKnown.smallest) (omega (arith, one-IsKnown))
      (omega (arith, one-IsKnown)) one-IsKnown.bit two_eq)

pub wide_reached : Reachable 7 4 wide heap_wide
wide_reached = Reachable.called first_reached (
    Call.alloc_call no_memory 0 2 2 middle 96 (omega (arith, first-IsKnown))
      (middle_size first first-IsKnown.smallest) (omega (arith, first-IsKnown))
      (omega (arith, first-IsKnown)) first-IsKnown.bit wide_eq)

-- The arena doubled while both blocks are allocated: the old status data and what is left of the new
-- memory become free.
grown : Option State
grown = extend two 0 256 128 128

grown_lem : ((value grown).talloc.avails ≡ 24) × ((value grown).talloc.arena_size_pow2 ≡ 256)
unfolding first one two state value grown new extend extend_status take_over release_old move_llists
    copy_fields slice_bytes log2 next_power_of_two release release_in release_blocks alloc
    alloc_sized grow_arena find_larger alloc_larger split_blocks dealloc merge layout_to_size
    block_granularity bitmap_offset read_bitflag toggle_bitflag is_lower_buddy add_block_next
    remove_block remove_block_next leading_zeros trailing_zeros fast_non0_log2 fast_non0_prev_pow2
    fast_non0_next_pow2 Llist.new new_llist copy_slice_bits copy_rotated rotate_left Llist.mov
    Llist.remove
grown_lem = (refl, refl)
