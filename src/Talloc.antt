-- ===== src/Talloc.antt =====
-- kernel/src/memm/talloc.rs: the buddy allocator's state, and the bookkeeping that each operation
-- goes through. `Talloc` keeps the arena's bounds, a word of availability bits, the sentinels of
-- the free lists (an array of nodes in memory) and the buddy bitmap. Blocks hold list nodes while
-- they are free, so the state is the record together with memory. The bitmap's bytes are a list in
-- the record: the memory behind `self.bitmap` is reserved for it alone.
pub mod Alloc
pub mod Allocated
pub mod Arena
pub mod Books
pub mod BestFit
pub mod Buddies
pub mod Add
pub mod Extend
pub mod Flags
pub mod Fresh
pub mod Halves
pub mod Heap
pub mod Join
pub mod Merge
pub mod Dealloc
pub mod Shrink
pub mod Sizes
pub mod Client
pub mod Empty
pub mod Examples
pub mod Last
pub mod Loops
pub mod New
pub mod Reach
pub mod ReachExamples
pub mod Realloc
pub mod RefineAlloc
pub mod RefineFree
pub mod Refused
pub mod Regions
pub mod Release
pub mod ReleaseExamples
pub mod Releases
pub mod Represents
pub mod Rounds
pub mod Span
pub mod Spans
pub mod Split
pub mod Same
pub mod Search
pub mod Setup
pub mod Status
pub mod Steps
pub mod Take
pub mod Tallock
pub mod Updates
pub mod Runs
pub mod Offsets
use tauos.Base.{
  ℕ, ◌+◌, ◌-◌, ◌*◌, ◌%◌, ◌^◌, bit_and, bit_or, bit_xor, List, Bool, ◌==◌, ◌!=◌, if◌then◌else◌,
  get_or, set,
}
use tauos.Bits.{add64, sub64, not64, ◌<<◌, ◌>>>◌}
use tauos.Utils.{leading_zeros, fast_non0_log2, fast_non0_prev_pow2, fast_non0_next_pow2}
use tauos.Llist.{Ptr, Mem}
use tauos.Llist

abbrev pub maximum_arena_size : ℕ
maximum_arena_size = 2 ^ 48

abbrev pub minimum_arena_size : ℕ
minimum_arena_size = 2 ^ 6

-- `size_of::<LlistNode<()>>()`: two pointers
abbrev pub node_size : ℕ
node_size = 16

-- `*mut [LlistNode<()>]`
pub record NodeSlice : Type 0 where
  pub ptr : Ptr
  pub len : ℕ

-- `Talloc`, less the handler for a lack of memory: that is an argument of what calls it.
pub record Talloc : Type 0 where
  pub arena_base : ℕ
  pub arena_size : ℕ
  pub arena_size_pow2 : ℕ
  pub smlst_block : ℕ
  pub avails : ℕ
  pub llists : NodeSlice
  pub bitmap : List ℕ

pub record State : Type 0 where
  pub talloc : Talloc
  pub mem : Mem (Unit {0})

-- `core::alloc::Layout`
pub record Layout : Type 0 where
  pub size : ℕ
  pub align : ℕ

unfoldable pub is_lower_buddy : ℕ → ℕ → Bool
is_lower_buddy block_base size = bit_and block_base size == 0

unfoldable pub block_granularity : Talloc → ℕ → ℕ
block_granularity t size = (leading_zeros size + 2 ^ 32 - leading_zeros t.arena_size_pow2) % 2 ^ 32

unfoldable pub bitmap_offset : Talloc → Ptr → ℕ → ℕ
bitmap_offset t base size =
    let aligned_arena_base = bit_and t.arena_base (not64 (sub64 (size << 1) 1)) in
    let field_offset = sub64 base aligned_arena_base in
    add64 t.arena_size_pow2 field_offset >>> (fast_non0_log2 size + 1)

-- `1 << (bitmap_offset & 7)`, a `u8`
abbrev pub bit_mask : ℕ → ℕ
bit_mask offset = 2 ^ bit_and offset (8 - 1) % 2 ^ 8

unfoldable pub read_bitflag : List ℕ → ℕ → Bool
read_bitflag bitmap offset =
    let index = offset >>> 3 in bit_and (get_or bitmap index 0) (bit_mask offset) != 0

unfoldable pub toggle_bitflag : List ℕ → ℕ → List ℕ
toggle_bitflag bitmap offset =
    let index = offset >>> 3 in set bitmap index (bit_xor (get_or bitmap index 0) (bit_mask offset))

-- `self.llists.get_unchecked_mut(granularity)`
abbrev pub sentinel : Talloc → ℕ → Ptr
sentinel t granularity = t.llists.ptr + node_size * granularity

unfoldable pub add_block_next : State → (granularity offset : ℕ) → Ptr → State
add_block_next s granularity offset node =
    let t = s.talloc in
    let head = sentinel t granularity in
    record {
      talloc = record t {
        avails = bit_or t.avails (1 << granularity);
        bitmap = toggle_bitflag t.bitmap offset;
      };
      mem = Llist.new s.mem node head (s.mem head).next tt;
    }

-- The availability bits, with that of a granularity cleared when its last block goes.
abbrev pub clear_if : Bool → ℕ → ℕ → ℕ
clear_if last avails granularity =
    if last then bit_and avails (not64 (1 << granularity)) else avails

-- `remove_block_next`: the state, and the block taken.
unfoldable pub remove_block_next : State → (granularity size : ℕ) → State × Ptr
remove_block_next s granularity size =
    let t = s.talloc in
    let head = sentinel t granularity in
    let last = (s.mem head).prev == (s.mem head).next in
    let node = (s.mem head).next in
    (
      record {
        talloc = record t {
          avails = clear_if last t.avails granularity;
          bitmap = toggle_bitflag t.bitmap (bitmap_offset t node size);
        };
        mem = Llist.remove s.mem node;
      },
      node,
    )

unfoldable pub remove_block : State → (granularity offset : ℕ) → Ptr → State
remove_block s granularity offset node =
    let t = s.talloc in
    let last = (s.mem node).prev == (s.mem node).next in
    record {
      talloc = record t {
        avails = clear_if last t.avails granularity;
        bitmap = toggle_bitflag t.bitmap offset;
      };
      mem = Llist.remove s.mem node;
    }

unfoldable pub layout_to_size : Talloc → Layout → ℕ
layout_to_size t layout =
    fast_non0_prev_pow2
      (bit_or (bit_or (fast_non0_next_pow2 layout.size) layout.align) t.smlst_block)
