-- ===== src/Talloc/Alloc.antt =====
-- `Talloc::alloc`, `dealloc` and `shrink`.
use tauos.Base.{
  ℕ, zero, suc, ◌+◌, ◌-◌, bit_and, true, false, Bool, Option, none, some, ◌==◌, ltb, if◌then◌else◌,
}
use tauos.Bits.{modulus, add64, sub64, not64, ◌<<◌, ◌>>>◌}
use tauos.Utils.{fast_non0_log2}
use tauos.Llist.{Ptr}
use tauos.Talloc.{
  Talloc, State, Layout, is_lower_buddy, block_granularity, bitmap_offset, read_bitflag,
  add_block_next, remove_block_next, remove_block, layout_to_size,
}

-- A call that can fail for lack of memory, or run for ever in the handler's loop.
pub data Outcome (A : Type 0) : Type 0 where
  done : State → A → Outcome A
  alloc_error : State → Outcome A
  out_of_fuel : Outcome A

-- `oom_handler`: the state that it leaves, and whether it returned `Ok`.
abbrev pub OomHandler : Type 0
OomHandler = State → Layout → State × Bool

-- `for hi_granularity in lo..=hi`: `rounds` of it are left.
unfoldable pub split_blocks : (rounds hi_granularity hi_block_size : ℕ) → Ptr → State → State
split_blocks zero hi_granularity hi_block_size base s = s
split_blocks (suc rounds) hi_granularity hi_block_size base s =
    let hi_block_base = add64 base hi_block_size in
    split_blocks rounds (hi_granularity + 1) (hi_block_size >>> 1) base (
      add_block_next s hi_granularity (bitmap_offset s.talloc hi_block_base hi_block_size)
        hi_block_base)

-- The block of `larger_avl`, broken down to `granularity`.
unfoldable pub alloc_larger : State → (granularity larger_avl : ℕ) → Outcome Ptr
alloc_larger s granularity larger_avl =
    let lgr_granularity = fast_non0_log2 larger_avl in
    let lgr_size = s.talloc.arena_size_pow2 >>> lgr_granularity in
    let (s', lgr_base) = remove_block_next s lgr_granularity lgr_size in
    done
      (split_blocks (granularity - lgr_granularity) (lgr_granularity + 1) (lgr_size >>> 1) lgr_base
        s')
      lgr_base

-- `self.avails & !(usize::MAX << granularity)`
abbrev pub larger_avails : Talloc → ℕ → ℕ
larger_avails t granularity = bit_and t.avails (not64 (modulus - 1 << granularity))

module _ (oom_handler : OomHandler) where
  -- `while size > self.arena_size { (self.oom_handler)(self, layout)?; }`
  unfoldable pub grow_arena : ℕ → State → Layout → ℕ → Outcome (Unit {0})
  grow_arena zero s layout size = out_of_fuel
  grow_arena (suc fuel) s layout size = elim (ltb s.talloc.arena_size size) [
    | false ↦ done s tt
    | true ↦
        let (s', is_ok) = oom_handler s layout in
        elim is_ok [ false ↦ alloc_error s' | true ↦ grow_arena fuel s' layout size ]
  ]

  -- The loop that looks for a larger block, and what follows it.
  unfoldable pub find_larger : ℕ → State → Layout → (size granularity : ℕ) → Outcome Ptr
  find_larger zero s layout size granularity = out_of_fuel
  find_larger (suc fuel) s layout size granularity =
      let larger_avl = larger_avails s.talloc granularity in
      elim (larger_avl == 0) [
        | false ↦ alloc_larger s granularity larger_avl
        | true ↦
            let (s', is_ok) = oom_handler s layout in
            elim is_ok [
              | false ↦ alloc_error s'
              | true ↦ find_larger fuel s' layout size (block_granularity s'.talloc size)
            ]
      ]

  -- What follows the first loop of `alloc`.
  unfoldable pub alloc_sized : ℕ → State → Layout → ℕ → Outcome Ptr
  unfolding find_larger alloc_larger split_blocks
  alloc_sized fuel s layout size =
      let granularity = block_granularity s.talloc size in
      if bit_and s.talloc.avails (1 << granularity) == 0
      then find_larger fuel s layout size granularity
      else let (s', base) = remove_block_next s granularity size in done s' base

  unfoldable pub alloc : ℕ → State → Layout → Outcome Ptr
  unfolding grow_arena
  alloc fuel s layout =
      let size = layout_to_size s.talloc layout in
      elim (grow_arena fuel s layout size) [
        | done s' _ ↦ alloc_sized fuel s' layout size
        | alloc_error s' ↦ alloc_error s'
        | out_of_fuel ↦ out_of_fuel
      ]

-- The `while` loop of `dealloc` and the registration after it; `none` when the fuel runs out.
unfoldable pub merge : ℕ → State → Ptr → (size granularity offset : ℕ) → Option State
merge zero s ptr size granularity offset = none
merge (suc fuel) s ptr size granularity offset = elim (read_bitflag s.talloc.bitmap offset) [
  | false ↦ some (add_block_next s granularity offset ptr)
  | true ↦
      let lower = is_lower_buddy ptr size in
      let buddy_ptr = if lower then add64 ptr size else sub64 ptr size in
      let next_ptr = if lower then ptr else sub64 ptr size in
      let s' = remove_block s granularity offset buddy_ptr in
      merge fuel s' next_ptr (size << 1) (sub64 granularity 1)
        (bitmap_offset s'.talloc next_ptr (size << 1))
]

-- A granularity is below 64, so 64 rounds are enough.
unfoldable pub dealloc : State → Ptr → Layout → Option State
unfolding merge
dealloc s ptr layout =
    let size = layout_to_size s.talloc layout in
    merge 64 s ptr size (block_granularity s.talloc size) (bitmap_offset s.talloc ptr size)

unfoldable pub shrink : State → Ptr → (old_layout new_layout : Layout) → State
unfolding split_blocks
shrink s ptr old_layout new_layout =
    let old_size = layout_to_size s.talloc old_layout in
    let new_size = layout_to_size s.talloc new_layout in
    let old_granularity = block_granularity s.talloc old_size in
    let new_granularity = block_granularity s.talloc new_size in
    if old_size == new_size
    then s
    else split_blocks (new_granularity - old_granularity) (old_granularity + 1) (old_size >>> 1) ptr
        s
