-- ===== src/Talloc/Release.antt =====
-- `release`: giving memory to the allocator.
use tauos.Base.{ℕ, zero, suc, bit_and, Bool, true, false, Option, some, none, ◌==◌, ◌&&◌, leb}
use tauos.Base.Partial.{◌>>=◌}
use tauos.Bits.{add64, sub64, not64, ◌<<◌, signed_lt, signed_le}
use tauos.Utils.{trailing_zeros, fast_non0_prev_pow2}
use tauos.Llist.{Ptr}
use tauos.Talloc.{State, Layout}
use tauos.Talloc.Alloc.{dealloc}

-- `Layout::from_size_align_unchecked(size, 1)`
abbrev pub block_layout : ℕ → Layout
block_layout size = record { size = size; align = 1 }

-- The loop, with `asc_block_sizes`; `none` when the fuel runs out.
unfoldable pub release_blocks : (fuel : ℕ) → Bool → State → (block_base acme : ℕ) → Option State
release_blocks zero asc s block_base acme = none
release_blocks (suc fuel) true s block_base acme =
    let block_size = 1 << trailing_zeros block_base in
    elim (signed_le (add64 block_base block_size) acme) [
      | true ↦ dealloc s block_base (block_layout block_size) >>= λ s'.
          release_blocks fuel true s' (add64 block_base block_size) acme
      | false ↦ release_blocks fuel false s block_base acme
    ]
release_blocks (suc fuel) false s block_base acme =
    let delta = sub64 acme block_base in
    let block_size = fast_non0_prev_pow2 delta in
    elim (leb s.talloc.smlst_block delta) [
      | true ↦ dealloc s block_base (block_layout block_size) >>= λ s'.
          release_blocks fuel false s' (add64 block_base block_size) acme
      | false ↦ some s
    ]

-- Up to 64 rounds with growing sizes, one to turn, 64 with falling sizes, and the last.
abbrev pub rounds : ℕ
rounds = 130

-- The first and the last boundary of a smallest block in the memory.
abbrev pub release_base : State → (ptr : Ptr) → ℕ
release_base s ptr =
    let sbm1 = sub64 s.talloc.smlst_block 1 in bit_and (add64 ptr sbm1) (not64 sbm1)

abbrev pub release_acme : State → (ptr : Ptr) (len : ℕ) → ℕ
release_acme s ptr len =
    let sbm1 = sub64 s.talloc.smlst_block 1 in bit_and (add64 ptr len) (not64 sbm1)

-- `release`, with fuel for the recursion that goes around the null block; `none` where an assertion
-- fails or fuel runs out.
unfoldable pub release_in : (fuel : ℕ) → State → (ptr : Ptr) (len : ℕ) → Option State
release_in zero s ptr len = none
release_in (suc fuel) s ptr len =
    let base = release_base s ptr in
    let acme = release_acme s ptr len in
    let acme_limit = add64 s.talloc.arena_base s.talloc.arena_size in
    elim (signed_le s.talloc.arena_base base && signed_le acme acme_limit) [
      | false ↦ none
      | true ↦ elim (base == acme) [
        | true ↦ some s
        | false ↦ elim (signed_le base 0 && signed_lt 0 acme) [
          | true ↦
              let skipped = sub64 s.talloc.smlst_block base in
              release_in fuel s ptr (sub64 0 base) >>= λ s'.
              release_in fuel s' (add64 ptr skipped) (sub64 len skipped)
          | false ↦ release_blocks rounds true s base acme
        ]
      ]
    ]

-- The parts before and after the null block do not hold it, so two levels are enough.
unfoldable pub release : State → (ptr : Ptr) (len : ℕ) → Option State
release s ptr len = release_in 2 s ptr len
