-- ===== src/Talloc/Empty.antt =====
-- A small allocator in concrete numbers: an arena of 64 bytes at address 0, granularities 0 to 2,
-- the sentinels at 4096, and then one free block.
use tauos.Base.{inr, refl, arith, [], ◌∷◌}
use tauos.Talloc.{State, add_block_next}
use tauos.Talloc.Books.{FreeLists, IsArena, update, bit_place}
use tauos.Talloc.Regions.{Valid, Reserved}
use tauos.Talloc.Fresh.{no_blocks, flag-clear, fresh-Valid}
use tauos.Talloc.Steps.{add-Valid}

abbrev pub empty_state : State
empty_state = record {
  talloc = record {
    arena_base = 0;
    arena_size = 64;
    arena_size_pow2 = 64;
    smlst_block = 16;
    avails = 0;
    llists = record { ptr = 4096; len = 3 };
    bitmap = 0 ∷ [];
  };
  mem = λ a. record { content = tt; next = a; prev = a };
}

pub empty-Valid : Valid empty_state 6 no_blocks
empty-Valid = fresh-Valid empty_state 6 arena refl (flag-clear 1) (λ g l. (refl, refl))
  where
    arena : IsArena empty_state.talloc 6
    arena = record {
      pow2 = refl;
      small = omega arith;
      small_base = omega arith;
      levels = omega arith;
      room = omega arith;
    }

-- The whole arena.
pub whole-Reserved : Reserved empty_state 6 no_blocks 0 0
whole-Reserved = record {
  level = omega arith;
  block = record { aligned = refl; above = omega arith; below = omega arith };
  disjoint = λ h c l i. absurd (ground arith);
  spared = λ h l. inr (omega arith);
}

abbrev pub whole_lists : FreeLists
whole_lists = update no_blocks 0 (0 ∷ [])

-- The allocator with the whole arena free.
abbrev pub whole_state : State
whole_state = add_block_next empty_state 0 (bit_place empty_state.talloc 6 0 0) 0

pub whole-Valid : Valid whole_state 6 whole_lists
whole-Valid = add-Valid empty_state 6 no_blocks 0 0 empty-Valid whole-Reserved
