-- ===== src/Talloc/Same.antt =====
-- What no operation but `extend` changes: the arena, and the place of the sentinels.
use tauos.Base.{ℕ, ◌≡◌, refl, ◌∙◌}
use tauos.Llist.{Ptr}
use tauos.Talloc.{State, add_block_next, remove_block}

-- The arena is the same, and so are its free lists' sentinels.
pub record IsSame (s u : State) : Type 0 where
  pub base : u.talloc.arena_base ≡ s.talloc.arena_base
  pub size : u.talloc.arena_size ≡ s.talloc.arena_size
  pub smlst : u.talloc.smlst_block ≡ s.talloc.smlst_block
  pub llists : u.talloc.llists ≡ s.talloc.llists

pub IsSame-refl : (s : State) → IsSame s s
IsSame-refl s = record { base = refl; size = refl; smlst = refl; llists = refl }

pub IsSame-trans : (s t u : State) → IsSame s t → IsSame t u → IsSame s u
IsSame-trans s t u a b = record {
  base = b.base ∙ a.base;
  size = b.size ∙ a.size;
  smlst = b.smlst ∙ a.smlst;
  llists = b.llists ∙ a.llists;
}

pub add_block_next-IsSame :
    (s : State) (granularity offset : ℕ) (b : Ptr)
    → IsSame s (add_block_next s granularity offset b)
unfolding add_block_next
add_block_next-IsSame s granularity offset b = record {
  base = refl;
  size = refl;
  smlst = refl;
  llists = refl;
}

pub remove_block-IsSame :
    (s : State) (granularity offset : ℕ) (b : Ptr) → IsSame s (remove_block s granularity offset b)
unfolding remove_block
remove_block-IsSame s granularity offset b = record {
  base = refl;
  size = refl;
  smlst = refl;
  llists = refl;
}
