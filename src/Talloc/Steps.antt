-- ===== src/Talloc/Steps.antt =====
-- The bookkeeping steps and the whole invariant.
use tauos.Base.{ℕ, ◌+◌, ◌-◌, ◌^◌, ◌<◌, ◌≡◌, arith, List, ◌∷◌, ◌++◌}
use tauos.Llist.{Ptr}
use tauos.Talloc.{State, add_block_next, remove_block, bitmap_offset}
use tauos.Talloc.Offsets.{bitmap_offset-eq}
use tauos.Talloc.Books.{IsArena, FreeLists, update, BlockAt, bit_place, ==_refl}
use tauos.Talloc.Add.{add-Books}
use tauos.Talloc.Take.{IsListed, take-Books, take-block, has-rest, inside}
use tauos.Talloc.Regions.{
  Adds, Valid, Reserved, Reserved-IsNew, add-IsSpread, take-IsSpread, take-IsReserved,
}

-- The offset that the code computes for a block is the place of its bit.
pub offset-eq :
    (s : State) (K g : ℕ) (b : Ptr)
    → IsArena s.talloc K
    → g < s.talloc.llists.len
    → BlockAt s.talloc K g b
    → bitmap_offset s.talloc b (2 ^ (K - g)) ≡ bit_place s.talloc K g b
offset-eq s K g b arena l block =
    let j : g + (K - g) ≡ K = omega (arith, arena.levels) in
    bitmap_offset-eq s.talloc g (K - g) b (rw j arena.pow2) arena.small_base (rw j arena.small)
      block

module _ (s : State) (K : ℕ) (free : FreeLists) (g : ℕ) (b : Ptr) where
  pub add-Adds : Reserved s K free g b → Adds free (update free g (b ∷ free g)) g b
  add-Adds r =
      let out = (Reserved-IsNew s K free g b r).out g r.level in
      record { lacks = ground arith; gains = λ h c. ground arith }

  -- add_block_next of a reserved block keeps the invariant: the block is the first of its free
  -- list, the availability bits and the buddy bitmap agree with the free lists, and free blocks do
  -- not overlap.
  pub add-Valid :
      Valid s K free
      → Reserved s K free g b
      → Valid (add_block_next s g (bit_place s.talloc K g b) b) K (update free g (b ∷ free g))
  add-Valid v r = record {
    books = add-Books v.books g b (Reserved-IsNew s K free g b r);
    spread =
        unfold add_block_next in
        add-IsSpread (add-Adds r) s.talloc.arena_base s.talloc.llists K v.spread r;
  }

module _ (s : State) (K : ℕ) (free : FreeLists) (g : ℕ) (xs : List Ptr) (b : Ptr) (ys : List Ptr)
    (v : Valid s K free) (there : IsListed s.talloc free g xs b ys) where
  pub take-Adds : Adds (update free g (xs ++ ys)) free g b
  take-Adds = record {
    lacks = rw (==_refl g) (ground (arith, has-rest v.books g xs b ys there b));
    gains =
        λ h c. ground (arith, has-rest v.books g xs b ys there c, inside v.books g xs b ys there);
  }

  -- remove_block of a listed block, at any place of its free list, keeps the invariant: the
  -- availability bits and the buddy bitmap agree with the list without it.
  pub take-Valid :
      Valid (remove_block s g (bit_place s.talloc K g b) b) K (update free g (xs ++ ys))
  take-Valid = record {
    books = take-Books v.books g xs b ys there;
    spread = unfold remove_block in take-IsSpread take-Adds s.talloc.llists K v.spread;
  }

  pub take-Reserved :
      Reserved (remove_block s g (bit_place s.talloc K g b) b) K (update free g (xs ++ ys)) g b
  take-Reserved =
      unfold remove_block in
      take-IsReserved take-Adds s.talloc.arena_base s.talloc.llists K there.level
        (take-block v.books g xs b ys there) v.spread
