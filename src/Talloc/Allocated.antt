-- ===== src/Talloc/Allocated.antt =====
-- `alloc`: what it returns and what it leaves, where some free block is large enough.
use tauos.Base.{ℕ, ◌+◌, ◌-◌, ◌^◌, ◌≤◌, ◌<◌, ◌≡◌, ◌↔◌, ◌⊎◌, refl, ap, arith, List, [], ◌∷◌}
use tauos.Bits.{◌>>>◌}
use tauos.Utils.Log.{IsTop, log2-top}
use tauos.Llist.{Ptr}
use tauos.Talloc.{State, remove_block}
use tauos.Talloc.Offsets.{shr-pow}
use tauos.Talloc.Alloc.{done, split_blocks, alloc_larger}
use tauos.Talloc.Same.{IsSame, IsSame-trans, remove_block-IsSame}
use tauos.Talloc.Books.{FreeLists, update, occupied, bit_place}
use tauos.Talloc.Take.{IsListed, remove_block_next-eq}
use tauos.Talloc.Regions.{Covers, Covers-Adds, Region, Valid, Reserved}
use tauos.Talloc.Steps.{take-Adds, take-Valid, take-Reserved}
use tauos.Talloc.Split.{IsSplit, split_blocks-IsSplit}

-- From `s` to `u` the block of granularity `g` at `b`, which was free, has been reserved; all other
-- free memory is still free.
pub record IsAllocated (s u : State) (K : ℕ) (free : FreeLists) (g : ℕ) (b : Ptr) : Type 0 where
  pub lists : FreeLists
  pub valid : Valid u K lists
  pub reserved : Reserved u K lists g b
  pub covers :
      (x : ℕ)
      → (Covers u.talloc.llists.len K lists x ⊎ Region (K - g) b x)
        ↔ Covers s.talloc.llists.len K free x
  pub same : IsSame s u

pub first_of_occupied :
    (xs : List Ptr) → occupied xs ≡ 1 → (b : Ptr) × (ys : List Ptr) × (xs ≡ b ∷ ys)
first_of_occupied [] e = absurd (omega arith)
first_of_occupied (b ∷ ys) e = (b, ys, refl)

-- What `s` had free, `t` has free or in the block at `b`.
abbrev pub Moved : (s t : State) (K : ℕ) (free lists : FreeLists) (g : ℕ) → Ptr → Type 0
Moved s t K free lists g b =
    (x : ℕ)
    → (Covers t.talloc.llists.len K lists x ⊎ Region (K - g) b x)
      ↔ Covers s.talloc.llists.len K free x

-- A larger block, reserved and then broken down.
split-IsAllocated :
    (s t u : State) (K : ℕ) (free lists : FreeLists) (h g : ℕ) (b : Ptr)
    → Moved s t K free lists h b
    → IsSame s t
    → IsSplit t u K lists h g b
    → IsAllocated s u K free g b
split-IsAllocated s t u K free lists h g b moved same split = record {
  lists = split.lists;
  valid = split.valid;
  reserved = split.reserved;
  same = IsSame-trans s t u same split.same;
  covers = λ x.
      let first = moved x in
      let rest = split.covers x in (λ c. first.0 (rest.0 c), λ c. rest.1 (first.1 c));
}

module _ (s : State) (K : ℕ) (free : FreeLists) (v : Valid s K free) where
  -- Taking the first block of a list.
  take-Moved :
      (g : ℕ) (b : Ptr) (ys : List Ptr)
      → IsListed s.talloc free g [] b ys
      → Moved s (remove_block s g (bit_place s.talloc K g b) b) K free (update free g ys) g b
  unfolding remove_block
  take-Moved g b ys there x =
      let parts =
        Covers-Adds (take-Adds s K free g [] b ys v there) s.talloc.llists.len K x there.level in
      (parts.1, parts.0)

  pub take_first :
      (g : ℕ) (b : Ptr) (ys : List Ptr)
      → IsListed s.talloc free g [] b ys
      → IsAllocated s (remove_block s g (bit_place s.talloc K g b) b) K free g b
  take_first g b ys there = record {
    lists = update free g ys;
    valid = take-Valid s K free g [] b ys v there;
    reserved = take-Reserved s K free g [] b ys v there;
    same = remove_block-IsSame s g (bit_place s.talloc K g b) b;
    covers = take-Moved g b ys there;
  }

  -- Breaking down the first block of a list.
  pub alloc_larger-IsAllocated :
      (h g a : ℕ) (b : Ptr) (ys : List Ptr)
      → h ≤ g
      → g < s.talloc.llists.len
      → free h ≡ b ∷ ys
      → IsTop h a
      → (u : State) × ((alloc_larger s g a ≡ done u b) × IsAllocated s u K free g b)
  unfolding alloc_larger
  alloc_larger-IsAllocated h g a b ys le l e top =
      let level : h < s.talloc.llists.len = omega arith in
      let there : IsListed s.talloc free h [] b ys = record { level = level; listed = e } in
      let arena = v.books.arena in
      let sum : h + (K - h) ≡ K = omega (arith, arena.levels) in
      let goal : h + (g - h) ≡ g = omega arith in
      let small : h < 64 = omega (arith, arena.levels, arena.small) in
      let size : (s.talloc.arena_size_pow2 >>> h) ≡ 2 ^ (K - h) =
        rw (arena.pow2, ← ap (λ (t : ℕ). 2 ^ t) sum) (shr-pow h (K - h) small) in
      let split =
        split_blocks-IsSplit (g - h) h (remove_block s h (bit_place s.talloc K h b) b) K
          (update free h ys) b (take-Valid s K free h [] b ys v there)
          (take-Reserved s K free h [] b ys v there) (unfold remove_block in omega arith) in
      rw (log2-top h a small top, size, remove_block_next-eq v.books h b ys there)
        (
          split_blocks (g - h) (h + 1) (2 ^ (K - h) >>> 1) b
              (remove_block s h (bit_place s.talloc K h b) b),
          (
            refl,
            split-IsAllocated s _ _ K free (update free h ys) h g b (take-Moved h b ys there)
                (remove_block-IsSame s h (bit_place s.talloc K h b) b) (rw goal at split),
          ),
        )
