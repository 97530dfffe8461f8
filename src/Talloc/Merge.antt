-- ===== src/Talloc/Merge.antt =====
-- One round of the loop of `dealloc`: a block whose buddy is free merges with it, one whose buddy is
-- not is registered.
use native.Mathlib.Nat.{mod-eq_of_lt}
use tauos.Base.{
  ℕ, suc, ◌+◌, ◌-◌, ◌/◌, ◌%◌, ◌^◌, ◌≤◌, ◌<◌, ◌≡◌, ◌↔◌, ◌⊎◌, inl, inr, refl, sym, ap, ◌∙◌, true,
  false, Bool, arith, ◌==◌, List, [], ◌∷◌, ◌++◌, some, Bool-cases, ==_iff, if◌then◌else◌,
}
use tauos.Bits.{modulus, add64, sub64, ◌<<◌}
use tauos.Llist.{Ptr}
use tauos.Llist.Links.{has}
use tauos.Talloc.{State, is_lower_buddy, read_bitflag, add_block_next, remove_block, bitmap_offset}
use tauos.Talloc.Alloc.{merge}
use tauos.Talloc.Arena.{buddy}
use tauos.Talloc.Buddies.{place-buddy, odd-le}
use tauos.Talloc.Offsets.{is_lower_buddy-eq, shl-pow}
use tauos.Talloc.Flags.{read_bitflag-flag}
use tauos.Talloc.Books.{FreeLists, update, one_of, bit_place}
use tauos.Talloc.Take.{IsListed, inside}
use tauos.Talloc.Regions.{
  Covers, Covers-Adds, Region, Valid, IsReserved, Reserved, Reserved-IsNew, mem_less,
}
use tauos.Talloc.Join.{lower, join-IsReserved, join-Region}
use tauos.Talloc.Steps.{offset-eq, add-Adds, add-Valid, take-Adds, take-Valid, take-Reserved}
use tauos.Talloc.Split.{block_end}

-- From `s` to `u` the reserved block of granularity `g` at `b` has become free memory, and nothing
-- else has changed hands.
pub record IsFreed (s u : State) (K : ℕ) (free : FreeLists) (g : ℕ) (b : Ptr) : Type 0 where
  pub lists : FreeLists
  pub valid : Valid u K lists
  pub covers :
      (x : ℕ)
      → Covers u.talloc.llists.len K lists x
        ↔ (Covers s.talloc.llists.len K free x ⊎ Region (K - g) b x)

pub listed_split :
    (b : Ptr) (xs : List Ptr)
    → has b xs ≡ true
    → (ws : List Ptr) × (ys : List Ptr) × (xs ≡ ws ++ b ∷ ys)
listed_split b [] i = absurd (ground arith)
listed_split b (x ∷ xs) i = elim (Bool-cases (b == x)) [
  | inl e ↦ let same : x ≡ b = sym ((==_iff b x).0 e) in ([], xs, ap (λ t. t ∷ xs) same)
  | inr ne ↦ let (ws, ys, e) = listed_split b xs (ground arith) in (x ∷ ws, ys, ap (λ t. x ∷ t) e)
]

one_of-false : (q : Bool) → (one_of false q == 1) ≡ q
one_of-false true = refl
one_of-false false = refl

module _ (s : State) (K : ℕ) (free : FreeLists) (g : ℕ) (b : Ptr) (v : Valid s K free)
    (r : Reserved s K free g b) where
  -- The bit at the block's place tells whether its buddy is free.
  buddy_flag :
      read_bitflag s.talloc.bitmap (bit_place s.talloc K g b) ≡ has (buddy (K - g) b) (free g)
  buddy_flag =
      let absent = (Reserved-IsNew s K free g b r).out g r.level in
      rw
        (
          read_bitflag-flag s.talloc.bitmap (bit_place s.talloc K g b),
          v.books.flags g b r.level r.block,
        )
        (let out : has b (free g) ≡ false = ground arith in rw out (one_of-false _))

  -- The loop ends: the block is registered.
  pub stop :
      (fuel : ℕ) (size : ℕ)
      → has (buddy (K - g) b) (free g) ≡ false
      → (u : State) × ((merge (suc fuel) s b size g (bit_place s.talloc K g b) ≡ some u)
          × IsFreed s u K free g b)
  unfolding merge
  stop fuel size alone =
      rw (merge, buddy_flag, alone)
        (
          add_block_next s g (bit_place s.talloc K g b) b,
          (
            refl,
            record {
              lists = update free g (b ∷ free g);
              valid = add-Valid s K free g b v r;
              covers =
                  unfold add_block_next in
                  λ x. Covers-Adds (add-Adds s K free g b r) s.talloc.llists.len K x r.level;
            },
          ),
        )

-- The addresses that the loop computes.
module _ (j b : ℕ) (small : b + 2 ^ j < modulus) where
  no_wrap : (b / 2 ^ j % 2 == 0) ≡ false → sub64 b (2 ^ j) ≡ b - 2 ^ j
  no_wrap odd = omega (arith, odd-le j b odd)

  buddy_ptr-eq : (if is_lower_buddy b (2 ^ j) then add64 b (2 ^ j) else sub64 b (2 ^ j)) ≡ buddy j b
  unfolding buddy
  buddy_ptr-eq = rw (is_lower_buddy-eq j b) (elim (Bool-cases (b / 2 ^ j % 2 == 0)) [
    | inl even ↦ rw even (mod-eq_of_lt small)
    | inr odd ↦ rw odd (no_wrap odd)
  ])

  next_ptr-eq : (if is_lower_buddy b (2 ^ j) then b else sub64 b (2 ^ j)) ≡ lower j b
  next_ptr-eq = rw (is_lower_buddy-eq j b) (elim (Bool-cases (b / 2 ^ j % 2 == 0)) [
    | inl even ↦ rw even refl
    | inr odd ↦ rw odd (no_wrap odd)
  ])

module _ (s : State) (K : ℕ) (free : FreeLists) (g : ℕ) (b : Ptr) (v : Valid s K free)
    (r : Reserved s K free (suc g) b) (ws ys : List Ptr)
    (there : IsListed s.talloc free (suc g) ws (buddy (K - suc g) b) ys) where
  abbrev pub merged : State
  merged =
      remove_block s (suc g) (bit_place s.talloc K (suc g) (buddy (K - suc g) b))
        (buddy (K - suc g) b)

  abbrev pub merged_lists : FreeLists
  merged_lists = update free (suc g) (ws ++ ys)

  pub merged-Valid : Valid merged K merged_lists
  merged-Valid = take-Valid s K free (suc g) ws (buddy (K - suc g) b) ys v there

  fits : suc g ≤ K
  fits = omega (arith, v.books.arena.levels, r.level)

  buddy-Reserved : Reserved merged K merged_lists (suc g) (buddy (K - suc g) b)
  buddy-Reserved = take-Reserved s K free (suc g) ws (buddy (K - suc g) b) ys v there

  block-Reserved : IsReserved s.talloc.arena_base s.talloc.llists K merged_lists (suc g) b
  block-Reserved =
      let adds = take-Adds s K free (suc g) ws (buddy (K - suc g) b) ys v there in
      record {
        level = r.level;
        block = r.block;
        disjoint = λ h c m i. r.disjoint h c m (mem_less adds h c i);
        spared = r.spared;
      }

  pub lower-Reserved : Reserved merged K merged_lists g (lower (K - suc g) b)
  unfolding remove_block
  lower-Reserved =
      join-IsReserved s.talloc.arena_base s.talloc.llists K merged_lists g b fits block-Reserved
        buddy-Reserved

  pub merged-Covers :
      (x : ℕ)
      → (Covers merged.talloc.llists.len K merged_lists x ⊎ Region (K - g) (lower (K - suc g) b) x)
        ↔ (Covers s.talloc.llists.len K free x ⊎ Region (K - suc g) b x)
  unfolding remove_block
  merged-Covers x =
      let adds = take-Adds s K free (suc g) ws (buddy (K - suc g) b) ys v there in
      let taken = Covers-Adds adds s.talloc.llists.len K x r.level in
      let joined =
        join-Region s.talloc.arena_base s.talloc.llists K merged_lists g b fits block-Reserved
          buddy-Reserved x in
      (
        λ c. elim c [
          | inl d ↦ inl (taken.1 (inl d))
          | inr d ↦ elim (joined.0 d) [ inl e ↦ inr e | inr e ↦ inl (taken.1 (inr e)) ]
        ],
        λ c. elim c [
          | inl d ↦ elim (taken.0 d) [ inl e ↦ inl e | inr e ↦ inr (joined.1 (inr e)) ]
          | inr d ↦ inr (joined.1 (inl d))
        ],
      )

  abbrev at_place : ℕ → State
  at_place offset = remove_block s (suc g) offset (buddy (K - suc g) b)

  merge_round :
      (fuel : ℕ)
      → (let s' = at_place (bit_place s.talloc K (suc g) b) in
          merge (suc fuel) s b (2 ^ (K - suc g)) (suc g) (bit_place s.talloc K (suc g) b)
          ≡ merge fuel s'
              (lower (K - suc g) b)
              (2 ^ (K - suc g) << 1)
              (sub64 (suc g) 1)
              (bitmap_offset s'.talloc (lower (K - suc g) b) (2 ^ (K - suc g) << 1)))
  unfolding merge
  merge_round fuel =
      let end =
        block_end s.talloc.arena_base K (suc g) b v.books.arena.small_base v.books.arena.small fits
          r.block in
      let twin = inside v.books (suc g) ws (buddy (K - suc g) b) ys there in
      rw
        (
          merge,
          buddy_flag s K free (suc g) b v r,
          twin,
          buddy_ptr-eq (K - suc g) b end,
          next_ptr-eq (K - suc g) b end,
        )
        refl

  -- One round of the loop.
  pub merge-suc :
      (fuel : ℕ)
      → merge (suc fuel) s b (2 ^ (K - suc g)) (suc g) (bit_place s.talloc K (suc g) b)
        ≡ merge fuel merged
            (lower (K - suc g) b)
            (2 ^ (K - g))
            g
            (bit_place merged.talloc K g (lower (K - suc g) b))
  merge-suc fuel =
      let small = v.books.arena.small in
      let levels = v.books.arena.levels in
      let e : K - g ≡ suc (K - suc g) = omega (arith, fits) in
      let double : (2 ^ (K - suc g) << 1) ≡ 2 ^ (K - g) =
        shl-pow (K - suc g) (omega (arith, small)) ∙ ap (λ (t : ℕ). 2 ^ t) (sym e) in
      let up : sub64 (suc g) 1 ≡ g = omega (arith, small, fits) in
      let offset : bitmap_offset merged.talloc (lower (K - suc g) b) (2 ^ (K - g))
          ≡ bit_place merged.talloc K g (lower (K - suc g) b) =
        offset-eq merged K g (lower (K - suc g) b) merged-Valid.books.arena lower-Reserved.level
          lower-Reserved.block in
      let shared : bit_place s.talloc K (suc g) b
          ≡ bit_place s.talloc K (suc g) (buddy (K - suc g) b) =
        sym (place-buddy s.talloc.arena_base (suc g) (K - suc g) b) in
      merge_round fuel
      ∙ ap
          (λ (p : ℕ).
            merge fuel (at_place p) (lower (K - suc g) b) (2 ^ (K - suc g) << 1) (sub64 (suc g) 1)
              (bitmap_offset (at_place p).talloc (lower (K - suc g) b) (2 ^ (K - suc g) << 1)))
          shared
      ∙ rw (double, up, offset) refl
