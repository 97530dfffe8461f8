-- ===== src/Talloc/Take.antt =====
-- `remove_block` and `remove_block_next` take a block out of its list, and keep the books.
use native.Mathlib.Decide.{ℕ_discrete}
use tauos.Base.{
  ℕ, ◌+◌, ◌-◌, ◌^◌, ◌<◌, ◌≡◌, ◌≢◌, sym, ◌∙◌, inl, inr, true, false, List, [], ◌∷◌, ◌++◌, arith,
  ◌==◌, Bool-cases, if◌then◌else◌,
}
use tauos.Bits.{modulus, ◌<<◌, not64}
use tauos.Bits.Digits.{test_bit, pow-le}
use tauos.Bits.Masks.{test_bit-clear, and-le}
use tauos.Utils.Pow.{one-shl}
use tauos.Llist.{Ptr}
use tauos.Llist.Links.{has, has-append, IsRing, IsRing-frame, Unique-apart}
use tauos.Llist.Remove.{remove-IsRing, remove_other}
use tauos.Talloc.{Talloc, State, sentinel, remove_block, remove_block_next, clear_if, bitmap_offset}
use tauos.Talloc.Arena.{buddy, place_granularity}
use tauos.Talloc.Buddies.{same, twin, other, pairing, buddy-ne, place-buddy}
use tauos.Talloc.Offsets.{bitmap_offset-eq}
use tauos.Talloc.Flags.{flag, flag-toggle, length-toggle}
use tauos.Talloc.Last.{
  is_empty, empty-occupied, occupied-mid, last-eq-empty, sentinel-eq-empty, Unique-tail,
}
use tauos.Talloc.Books.{
  Books, FreeLists, update, occupied, one_of, BlockAt, bit_place, place_room, ==_refl, ne→==,
}

-- `b` is a free block of granularity `g`, behind `xs` in its list.
pub record IsListed (t : Talloc) (free : FreeLists) (g : ℕ) (xs : List Ptr) (b : Ptr)
    (ys : List Ptr) : Type 0 where
  pub level : g < t.llists.len
  pub listed : free g ≡ xs ++ b ∷ ys

module _ {s : State} {K : ℕ} {free : FreeLists} (books : Books s K free) (g : ℕ) (xs : List Ptr)
    (b : Ptr) (ys : List Ptr) (there : IsListed s.talloc free g xs b ys) where
  abbrev after : State
  after = remove_block s g (bit_place s.talloc K g b) b

  abbrev lists : FreeLists
  lists = update free g (xs ++ ys)

  ring : IsRing s.mem (sentinel s.talloc g) (xs ++ b ∷ ys)
  ring = rw there.listed at (books.rings g there.level)

  pub inside : has b (free g) ≡ true
  inside = rw (there.listed, has-append b xs (b ∷ ys)) (ground arith)

  block : BlockAt s.talloc K g b
  block = books.blocks g b there.level inside

  -- Who stays in the list.
  pub has-rest : (c : Ptr) → has c (xs ++ ys) ≡ (if c == b then false else has c (free g))
  has-rest c =
      rw (there.listed, has-append c xs ys, has-append c xs (b ∷ ys))
        (ground (arith, Unique-apart xs (b ∷ ys) c ring.unique, (Unique-tail xs b ys ring.unique)))

  elsewhere :
      (h : ℕ) (a : Ptr)
      → h < s.talloc.llists.len
      → g ≢ h
      → has a (sentinel s.talloc h ∷ free h) ≡ true
      → after.mem a ≡ s.mem a
  unfolding remove_block
  elsewhere h a l ne i =
      let out = books.apart h g a l there.level (λ e. ne (sym e)) i in
      remove_other s.mem (sentinel s.talloc g) xs b ys a ring (rw there.listed at out)

  take_rings : (h : ℕ) → h < s.talloc.llists.len → IsRing after.mem (sentinel s.talloc h) (lists h)
  take_rings h l = elim (ℕ_discrete g h) [
    | yes e ↦
        rw (← e, ==_refl g)
          (unfold remove_block in remove-IsRing s.mem (sentinel s.talloc g) xs b ys ring)
    | no ne ↦ rw (ne→== g h ne) (
        IsRing-frame s.mem after.mem (sentinel s.talloc h) (free h) (λ a i. elsewhere h a l ne i)
          (books.rings h l))
  ]

  take_avails : after.talloc.avails ≡ clear_if (is_empty (xs ++ ys)) s.talloc.avails g
  unfolding remove_block
  take_avails = rw (last-eq-empty s.mem (sentinel s.talloc g) xs b ys ring)

  level_small : g < 64
  level_small = omega (arith, books.arena.levels, books.arena.small, there.level)

  avails_word : s.talloc.avails < modulus
  avails_word = omega (
    arith,
    books.avail_small,
    pow-le s.talloc.llists.len 64 (omega (arith, books.arena.levels, books.arena.small)),
  )

  cleared :
      (h : ℕ)
      → test_bit after.talloc.avails h ≡ (
          if g == h
          then (if is_empty (xs ++ ys) then 0 else test_bit s.talloc.avails h)
          else test_bit s.talloc.avails h)
  cleared h = rw take_avails (elim (Bool-cases (is_empty (xs ++ ys))) [
    | inl e ↦
        rw (e, one-shl g level_small, test_bit-clear s.talloc.avails g h avails_word level_small)
    | inr e ↦ rw e (ground arith)
  ])

  take_avail :
      (h : ℕ) → h < s.talloc.llists.len → test_bit after.talloc.avails h ≡ occupied (lists h)
  take_avail h l = elim (ℕ_discrete g h) [
    | yes e ↦
        let old = books.avail g there.level in
        let one : test_bit s.talloc.avails g ≡ 1 = old ∙ rw there.listed (occupied-mid xs b ys) in
        rw (cleared h, ← e, ==_refl g, one, empty-occupied (xs ++ ys))
    | no ne ↦ rw (cleared h, ne→== g h ne) (books.avail h l)
  ]

  take_avail_small : after.talloc.avails < 2 ^ s.talloc.llists.len
  take_avail_small = rw take_avails (elim (Bool-cases (is_empty (xs ++ ys))) [
    | inl e ↦ rw e (omega (arith, and-le s.talloc.avails (not64 (1 << g)), books.avail_small))
    | inr e ↦ rw e books.avail_small
  ])

  toggled :
      (p : ℕ)
      → flag after.talloc.bitmap p ≡ (
          if bit_place s.talloc K g b == p
          then 1 - flag s.talloc.bitmap p
          else flag s.talloc.bitmap p)
  unfolding remove_block
  toggled p =
      flag-toggle s.talloc.bitmap (bit_place s.talloc K g b) p
        (place_room s.talloc K g b books.arena there.level block)

  take_flags_here :
      (c : Ptr)
      → BlockAt s.talloc K g c
      → flag after.talloc.bitmap (bit_place s.talloc K g c)
        ≡ one_of (has c (xs ++ ys)) (has (buddy (K - g) c) (xs ++ ys))
  take_flags_here c at_c =
      let old = books.flags g c there.level at_c in
      let now = toggled (bit_place s.talloc K g c) in
      let rest = has-rest c in
      let rest_buddy = has-rest (buddy (K - g) c) in
      elim (pairing s.talloc.arena_base g (K - g) b c block at_c) [
        | same e ↦ ground (arith, buddy-ne (K - g) b, inside)
        | twin e back ne ↦ ground (arith, place-buddy s.talloc.arena_base g (K - g) b, inside)
        | other apart ne back ↦ ground arith
      ]

  take_flags :
      (h : ℕ) (c : Ptr)
      → h < s.talloc.llists.len
      → BlockAt s.talloc K h c
      → flag after.talloc.bitmap (bit_place s.talloc K h c)
        ≡ one_of (has c (lists h)) (has (buddy (K - h) c) (lists h))
  take_flags h c l at_c = elim (ℕ_discrete g h) [
    | yes e ↦ rw (← e, ==_refl g) (take_flags_here c (rw e at_c))
    | no ne ↦
        let apart : (bit_place s.talloc K g b == bit_place s.talloc K h c) ≡ false =
          ne→== _ _ (λ i.
            ne (place_granularity s.talloc.arena_base g (K - g) b h (K - h) c block at_c i)) in
        rw (toggled (bit_place s.talloc K h c), apart, ne→== g h ne) (books.flags h c l at_c)
  ]

  take-has : (h : ℕ) (c : Ptr) → has c (lists h) ≡ true → has c (free h) ≡ true
  take-has h c i = elim (ℕ_discrete g h) [
    | yes e ↦ rw (← e) (let i' = rw (← e, ==_refl g) at i in ground (arith, has-rest c))
    | no ne ↦ rw (ne→== g h ne) at i
  ]

  take_apart :
      (h k : ℕ) (a : Ptr)
      → h < s.talloc.llists.len
      → k < s.talloc.llists.len
      → h ≢ k
      → has a (sentinel s.talloc h ∷ lists h) ≡ true
      → has a (sentinel s.talloc k ∷ lists k) ≡ false
  take_apart h k a l m ne i =
      ground (arith, books.apart h k a l m ne, take-has h a, take-has k a, i)

  -- `remove_block` keeps the books: the block leaves its list, and the others stay in order.
  pub take-Books :
      Books (remove_block s g (bit_place s.talloc K g b) b) K (update free g (xs ++ ys))
  unfolding remove_block
  take-Books = record {
    arena = record {
      pow2 = books.arena.pow2;
      small = books.arena.small;
      small_base = books.arena.small_base;
      levels = books.arena.levels;
      room = rw length-toggle books.arena.room;
    };
    rings = take_rings;
    blocks = λ h c l i. books.blocks h c l (take-has h c i);
    apart = take_apart;
    avail = take_avail;
    avail_small = take_avail_small;
    flags = take_flags;
  }

  pub take-block : BlockAt s.talloc K g b
  take-block = block

module _ {s : State} {K : ℕ} {free : FreeLists} (books : Books s K free) (g : ℕ) (b : Ptr)
    (ys : List Ptr) (there : IsListed s.talloc free g [] b ys) where
  -- Where the books hold and a free list is not empty, remove_block_next with the size of its
  -- granularity returns the first block of the list and leaves the state that remove_block leaves
  -- for that block.
  pub remove_block_next-eq :
      remove_block_next s g (2 ^ (K - g)) ≡ (remove_block s g (bit_place s.talloc K g b) b, b)
  unfolding remove_block_next remove_block
  remove_block_next-eq =
      let ring : IsRing s.mem (sentinel s.talloc g) (b ∷ ys) =
        rw there.listed at (books.rings g there.level) in
      let j : g + (K - g) ≡ K = omega (arith, books.arena.levels, there.level) in
      let offset : bitmap_offset s.talloc b (2 ^ (K - g)) ≡ bit_place s.talloc K g b =
        bitmap_offset-eq s.talloc g (K - g) b (rw j books.arena.pow2) books.arena.small_base
          (rw j books.arena.small) (take-block books g [] b ys there) in
      rw (
        sentinel-eq-empty s.mem (sentinel s.talloc g) b ys ring,
        last-eq-empty s.mem (sentinel s.talloc g) [] b ys ring,
        ring.links.0,
        offset,
      )
