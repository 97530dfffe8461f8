-- ===== src/Talloc/Add.antt =====
-- `add_block_next` puts a block at the head of its list, and keeps the books.
use native.Mathlib.Nat.{pow-suc, one-le-pow}
use native.Mathlib.Decide.{ℕ_discrete}
use tauos.Base.{
  ℕ, suc, ◌-◌, ◌^◌, ◌<◌, ◌≡◌, ◌≢◌, refl, sym, inl, inr, true, false, ◌∷◌, arith, ◌==◌, ==_iff,
  Bool-cases, if◌then◌else◌, bit_or,
}
use tauos.Bits.Digits.{test_bit, pow-le}
use tauos.Bits.Masks.{test_bit-set, or-lt}
use tauos.Utils.Pow.{one-shl}
use tauos.Llist.{Ptr}
use tauos.Llist.Links.{has, IsRing, IsRing-frame}
use tauos.Llist.Insert.{new-cons, new_frame}
use tauos.Talloc.{Talloc, State, sentinel, add_block_next, toggle_bitflag}
use tauos.Talloc.Arena.{buddy, place_granularity}
use tauos.Talloc.Buddies.{same, twin, other, pairing, buddy-ne, place-buddy}
use tauos.Talloc.Flags.{flag, flag-toggle, length-toggle}
use tauos.Talloc.Books.{
  Books, FreeLists, update, occupied, one_of, BlockAt, bit_place, place_room, next-mem_self,
  ==_refl, ne→==,
}

-- A block that may be registered: it is one of the arena's, and no list has a node there.
pub record IsNew (t : Talloc) (K : ℕ) (free : FreeLists) (g : ℕ) (b : Ptr) : Type 0 where
  pub level : g < t.llists.len
  pub block : BlockAt t K g b
  pub out : (h : ℕ) → h < t.llists.len → has b (sentinel t h ∷ free h) ≡ false

module _ {s : State} {K : ℕ} {free : FreeLists} (books : Books s K free) (g : ℕ) (b : Ptr)
    (fresh : IsNew s.talloc K free g b) where
  abbrev t : Talloc
  t = s.talloc

  abbrev after : State
  after = add_block_next s g (bit_place s.talloc K g b) b

  abbrev lists : FreeLists
  lists = update free g (b ∷ free g)

  -- Writes go to the new node and to its two neighbours in the list of `g`.
  elsewhere :
      (h : ℕ) (a : Ptr)
      → h < s.talloc.llists.len
      → g ≢ h
      → has a (sentinel s.talloc h ∷ free h) ≡ true
      → after.mem a ≡ s.mem a
  unfolding add_block_next
  elsewhere h a l ne inside =
      let head = next-mem_self s.mem (sentinel s.talloc g) (free g) (books.rings g fresh.level) in
      let other = books.apart h g a l fresh.level (λ e. ne (sym e)) inside in
      new_frame s.mem b (sentinel s.talloc g) (s.mem (sentinel s.talloc g)).next tt a
        (ground (arith, fresh.out h l)) (ground arith) (ground arith)

  add_rings : (h : ℕ) → h < s.talloc.llists.len → IsRing after.mem (sentinel s.talloc h) (lists h)
  add_rings h l = elim (ℕ_discrete g h) [
    | yes e ↦
        rw (← e, ==_refl g)
          (unfold add_block_next in
            new-cons s.mem b (sentinel s.talloc g) (free g) tt (books.rings g fresh.level)
              (fresh.out g fresh.level))
    | no ne ↦ rw (ne→== g h ne) (
        IsRing-frame s.mem after.mem (sentinel s.talloc h) (free h) (λ a i. elsewhere h a l ne i)
          (books.rings h l))
  ]

  level_small : g < 64
  level_small = omega (arith, books.arena.levels, books.arena.small, fresh.level)

  add_avails : after.talloc.avails ≡ bit_or s.talloc.avails (2 ^ g)
  unfolding add_block_next
  add_avails = rw (one-shl g level_small)

  add_avail :
      (h : ℕ) → h < s.talloc.llists.len → test_bit after.talloc.avails h ≡ occupied (lists h)
  add_avail h l = rw (add_avails, test_bit-set) (ground (arith, books.avail h l))

  add_avail_small : after.talloc.avails < 2 ^ s.talloc.llists.len
  add_avail_small = rw add_avails (
      or-lt s.talloc.llists.len _ _ books.avail_small (
        omega (arith, pow-le (suc g) s.talloc.llists.len fresh.level, pow-suc 2 g, one-le-pow g 2)))

  add_bitmap : after.talloc.bitmap ≡ toggle_bitflag s.talloc.bitmap (bit_place s.talloc K g b)
  unfolding add_block_next
  add_bitmap = refl

  toggled :
      (p : ℕ)
      → flag after.talloc.bitmap p ≡ (
          if bit_place s.talloc K g b == p
          then 1 - flag s.talloc.bitmap p
          else flag s.talloc.bitmap p)
  toggled p = rw add_bitmap (
      flag-toggle s.talloc.bitmap (bit_place s.talloc K g b) p
        (place_room s.talloc K g b books.arena fresh.level fresh.block))

  add_flags_here :
      (c : Ptr)
      → BlockAt s.talloc K g c
      → flag after.talloc.bitmap (bit_place s.talloc K g c)
        ≡ one_of (has c (b ∷ free g)) (has (buddy (K - g) c) (b ∷ free g))
  add_flags_here c block =
      let old = books.flags g c fresh.level block in
      let now = toggled (bit_place s.talloc K g c) in
      let out = fresh.out g fresh.level in
      elim (pairing s.talloc.arena_base g (K - g) b c fresh.block block) [
        | same e ↦ ground (arith, buddy-ne (K - g) b)
        | twin e back ne ↦ ground (arith, place-buddy s.talloc.arena_base g (K - g) b)
        | other apart ne back ↦ ground arith
      ]

  add_flags :
      (h : ℕ) (c : Ptr)
      → h < s.talloc.llists.len
      → BlockAt s.talloc K h c
      → flag after.talloc.bitmap (bit_place s.talloc K h c)
        ≡ one_of (has c (lists h)) (has (buddy (K - h) c) (lists h))
  add_flags h c l block = elim (ℕ_discrete g h) [
    | yes e ↦ rw (← e, ==_refl g) (add_flags_here c (rw e block))
    | no ne ↦
        let apart : (bit_place s.talloc K g b == bit_place s.talloc K h c) ≡ false = ne→== _ _ (λ i.
          ne (place_granularity s.talloc.arena_base g (K - g) b h (K - h) c fresh.block block i)) in
        rw (toggled (bit_place s.talloc K h c), apart, ne→== g h ne) (books.flags h c l block)
  ]

  add_blocks_here : (c : Ptr) → has c (b ∷ free g) ≡ true → BlockAt s.talloc K g c
  add_blocks_here c i = elim (Bool-cases (c == b)) [
    | inl e ↦ rw ((==_iff c b).0 e) fresh.block
    | inr ne ↦ books.blocks g c fresh.level (ground arith)
  ]

  add_blocks :
      (h : ℕ) (c : Ptr) → h < s.talloc.llists.len → has c (lists h) ≡ true → BlockAt s.talloc K h c
  add_blocks h c l i = elim (ℕ_discrete g h) [
    | yes e ↦ rw (← e) (add_blocks_here c (rw (← e, ==_refl g) at i))
    | no ne ↦ books.blocks h c l (rw (ne→== g h ne) at i)
  ]

  add_apart :
      (h k : ℕ) (a : Ptr)
      → h < s.talloc.llists.len
      → k < s.talloc.llists.len
      → h ≢ k
      → has a (sentinel s.talloc h ∷ lists h) ≡ true
      → has a (sentinel s.talloc k ∷ lists k) ≡ false
  add_apart h k a l m ne i =
      ground (arith, books.apart h k a l m ne, fresh.out h l, fresh.out k m, i)

  -- `add_block_next` keeps the books: the block becomes the first of its list.
  pub add-Books :
      Books (add_block_next s g (bit_place s.talloc K g b) b) K (update free g (b ∷ free g))
  unfolding add_block_next
  add-Books = record {
    arena = record {
      pow2 = books.arena.pow2;
      small = books.arena.small;
      small_base = books.arena.small_base;
      levels = books.arena.levels;
      room = rw length-toggle books.arena.room;
    };
    rings = add_rings;
    blocks = add_blocks;
    apart = add_apart;
    avail = add_avail;
    avail_small = add_avail_small;
    flags = add_flags;
  }
