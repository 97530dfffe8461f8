-- ===== src/Talloc/Books.antt =====
-- The invariant of the allocator's books, over the ghost lists `free`: the blocks that are free at
-- each granularity, in the order of the linked list.
use tauos.Base.{
  ℕ, suc, ◌-◌, ◌*◌, ◌^◌, ◌≤◌, ◌<◌, ◌≡◌, ◌≢◌, Bool, true, false, List, [], ◌∷◌, arith, ◌==◌,
  if◌then◌else◌, length,
}
use tauos.Bits.{modulus}
use tauos.Bits.Digits.{test_bit, pow-le}
use tauos.Llist.{Ptr, Mem}
use tauos.Llist.Links.{has, IsRing}
use tauos.Talloc.{Talloc, State, sentinel}
use tauos.Talloc.Arena.{IsBlock, buddy, place, place-lt}
use tauos.Talloc.Flags.{flag}

pub ==_refl : (a : ℕ) → (a == a) ≡ true
==_refl a = ground arith

pub ne→== : (a b : ℕ) → a ≢ b → (a == b) ≡ false
ne→== a b h = ground arith

-- What stays the same between calls of `extend`.
pub record IsArena (t : Talloc) (K : ℕ) : Type 0 where
  pub pow2 : t.arena_size_pow2 ≡ 2 ^ K
  pub small : K < 63
  pub small_base : t.arena_base < modulus
  pub levels : t.llists.len ≤ suc K
  pub room : 2 ^ t.llists.len ≤ 8 * length t.bitmap

abbrev pub FreeLists : Type 0
FreeLists = ℕ → List Ptr

abbrev pub update : FreeLists → ℕ → List Ptr → FreeLists
update free g l h = if g == h then l else free h

abbrev pub occupied : List Ptr → ℕ
occupied [] = 0
occupied (x ∷ xs) = 1

-- 1 where exactly one of two tests holds.
abbrev pub one_of : Bool → Bool → ℕ
one_of true true = 0
one_of true false = 1
one_of false true = 1
one_of false false = 0

-- `b` is a block of granularity `g` in an arena of `2 ^ K` bytes.
abbrev pub BlockAt : Talloc → (K g : ℕ) → Ptr → Type 0
BlockAt t K g b = IsBlock t.arena_base g (K - g) b

abbrev pub bit_place : Talloc → (K g : ℕ) → Ptr → ℕ
bit_place t K g b = place t.arena_base g (K - g) b

pub record Books (s : State) (K : ℕ) (free : FreeLists) : Type 0 where
  pub arena : IsArena s.talloc K
  pub rings : (g : ℕ) → g < s.talloc.llists.len → IsRing s.mem (sentinel s.talloc g) (free g)
  pub blocks :
      (g : ℕ) (b : Ptr) → g < s.talloc.llists.len → has b (free g) ≡ true → BlockAt s.talloc K g b
  pub apart :
      (g h : ℕ) (a : Ptr)
      → g < s.talloc.llists.len
      → h < s.talloc.llists.len
      → g ≢ h
      → has a (sentinel s.talloc g ∷ free g) ≡ true
      → has a (sentinel s.talloc h ∷ free h) ≡ false
  pub avail : (g : ℕ) → g < s.talloc.llists.len → test_bit s.talloc.avails g ≡ occupied (free g)
  pub avail_small : s.talloc.avails < 2 ^ s.talloc.llists.len
  pub flags :
      (g : ℕ) (b : Ptr)
      → g < s.talloc.llists.len
      → BlockAt s.talloc K g b
      → flag s.talloc.bitmap (bit_place s.talloc K g b)
        ≡ one_of (has b (free g)) (has (buddy (K - g) b) (free g))

-- The bit of a block lies in the bitmap.
pub place_room :
    (t : Talloc) (K g : ℕ) (b : Ptr)
    → IsArena t K
    → g < t.llists.len
    → BlockAt t K g b
    → bit_place t K g b < 8 * length t.bitmap
place_room t K g b arena l block = omega (
  arith,
  place-lt t.arena_base g (K - g) b block,
  pow-le g t.llists.len (omega arith),
  arena.room,
)

-- The first node of a list, or the sentinel where there is none.
pub next-mem_self :
    {A : Type 0} (m : Mem A) (s : Ptr) (xs : List Ptr)
    → IsRing m s xs
    → has (m s).next (s ∷ xs) ≡ true
next-mem_self m s [] r = ground arith
next-mem_self m s (x ∷ xs) r = ground arith
