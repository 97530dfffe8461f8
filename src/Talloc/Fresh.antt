-- ===== src/Talloc/Fresh.antt =====
-- An allocator that has no memory yet: the sentinels are alone, and no bit is set.
use tauos.Base.{
  ℕ, zero, suc, ◌+◌, ◌*◌, ◌/◌, ◌%◌, ◌<◌, ◌≤◌, ◌≡◌, refl, arith, [], true, ◌==◌, replicate, get_or,
  ltb, Bool-cases, ==_iff, inl, inr,
}
use tauos.Bits.Digits.{test_bit-zero}
use tauos.Bits.Pow.{pow-pos}
use tauos.Llist.{Ptr, Mem, new_llist}
use tauos.Talloc.{State, NodeSlice, node_size, sentinel}
use tauos.Talloc.Flags.{flag}
use tauos.Talloc.Books.{FreeLists, IsArena, bit_place}
use tauos.Talloc.Regions.{Valid, Covers}
use tauos.Talloc.Extend.{move_llists}

abbrev pub no_blocks : FreeLists
no_blocks g = []

pub uncovered : (n K x : ℕ) → Covers n K no_blocks x → ⊥
uncovered n K x c = ground (arith, c.listed)

-- A node that is linked to itself.
abbrev pub Alone : Mem (Unit {0}) → Ptr → Type 0
Alone m a = ((m a).next ≡ a) × ((m a).prev ≡ a)

new_llist-Alone : (m : Mem (Unit {0})) (a b : Ptr) → Alone m b → Alone (new_llist m a tt) b
unfolding new_llist
new_llist-Alone m a b alone = elim (Bool-cases (a == b)) [
  | inl same ↦ rw (same) ((==_iff a b).0 same, (==_iff a b).0 same)
  | inr other ↦ rw (other) alone
]

new_llist-made : (m : Mem (Unit {0})) (a : Ptr) → Alone (new_llist m a tt) a
unfolding new_llist
new_llist-made m a = let same : (a == a) ≡ true = ground arith in rw same (refl, refl)

made :
    (i : ℕ) (new : NodeSlice) (m : Mem (Unit {0}))
    → ((h : ℕ) → h < i → Alone m (new.ptr + node_size * h))
    → (h : ℕ) → h < suc i
    → Alone (new_llist m (new.ptr + node_size * i) tt) (new.ptr + node_size * h)
made i new m before h l = elim (Bool-cases (h == i)) [
  | inl same ↦ rw ((==_iff h i).0 same) (new_llist-made m (new.ptr + node_size * i))
  | inr other ↦
      new_llist-Alone m (new.ptr + node_size * i) (new.ptr + node_size * h)
        (before h (ground arith))
]

-- Where no old list is taken over, every sentinel becomes alone.
pub move_llists-Alone :
    (count i gra_diff : ℕ) (old new : NodeSlice) (m : Mem (Unit {0}))
    → i + count ≤ gra_diff
    → ((h : ℕ) → h < i → Alone m (new.ptr + node_size * h))
    → (h : ℕ) → h < i + count
    → Alone (move_llists count i gra_diff old new m) (new.ptr + node_size * h)
unfolding move_llists
move_llists-Alone zero i gra_diff old new m fresh before h l = before h (omega arith)
move_llists-Alone (suc count) i gra_diff old new m fresh before h l =
    let first : ltb i gra_diff ≡ true = ground arith in
    rw (move_llists, first)
      (move_llists-Alone count (suc i) gra_diff old new (new_llist m (new.ptr + node_size * i) tt)
        (omega arith) (made i new m before) h (omega arith))

get_or-replicate : (n i : ℕ) → ◌≡◌ {A = ℕ} (get_or (replicate n 0) i 0) 0
get_or-replicate zero i = refl
get_or-replicate (suc n) zero = refl
get_or-replicate (suc n) (suc i) = get_or-replicate n i

pub flag-clear : (n p : ℕ) → flag (replicate n 0) p ≡ 0
unfolding flag
flag-clear n p = rw (get_or-replicate n (p / 8)) (test_bit-zero (p % 8))

-- An allocator whose sentinels are alone and whose bits are clear is valid, and has no free block.
pub fresh-Valid :
    (s : State) (K : ℕ)
    → IsArena s.talloc K
    → s.talloc.avails ≡ 0
    → ((p : ℕ) → flag s.talloc.bitmap p ≡ 0)
    → ((g : ℕ) → g < s.talloc.llists.len → Alone s.mem (sentinel s.talloc g))
    → Valid s K no_blocks
fresh-Valid s K arena avails clear alone = record {
  books = record {
    arena = arena;
    rings = λ g l. record { links = alone g l; fresh = refl; unique = tt };
    blocks = λ g b l i. absurd (ground (arith, i));
    apart = λ g h a l m ne i. ground arith;
    avail = λ g l. rw avails (test_bit-zero g);
    avail_small = rw avails (pow-pos s.talloc.llists.len);
    flags = λ g b l block. clear (bit_place s.talloc K g b);
  };
  spread = record {
    disjoint = λ g h b c l m i j. absurd (ground (arith, i));
    spared = λ g h b l m i. absurd (ground (arith, i));
  };
}
