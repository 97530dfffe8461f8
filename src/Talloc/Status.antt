-- ===== src/Talloc/Status.antt =====
-- The allocator's state once `new` has set up the status data, before it gives memory to it.
use native.Mathlib.Nat.{mod-eq_of_lt, mul-div_cancel}
use tauos.Base.{
  ℕ, ◌+◌, ◌-◌, ◌*◌, ◌/◌, ◌^◌, ◌≤◌, ◌<◌, ◌≡◌, inl, inr, refl, arith, true, some, replicate,
  length-replicate,
}
use tauos.Bits.{modulus, add64, sub64, ◌<<◌}
use tauos.Bits.Pow.{pow-pos, down, down-le}
use tauos.Llist.{Mem}
use tauos.Talloc.{State, Talloc, node_size}
use tauos.Talloc.Arena.{zone}
use tauos.Talloc.Books.{IsArena}
use tauos.Talloc.Regions.{Valid}
use tauos.Talloc.Release.{release}
use tauos.Talloc.Rounds.{InHalf}
use tauos.Talloc.Span.{IsSpan}
use tauos.Talloc.Spans.{IsReleased}
use tauos.Talloc.Releases.{up, up-le, release-rest}
use tauos.Talloc.Extend.{
  move_llists, copy_fields, new_talloc, new_invalid, take_over, extend_fits, align_offset,
  bitmap_len, next_power_of_two,
}
use tauos.Talloc.Setup.{
  IsSizes, order_bounds, next_power_of_two-ceil, bitmap_len-room, align_offset-le,
}
use tauos.Talloc.Fresh.{no_blocks, uncovered, move_llists-Alone, flag-clear, fresh-Valid}

-- The bytes at the start of the given memory that the status data takes.
abbrev pub status_bytes : (K m free_ptr : ℕ) → ℕ
status_bytes K m free_ptr = align_offset free_ptr + (K - m + 1) * node_size + bitmap_len (K - m + 1)

-- What `new` requires of its arguments: the sizes, the memory in the arena, the arena below 2 ^ 62
-- or from 2 ^ 63 on and in its zone, no memory in the last smallest block of the address space, and the memory larger than the status data and one boundary.
pub record IsSetup (arena_base arena_size smallest free_ptr free_len K m : ℕ) : Type 0 where
  pub sizes : IsSizes arena_size smallest K m
  pub half : InHalf arena_base (arena_base + arena_size)
  pub in_zone : arena_base + arena_size ≤ zone arena_base K + 2 ^ K
  pub above : arena_base ≤ free_ptr
  pub below : free_ptr + free_len ≤ arena_base + arena_size
  pub room : free_ptr + free_len + 2 ^ m ≤ modulus
  pub boundary : up m (free_ptr + status_bytes K m free_ptr) ≤ down m (free_ptr + free_len)

-- The state before the memory is given to it.
abbrev pub status_state :
    (mem : Mem (Unit {0})) → (arena_base arena_size smallest free_ptr K m : ℕ) → State
status_state mem arena_base arena_size smallest free_ptr K m = record {
  talloc = record {
    arena_base = arena_base;
    arena_size = arena_size;
    arena_size_pow2 = 2 ^ K;
    smlst_block = smallest;
    avails = 0;
    llists = record { ptr = free_ptr + align_offset free_ptr; len = K - m + 1 };
    bitmap = replicate (bitmap_len (K - m + 1)) 0;
  };
  mem =
      move_llists (K - m + 1) 0 (K - m + 1) (record { ptr = 0; len = 0 })
        (record { ptr = free_ptr + align_offset free_ptr; len = K - m + 1 }) mem;
}

take_over-fresh :
    (mem : Mem (Unit {0})) (smallest : ℕ) (t : Talloc)
    → t.llists.len < modulus
    → take_over (new_invalid smallest mem) t
      ≡ some (record {
        talloc = record t { avails = 0; bitmap = t.bitmap };
        mem = move_llists t.llists.len 0 t.llists.len (record { ptr = 0; len = 0 }) t.llists mem;
      })
unfolding take_over copy_fields
take_over-fresh mem smallest t l =
    let diff : sub64 t.llists.len 0 ≡ t.llists.len = omega (arith, l) in
    let none_set : (0 << t.llists.len) ≡ 0 = omega arith in rw (diff, none_set) refl

-- The bounds of `extend` hold where there is no old arena.
pub extend_fits-fresh :
    (mem : Mem (Unit {0})) (smallest arena_base arena_size free_ptr free_len : ℕ)
    → InHalf arena_base (arena_base + arena_size)
    → arena_base ≤ free_ptr
    → free_ptr + free_len ≤ arena_base + arena_size
    → extend_fits (new_invalid smallest mem).talloc arena_base arena_size free_ptr free_len ≡ true
extend_fits-fresh mem smallest arena_base arena_size free_ptr free_len (inl low) p q = ground arith
extend_fits-fresh mem smallest arena_base arena_size free_ptr free_len (inr (high, top)) p q =
    ground arith

module _ (mem : Mem (Unit {0})) (arena_base arena_size smallest free_ptr free_len K m : ℕ)
    (setup : IsSetup arena_base arena_size smallest free_ptr free_len K m) where
  abbrev pub status : State
  status = status_state mem arena_base arena_size smallest free_ptr K m

  status-Valid : Valid status K no_blocks
  status-Valid = fresh-Valid status K arena refl (flag-clear (bitmap_len (K - m + 1))) (λ g l.
      move_llists-Alone (K - m + 1) 0 (K - m + 1) (record { ptr = 0; len = 0 }) status.talloc.llists
        mem (omega arith) (λ h n. absurd (omega arith)) g (omega (arith, l)))
    where
      arena : IsArena status.talloc K
      arena = record {
        pow2 = refl;
        small = omega (arith, order_bounds arena_size smallest K m setup.sizes);
        small_base = omega (arith, setup.above, setup.room);
        levels = omega (arith, setup.sizes.holds_node);
        room = rw (length-replicate {A = ℕ} (bitmap_len (K - m + 1)) 0) (
            (bitmap_len-room (K - m + 1)
              (omega (arith, order_bounds arena_size smallest K m setup.sizes))).0);
      }

  status-IsSpan :
      IsSpan status K no_blocks
        (up m (free_ptr + status_bytes K m free_ptr))
        (down m (free_ptr + free_len))
  status-IsSpan = record {
    above = omega (arith, setup.above, up-le m (free_ptr + status_bytes K m free_ptr));
    below = omega (arith, setup.in_zone, setup.below, down-le m (free_ptr + free_len));
    clear = λ x p q c. uncovered (K - m + 1) K x c;
    spared = λ h l. inl (omega (arith, l, up-le m (free_ptr + status_bytes K m free_ptr)));
  }

  pub status_lem :
      take_over (new_invalid smallest mem) (
        new_talloc
          (new_invalid smallest mem).talloc
          arena_base
          arena_size
          (add64 free_ptr (align_offset free_ptr))
          ((K - m + 1) * node_size)
          (bitmap_len (K - m + 1)))
      ≡ some status
  status_lem =
      let bounds = order_bounds arena_size smallest K m setup.sizes in
      let pow2 : next_power_of_two arena_size ≡ 2 ^ K =
        next_power_of_two-ceil K arena_size (omega (arith, bounds)) (omega (arith, bounds))
          setup.sizes.ceil in
      let len : (K - m + 1) * node_size / node_size ≡ K - m + 1 =
        mul-div_cancel (K - m + 1) (omega arith) in
      let ptr : add64 free_ptr (align_offset free_ptr) ≡ free_ptr + align_offset free_ptr =
        mod-eq_of_lt (
          omega (
            arith,
            setup.boundary,
            up-le m (free_ptr + status_bytes K m free_ptr),
            down-le m (free_ptr + free_len),
            setup.room,
            pow-pos m,
          )) in
      rw (pow2, len, ptr) (take_over-fresh mem smallest status.talloc (omega (arith, bounds)))

  pub release-status :
      (u : State) × ((release status
            (add64 free_ptr (status_bytes K m free_ptr))
            (sub64 free_len (status_bytes K m free_ptr))
          ≡ some u)
        × IsReleased status u K no_blocks
            (up m (free_ptr + status_bytes K m free_ptr))
            (down m (free_ptr + free_len)))
  release-status =
      release-rest status K m no_blocks free_ptr free_len (status_bytes K m free_ptr) status-Valid
        (
          setup.sizes.smallest_pow2,
          (
            omega (arith, order_bounds arena_size smallest K m setup.sizes, setup.sizes.level),
            omega arith,
          ),
        )
        setup.half (omega (arith, (align_offset-le free_ptr).1)) setup.room setup.boundary
        setup.below status-IsSpan
