-- ===== src/Talloc/New.antt =====
-- `Talloc::new`: the first state of the allocator.
use tauos.Base.{ℕ, ◌+◌, ◌-◌, ◌*◌, ◌≤◌, ◌<◌, ◌≡◌, ◌↔◌, inl, inr, refl, ap₂, ◌∙◌, arith, true, some}
use tauos.Bits.{add64, sub64}
use tauos.Bits.Pow.{down}
use tauos.Llist.{Mem}
use tauos.Talloc.{State, node_size}
use tauos.Talloc.Books.{FreeLists}
use tauos.Talloc.Regions.{Valid, Covers}
use tauos.Talloc.Release.{release}
use tauos.Talloc.Span.{Smallest}
use tauos.Talloc.Releases.{up}
use tauos.Talloc.Extend.{
  new_talloc, new_invalid, take_over, release_old, extend_status, extend_fits, slice_bytes,
  get_arena, extend, new, align_offset, bitmap_len,
}
use tauos.Talloc.Setup.{order_bounds, slice_bytes-eq}
use tauos.Talloc.Fresh.{uncovered}
use tauos.Talloc.Status.{
  status_bytes, IsSetup, status, status_lem, release-status, extend_fits-fresh,
}

-- The steps of `extend` in a row, where there is no old status data.
extend-steps :
    (s t u : State) (arena_base arena_size free_ptr free_len ll_bytes bm_bytes : ℕ)
    → slice_bytes arena_size s.talloc.smlst_block ≡ some (ll_bytes, bm_bytes)
    → extend_fits s.talloc arena_base arena_size free_ptr free_len ≡ true
    → take_over s (
        new_talloc s.talloc arena_base arena_size
          (add64 free_ptr (align_offset free_ptr))
          ll_bytes
          bm_bytes)
      ≡ some t
    → release_old s.talloc t ≡ some t
    → release t
        (add64 free_ptr (align_offset free_ptr + ll_bytes + bm_bytes))
        (sub64 free_len (align_offset free_ptr + ll_bytes + bm_bytes))
      ≡ some u
    → extend s arena_base arena_size free_ptr free_len ≡ some u
unfolding extend extend_status
extend-steps s t u arena_base arena_size free_ptr free_len ll_bytes bm_bytes sizes fits taken old
      given =
    rw (sizes, fits, taken, old) given

-- The first state: exactly the memory between two addresses is free, and the arena is the one asked for.
pub record IsFirst (u : State) (arena_base arena_size smallest K m base acme : ℕ) : Type 0 where
  pub lists : FreeLists
  pub valid : Valid u K lists
  pub covers : (x : ℕ) → Covers u.talloc.llists.len K lists x ↔ ((base ≤ x) × (x < acme))
  pub arena : get_arena u.talloc ≡ (arena_base, arena_size)
  pub smallest_eq : Smallest u K m

-- For valid sizes, an arena of at most 2 ^ K bytes that ends below 2 ^ 62 or begins at 2 ^ 63 or
-- above, and that ends in the lower half of the aligned span of 2 ^ (K + 1) bytes that holds the
-- arena's base, and memory in it that ends at least a smallest block below 2 ^ 64, is larger than
-- the status data and holds a boundary of smallest blocks behind it: new returns a valid state of
-- that arena in which exactly the addresses from the first boundary behind the status data to the
-- last boundary of the memory are free.
pub new-IsFirst :
    (mem : Mem (Unit {0})) (arena_base arena_size smallest free_ptr free_len K m : ℕ)
    → IsSetup arena_base arena_size smallest free_ptr free_len K m
    → (u : State) × ((new mem arena_base arena_size smallest free_ptr free_len ≡ some u)
        × IsFirst u arena_base arena_size smallest K m
            (up m (free_ptr + status_bytes K m free_ptr))
            (down m (free_ptr + free_len)))
unfolding new release_old
new-IsFirst mem arena_base arena_size smallest free_ptr free_len K m setup =
    let (u, (result, released)) =
      release-status mem arena_base arena_size smallest free_ptr free_len K m setup in
    (
      u,
      (
        extend-steps (new_invalid smallest mem)
            (status mem arena_base arena_size smallest free_ptr free_len K m setup) u arena_base
            arena_size free_ptr free_len ((K - m + 1) * node_size) (bitmap_len (K - m + 1))
            (slice_bytes-eq arena_size smallest K m setup.sizes)
            (extend_fits-fresh mem smallest arena_base arena_size free_ptr free_len setup.half
              setup.above setup.below)
            (status_lem mem arena_base arena_size smallest free_ptr free_len K m setup) refl result,
        record {
          lists = released.lists;
          valid = released.valid;
          covers = λ x. (
            λ c. elim ((released.covers x).0 c) [
              | inl before ↦ absurd (uncovered (K - m + 1) K x before)
              | inr r ↦ r
            ],
            λ r. (released.covers x).1 (inr r),
          );
          arena = ap₂ (λ (a b : ℕ). (a, b)) released.same.base released.same.size;
          smallest_eq = (
            released.same.smlst ∙ setup.sizes.smallest_pow2,
            (
              omega (arith, order_bounds arena_size smallest K m setup.sizes, setup.sizes.level),
              rw released.same.llists (omega arith),
            ),
          );
        },
      ),
    )
