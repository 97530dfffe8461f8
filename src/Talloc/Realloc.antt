-- ===== src/Talloc/Realloc.antt =====
-- The methods of `Tallock` that move or fill blocks: when they access which bytes.
use tauos.Base.{
  ℕ, suc, ◌∷◌, ◌-◌, ◌^◌, ◌≤◌, ◌<◌, ◌≡◌, ◌≢◌, refl, sym, ap, ◌∙◌, arith, true, false, some, ◌==◌,
  ltb, bit_or,
}
use tauos.Bits.Digits.{test_bit}
use tauos.Bits.Pow.{pow-pos}
use tauos.Utils.{fast_non0_prev_pow2, fast_non0_next_pow2}
use tauos.Llist.{Ptr}
use tauos.Talloc.{State, Talloc, Layout, layout_to_size}
use tauos.Talloc.Alloc.{done, OomHandler, alloc, dealloc}
use tauos.Talloc.Regions.{Separate}
use tauos.Talloc.Heap.{Heap, Unused, put, drop}
use tauos.Talloc.Represents.{Represents}
use tauos.Talloc.Runs.{alloc-refines, dealloc-refines}
use tauos.Talloc.Span.{Smallest}
use tauos.Talloc.Sizes.{layout_to_size_least}
use tauos.Talloc.Tallock.{
  Tallock, Access, write_bytes, copy_nonoverlapping, resized, try_alloc, global_dealloc,
  alloc_zeroed, realloc_larger, realloc,
}

-- The size of a layout depends on the smallest block alone.
layout_to_size-smallest :
    (t u : Talloc) (layout : Layout)
    → t.smlst_block ≡ u.smlst_block
    → layout_to_size t layout ≡ layout_to_size u layout
unfolding layout_to_size
layout_to_size-smallest t u layout e =
    ap
      (λ (n : ℕ).
        fast_non0_prev_pow2 (bit_or (bit_or (fast_non0_next_pow2 layout.size) layout.align) n))
      e

-- A layout of a size above zero with a power of two for its alignment.
pub record IsLayout (layout : Layout) : Type 0 where
  pub some_size : 0 < layout.size
  pub small_size : layout.size ≤ 2 ^ 63
  pub order : ℕ
  pub order_small : order < 64
  pub align_pow2 : layout.align ≡ 2 ^ order

resized-IsLayout :
    (layout : Layout) (new_size : ℕ)
    → IsLayout layout
    → layout.size < new_size
    → new_size ≤ 2 ^ 63
    → IsLayout (resized layout new_size)
resized-IsLayout layout new_size is larger small = record {
  some_size = omega (arith, larger);
  small_size = small;
  order = is.order;
  order_small = is.order_small;
  align_pow2 = is.align_pow2;
}

-- A layout fits in the block that its size is rounded up to.
layout-fits :
    (s : State) (K m g : ℕ) (layout : Layout)
    → Smallest s K m
    → IsLayout layout
    → layout_to_size s.talloc layout ≡ 2 ^ (K - g)
    → K < 63
    → layout.size ≤ 2 ^ (K - g)
layout-fits s K m g layout smallest is size small =
    let (k, (_, (rounded, ((fits, _), _)))) =
      layout_to_size_least s.talloc layout is.order m is.some_size is.small_size is.order_small
        (omega (arith, smallest.1, small)) is.align_pow2 smallest.0 in
    omega (arith, fits, rounded, size)

-- A Tallock with one access more, made in the state `v`.
abbrev moved : Tallock → (v w : State) → Access → Tallock
moved t v w a = record { talloc = w; accesses = (v, a) ∷ t.accesses }

-- The steps of `realloc` to a larger size in a row.
realloc-steps :
    (oom_handler : OomHandler) (dangling : Ptr) (fuel : ℕ) (t : Tallock) (ptr b : Ptr)
    (old_layout : Layout) (new_size : ℕ) (v w : State)
    → old_layout.size < new_size
    → alloc oom_handler fuel t.talloc (resized old_layout new_size) ≡ done v b
    → dealloc v ptr old_layout ≡ some w
    → realloc oom_handler dangling fuel t ptr old_layout new_size
      ≡ some (moved t v w (copy_nonoverlapping ptr b old_layout.size), b)
unfolding realloc realloc_larger try_alloc global_dealloc
realloc-steps oom_handler dangling fuel t ptr b old_layout new_size v w larger found freed =
    let test : ltb old_layout.size new_size ≡ true = ground (arith, larger) in
    rw (realloc, test, realloc_larger, try_alloc, found, global_dealloc, freed) refl

live_new : (h : Heap) (b : Ptr) (k : ℕ) → (put h b k).live b ≡ some k
live_new h b k = let same : (b == b) ≡ true = ground arith in rw same refl

live_kept :
    (h : Heap) (c b : Ptr) (g k : ℕ) → b ≢ c → h.live c ≡ some g → (put h b k).live c ≡ some g
live_kept h c b g k differ here =
    let other : (b == c) ≡ false = ground (arith, differ) in rw other here

-- An unused block is not at the base of an allocated one.
Unused-differ :
    (K : ℕ) (h : Heap) (g k : ℕ) (ptr b : Ptr) → Unused K h k b → h.live ptr ≡ some g → b ≢ ptr
Unused-differ K h g k ptr b unused here e =
    (unused b (omega arith, omega (arith, pow-pos (K - k)))).1 (record {
      b = ptr;
      g = g;
      is = here;
      region = (omega (arith, e), omega (arith, e, pow-pos (K - g)));
    })

-- The block has moved to a new place: between the two calls of the allocator, when both blocks are
-- allocated, its bytes were copied, and no other access was made.
pub record IsMoved (t u : Tallock) (K m : ℕ) (h : Heap) (g k : ℕ) (ptr b : Ptr) (count : ℕ)
    : Type 0 where
  pub during : State
  pub accesses : u.accesses ≡ (during, copy_nonoverlapping ptr b count) ∷ t.accesses
  pub heap_during : Represents during K m (put h b k)
  pub old_live : (put h b k).live ptr ≡ some g
  pub new_live : (put h b k).live b ≡ some k
  pub apart : Separate (K - g) ptr (K - k) b
  pub fits_old : count ≤ 2 ^ (K - g)
  pub fits_new : count ≤ 2 ^ (K - k)
  pub unused : Unused K h k b
  pub heap : Represents u.talloc K m (drop (put h b k) ptr)

-- When the allocator of a Tallock represents a heap, realloc of an allocated block to a larger
-- size, where the availability bit of some granularity that can hold the new size is set, returns a
-- new block, and it represents the heap with the new block in place of the old one. Its only access
-- to bytes copies the old layout's size from the old block to the new one, in a state that
-- represents the heap with both blocks: the new block was unused, the two have no byte in common,
-- and the size is at most that of either. The sizes are nonzero and at most 2 ^ 63, and the
-- alignment is a power of two below 2 ^ 64.
pub realloc-IsMoved :
    (oom_handler : OomHandler) (dangling : Ptr) (fuel : ℕ) (t : Tallock) (K m g k i : ℕ) (h : Heap)
    (ptr : Ptr) (old_layout : Layout) (new_size : ℕ)
    → Represents t.talloc K m h
    → IsLayout old_layout
    → new_size ≤ 2 ^ 63
    → h.live ptr ≡ some g
    → layout_to_size t.talloc.talloc old_layout ≡ 2 ^ (K - g)
    → old_layout.size < new_size
    → k < t.talloc.talloc.llists.len
    → layout_to_size t.talloc.talloc (resized old_layout new_size) ≡ 2 ^ (K - k)
    → 2 ^ (K - k) ≤ t.talloc.talloc.arena_size
    → i ≤ k
    → test_bit t.talloc.talloc.avails i ≡ 1
    → (u : Tallock) × ((b : Ptr) × ((realloc oom_handler dangling
              (suc fuel)
              t
              ptr
              old_layout
              new_size
            ≡ some (u, b))
          × IsMoved t u K m h g k ptr b old_layout.size))
realloc-IsMoved oom_handler dangling fuel t K m g k i h ptr old_layout new_size rep is small here
      size larger l room fits le bit =
    let (v, (b, (found, (rep', (unused, _))))) =
      alloc-refines t.talloc K m k i h oom_handler fuel (resized old_layout new_size) rep l room
        fits le bit in
    let fits_old =
      layout-fits t.talloc K m g old_layout rep.smallest is size rep.valid.books.arena.small in
    let differ = Unused-differ K h g k ptr b unused here in
    let here' : (put h b k).live ptr ≡ some g = live_kept h ptr b g k differ here in
    let new_live : (put h b k).live b ≡ some k = live_new h b k in
    let (w, (freed, (rep'', _))) = dealloc-refines v K m g (put h b k) ptr old_layout rep' here' (
      layout_to_size-smallest v.talloc t.talloc.talloc old_layout
        (rep'.smallest.0 ∙ sym rep.smallest.0)
      ∙ size) in
    (
      moved t v w (copy_nonoverlapping ptr b old_layout.size),
      (
        b,
        (
          realloc-steps oom_handler dangling (suc fuel) t ptr b old_layout new_size v w larger found
              freed,
          record {
            during = v;
            accesses = refl;
            heap_during = rep';
            old_live = here';
            new_live = new_live;
            apart = rep'.apart ptr b g k here' new_live (λ e. differ (sym e));
            fits_old = fits_old;
            fits_new = omega (
              arith,
              larger,
              layout-fits t.talloc K m k (resized old_layout new_size) rep.smallest
                  (resized-IsLayout old_layout new_size is larger small) room
                  rep.valid.books.arena.small,
            );
            unused = unused;
            heap = rep'';
          },
        ),
      ),
    )

zeroed-steps :
    (oom_handler : OomHandler) (dangling : Ptr) (fuel : ℕ) (t : Tallock) (b : Ptr) (layout : Layout)
    (v : State)
    → alloc oom_handler fuel t.talloc layout ≡ done v b
    → alloc_zeroed oom_handler dangling fuel t layout
      ≡ some (moved t v v (write_bytes b 0 layout.size), b)
unfolding alloc_zeroed try_alloc
zeroed-steps oom_handler dangling fuel t b layout v found = rw (alloc_zeroed, try_alloc, found) refl

-- The layout's bytes of a new block were set to zero, and no other access was made.
pub record IsZeroed (t u : Tallock) (K m : ℕ) (h : Heap) (g : ℕ) (b : Ptr) (count : ℕ)
    : Type 0 where
  pub accesses : u.accesses ≡ (u.talloc, write_bytes b 0 count) ∷ t.accesses
  pub heap : Represents u.talloc K m (put h b g)
  pub unused : Unused K h g b
  pub fits : count ≤ 2 ^ (K - g)

-- When the allocator of a Tallock represents a heap and the availability bit of some granularity
-- that can hold the layout is set, alloc_zeroed returns a block that was unused: it represents the
-- heap with the block, and its only access to bytes writes zeros to the layout's size at the start
-- of the block, which is not larger than the block. The layout's size is nonzero and at most 2 ^
-- 63, and its alignment a power of two below 2 ^ 64.
pub alloc_zeroed-IsZeroed :
    (oom_handler : OomHandler) (dangling : Ptr) (fuel : ℕ) (t : Tallock) (K m g k : ℕ) (h : Heap)
    (layout : Layout)
    → Represents t.talloc K m h
    → IsLayout layout
    → g < t.talloc.talloc.llists.len
    → layout_to_size t.talloc.talloc layout ≡ 2 ^ (K - g)
    → 2 ^ (K - g) ≤ t.talloc.talloc.arena_size
    → k ≤ g
    → test_bit t.talloc.talloc.avails k ≡ 1
    → (u : Tallock) × ((b : Ptr) × ((alloc_zeroed oom_handler dangling (suc fuel) t layout
            ≡ some (u, b))
          × IsZeroed t u K m h g b layout.size))
alloc_zeroed-IsZeroed oom_handler dangling fuel t K m g k h layout rep is l size fits le bit =
    let (v, (b, (found, (rep', (unused, _))))) =
      alloc-refines t.talloc K m g k h oom_handler fuel layout rep l size fits le bit in
    (
      moved t v v (write_bytes b 0 layout.size),
      (
        b,
        (
          zeroed-steps oom_handler dangling (suc fuel) t b layout v found,
          record {
            accesses = refl;
            heap = rep';
            unused = unused;
            fits =
                layout-fits t.talloc K m g layout rep.smallest is size rep.valid.books.arena.small;
          },
        ),
      ),
    )
