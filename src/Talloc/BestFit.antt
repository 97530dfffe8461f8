-- ===== src/Talloc/BestFit.antt =====
-- `alloc` once the size is known: which block it takes, and what it does where there is none.
use native.Mathlib.Decide.{dec_lt}
use tauos.Base.{
  ℕ, suc, ◌-◌, ◌^◌, ◌≤◌, ◌<◌, ◌≡◌, ◌≢◌, ◌↔◌, ◌⊎◌, List, ◌∷◌, refl, sym, ap, ◌∙◌, true, false, Bool,
  arith, ◌==◌, [], inl, inr, Bool-cases, ltb, if◌then◌else◌,
}
use tauos.Bits.Digits.{test_bit, test_bit-zero, test_bit-above, test_bit_ext}
use tauos.Bits.Pow.{pow-pos}
use tauos.Llist.{Ptr}
use tauos.Llist.Links.{has}
use tauos.Talloc.{State, Layout, layout_to_size, remove_block, block_granularity}
use tauos.Talloc.Alloc.{
  Outcome, done, alloc_error, out_of_fuel, OomHandler, larger_avails, alloc_larger, find_larger,
  alloc_sized, alloc, grow_arena,
}
use tauos.Talloc.Books.{FreeLists, occupied, bit_place, ne→==}
use tauos.Talloc.Take.{IsListed, remove_block_next-eq}
use tauos.Talloc.Search.{
  granularity, exact_test, larger_bit, larger-lt, larger_source, none_between, below_of_none,
}
use tauos.Talloc.Regions.{Valid}
use tauos.Talloc.Allocated.{IsAllocated, first_of_occupied, take_first, alloc_larger-IsAllocated}

-- The block at `b` is free, and no free block that could hold granularity `g` is smaller.
pub record IsBestFit (free : FreeLists) (g : ℕ) (b : Ptr) : Type 0 where
  pub source : ℕ
  pub fits : source ≤ g
  pub listed : has b (free source) ≡ true
  pub best : (k : ℕ) → source < k → k ≤ g → occupied (free k) ≡ 0

-- 1 for an error
failed : {A : Type 0} → Outcome A → ℕ
failed (done s a) = 0
failed (alloc_error s) = 1
failed out_of_fuel = 0

done≢alloc_error : (u v : State) (b : Ptr) → done u b ≢ alloc_error v
unfolding failed
done≢alloc_error u v b e = omega (arith, ap (λ r. failed r) e)

occupied_cases : (xs : List Ptr) → (occupied xs ≡ 0) ⊎ (occupied xs ≡ 1)
occupied_cases [] = inl refl
occupied_cases (x ∷ xs) = inr refl

if-elim :
    {A : Type 0} (x y : A) (c : Bool)
    → Path A (elim c [ false ↦ x | true ↦ y ]) (if c then y else x)
if-elim x y true = refl
if-elim x y false = refl

module _ (s : State) (K : ℕ) (free : FreeLists) (v : Valid s K free) (g : ℕ)
    (l : g < s.talloc.llists.len) where
  larger_block :
      (h : ℕ)
      → h < g
      → occupied (free h) ≡ 1
      → occupied (free g) ≡ 0
      → ((larger_avails s.talloc g == 0) ≡ false)
        × ((u : State) × (b : Ptr) × ((alloc_larger s g (larger_avails s.talloc g) ≡ done u b)
              × (IsAllocated s u K free g b × IsBestFit free g b)))
  larger_block h below some_block none_here =
      let (k, (lower, (top, has_one))) = larger_source s K free v g l h below some_block in
      let (b, ys, e) = first_of_occupied (free k) has_one in
      let (u, (result, allocated)) =
        alloc_larger-IsAllocated s K free v k g (larger_avails s.talloc g) b ys (omega arith) l e
          top in
      (
        ne→== _ _ (λ z. absurd (omega (arith, z, top.0, pow-pos k))),
        (
          u,
          b,
          (
            result,
            (
              allocated,
              record {
                source = k;
                fits = omega arith;
                listed = rw e (ground arith);
                best = none_between s K free v g l k top none_here;
              },
            ),
          ),
        ),
      )

  -- A block of the granularity is taken, or the smallest larger one is broken down.
  alloc_sized-IsAllocated :
      (oom_handler : OomHandler) (fuel : ℕ) (layout : Layout) (h : ℕ)
      → h ≤ g
      → occupied (free h) ≡ 1
      → (u : State) × (b : Ptr) × ((alloc_sized oom_handler (suc fuel) s layout (2 ^ (K - g))
            ≡ done u b)
          × (IsAllocated s u K free g b × IsBestFit free g b))
  unfolding alloc_sized find_larger
  alloc_sized-IsAllocated oom_handler fuel layout h le some_block =
      rw (granularity s K free v g l, exact_test s K free v g l)
        (elim (Bool-cases (occupied (free g) == 0)) [
          | inl none_here ↦
              let none : occupied (free g) ≡ 0 = ground arith in
              let found =
                larger_block h (below_of_none s K free v g l h le some_block none) some_block
                  none in
              rw none_here (rw (found.0, find_larger) found.1)
          | inr here ↦
              let (b, ys, e) = first_of_occupied (free g) (ground arith) in
              let there : IsListed s.talloc free g [] b ys = record { level = l; listed = e } in
              rw (here, remove_block_next-eq v.books g b ys there)
                (
                  remove_block s g (bit_place s.talloc K g b) b,
                  b,
                  (
                    refl,
                    (
                      take_first s K free v g b ys there,
                      record {
                        source = g;
                        fits = omega arith;
                        listed = rw e (ground arith);
                        best = λ k p q. absurd (omega arith);
                      },
                    ),
                  ),
                )
        ])

  -- Without a block that could hold granularity g, the handler is asked.
  alloc_sized-none :
      (oom_handler : OomHandler) (fuel : ℕ) (layout : Layout)
      → ((h : ℕ) → h ≤ g → occupied (free h) ≡ 0)
      → alloc_sized oom_handler (suc fuel) s layout (2 ^ (K - g)) ≡ (
          if (oom_handler s layout).1
          then find_larger oom_handler fuel
              (oom_handler s layout).0
              layout
              (2 ^ (K - g))
              (block_granularity (oom_handler s layout).0.talloc (2 ^ (K - g)))
          else alloc_error (oom_handler s layout).0)
  unfolding alloc_sized find_larger
  alloc_sized-none oom_handler fuel layout none =
      let word = larger_avails s.talloc g in
      let clear : (occupied (free g) == 0) ≡ true = ground (arith, none g) in
      let no_bit : (i : ℕ) → test_bit word i ≡ 0 = λ i. elim (dec_lt i g) [
        | yes p ↦ larger_bit s K free v g l i p ∙ none i (omega arith)
        | no p ↦ test_bit-above g word i (larger-lt s K free v g l) (omega arith)
      ] in
      let e : word ≡ 0 = test_bit_ext word 0 (λ i. no_bit i ∙ sym (test_bit-zero i)) in
      rw (granularity s K free v g l, exact_test s K free v g l)
        (rw clear (rw (e, find_larger) (if-elim _ _ (oom_handler s layout).1)))

  large_enough :
      (oom_handler : OomHandler) (fuel : ℕ) (layout : Layout)
      → layout_to_size s.talloc layout ≡ 2 ^ (K - g)
      → ltb s.talloc.arena_size (2 ^ (K - g)) ≡ false
      → alloc oom_handler (suc fuel) s layout
        ≡ alloc_sized oom_handler (suc fuel) s layout (2 ^ (K - g))
  unfolding alloc grow_arena
  large_enough oom_handler fuel layout size fits =
      rw (alloc, size)
        (rw (grow_arena, fits) (ap (alloc_sized oom_handler (suc fuel) s layout) size))

  -- In a valid state, for a layout whose size is that of granularity g and not above the arena's
  -- size, when some block of granularity at most g is free: alloc returns a free block of the
  -- largest such granularity (the smallest block that fits), broken down to granularity g. The new
  -- state is valid, the block is reserved and aligned in it, and every other free address stays
  -- free.
  pub alloc-IsAllocated :
      (oom_handler : OomHandler) (fuel : ℕ) (layout : Layout) (h : ℕ)
      → layout_to_size s.talloc layout ≡ 2 ^ (K - g)
      → 2 ^ (K - g) ≤ s.talloc.arena_size
      → h ≤ g
      → occupied (free h) ≡ 1
      → (u : State) × (b : Ptr) × ((alloc oom_handler (suc fuel) s layout ≡ done u b)
          × (IsAllocated s u K free g b × IsBestFit free g b))
  alloc-IsAllocated oom_handler fuel layout h size room le some_block =
      let fits : ltb s.talloc.arena_size (2 ^ (K - g)) ≡ false = ground arith in
      let (u, b, (result, rest)) =
        alloc_sized-IsAllocated oom_handler fuel layout h le some_block in
      (u, b, (large_enough oom_handler fuel layout size fits ∙ result, rest))

  -- In a valid state, for a layout whose size is that of granularity g and not above the arena's
  -- size, with a handler that fails: alloc returns an error, with the state that the handler
  -- leaves, just when no block of granularity at most g is free.
  pub alloc_exhausted :
      (oom_handler : OomHandler) (fuel : ℕ) (layout : Layout) (left : State)
      → layout_to_size s.talloc layout ≡ 2 ^ (K - g)
      → 2 ^ (K - g) ≤ s.talloc.arena_size
      → oom_handler s layout ≡ (left, false)
      → (alloc oom_handler (suc fuel) s layout ≡ alloc_error left)
        ↔ ((h : ℕ) → h ≤ g → occupied (free h) ≡ 0)
  alloc_exhausted oom_handler fuel layout left size room fails =
      let fits : ltb s.talloc.arena_size (2 ^ (K - g)) ≡ false = ground arith in
      let same = large_enough oom_handler fuel layout size fits in
      (
        λ error h le. elim (occupied_cases (free h)) [
          | inl none ↦ none
          | inr some_block ↦
              let (u, b, (result, _)) =
                alloc-IsAllocated oom_handler fuel layout h size room le some_block in
              absurd (done≢alloc_error u left b (sym result ∙ error))
        ],
        λ none. same ∙ alloc_sized-none oom_handler fuel layout none ∙ rw fails refl,
      )
