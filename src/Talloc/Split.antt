-- ===== src/Talloc/Split.antt =====
-- The loop that breaks a block down and registers the upper halves, of `alloc` and `shrink`.
use native.Mathlib.Nat.{pow-suc, mod-eq_of_lt}
use native.Mathlib.Decide.{dec_lt}
use tauos.Base.{ℕ, zero, suc, ◌+◌, ◌-◌, ◌^◌, ◌≤◌, ◌<◌, ◌≡◌, ◌↔◌, ◌⊎◌, inl, inr, arith, ◌∷◌}
use tauos.Bits.{modulus, add64, ◌>>>◌}
use tauos.Bits.Pow.{pow-pos}
use tauos.Llist.{Ptr}
use tauos.Talloc.{State, add_block_next}
use tauos.Talloc.Arena.{IsBlock}
use tauos.Talloc.Offsets.{zone_end}
use tauos.Talloc.Alloc.{split_blocks}
use tauos.Talloc.Same.{IsSame, IsSame-refl, IsSame-trans, add_block_next-IsSame}
use tauos.Talloc.Books.{FreeLists, update, bit_place}
use tauos.Talloc.Regions.{Covers, Covers-Adds, Region, Valid, Reserved}
use tauos.Talloc.Halves.{size-suc, low-IsReserved, high-IsReserved, add-IsReserved}
use tauos.Talloc.Steps.{offset-eq, add-Adds, add-Valid}

-- From `s` with a reserved block of granularity `g` at `b` to `u` with one of granularity `h` there:
-- the rest of the larger block has become free, and nothing else.
pub record IsSplit (s u : State) (K : ℕ) (free : FreeLists) (g h : ℕ) (b : Ptr) : Type 0 where
  pub lists : FreeLists
  pub valid : Valid u K lists
  pub reserved : Reserved u K lists h b
  pub covers :
      (x : ℕ)
      → (Covers u.talloc.llists.len K lists x ⊎ Region (K - h) b x)
        ↔ (Covers s.talloc.llists.len K free x ⊎ Region (K - g) b x)
  pub same : IsSame s u

-- A block lies below the end of the address space.
pub block_end :
    (base K g b : ℕ)
    → base < modulus
    → K < 63
    → g ≤ K
    → IsBlock base g (K - g) b
    → b + 2 ^ (K - g) < modulus
block_end base K g b small k l block =
    let e : g + (K - g) ≡ K = omega arith in
    let end = rw e at block.below in
    omega (arith, end, zone_end base K small k, pow-suc 2 K, pow-pos K)

module _ (s : State) (K : ℕ) (free : FreeLists) (g : ℕ) (b : Ptr) (v : Valid s K free)
    (r : Reserved s K free g b) (l : suc g < s.talloc.llists.len) where
  high : Ptr
  high = b + 2 ^ (K - suc g)

  abbrev halved : State
  halved =
      add_block_next s (suc g) (bit_place s.talloc K (suc g) (b + 2 ^ (K - suc g)))
        (b + 2 ^ (K - suc g))

  fits : suc g ≤ K
  fits = omega (arith, v.books.arena.levels)

  half : (2 ^ (K - g) >>> 1) ≡ 2 ^ (K - suc g)
  half = rw (size-suc K g fits) (omega arith)

  upper : Reserved s K free (suc g) (b + 2 ^ (K - suc g))
  upper = high-IsReserved s.talloc.arena_base s.talloc.llists K free g b fits l r

  -- One round of the loop.
  split-suc :
      (n : ℕ)
      → split_blocks (suc n) (g + 1) (2 ^ (K - g) >>> 1) b s
        ≡ split_blocks n (suc g + 1) (2 ^ (K - suc g) >>> 1) b halved
  unfolding split_blocks
  split-suc n =
      let next : g + 1 ≡ suc g = omega arith in
      let end =
        block_end s.talloc.arena_base K (suc g) (b + 2 ^ (K - suc g)) v.books.arena.small_base
          v.books.arena.small fits upper.block in
      let sum : add64 b (2 ^ (K - suc g)) ≡ b + 2 ^ (K - suc g) =
        mod-eq_of_lt (omega (arith, end)) in
      rw (half, next, sum, offset-eq s K (suc g) (b + 2 ^ (K - suc g)) v.books.arena l upper.block)

  halved-Valid : Valid halved K (update free (suc g) ((b + 2 ^ (K - suc g)) ∷ free (suc g)))
  halved-Valid = add-Valid s K free (suc g) (b + 2 ^ (K - suc g)) v upper

  halved-Reserved :
      Reserved halved K (update free (suc g) ((b + 2 ^ (K - suc g)) ∷ free (suc g))) (suc g) b
  halved-Reserved =
      unfold add_block_next in
      add-IsReserved (add-Adds s K free (suc g) (b + 2 ^ (K - suc g)) upper) s.talloc.arena_base
        s.talloc.llists K (suc g) b (inl (omega arith))
        (low-IsReserved s.talloc.arena_base s.talloc.llists K free g b fits l r)

  halved-Covers :
      (x : ℕ)
      → (Covers halved.talloc.llists.len K
            (update free (suc g) ((b + 2 ^ (K - suc g)) ∷ free (suc g)))
            x
          ⊎ Region (K - suc g) b x)
        ↔ (Covers s.talloc.llists.len K free x ⊎ Region (K - g) b x)
  unfolding add_block_next
  halved-Covers x =
      let parts =
        Covers-Adds (add-Adds s K free (suc g) (b + 2 ^ (K - suc g)) upper) s.talloc.llists.len K x
          l in
      let two = size-suc K g fits in
      (
        λ c. elim c [
          | inl c' ↦ elim (parts.0 c') [ inl d ↦ inl d | inr d ↦ inr (omega (arith, d, two)) ]
          | inr d ↦ inr (omega (arith, d, two))
        ],
        λ c. elim c [
          | inl d ↦ inl (parts.1 (inl d))
          | inr d ↦ elim (dec_lt x (b + 2 ^ (K - suc g))) [
            | yes p ↦ inr (d.0, p)
            | no p ↦ inl (parts.1 (inr (omega (arith, d, two, p))))
          ]
        ],
      )

-- In a valid state, n rounds of the splitting loop on a reserved block of granularity g keep the
-- block of granularity g + n at its base reserved, free exactly the rest of it, and leave a valid
-- state.
pub split_blocks-IsSplit :
    (n g : ℕ) (s : State) (K : ℕ) (free : FreeLists) (b : Ptr)
    → Valid s K free
    → Reserved s K free g b
    → g + n < s.talloc.llists.len
    → IsSplit s (split_blocks n (g + 1) (2 ^ (K - g) >>> 1) b s) K free g (g + n) b
split_blocks-IsSplit zero g s K free b v r l =
    let e : g + zero ≡ g = omega arith in
    unfold split_blocks in
    rw e (record {
      lists = free;
      valid = v;
      reserved = r;
      covers = λ x. (λ c. c, λ c. c);
      same = IsSame-refl s;
    })
split_blocks-IsSplit (suc n) g s K free b v r l =
    let next : suc g < s.talloc.llists.len = omega arith in
    let e : g + suc n ≡ suc g + n = omega arith in
    let ih =
      split_blocks-IsSplit n (suc g) (halved s K free g b v r next) K
        (update free (suc g) ((b + 2 ^ (K - suc g)) ∷ free (suc g))) b
        (halved-Valid s K free g b v r next) (halved-Reserved s K free g b v r next)
        (unfold add_block_next in omega arith) in
    rw (split-suc s K free g b v r next n, e)
      (record {
        lists = ih.lists;
        valid = ih.valid;
        reserved = ih.reserved;
        same =
            IsSame-trans s (halved s K free g b v r next) _
              (add_block_next-IsSame s (suc g) _ (b + 2 ^ (K - suc g))) ih.same;
        covers = λ x.
            let first = halved-Covers s K free g b v r next x in
            let rest = ih.covers x in (λ c. first.0 (rest.0 c), λ c. rest.1 (first.1 c));
      })
