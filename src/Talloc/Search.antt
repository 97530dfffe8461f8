-- ===== src/Talloc/Search.antt =====
-- What the availability word tells `alloc`: whether the granularity asked for has a block, and which
-- larger block is the nearest.
use native.Mathlib.Decide.{ℕ_discrete, dec_lt}
use tauos.Base.{ℕ, suc, ◌+◌, ◌-◌, ◌^◌, ◌≤◌, ◌<◌, ◌≡◌, sym, ◌∙◌, arith, ◌==◌, bit_and}
use tauos.Bits.{◌<<◌}
use tauos.Bits.Digits.{test_bit, test_bit-lt, test_bit-zero, test_bit-above}
use tauos.Bits.Masks.{and_pow}
use tauos.Bits.Pow.{pow-pos}
use tauos.Bits.Top.{test_bit-mod, test_bit-top, and-below}
use tauos.Utils.Log.{IsTop, IsTop-exists}
use tauos.Utils.Pow.{one-shl}
use tauos.Talloc.{State, block_granularity}
use tauos.Talloc.Offsets.{block_granularity-eq}
use tauos.Talloc.Alloc.{larger_avails}
use tauos.Talloc.Books.{FreeLists, occupied}
use tauos.Talloc.Regions.{Valid}

module _ (s : State) (K : ℕ) (free : FreeLists) (v : Valid s K free) (g : ℕ)
    (l : g < s.talloc.llists.len) where
  pub small : g < 64
  small = omega (arith, v.books.arena.levels, v.books.arena.small)

  pub granularity : block_granularity s.talloc (2 ^ (K - g)) ≡ g
  granularity =
      let sum : g + (K - g) ≡ K = omega (arith, v.books.arena.levels) in
      block_granularity-eq s.talloc g (K - g) (rw sum v.books.arena.pow2)
        (rw sum v.books.arena.small)

  pub exact_test : (bit_and s.talloc.avails (1 << g) == 0) ≡ (occupied (free g) == 0)
  exact_test =
      rw (one-shl g small, and_pow g s.talloc.avails, ← v.books.avail g l)
        (ground (arith, test_bit-lt s.talloc.avails g, pow-pos g))

  pub larger_bit : (h : ℕ) → h < g → test_bit (larger_avails s.talloc g) h ≡ occupied (free h)
  larger_bit h k =
      rw (and-below g s.talloc.avails small)
        (test_bit-mod g s.talloc.avails h k ∙ v.books.avail h (omega arith))

  pub larger-lt : larger_avails s.talloc g < 2 ^ g
  larger-lt = rw (and-below g s.talloc.avails small) (omega (arith, pow-pos g))

  -- The largest granularity below `g` that has a block, of which there is one.
  pub larger_source :
      (h : ℕ)
      → h < g
      → occupied (free h) ≡ 1
      → (k : ℕ) × ((k < g) × (IsTop k (larger_avails s.talloc g) × (occupied (free k) ≡ 1)))
  larger_source h below some_block =
      let word = larger_avails s.talloc g in
      let bit : test_bit word h ≡ 1 = larger_bit h below ∙ some_block in
      elim (dec_lt 0 word) [
        | no p ↦
            let e : word ≡ 0 = omega arith in absurd (omega (arith, rw e at bit, test_bit-zero h))
        | yes p ↦
            let (k, in_word, top) = IsTop-exists g word p larger-lt in
            let set : test_bit word k ≡ 1 = test_bit-top k word top.0 top.1 in
            (k, (in_word, (top, sym (larger_bit k in_word) ∙ set)))
      ]

  -- No granularity between the top bit of the word and `g` has a block.
  pub none_between :
      (k : ℕ)
      → IsTop k (larger_avails s.talloc g)
      → occupied (free g) ≡ 0
      → (i : ℕ) → k < i
      → i ≤ g
      → occupied (free i) ≡ 0
  none_between k top none_here i lo hi = elim (dec_lt i g) [
    | yes p ↦ sym (larger_bit i p) ∙ test_bit-above (suc k) (larger_avails s.talloc g) i top.1 lo
    | no p ↦ let e : i ≡ g = omega arith in rw e none_here
  ]

  pub below_of_none : (h : ℕ) → h ≤ g → occupied (free h) ≡ 1 → occupied (free g) ≡ 0 → h < g
  below_of_none h le some_block none_here = elim (ℕ_discrete h g) [
    | yes e ↦ absurd (omega (arith, rw e at some_block, none_here))
    | no ne ↦ omega arith
  ]
