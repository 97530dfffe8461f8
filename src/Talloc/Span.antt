-- ===== src/Talloc/Span.antt =====
-- A stretch of reserved memory, of which blocks are freed from its start.
use native.Mathlib.Nat.{pow-suc}
use native.Mathlib.Decide.{dec_lt}
use tauos.Base.{
  ℕ, zero, suc, ◌+◌, ◌-◌, ◌%◌, ◌^◌, ◌≤◌, ◌<◌, ◌≡◌, ◌⊎◌, inl, inr, refl, sym, ap, arith, max, true,
  Bool-cases, some, if◌then◌else◌,
}
use mathlib.Core.Option.{some-injective}
use tauos.Bits.{◌<<◌, add64, sub64}
use tauos.Bits.Digits.{pow-le}
use tauos.Bits.Pow.{pow-pos, down-le}
use tauos.Llist.{Ptr}
use tauos.Llist.Links.{has}
use tauos.Talloc.{
  State, Layout, bitmap_offset, read_bitflag, is_lower_buddy, add_block_next, remove_block,
}
use tauos.Talloc.Alloc.{merge, dealloc}
use tauos.Talloc.Arena.{zone}
use tauos.Talloc.Books.{FreeLists}
use tauos.Talloc.Regions.{Covers, Separate, Reserved, node_at}
use tauos.Talloc.Same.{IsSame, IsSame-trans}
use tauos.Talloc.Merge.{IsFreed}

merge-IsSame :
    (fuel : ℕ) (s u : State) (ptr : Ptr) (size granularity offset : ℕ)
    → merge fuel s ptr size granularity offset ≡ some u
    → IsSame s u
unfolding merge add_block_next remove_block
merge-IsSame zero s u ptr size granularity offset e = ground arith
merge-IsSame (suc fuel) s u ptr size granularity offset e =
    elim (Bool-cases (read_bitflag s.talloc.bitmap offset)) [
      | inl twin ↦
          let rest = rw (merge, twin) at e in
          let size' = size << 1 in
          let lower = is_lower_buddy ptr size in
          let next_ptr : Ptr = if lower then ptr else sub64 ptr size in
          let s' =
            remove_block s granularity offset (if lower then add64 ptr size else sub64 ptr size) in
          IsSame-trans s s' u (record { base = refl; size = refl; smlst = refl; llists = refl })
            (merge-IsSame fuel s' u next_ptr size' (sub64 granularity 1)
              (bitmap_offset s'.talloc next_ptr size') rest)
      | inr alone ↦
          let same =
            some-injective (add_block_next s granularity offset ptr) u (rw (merge, alone) at e) in
          record {
            base = ap (λ (t : State). t.talloc.arena_base) (sym same);
            size = ap (λ (t : State). t.talloc.arena_size) (sym same);
            smlst = ap (λ (t : State). t.talloc.smlst_block) (sym same);
            llists = ap (λ (t : State). t.talloc.llists) (sym same);
          }
    ]

pub dealloc-IsSame :
    (s u : State) (b : Ptr) (layout : Layout) → dealloc s b layout ≡ some u → IsSame s u
unfolding dealloc
dealloc-IsSame s u b layout e = merge-IsSame 64 s u b _ _ _ e

-- The memory from `base` to `acme` lies in the arena, and none of it is free or holds a sentinel.
pub record IsSpan (s : State) (K : ℕ) (free : FreeLists) (base acme : ℕ) : Type 0 where
  pub above : s.talloc.arena_base ≤ base
  pub below : acme ≤ zone s.talloc.arena_base K + 2 ^ K
  pub clear : (x : ℕ) → base ≤ x → x < acme → Covers s.talloc.llists.len K free x → ⊥
  pub spared :
      (h : ℕ)
      → h < s.talloc.llists.len
      → (node_at s.talloc.llists h < base) ⊎ (acme ≤ node_at s.talloc.llists h)

-- The smallest block is that of the last granularity.
abbrev pub Smallest : State → (K m : ℕ) → Type 0
Smallest s K m = (s.talloc.smlst_block ≡ 2 ^ m) × ((m < 64) × (K < s.talloc.llists.len + m))

-- No block is larger than the arena.
pub order-le :
    (s : State) (K : ℕ) (free : FreeLists) (base acme j : ℕ)
    → IsSpan s K free base acme
    → base + 2 ^ j ≤ acme
    → j ≤ K
order-le s K free base acme j span fits = elim (dec_lt K j) [
  | no p ↦ omega arith
  | yes p ↦ absurd (
      omega (
        arith,
        span.above,
        span.below,
        down-le (suc K) s.talloc.arena_base,
        pow-le (suc K) j (omega arith),
        pow-suc 2 K,
        pow-pos K,
      ))
]

-- A free block and a block of the memory do not meet.
span-Separate :
    (s : State) (K : ℕ) (free : FreeLists) (base acme j h : ℕ) (c : Ptr)
    → IsSpan s K free base acme
    → base + 2 ^ j ≤ acme
    → h < s.talloc.llists.len
    → has c (free h) ≡ true
    → Separate j base (K - h) c
span-Separate s K free base acme j h c span fits l i = elim (dec_lt c (base + 2 ^ j)) [
  | no p ↦ inl (omega arith)
  | yes p ↦ elim (dec_lt base (c + 2 ^ (K - h))) [
    | no q ↦ inr (omega arith)
    | yes q ↦ absurd (
        span.clear (max c base) (omega arith) (omega (arith, fits, pow-pos j)) (record {
          g = h;
          b = c;
          level = l;
          listed = i;
          region = (omega arith, omega (arith, pow-pos (K - h)));
        }))
  ]
]

pub span-Reserved :
    (s : State) (K m : ℕ) (free : FreeLists) (base acme j : ℕ)
    → IsSpan s K free base acme
    → Smallest s K m
    → m ≤ j
    → base % 2 ^ j ≡ 0
    → base + 2 ^ j ≤ acme
    → Reserved s K free (K - j) base
span-Reserved s K m free base acme j span smallest l aligned fits =
    let le = order-le s K free base acme j span fits in
    let back : K - (K - j) ≡ j = omega (arith, le) in
    let whole : K - j + j ≡ K = omega (arith, le) in
    record {
      level = omega (arith, smallest, le);
      block = record {
        aligned = rw back aligned;
        above = span.above;
        below = rw (back, whole) (omega (arith, fits, span.below));
      };
      disjoint = λ h c p i. rw back (span-Separate s K free base acme j h c span fits p i);
      spared = λ h p. rw back (elim (span.spared h p) [
        | inl before ↦ inl before
        | inr after ↦ inr (omega (arith, after, fits))
      ]);
    }

-- The rest of the memory, once its first block is free.
pub span_after :
    (s u : State) (K : ℕ) (free : FreeLists) (base acme j : ℕ)
    → IsSpan s K free base acme
    → base + 2 ^ j ≤ acme
    → IsSame s u
    → (freed : IsFreed s u K free (K - j) base) → IsSpan u K freed.lists (base + 2 ^ j) acme
span_after s u K free base acme j span fits same freed =
    let back : K - (K - j) ≡ j = omega (arith, order-le s K free base acme j span fits) in
    record {
      above = rw same.base (omega (arith, span.above));
      below = rw same.base span.below;
      clear = λ x p q c. elim ((freed.covers x).0 c) [
        | inl before ↦ span.clear x (omega arith) q before
        | inr inside ↦ absurd (omega (arith, rw back at inside.1))
      ];
      spared = λ h p. rw same.llists (elim (span.spared h (rw same.llists at p)) [
        | inl before ↦ inl (omega (arith, before))
        | inr after ↦ inr after
      ]);
    }
