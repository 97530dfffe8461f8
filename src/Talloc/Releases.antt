-- ===== src/Talloc/Releases.antt =====
-- `release` on memory of an arena that ends below 2 ^ 62 or begins at 2 ^ 63 or above.
use native.Mathlib.Nat.{mod-eq_of_lt, dvd-mul_left, one-dvd}
use tauos.Base.{
  ℕ, ◌+◌, ◌-◌, ◌^◌, ◌≤◌, ◌<◌, ◌≡◌, inl, inr, refl, ◌∙◌, arith, true, false, some, ◌==◌, ◌&&◌,
  Bool-cases, ==_iff,
}
use tauos.Bits.{modulus, add64, sub64, signed_lt, signed_le}
use tauos.Bits.Pow.{pow-pos, down, down-le, lt-down}
use tauos.Bits.Masks.{and_not_low}
use tauos.Utils.Pow.{pow-lt-modulus}
use tauos.Llist.{Ptr}
use tauos.Talloc.{State}
use tauos.Talloc.Books.{FreeLists}
use tauos.Talloc.Regions.{Valid}
use tauos.Talloc.Release.{rounds, release_base, release_acme, release_blocks, release_in, release}
use tauos.Talloc.Rounds.{InHalf}
use tauos.Talloc.Span.{IsSpan, Smallest}
use tauos.Talloc.Spans.{IsReleased, nothing-IsReleased}
use tauos.Talloc.Loops.{asc_lem}

-- The least multiple of `2 ^ k` that is not below `x`.
abbrev pub up : ℕ → ℕ → ℕ
up k x = down k (x + (2 ^ k - 1))

release_base-eq :
    (s : State) (m : ℕ) (ptr : Ptr)
    → s.talloc.smlst_block ≡ 2 ^ m
    → m < 64
    → ptr + 2 ^ m ≤ modulus
    → release_base s ptr ≡ up m ptr
release_base-eq s m ptr smallest few fits =
    let low : sub64 (2 ^ m) 1 ≡ 2 ^ m - 1 = omega (arith, pow-pos m, pow-lt-modulus m few) in
    let sum : add64 ptr (2 ^ m - 1) ≡ ptr + (2 ^ m - 1) =
      mod-eq_of_lt (omega (arith, fits, pow-pos m)) in
    rw (smallest, low, sum)
      (and_not_low m (ptr + (2 ^ m - 1)) (omega arith) (omega (arith, fits, pow-pos m)))

release_acme-eq :
    (s : State) (m : ℕ) (ptr : Ptr) (len : ℕ)
    → s.talloc.smlst_block ≡ 2 ^ m
    → m < 64
    → ptr + len < modulus
    → release_acme s ptr len ≡ down m (ptr + len)
release_acme-eq s m ptr len smallest few fits =
    let low : sub64 (2 ^ m) 1 ≡ 2 ^ m - 1 = omega (arith, pow-pos m, pow-lt-modulus m few) in
    rw (smallest, low, mod-eq_of_lt fits) (and_not_low m (ptr + len) (omega arith) fits)

-- The assertions of `release` hold.
asserts :
    (start size base acme : ℕ)
    → InHalf start (start + size)
    → start ≤ base
    → base ≤ acme
    → acme ≤ start + size
    → (signed_le start base && signed_le acme (add64 start size)) ≡ true
asserts start size base acme (inl low) p q r = ground arith
asserts start size base acme (inr (high, top)) p q r = ground arith

-- The null block is not inside.
beside_null :
    (start size base acme : ℕ)
    → InHalf start (start + size)
    → start ≤ base
    → base ≤ acme
    → acme ≤ start + size
    → 0 < base
    → (signed_le base 0 && signed_lt 0 acme) ≡ false
beside_null start size base acme (inl low) p q r pos = ground arith
beside_null start size base acme (inr (high, top)) p q r pos = ground arith

module _ (s : State) (ptr : Ptr) (len base acme : ℕ) (eb : release_base s ptr ≡ base)
    (ea : release_acme s ptr len ≡ acme)
    (half : InHalf s.talloc.arena_base (s.talloc.arena_base + s.talloc.arena_size))
    (lo : s.talloc.arena_base ≤ base) (le : base ≤ acme)
    (hi : acme ≤ s.talloc.arena_base + s.talloc.arena_size) where
  release-nothing : (base == acme) ≡ true → release s ptr len ≡ some s
  unfolding release release_in
  release-nothing same =
      rw
        (
          release,
          release_in,
          eb,
          ea,
          asserts s.talloc.arena_base s.talloc.arena_size base acme half lo le hi,
          eb,
          ea,
          same,
        )
        refl

  release-loop :
      0 < base → (base == acme) ≡ false → release s ptr len ≡ release_blocks rounds true s base acme
  unfolding release release_in
  release-loop pos differ =
      rw
        (
          release,
          release_in,
          eb,
          ea,
          asserts s.talloc.arena_base s.talloc.arena_size base acme half lo le hi,
          eb,
          ea,
          differ,
          eb,
          ea,
          beside_null s.talloc.arena_base s.talloc.arena_size base acme half lo le hi pos,
          eb,
          ea,
        )
        refl

half_within :
    (start stop base acme : ℕ) → InHalf start stop → start ≤ base → acme ≤ stop → InHalf base acme
half_within start stop base acme (inl low) p q = inl (omega (arith, low))
half_within start stop base acme (inr (high, top)) p q =
    inr (omega (arith, high), omega (arith, top))

-- In a valid state of an arena that ends below 2 ^ 62 or begins at 2 ^ 63 or above, for memory that
-- ends at least a smallest block below 2 ^ 64 and holds a boundary of smallest blocks, where the
-- first boundary is not 0 and what lies between the first and the last one is in the arena, ends in
-- the lower half of the aligned span of 2 ^ (K + 1) bytes that holds the arena's base, has no free
-- byte and no sentinel: release returns within the rounds of its loop: the new state is valid, and
-- exactly the addresses from the first boundary in the memory to the last one have become free.
pub release-IsReleased :
    (s : State) (K m : ℕ) (free : FreeLists) (ptr : Ptr) (len : ℕ)
    → Valid s K free
    → Smallest s K m
    → InHalf s.talloc.arena_base (s.talloc.arena_base + s.talloc.arena_size)
    → ptr + len + 2 ^ m ≤ modulus
    → 0 < up m ptr
    → up m ptr ≤ down m (ptr + len)
    → down m (ptr + len) ≤ s.talloc.arena_base + s.talloc.arena_size
    → IsSpan s K free (up m ptr) (down m (ptr + len))
    → (u : State) × ((release s ptr len ≡ some u)
        × IsReleased s u K free (up m ptr) (down m (ptr + len)))
release-IsReleased s K m free ptr len v smallest half room pos le hi span =
    let eb = release_base-eq s m ptr smallest.0 smallest.1.0 (omega (arith, room)) in
    let ea = release_acme-eq s m ptr len smallest.0 smallest.1.0 (omega (arith, room, pow-pos m)) in
    elim (Bool-cases (up m ptr == down m (ptr + len))) [
      | inl same ↦ (
        s,
        (
          release-nothing s ptr len (up m ptr) (down m (ptr + len)) eb ea half span.above le hi
              same,
          nothing-IsReleased s K free (up m ptr) (down m (ptr + len)) v
              (omega (arith, (==_iff (up m ptr) (down m (ptr + len))).0 same)),
        ),
      )
      | inr differ ↦
          let (u, (result, released)) =
            asc_lem rounds 0 s K m free (up m ptr) (down m (ptr + len)) v span smallest
              (omega arith) (one-dvd (up m ptr)) (dvd-mul_left (2 ^ m) _) (dvd-mul_left (2 ^ m) _)
              pos le (half_within _ _ _ _ half span.above hi) in
          (
            u,
            (
              release-loop s ptr len (up m ptr) (down m (ptr + len)) eb ea half span.above le hi pos
                    differ
                  ∙ result,
              released,
            ),
          )
    ]

pub up-le : (k x : ℕ) → x ≤ up k x
up-le k x = omega (arith, lt-down k (x + (2 ^ k - 1)), pow-pos k)

-- The memory behind an offset.
pub release-rest :
    (s : State) (K m : ℕ) (free : FreeLists) (ptr : Ptr) (len offset : ℕ)
    → Valid s K free
    → Smallest s K m
    → InHalf s.talloc.arena_base (s.talloc.arena_base + s.talloc.arena_size)
    → 0 < offset
    → ptr + len + 2 ^ m ≤ modulus
    → up m (ptr + offset) ≤ down m (ptr + len)
    → ptr + len ≤ s.talloc.arena_base + s.talloc.arena_size
    → IsSpan s K free (up m (ptr + offset)) (down m (ptr + len))
    → (u : State) × ((release s (add64 ptr offset) (sub64 len offset) ≡ some u)
        × IsReleased s u K free (up m (ptr + offset)) (down m (ptr + len)))
release-rest s K m free ptr len offset v smallest half pos room le hi span =
    let fits : offset ≤ len = omega (arith, le, up-le m (ptr + offset), down-le m (ptr + len)) in
    let start : add64 ptr offset ≡ ptr + offset =
      mod-eq_of_lt (omega (arith, fits, room, pow-pos m)) in
    let rest : sub64 len offset ≡ len - offset = omega (arith, fits, room) in
    let whole : ptr + offset + (len - offset) ≡ ptr + len = omega (arith, fits) in
    rw (start, rest)
      (rw whole at (
        release-IsReleased s K m free (ptr + offset) (len - offset) v smallest half (rw whole room)
          (omega (arith, pos, up-le m (ptr + offset))) (rw whole le)
          (rw whole (omega (arith, hi, down-le m (ptr + len)))) (rw whole span)))
