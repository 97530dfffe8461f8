-- ===== src/Talloc/Spans.antt =====
-- `release`'s loop: the blocks it gives to `dealloc` fill the memory exactly.
use native.Mathlib.Nat.{
  pow-suc, dvd_trans, dvd-sub, dvd-mul_right, dvd-mul_left, dvd_of_mul-dvd-mul_left,
  mod-eq-zero_of_dvd, le_of_dvd,
}
use Prim.Native.Nat.{◌∣◌}
use native.Mathlib.Decide.{dec_lt}
use tauos.Base.{
  ℕ, suc, ◌+◌, ◌-◌, ◌*◌, ◌^◌, ◌≤◌, ◌<◌, ◌≡◌, ◌↔◌, ◌⊎◌, inl, inr, refl, ap, ◌∙◌, arith, some,
}
use tauos.Bits.{modulus}
use tauos.Bits.Digits.{pow-le}
use tauos.Bits.Pow.{pow-pos, pow_add}
use tauos.Utils.Trailing.{OddMultiple}
use tauos.Talloc.{State, layout_to_size}
use tauos.Talloc.Alloc.{dealloc}
use tauos.Talloc.Sizes.{layout_to_size_least}
use tauos.Talloc.Books.{FreeLists}
use tauos.Talloc.Regions.{Covers, Region, Valid}
use tauos.Talloc.Merge.{IsFreed}
use tauos.Talloc.Dealloc.{dealloc-IsFreed}
use tauos.Talloc.Release.{block_layout}
use tauos.Talloc.Same.{IsSame, IsSame-refl, IsSame-trans}
use tauos.Talloc.Span.{IsSpan, Smallest, dealloc-IsSame, order-le, span-Reserved, span_after}

pub pow-dvd : (i j : ℕ) → i ≤ j → 2 ^ i ∣ 2 ^ j
pow-dvd i j l =
    let e : i + (j - i) ≡ j = omega arith in
    rw (← e) (rw (pow_add i (j - i)) (dvd-mul_right (2 ^ i) (2 ^ (j - i))))

-- An odd multiple of `2 ^ t` is a multiple of no higher power.
pub odd-le : (t m n : ℕ) → OddMultiple t n → 2 ^ m ∣ n → m ≤ t
odd-le t m n (q, e) d = elim (dec_lt t m) [
  | no p ↦ omega arith
  | yes p ↦
      let twice : 2 ^ suc t ∣ n = dvd_trans (2 ^ suc t) (pow-dvd (suc t) m (omega arith)) d in
      let flip : 2 ^ t * (2 * q + 1) ≡ n = omega (arith, e) in
      let halves : 2 ^ t * 2 ∣ 2 ^ t * (2 * q + 1) = rw (← pow-suc 2 t, flip) twice in
      absurd (omega (arith, mod-eq-zero_of_dvd 2 (dvd_of_mul-dvd-mul_left 2 (pow-pos t) halves)))
]

pub odd-next : (t n : ℕ) → OddMultiple t n → 2 ^ suc t ∣ n + 2 ^ t
odd-next t n (q, e) =
    let sum : n + 2 ^ t ≡ (q + 1) * 2 ^ suc t =
      omega (arith, e, pow-suc 2 t, ap (λ (p : ℕ). q * p) (pow-suc 2 t)) in
    rw sum (dvd-mul_left (2 ^ suc t) (q + 1))

pub odd-dvd : (t n : ℕ) → OddMultiple t n → 2 ^ t ∣ n
odd-dvd t n (q, e) = rw e (dvd-mul_left (2 ^ t) (2 * q + 1))

-- A multiple of `2 ^ t` below the modulus leaves room for `2 ^ t` more.
pub next-le : (t n : ℕ) → t < 64 → 2 ^ t ∣ n → n < modulus → n + 2 ^ t ≤ modulus
next-le t n l d small =
    let gap = dvd-sub (2 ^ t) (pow-dvd t 64 (omega arith)) d in
    omega (arith, le_of_dvd (omega arith) gap)

-- From `s` to `u` the memory from `base` to `acme` has become free, and nothing else has changed hands.
pub record IsReleased (s u : State) (K : ℕ) (free : FreeLists) (base acme : ℕ) : Type 0 where
  pub lists : FreeLists
  pub valid : Valid u K lists
  pub covers :
      (x : ℕ)
      → Covers u.talloc.llists.len K lists x
        ↔ (Covers s.talloc.llists.len K free x ⊎ ((base ≤ x) × (x < acme)))
  pub same : IsSame s u

pub nothing-IsReleased :
    (s : State) (K : ℕ) (free : FreeLists) (base acme : ℕ)
    → Valid s K free
    → acme ≤ base
    → IsReleased s s K free base acme
nothing-IsReleased s K free base acme v l = record {
  lists = free;
  valid = v;
  same = IsSame-refl s;
  covers = λ x.
      (λ c. inl c, λ c. elim c [ inl before ↦ before | inr r ↦ absurd (omega (arith, r.0, r.1)) ]);
}

-- One block's round: it is freed, and the rest of the memory is as before.
pub record IsStep (s u : State) (K m : ℕ) (free : FreeLists) (base acme j : ℕ) : Type 0 where
  pub result : dealloc s base (block_layout (2 ^ j)) ≡ some u
  pub lists : FreeLists
  pub valid : Valid u K lists
  pub covers :
      (x : ℕ)
      → Covers u.talloc.llists.len K lists x
        ↔ (Covers s.talloc.llists.len K free x ⊎ Region j base x)
  pub span : IsSpan u K lists (base + 2 ^ j) acme
  pub smallest : Smallest u K m
  pub same : IsSame s u

pub step-IsReleased :
    (s u v : State) (K m : ℕ) (free : FreeLists) (base acme j : ℕ)
    → (step : IsStep s u K m free base acme j) → base + 2 ^ j ≤ acme
    → IsReleased u v K step.lists (base + 2 ^ j) acme
    → IsReleased s v K free base acme
step-IsReleased s u v K m free base acme j step fits rest = record {
  lists = rest.lists;
  valid = rest.valid;
  same = IsSame-trans s u v step.same rest.same;
  covers = λ x. (to x, from x);
}
  where
    to :
        (x : ℕ)
        → Covers v.talloc.llists.len K rest.lists x
        → Covers s.talloc.llists.len K free x ⊎ ((base ≤ x) × (x < acme))
    to x c = elim ((rest.covers x).0 c) [
      | inr later ↦ inr (omega (arith, later.0), later.1)
      | inl now ↦ elim ((step.covers x).0 now) [
        | inl before ↦ inl before
        | inr block ↦ inr (block.0, omega (arith, block.1))
      ]
    ]

    from :
        (x : ℕ)
        → Covers s.talloc.llists.len K free x ⊎ ((base ≤ x) × (x < acme))
        → Covers v.talloc.llists.len K rest.lists x
    from x (inl c) = (rest.covers x).1 (inl ((step.covers x).1 (inl c)))
    from x (inr r) = elim (dec_lt x (base + 2 ^ j)) [
      | yes p ↦ (rest.covers x).1 (inl ((step.covers x).1 (inr (r.0, p))))
      | no p ↦ (rest.covers x).1 (inr (omega arith, r.1))
    ]

-- The layout of a block has the block's size.
block_size-eq :
    (s : State) (K m j : ℕ)
    → Smallest s K m
    → m ≤ j
    → j < 63
    → layout_to_size s.talloc (block_layout (2 ^ j)) ≡ 2 ^ j
block_size-eq s K m j smallest l small =
    let (k, (top, (size, ((fits, _), least)))) =
      layout_to_size_least s.talloc (block_layout (2 ^ j)) 0 m (pow-pos j)
        (pow-le j 63 (omega arith)) (omega arith) smallest.1.0 refl smallest.0 in
    let same : k ≡ j = elim (dec_lt k j) [
      | no p ↦ omega (arith, least j (omega arith) (omega arith) l)
      | yes p ↦ absurd (omega (arith, fits, pow-le (suc k) j (omega arith), pow-suc 2 k, pow-pos k))
    ] in
    size ∙ ap (λ (t : ℕ). 2 ^ t) same

freed-IsStep :
    (s u : State) (K m : ℕ) (free : FreeLists) (base acme j : ℕ)
    → IsSpan s K free base acme
    → Smallest s K m
    → base + 2 ^ j ≤ acme
    → dealloc s base (block_layout (2 ^ j)) ≡ some u
    → IsFreed s u K free (K - j) base
    → IsStep s u K m free base acme j
freed-IsStep s u K m free base acme j span smallest fits result freed =
    let back : K - (K - j) ≡ j = omega (arith, order-le s K free base acme j span fits) in
    let same = dealloc-IsSame s u base (block_layout (2 ^ j)) result in
    record {
      result = result;
      lists = freed.lists;
      valid = freed.valid;
      same = same;
      covers = λ x. rw back at (freed.covers x);
      span = span_after s u K free base acme j span fits same freed;
      smallest = (same.smlst ∙ smallest.0, (smallest.1.0, rw same.llists smallest.1.1));
    }

pub block-IsStep :
    (s : State) (K m : ℕ) (free : FreeLists) (base acme j : ℕ)
    → Valid s K free
    → IsSpan s K free base acme
    → Smallest s K m
    → m ≤ j
    → 2 ^ j ∣ base
    → base + 2 ^ j ≤ acme
    → (u : State) × IsStep s u K m free base acme j
block-IsStep s K m free base acme j v span smallest l aligned fits =
    let le = order-le s K free base acme j span fits in
    let back : K - (K - j) ≡ j = omega (arith, le) in
    let size = block_size-eq s K m j smallest l (omega (arith, le, v.books.arena.small)) in
    let (u, (result, freed)) =
      dealloc-IsFreed s K free (K - j) base (block_layout (2 ^ j)) v
        (span-Reserved s K m free base acme j span smallest l (mod-eq-zero_of_dvd (2 ^ j) aligned)
          fits)
        (rw back size) in
    (u, freed-IsStep s u K m free base acme j span smallest fits result freed)
