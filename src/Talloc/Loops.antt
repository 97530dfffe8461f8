-- ===== src/Talloc/Loops.antt =====
-- The two phases of `release`'s loop: growing sizes, and then falling ones.
use native.Mathlib.Nat.{pow-suc, dvd_refl, dvd_trans, dvd-add, dvd-sub, le_of_dvd}
use Prim.Native.Nat.{◌∣◌}
use native.Mathlib.Decide.{dec_lt, dec_le}
use tauos.Base.{ℕ, zero, suc, ◌+◌, ◌-◌, ◌^◌, ◌≤◌, ◌<◌, ◌≡◌, refl, ◌∙◌, arith, true, false, some}
use tauos.Bits.{modulus}
use tauos.Bits.Pow.{pow-pos}
use tauos.Utils.{trailing_zeros}
use tauos.Utils.Log.{IsTop-exists}
use tauos.Utils.Pow.{lt_of_pow-lt}
use tauos.Utils.Trailing.{trailing_zeros_lem}
use tauos.Talloc.{State}
use tauos.Talloc.Books.{FreeLists}
use tauos.Talloc.Regions.{Valid}
use tauos.Talloc.Release.{release_blocks}
use tauos.Talloc.Rounds.{
  asc-round, asc-turn, desc-round, desc-end, InHalf, InHalf-top, InHalf-up, signed_le-sum,
}
use tauos.Talloc.Span.{IsSpan, Smallest}
use tauos.Talloc.Spans.{
  pow-dvd, odd-le, odd-next, odd-dvd, next-le, IsReleased, nothing-IsReleased, step-IsReleased,
  block-IsStep,
}

-- The loop with falling sizes fills memory that is shorter than the unit `2 ^ i` of its start.
desc_lem :
    (fuel i : ℕ) (s : State) (K m : ℕ) (free : FreeLists) (base acme : ℕ)
    → Valid s K free
    → IsSpan s K free base acme
    → Smallest s K m
    → i < fuel
    → 2 ^ i ∣ base
    → 2 ^ m ∣ base
    → 2 ^ m ∣ acme
    → base ≤ acme
    → acme < base + 2 ^ i
    → acme < modulus
    → (u : State) × ((release_blocks fuel false s base acme ≡ some u)
        × IsReleased s u K free base acme)
desc_lem zero i s K m free base acme v span smallest l unit dm da le short top =
    absurd (omega arith)
desc_lem (suc fuel) i s K m free base acme v span smallest l unit dm da le short top =
    elim (dec_lt (acme - base) (2 ^ m)) [
      | yes p ↦
          let nothing : acme - base ≡ 0 = elim (dec_lt 0 (acme - base)) [
            | no q ↦ omega arith
            | yes q ↦ absurd (omega (arith, le_of_dvd q (dvd-sub (2 ^ m) da dm)))
          ] in
          (
            s,
            (
              desc-end fuel m s base acme smallest.0 p le top,
              nothing-IsReleased s K free base acme v (omega arith),
            ),
          )
      | no p ↦
          let (k, few, (lo, hi)) =
            IsTop-exists 64 (acme - base) (omega (arith, pow-pos m)) (omega arith) in
          let large : m ≤ k = omega (arith, lt_of_pow-lt m (suc k) (omega arith)) in
          let fits : base + 2 ^ k ≤ acme = omega arith in
          let small : k < i = lt_of_pow-lt k i (omega arith) in
          let aligned : 2 ^ k ∣ base = dvd_trans (2 ^ k) (pow-dvd k i (omega arith)) unit in
          let (t, step) = block-IsStep s K m free base acme k v span smallest large aligned fits in
          let (u, (result, rest)) =
            desc_lem fuel k t K m step.lists (base + 2 ^ k) acme step.valid step.span step.smallest
              (omega arith) (dvd-add (2 ^ k) aligned (dvd_refl (2 ^ k)))
              (dvd-add (2 ^ m) dm (pow-dvd m k large)) da fits (omega (arith, pow-suc 2 k)) top in
          (
            u,
            (
              desc-round fuel k m s t base acme smallest.0 few (lo, hi) (omega arith) le top
                    step.result
                  ∙ result,
              step-IsReleased s t u K m free base acme k step fits rest,
            ),
          )
    ]

-- The loop with growing sizes, and then with falling ones.
pub asc_lem :
    (fuel t : ℕ) (s : State) (K m : ℕ) (free : FreeLists) (base acme : ℕ)
    → Valid s K free
    → IsSpan s K free base acme
    → Smallest s K m
    → 130 ≤ fuel + t
    → 2 ^ t ∣ base
    → 2 ^ m ∣ base
    → 2 ^ m ∣ acme
    → 0 < base
    → base ≤ acme
    → InHalf base acme
    → (u : State) × ((release_blocks fuel true s base acme ≡ some u)
        × IsReleased s u K free base acme)
asc_lem zero t s K m free base acme v span smallest l unit dm da pos le half = absurd (
    omega (
      arith,
      l,
      lt_of_pow-lt t 64 (omega (arith, le_of_dvd pos unit, InHalf-top base acme half, le)),
    ))
asc_lem (suc fuel) t s K m free base acme v span smallest l unit dm da pos le half =
    let top = InHalf-top base acme half in
    let (odd, few) = trailing_zeros_lem base pos (omega (arith, le, top)) in
    let k = trailing_zeros base in
    let deep : t ≤ k = odd-le k t base odd unit in
    let large : m ≤ k = odd-le k m base odd dm in
    let aligned = odd-dvd k base odd in
    let test =
      signed_le-sum base acme (2 ^ k) le half (le_of_dvd pos aligned)
        (next-le k base few aligned (omega (arith, le, top))) in
    elim (dec_le (base + 2 ^ k) acme) [
      | yes fits ↦
          let (w, step) = block-IsStep s K m free base acme k v span smallest large aligned fits in
          let (u, (result, rest)) =
            asc_lem fuel (suc k) w K m step.lists (base + 2 ^ k) acme step.valid step.span
              step.smallest (omega (arith, l, deep)) (odd-next k base odd)
              (dvd-add (2 ^ m) dm (pow-dvd m k large)) da (omega (arith, pos)) fits
              (InHalf-up base acme (2 ^ k) half) in
          (
            u,
            (
              asc-round fuel k s w base acme refl few test fits top step.result ∙ result,
              step-IsReleased s w u K m free base acme k step fits rest,
            ),
          )
      | no over ↦
          let (u, (result, released)) =
            desc_lem fuel k s K m free base acme v span smallest (omega (arith, l, deep, few))
              aligned dm da le (omega (arith, over)) top in
          (u, (asc-turn fuel k s base acme refl few test (omega (arith, over)) ∙ result, released))
    ]
