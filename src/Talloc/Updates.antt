-- ===== src/Talloc/Updates.antt =====
-- The heap after a block at one base has changed.
use mathlib.Core.Option.{some-injective}
use tauos.Base.{
  Bool, true, false, ◌&&◌, ◌||◌, leb, ltb, ◌↔◌, ◌≤◌, ◌<◌, ℕ, ◌-◌, ◌≡◌, ◌≢◌, inl, inr, refl, arith,
  Option, some, none, ◌==◌, Bool-cases, ==_iff,
}
use tauos.Llist.{Ptr}
use tauos.Talloc.{State}
use tauos.Talloc.Regions.{Region, Separate}
use tauos.Talloc.Heap.{Heap, put, drop, separate}
use tauos.Talloc.Represents.{Represents}

pub none_of : (o : Option ℕ) → ((k : ℕ) → o ≡ some k → ⊥) → o ≡ none
none_of none out = refl
none_of (some k) out = absurd (out k refl)

module _ (h : Heap) (b : Ptr) where
  -- A property of all blocks of a heap in which `b` is new.
  pub at_put :
      (g : ℕ) (P : Ptr → ℕ → Type 0)
      → P b g
      → ((c : Ptr) (k : ℕ) → h.live c ≡ some k → b ≢ c → P c k)
      → (c : Ptr) (k : ℕ) → (put h b g).live c ≡ some k
      → P c k
  at_put g P here others c k is = elim (Bool-cases (b == c)) [
    | inl same ↦
        let base : b ≡ c = (==_iff b c).0 same in
        let level : g ≡ k = some-injective g k (rw same at is) in rw (← base, ← level) here
    | inr other ↦ others c k (rw other at is) (ground (arith, other))
  ]

  pub at_drop : (c : Ptr) (k : ℕ) → (drop h b).live c ≡ some k → (h.live c ≡ some k) × (b ≢ c)
  at_drop c k is = elim (Bool-cases (b == c)) [
    | inl same ↦ absurd (ground (arith, rw same at is))
    | inr other ↦ (rw other at is, ground (arith, other))
  ]

-- Blocks lie apart once `b` has changed hands.
pub apart_put :
    (s : State) (K m : ℕ) (h : Heap) (b : Ptr) (g : ℕ)
    → (rep : Represents s K m h)
    → ((c : Ptr) (k : ℕ)
        → h.live c ≡ some k
        → b ≢ c
        → (x : ℕ) → Region (K - g) b x
        → Region (K - k) c x
        → ⊥)
    → (c d : Ptr) (k l : ℕ) → (put h b g).live c ≡ some k
    → (put h b g).live d ≡ some l
    → c ≢ d
    → Separate (K - k) c (K - l) d
apart_put s K m h b g rep fresh c d k l p q differ =
    at_put h b g (λ (c : Ptr) (k : ℕ). c ≢ d → Separate (K - k) c (K - l) d)
      (λ ne.
        at_put h b g (λ (d : Ptr) (l : ℕ). b ≢ d → Separate (K - g) b (K - l) d)
          (λ z. absurd (z refl)) (λ d l q' ne' z. separate (K - g) b (K - l) d (fresh d l q' ne')) d
          l q ne)
      (λ c k p' other ne.
        at_put h b g (λ (d : Ptr) (l : ℕ). c ≢ d → Separate (K - k) c (K - l) d)
          (λ z. separate (K - k) c (K - g) b (λ x i j. fresh c k p' other x j i))
          (λ d l q' ne' z. rep.apart c d k l p' q' z) d l q ne)
      c k p differ

pub or_true : (p : Bool) → (p || true) ≡ true
or_true true = refl
or_true false = refl

pub in_range : (base acme x : ℕ) → ((leb base x && ltb x acme) ≡ true) ↔ ((base ≤ x) × (x < acme))
in_range base acme x = (λ e. (ground (arith, e), ground (arith, e)), λ r. ground (arith, r.0, r.1))
