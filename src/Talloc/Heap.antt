-- ===== src/Talloc/Heap.antt =====
-- What the allocator promises, with no free lists and no bitmap: memory that it was given, blocks of
-- it that are allocated, and the steps between such states.
use mathlib.Core.Option.{some-injective}
use native.Mathlib.Decide.{dec_lt}
use tauos.Base.{
  ℕ, ◌+◌, ◌-◌, ◌^◌, ◌%◌, ◌≤◌, ◌<◌, ◌≡◌, ◌↔◌, ◌⊎◌, inl, inr, refl, sym, ap, ◌∙◌, arith, Bool, true,
  false, Option, some, none, ◌==◌, ◌&&◌, ◌||◌, leb, ltb, Bool-cases, ==_iff, if◌then◌else◌, max,
}
use tauos.Bits.Pow.{pow-pos}
use tauos.Llist.{Ptr}
use tauos.Talloc.Regions.{Region, Separate}

-- The addresses given to the allocator, and the granularity of the allocated block at a base.
pub record Heap : Type 0 where
  pub pool : ℕ → Bool
  pub live : Ptr → Option ℕ

abbrev pub put : Heap → (b : Ptr) (g : ℕ) → Heap
put h b g = record { pool = h.pool; live = λ c. if b == c then some g else h.live c }

abbrev pub drop : Heap → (b : Ptr) → Heap
drop h b = record { pool = h.pool; live = λ c. if b == c then none else h.live c }

abbrev pub give : Heap → (base acme : ℕ) → Heap
give h base acme = record { pool = λ x. h.pool x || (leb base x && ltb x acme); live = h.live }

-- `x` lies in an allocated block.
pub record Live (K : ℕ) (h : Heap) (x : ℕ) : Type 0 where
  pub b : Ptr
  pub g : ℕ
  pub is : h.live b ≡ some g
  pub region : Region (K - g) b x

-- A block that may be handed out: it was given to the allocator, and no byte of it is allocated.
abbrev pub Unused : (K : ℕ) → Heap → (g : ℕ) → Ptr → Type 0
Unused K h g b = (x : ℕ) → Region (K - g) b x → (h.pool x ≡ true) × (Live K h x → ⊥)

pub data HeapStep (K : ℕ) (h : Heap) : Heap → Type 0 where
  allocated : (g : ℕ) (b : Ptr) → Unused K h g b → b % 2 ^ (K - g) ≡ 0 → HeapStep K h (put h b g)
  refused : HeapStep K h h
  deallocated : (g : ℕ) (b : Ptr) → h.live b ≡ some g → HeapStep K h (drop h b)
  shrunk : (g n : ℕ) (b : Ptr) → h.live b ≡ some g → HeapStep K h (put h b (g + n))
  given :
      (base acme : ℕ)
      → ((x : ℕ) → base ≤ x → x < acme → h.pool x ≡ false)
      → HeapStep K h (give h base acme)

-- Blocks with no common byte lie apart.
pub separate : (j b k c : ℕ) → ((x : ℕ) → Region j b x → Region k c x → ⊥) → Separate j b k c
separate j b k c out = elim (dec_lt c (b + 2 ^ j)) [
  | no p ↦ inl (omega arith)
  | yes p ↦ elim (dec_lt b (c + 2 ^ k)) [
    | no q ↦ inr (omega arith)
    | yes q ↦ absurd (
        out (max b c) (omega arith, omega (arith, p, pow-pos j))
          (omega arith, omega (arith, q, pow-pos k)))
  ]
]

module _ (K : ℕ) (h : Heap) (b : Ptr) (x : ℕ) where
  drop-Live : Live K (drop h b) x → Live K h x
  drop-Live l = elim (Bool-cases (b == l.b)) [
    | inl same ↦ absurd (ground (arith, rw same at l.is))
    | inr other ↦ record { b = l.b; g = l.g; is = rw other at l.is; region = l.region }
  ]

  other-Live : (l : Live K h x) → (b == l.b) ≡ false → Live K (drop h b) x
  other-Live l other = record { b = l.b; g = l.g; is = rw other l.is; region = l.region }

  -- A block at the same base is the block itself.
  at_base :
      (g c k : ℕ)
      → (b == c) ≡ true
      → ◌≡◌ {A = Option ℕ} (some g) (some k)
      → Region (K - k) c x
      → Region (K - g) b x
  at_base g c k same e r =
      let base : b ≡ c = (==_iff b c).0 same in
      let level : g ≡ k = some-injective g k e in rw (base, level) r

  pub Live-put : (g : ℕ) → Live K (put h b g) x ↔ (Live K (drop h b) x ⊎ Region (K - g) b x)
  Live-put g = (to, from)
    where
      to : Live K (put h b g) x → Live K (drop h b) x ⊎ Region (K - g) b x
      to l = elim (Bool-cases (b == l.b)) [
        | inl same ↦ inr (at_base g l.b l.g same (rw same at l.is) l.region)
        | inr other ↦
            inl (record { b = l.b; g = l.g; is = rw other (rw other at l.is); region = l.region })
      ]

      from : Live K (drop h b) x ⊎ Region (K - g) b x → Live K (put h b g) x
      from (inl l) = elim (Bool-cases (b == l.b)) [
        | inl same ↦ absurd (ground (arith, rw same at l.is))
        | inr other ↦ record {
          b = l.b;
          g = l.g;
          is = rw other (rw other at l.is);
          region = l.region;
        }
      ]
      from (inr r) =
          let same : (b == b) ≡ true = ground arith in
          record { b = b; g = g; is = rw same refl; region = r }

  pub Live-drop :
      (g : ℕ) → h.live b ≡ some g → Live K h x ↔ (Live K (drop h b) x ⊎ Region (K - g) b x)
  Live-drop g here = (to, from)
    where
      to : Live K h x → Live K (drop h b) x ⊎ Region (K - g) b x
      to l = elim (Bool-cases (b == l.b)) [
        | inl same ↦ inr (
            at_base g l.b l.g same (sym here ∙ (ap h.live ((==_iff b l.b).0 same) ∙ l.is)) l.region)
        | inr other ↦ inl (other-Live l other)
      ]

      from : Live K (drop h b) x ⊎ Region (K - g) b x → Live K h x
      from (inl l) = drop-Live l
      from (inr r) = record { b = b; g = g; is = here; region = r }

  pub Live-drop-none : h.live b ≡ none → Live K h x ↔ Live K (drop h b) x
  Live-drop-none free = (to, drop-Live)
    where
      to : Live K h x → Live K (drop h b) x
      to l = elim (Bool-cases (b == l.b)) [
        | inl same ↦ absurd (ground (arith, sym free ∙ (ap h.live ((==_iff b l.b).0 same) ∙ l.is)))
        | inr other ↦ other-Live l other
      ]
