-- ===== src/Talloc/Represents.antt =====
-- Which abstract heap a state of the allocator stands for.
use tauos.Base.{ℕ, ◌-◌, ◌≡◌, ◌≢◌, ◌↔◌, ◌⊎◌, inl, inr, ◌∙◌, arith, true, some}
use tauos.Llist.{Ptr}
use tauos.Talloc.{State}
use tauos.Talloc.Books.{FreeLists}
use tauos.Talloc.Regions.{Covers, Region, Separate, Valid, Reserved}
use tauos.Talloc.Same.{IsSame}
use tauos.Talloc.Span.{Smallest}
use tauos.Talloc.Heap.{Heap, Live, separate}

-- The memory given to the allocator is what is free and what is allocated; allocated blocks are
-- reserved, and lie apart from each other.
pub record Represents (s : State) (K m : ℕ) (h : Heap) : Type 0 where
  pub lists : FreeLists
  pub valid : Valid s K lists
  pub smallest : Smallest s K m
  pub reserved : (b : Ptr) (g : ℕ) → h.live b ≡ some g → Reserved s K lists g b
  pub apart :
      (b c : Ptr) (g k : ℕ)
      → h.live b ≡ some g
      → h.live c ≡ some k
      → b ≢ c
      → Separate (K - g) b (K - k) c
  pub cover : (x : ℕ) → (h.pool x ≡ true) ↔ (Covers s.talloc.llists.len K lists x ⊎ Live K h x)

-- A reserved block has no free byte.
pub Reserved-clear :
    (s : State) (K g : ℕ) (free : FreeLists) (b : Ptr) (x : ℕ)
    → Reserved s K free g b
    → Region (K - g) b x
    → Covers s.talloc.llists.len K free x
    → ⊥
Reserved-clear s K g free b x r i c =
    ground (arith, r.disjoint c.g c.b c.level c.listed, c.region, i)

-- A block stays reserved as long as none of its bytes becomes free.
pub Reserved-keep :
    (s u : State) (K g : ℕ) (free lists : FreeLists) (b : Ptr)
    → IsSame s u
    → Reserved s K free g b
    → ((x : ℕ) → Region (K - g) b x → Covers u.talloc.llists.len K lists x → ⊥)
    → Reserved u K lists g b
Reserved-keep s u K g free lists b same r out = record {
  level = rw same.llists r.level;
  block = rw same.base r.block;
  disjoint = λ h c l i.
      separate (K - g) b (K - h) c
        (λ x p q. out x p (record { g = h; b = c; level = l; listed = i; region = q }));
  spared = λ h l. rw same.llists (r.spared h (rw same.llists at l));
}

module _ (s u : State) (K m : ℕ) (h : Heap) (rep : Represents s K m h) (lists : FreeLists)
    (same : IsSame s u) where
  pub keep-Smallest : Smallest u K m
  keep-Smallest = (same.smlst ∙ rep.smallest.0, (rep.smallest.1.0, rw same.llists rep.smallest.1.1))

  -- A block that is allocated stays reserved when what becomes free is none of its bytes.
  pub keep-Reserved :
      (R : ℕ → Type 0) (c : Ptr) (k : ℕ)
      → ((x : ℕ)
          → Covers u.talloc.llists.len K lists x
          → Covers s.talloc.llists.len K rep.lists x ⊎ R x)
      → h.live c ≡ some k
      → ((x : ℕ) → Region (K - k) c x → R x → ⊥)
      → Reserved u K lists k c
  keep-Reserved R c k freed is out =
      Reserved-keep s u K k rep.lists lists c same (rep.reserved c k is) (λ x p q.
        elim (freed x q) [
          | inl before ↦ Reserved-clear s K k rep.lists c x (rep.reserved c k is) p before
          | inr r ↦ out x p r
        ])

-- Two allocated blocks at different bases have no common byte.
pub apart-clear :
    (s : State) (K m : ℕ) (h : Heap)
    → (rep : Represents s K m h) → (b c : Ptr) (g k x : ℕ) → h.live b ≡ some g
    → h.live c ≡ some k
    → b ≢ c
    → Region (K - k) c x
    → Region (K - g) b x
    → ⊥
apart-clear s K m h rep b c g k x p q differ i j = omega (arith, rep.apart b c g k p q differ, i, j)
