-- ===== src/Talloc/RefineAlloc.antt =====
-- `alloc` and `shrink` as steps of the abstract heap.
use tauos.Base.{ℕ, ◌+◌, ◌-◌, ◌^◌, ◌%◌, ◌≡◌, ◌⊎◌, inl, inr, arith, true, some, none}
use tauos.Bits.Digits.{pow-le}
use tauos.Bits.Pow.{pow-pos}
use tauos.Llist.{Ptr}
use tauos.Talloc.{State}
use tauos.Talloc.Regions.{Covers, Region, Reserved}
use tauos.Talloc.Split.{IsSplit}
use tauos.Talloc.Allocated.{IsAllocated}
use tauos.Talloc.Heap.{Heap, HeapStep, Live, Unused, put, Live-put, Live-drop, Live-drop-none}
use tauos.Talloc.Represents.{Represents, Reserved-clear, keep-Smallest, keep-Reserved, apart-clear}
use tauos.Talloc.Updates.{none_of, at_put, apart_put}

-- A reserved block that was free becomes an allocated block.
pub alloc-Represents :
    (s u : State) (K m : ℕ) (h : Heap) (g : ℕ) (b : Ptr)
    → (rep : Represents s K m h) → IsAllocated s u K rep.lists g b
    → Represents u K m (put h b g) × (Unused K h g b × (b % 2 ^ (K - g) ≡ 0))
alloc-Represents s u K m h g b rep a = (
  record {
    lists = a.lists;
    valid = a.valid;
    smallest = keep-Smallest s u K m h rep a.lists a.same;
    reserved =
        at_put h b g (λ (c : Ptr) (k : ℕ). Reserved u K a.lists k c) a.reserved
          (λ c k is other.
            keep-Reserved s u K m h rep a.lists a.same (Region (K - g) b) c k
              (λ x q. inl ((a.covers x).0 (inl q))) is (λ x i j. fresh c k is x j i));
    apart = apart_put s K m h b g rep (λ c k is other. fresh c k is);
    cover = λ x. (to x, from x);
  },
  (
    λ x i. ((rep.cover x).1 (inl ((a.covers x).0 (inr i))), λ l. fresh l.b l.g l.is x i l.region),
    a.reserved.block.aligned,
  ),
)
  where
    fresh :
        (c : Ptr) (k : ℕ)
        → h.live c ≡ some k
        → (x : ℕ) → Region (K - g) b x
        → Region (K - k) c x
        → ⊥
    fresh c k is x i j =
        Reserved-clear s K k rep.lists c x (rep.reserved c k is) j ((a.covers x).0 (inr i))

    vacant : h.live b ≡ none
    vacant = none_of (h.live b) (λ k is.
        fresh b k is b (omega arith, omega (arith, pow-pos (K - g)))
          (omega arith, omega (arith, pow-pos (K - k))))

    to : (x : ℕ) → h.pool x ≡ true → Covers u.talloc.llists.len K a.lists x ⊎ Live K (put h b g) x
    to x p = elim ((rep.cover x).0 p) [
      | inl free ↦ elim ((a.covers x).1 free) [
        | inl still ↦ inl still
        | inr block ↦ inr ((Live-put K h b x g).1 (inr block))
      ]
      | inr live ↦ inr ((Live-put K h b x g).1 (inl ((Live-drop-none K h b x vacant).0 live)))
    ]

    from : (x : ℕ) → Covers u.talloc.llists.len K a.lists x ⊎ Live K (put h b g) x → h.pool x ≡ true
    from x (inl free) = (rep.cover x).1 (inl ((a.covers x).0 (inl free)))
    from x (inr live) = elim ((Live-put K h b x g).0 live) [
      | inl other ↦ (rep.cover x).1 (inr ((Live-drop-none K h b x vacant).1 other))
      | inr block ↦ (rep.cover x).1 (inl ((a.covers x).0 (inr block)))
    ]

-- The upper part of an allocated block becomes free.
pub shrink-Represents :
    (s u : State) (K m : ℕ) (h : Heap) (g n : ℕ) (b : Ptr)
    → (rep : Represents s K m h) → h.live b ≡ some g
    → IsSplit s u K rep.lists g (g + n) b
    → Represents u K m (put h b (g + n)) × HeapStep K h (put h b (g + n))
shrink-Represents s u K m h g n b rep here f = (
  record {
    lists = f.lists;
    valid = f.valid;
    smallest = keep-Smallest s u K m h rep f.lists f.same;
    reserved =
        at_put h b (g + n) (λ (c : Ptr) (k : ℕ). Reserved u K f.lists k c) f.reserved
          (λ c k is other.
            keep-Reserved s u K m h rep f.lists f.same (Region (K - g) b) c k
              (λ x q. (f.covers x).0 (inl q)) is
              (λ x. apart-clear s K m h rep b c g k x here is other));
    apart =
        apart_put s K m h b (g + n) rep
          (λ c k is other x i j. apart-clear s K m h rep b c g k x here is other j (inside x i));
    cover = λ x. (to x, from x);
  },
  HeapStep.shrunk g n b here,
)
  where
    inside : (x : ℕ) → Region (K - (g + n)) b x → Region (K - g) b x
    inside x i = (i.0, omega (arith, i.1, pow-le (K - (g + n)) (K - g) (omega arith)))

    to :
        (x : ℕ)
        → h.pool x ≡ true
        → Covers u.talloc.llists.len K f.lists x ⊎ Live K (put h b (g + n)) x
    to x p = elim ((rep.cover x).0 p) [
      | inl free ↦ elim ((f.covers x).1 (inl free)) [
        | inl still ↦ inl still
        | inr block ↦ inr ((Live-put K h b x (g + n)).1 (inr block))
      ]
      | inr live ↦ elim ((Live-drop K h b x g here).0 live) [
        | inl other ↦ inr ((Live-put K h b x (g + n)).1 (inl other))
        | inr block ↦ elim ((f.covers x).1 (inr block)) [
          | inl now ↦ inl now
          | inr rest ↦ inr ((Live-put K h b x (g + n)).1 (inr rest))
        ]
      ]
    ]

    whole :
        (x : ℕ) → Covers s.talloc.llists.len K rep.lists x ⊎ Region (K - g) b x → h.pool x ≡ true
    whole x (inl free) = (rep.cover x).1 (inl free)
    whole x (inr block) = (rep.cover x).1 (inr ((Live-drop K h b x g here).1 (inr block)))

    from :
        (x : ℕ)
        → Covers u.talloc.llists.len K f.lists x ⊎ Live K (put h b (g + n)) x
        → h.pool x ≡ true
    from x (inl free) = whole x ((f.covers x).0 (inl free))
    from x (inr live) = elim ((Live-put K h b x (g + n)).0 live) [
      | inl other ↦ (rep.cover x).1 (inr ((Live-drop K h b x g here).1 (inl other)))
      | inr block ↦ whole x ((f.covers x).0 (inr block))
    ]
