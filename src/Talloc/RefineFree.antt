-- ===== src/Talloc/RefineFree.antt =====
-- `dealloc` and `release` as steps of the abstract heap.
use tauos.Base.{
  ℕ, ◌-◌, ◌≤◌, ◌<◌, ◌≡◌, ◌⊎◌, inl, inr, refl, arith, true, false, some, ◌&&◌, ◌||◌, leb, ltb,
  Bool-cases,
}
use tauos.Llist.{Ptr}
use tauos.Talloc.{State}
use tauos.Talloc.Regions.{Covers, Region}
use tauos.Talloc.Same.{IsSame}
use tauos.Talloc.Spans.{IsReleased}
use tauos.Talloc.Merge.{IsFreed}
use tauos.Talloc.Heap.{Heap, HeapStep, Live, drop, give, Live-drop}
use tauos.Talloc.Represents.{Represents, keep-Smallest, keep-Reserved, apart-clear}
use tauos.Talloc.Updates.{or_true, in_range, at_drop}

-- An allocated block becomes free.
pub dealloc-Represents :
    (s u : State) (K m : ℕ) (h : Heap) (g : ℕ) (b : Ptr)
    → (rep : Represents s K m h) → h.live b ≡ some g
    → IsSame s u
    → IsFreed s u K rep.lists g b
    → Represents u K m (drop h b) × HeapStep K h (drop h b)
dealloc-Represents s u K m h g b rep here same f = (
  record {
    lists = f.lists;
    valid = f.valid;
    smallest = keep-Smallest s u K m h rep f.lists same;
    reserved = λ c k is.
        let (old, other) = at_drop h b c k is in
        keep-Reserved s u K m h rep f.lists same (Region (K - g) b) c k (λ x. (f.covers x).0) old
          (λ x. apart-clear s K m h rep b c g k x here old other);
    apart = λ c d k l p q. rep.apart c d k l (at_drop h b c k p).0 (at_drop h b d l q).0;
    cover = λ x. (to x, from x);
  },
  HeapStep.deallocated g b here,
)
  where
    to : (x : ℕ) → h.pool x ≡ true → Covers u.talloc.llists.len K f.lists x ⊎ Live K (drop h b) x
    to x p = elim ((rep.cover x).0 p) [
      | inl free ↦ inl ((f.covers x).1 (inl free))
      | inr live ↦ elim ((Live-drop K h b x g here).0 live) [
        | inl other ↦ inr other
        | inr block ↦ inl ((f.covers x).1 (inr block))
      ]
    ]

    from : (x : ℕ) → Covers u.talloc.llists.len K f.lists x ⊎ Live K (drop h b) x → h.pool x ≡ true
    from x (inl free) = elim ((f.covers x).0 free) [
      | inl before ↦ (rep.cover x).1 (inl before)
      | inr block ↦ (rep.cover x).1 (inr ((Live-drop K h b x g here).1 (inr block)))
    ]
    from x (inr other) = (rep.cover x).1 (inr ((Live-drop K h b x g here).1 (inl other)))

-- Memory that was not given before becomes free.
pub release-Represents :
    (s u : State) (K m : ℕ) (h : Heap) (base acme : ℕ)
    → (rep : Represents s K m h) → ((x : ℕ) → base ≤ x → x < acme → h.pool x ≡ false)
    → IsReleased s u K rep.lists base acme
    → Represents u K m (give h base acme) × HeapStep K h (give h base acme)
release-Represents s u K m h base acme rep fresh f = (
  record {
    lists = f.lists;
    valid = f.valid;
    smallest = keep-Smallest s u K m h rep f.lists f.same;
    reserved = λ c k is.
        keep-Reserved s u K m h rep f.lists f.same (λ x. (base ≤ x) × (x < acme)) c k
          (λ x. (f.covers x).0) is (λ x i r. unpooled c k x is i r);
    apart = rep.apart;
    cover = λ x. (to x, from x);
  },
  HeapStep.given base acme fresh,
)
  where
    unpooled :
        (c : Ptr) (k x : ℕ) → h.live c ≡ some k → Region (K - k) c x → (base ≤ x) × (x < acme) → ⊥
    unpooled c k x is i r =
        let given : h.pool x ≡ true =
          (rep.cover x).1 (inr (record { b = c; g = k; is = is; region = i })) in
        let absent = fresh x r.0 r.1 in ground (arith, given, absent)

    to :
        (x : ℕ)
        → (h.pool x || (leb base x && ltb x acme)) ≡ true
        → Covers u.talloc.llists.len K f.lists x ⊎ Live K (give h base acme) x
    to x p = elim (Bool-cases (h.pool x)) [
      | inl old ↦ elim ((rep.cover x).0 old) [
        | inl free ↦ inl ((f.covers x).1 (inl free))
        | inr l ↦ inr (record { b = l.b; g = l.g; is = l.is; region = l.region })
      ]
      | inr new ↦ inl ((f.covers x).1 (inr ((in_range base acme x).0 (rw new at p))))
    ]

    from :
        (x : ℕ)
        → Covers u.talloc.llists.len K f.lists x ⊎ Live K (give h base acme) x
        → (h.pool x || (leb base x && ltb x acme)) ≡ true
    from x (inl free) = elim ((f.covers x).0 free) [
      | inl before ↦ let old = (rep.cover x).1 (inl before) in rw old refl
      | inr r ↦ let inside = (in_range base acme x).1 r in rw inside (or_true (h.pool x))
    ]
    from x (inr l) =
        let old =
          (rep.cover x).1 (inr (record { b = l.b; g = l.g; is = l.is; region = l.region })) in
        rw old refl
