-- ===== src/Llist/Move.antt =====
-- `mov`, as the allocator uses it: the sentinel of a list moves to a new place.
use tauos.Base.{◌≡◌, true, false, List, [], ◌∷◌, arith, ◌==◌}
use tauos.Llist.{Ptr, Mem, mov}
use tauos.Llist.Links.{has, Unique, Links, IsRing, end_prev-mem}

module _ {A : Type 0} where
  -- A segment whose last node is linked to another end.
  retarget :
      (m g : Mem A) (p : Ptr) (xs : List Ptr) (q r : Ptr)
      → ((a : Ptr) → has a xs ≡ true → (g a).prev ≡ (m a).prev)
      → ((a : Ptr) → has a (p ∷ xs) ≡ true → (a == (m q).prev) ≡ false → (g a).next ≡ (m a).next)
      → (g (m q).prev).next ≡ r
      → (g r).prev ≡ (m q).prev
      → Unique (p ∷ xs)
      → Links m p xs q
      → Links g p xs r
  retarget m g p [] q r back fore n b u l = ground arith
  retarget m g p (x ∷ xs) q r back fore n b u l = (
    ground (arith, end_prev-mem m x xs q l.2, fore p),
    ground (arith, back x),
    retarget m g x xs q r (λ a h. back a (ground arith)) (λ a h. fore a (ground arith)) n b u.1 l.2,
  )

  mov_prev_frame :
      (m : Mem A) (src dst a : Ptr)
      → (a == src) ≡ false
      → (a == dst) ≡ false
      → (a == (m src).next) ≡ false
      → (mov m src dst a).prev ≡ (m a).prev
  unfolding mov
  mov_prev_frame m src dst a h i j = ground arith

  mov_next_frame :
      (m : Mem A) (src dst a : Ptr)
      → (a == src) ≡ false
      → (a == dst) ≡ false
      → (a == (m src).prev) ≡ false
      → (mov m src dst a).next ≡ (m a).next
  unfolding mov
  mov_next_frame m src dst a h i j = ground arith

  -- The links of the sentinel and to it, after the move of a list that is not empty.
  mov_ends :
      (m : Mem A) (src dst : Ptr)
      → (src == dst) ≡ false
      → (src == (m src).next) ≡ false
      → (dst == (m src).next) ≡ false
      → (src == (m src).prev) ≡ false
      → (dst == (m src).prev) ≡ false
      → ((mov m src dst dst).next ≡ (m src).next)
        × ((mov m src dst dst).prev ≡ (m src).prev)
        × ((mov m src dst (m src).next).prev ≡ dst)
        × ((mov m src dst (m src).prev).next ≡ dst)
  unfolding mov
  mov_ends m src dst h i j k l = ground arith

  -- mov of a sentinel to an address outside the list gives a circular list of the same nodes in the
  -- same order behind the new sentinel.
  pub mov-IsRing :
      (m : Mem A) (src dst : Ptr) (xs : List Ptr)
      → IsRing m src xs
      → has dst (src ∷ xs) ≡ false
      → IsRing (mov m src dst) dst xs
  mov-IsRing m src dst [] r out = unfold mov in ground arith
  mov-IsRing m src dst (x ∷ xs) r out =
      let e = end_prev-mem m x xs src r.links.2 in
      let ends =
        mov_ends m src dst (ground arith) (ground arith) (ground arith) (ground arith)
          (ground arith) in
      record {
        links = (
          ground arith,
          ground arith,
          retarget m (mov m src dst) x xs src dst
              (λ a h. ground (arith, mov_prev_frame m src dst a))
              (λ a h i. ground (arith, mov_next_frame m src dst a)) (ground arith) (ground arith)
              r.unique r.links.2,
        );
        fresh = ground arith;
        unique = r.unique;
      }

  pub mov_other :
      (m : Mem A) (src dst : Ptr) (xs : List Ptr) (a : Ptr)
      → IsRing m src xs
      → has a (dst ∷ src ∷ xs) ≡ false
      → mov m src dst a ≡ m a
  unfolding mov
  mov_other m src dst [] a r out = ground arith
  mov_other m src dst (x ∷ xs) a r out = ground (arith, r.links, end_prev-mem m x xs src r.links.2)
