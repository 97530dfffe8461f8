-- ===== src/Llist/Remove.antt =====
-- `remove`.
use tauos.Base.{◌≡◌, true, false, List, [], ◌∷◌, ◌++◌, arith, ◌==◌}
use tauos.Llist.{Ptr, Mem, remove}
use tauos.Llist.Links.{has, has-append, Unique, Links, IsRing, Links-frame}

Unique-drop :
    (xs : List Ptr) (node : Ptr) (ys : List Ptr) → Unique (xs ++ node ∷ ys) → Unique (xs ++ ys)
Unique-drop [] node ys u = u.1
Unique-drop (x ∷ xs) node ys u =
    (ground (arith, has-append x xs (node ∷ ys), has-append x xs ys), Unique-drop xs node ys u.1)

module _ {A : Type 0} where
  -- The neighbours of a node lie in the list that it is in.
  pub prev-mem :
      (m : Mem A) (p : Ptr) (xs : List Ptr) (node : Ptr) (ys : List Ptr) (q : Ptr)
      → Links m p (xs ++ node ∷ ys) q
      → has (m node).prev (p ∷ xs) ≡ true
  prev-mem m p [] node ys q l = ground arith
  prev-mem m p (x ∷ xs) node ys q l = ground (arith, prev-mem m x xs node ys q l.2)

  pub next-mem :
      (m : Mem A) (p : Ptr) (xs : List Ptr) (node : Ptr) (ys : List Ptr) (q : Ptr)
      → Links m p (xs ++ node ∷ ys) q
      → has (m node).next (q ∷ ys) ≡ true
  next-mem m p [] node [] q l = ground arith
  next-mem m p [] node (y ∷ ys) q l = ground arith
  next-mem m p (x ∷ xs) node ys q l = next-mem m x xs node ys q l.2

  remove_first :
      (m : Mem A) (p node : Ptr) (ys : List Ptr) (q : Ptr)
      → Links m p (node ∷ ys) q
      → has node ys ≡ false
      → (node == p) ≡ false
      → (node == q) ≡ false
      → has p ys ≡ false
      → has q ys ≡ false
      → Unique ys
      → Links (remove m node) p ys q
  unfolding remove
  remove_first m p node [] q l a b c d e u = ground arith
  remove_first m p node (y ∷ ys) q l a b c d e u = (
    ground arith,
    ground arith,
    Links-frame m (remove m node) y ys q (λ z h. ground arith) (ground arith) (ground arith) l.2.2,
  )

  -- Outside the node and its two neighbours memory is as it was; of the neighbours one pointer changes.
  pub remove_frame :
      (m : Mem A) (node a : Ptr)
      → (a == node) ≡ false
      → (a == (m node).prev) ≡ false
      → (a == (m node).next) ≡ false
      → remove m node a ≡ m a
  unfolding remove
  remove_frame m node a h i j = ground arith

  remove_next_frame :
      (m : Mem A) (node a : Ptr)
      → (a == node) ≡ false
      → (a == (m node).prev) ≡ false
      → (remove m node a).next ≡ (m a).next
  unfolding remove
  remove_next_frame m node a h i = ground arith

  remove_prev_frame :
      (m : Mem A) (node a : Ptr)
      → (a == node) ≡ false
      → (a == (m node).next) ≡ false
      → (remove m node a).prev ≡ (m a).prev
  unfolding remove
  remove_prev_frame m node a h i = ground arith

  remove-Links :
      (m : Mem A) (p : Ptr) (xs : List Ptr) (node : Ptr) (ys : List Ptr) (q : Ptr)
      → Links m p (xs ++ node ∷ ys) q
      → Unique (xs ++ node ∷ ys)
      → has p (xs ++ node ∷ ys) ≡ false
      → has q (xs ++ node ∷ ys) ≡ false
      → Links (remove m node) p (xs ++ ys) q
  remove-Links m p [] node ys q l u fp fq =
      remove_first m p node ys q l u.0 (ground arith) (ground arith) (ground arith) (ground arith)
        u.1
  remove-Links m p (x ∷ xs) node ys q l u fp fq =
      let pm = prev-mem m x xs node ys q l.2 in
      let nm = next-mem m x xs node ys q l.2 in
      let hp = has-append p xs (node ∷ ys) in
      let hq = has-append q xs (node ∷ ys) in
      let hx = has-append x xs (node ∷ ys) in
      (
        ground (arith, remove_next_frame m node p),
        ground (arith, remove_prev_frame m node x),
        remove-Links m x xs node ys q l.2 u.1 u.0 (ground arith),
      )

  -- remove of any node of a circular list leaves the circular list of the other nodes in their
  -- order, with both directions of links consistent.
  pub remove-IsRing :
      (m : Mem A) (s : Ptr) (xs : List Ptr) (node : Ptr) (ys : List Ptr)
      → IsRing m s (xs ++ node ∷ ys)
      → IsRing (remove m node) s (xs ++ ys)
  remove-IsRing m s xs node ys r = record {
    links = remove-Links m s xs node ys s r.links r.unique r.fresh r.fresh;
    fresh = ground (arith, r.fresh, has-append s xs (node ∷ ys), has-append s xs ys);
    unique = Unique-drop xs node ys r.unique;
  }

  -- A list with no node in common is not touched by `remove`.
  pub remove_other :
      (m : Mem A) (s : Ptr) (xs : List Ptr) (node : Ptr) (ys : List Ptr) (a : Ptr)
      → IsRing m s (xs ++ node ∷ ys)
      → has a (s ∷ xs ++ node ∷ ys) ≡ false
      → remove m node a ≡ m a
  remove_other m s xs node ys a r out = ground (
    arith,
    prev-mem m s xs node ys s r.links,
    next-mem m s xs node ys s r.links,
    has-append a xs (node ∷ ys),
    remove_frame m node a,
  )
