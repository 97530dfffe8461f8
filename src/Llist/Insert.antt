-- ===== src/Llist/Insert.antt =====
-- `new_llist` and `new`.
use tauos.Base.{◌≡◌, ◌≢◌, false, List, [], ◌∷◌, arith}
use tauos.Llist.{Ptr, Mem, new_llist, new}
use tauos.Llist.Links.{has, IsRing, Links-frame}

module _ {A : Type 0} where
  -- `new_llist` makes an empty list in place.
  pub new_llist-IsRing :
      (m : Mem A) (node : Ptr) (content : A) → IsRing (new_llist m node content) node []
  unfolding new_llist
  new_llist-IsRing m node content = ground arith

  -- The node of `new` differs from every other address that `new` leaves alone.
  pub new_frame :
      (m : Mem A) (node p q : Ptr) (content : A) (a : Ptr)
      → a ≢ node
      → a ≢ p
      → a ≢ q
      → new m node p q content a ≡ m a
  unfolding new
  new_frame m node p q content a h i j = ground arith

  -- new of a node that is not in the list, between the sentinel and its next node, gives the
  -- circular list with that node in front.
  pub new-cons :
      (m : Mem A) (node s : Ptr) (xs : List Ptr) (content : A)
      → IsRing m s xs
      → has node (s ∷ xs) ≡ false
      → IsRing (new m node s (m s).next content) s (node ∷ xs)
  unfolding new
  new-cons m node s [] content r out = ground arith
  new-cons m node s (x ∷ xs) content r out = record {
    links = (
      ground arith,
      ground arith,
      (
        ground arith,
        ground arith,
        Links-frame m (new m node s (m s).next content) x xs s (λ a h. ground arith) (ground arith)
            (ground arith) r.links.2,
      ),
    );
    fresh = ground arith;
    unique = (ground arith, r.unique);
  }
