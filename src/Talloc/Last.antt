-- ===== src/Talloc/Last.antt =====
-- How `remove_block` and `remove_block_next` see that a block is the last of its list.
use tauos.Base.{◌≡◌, refl, Bool, true, false, List, [], ◌∷◌, ◌++◌, arith, ◌==◌, if◌then◌else◌}
use tauos.Llist.{Ptr, Mem}
use tauos.Llist.Links.{has, has-append, Unique, IsRing, Links-split, end_prev-mem, Unique-apart}
use tauos.Llist.Remove.{next-mem}
use tauos.Talloc.Books.{occupied}

abbrev pub is_empty : List Ptr → Bool
is_empty [] = true
is_empty (x ∷ xs) = false

pub empty-occupied : (xs : List Ptr) → occupied xs ≡ (if is_empty xs then 0 else 1)
empty-occupied [] = refl
empty-occupied (x ∷ xs) = refl

pub occupied-mid : (xs : List Ptr) (b : Ptr) (ys : List Ptr) → occupied (xs ++ b ∷ ys) ≡ 1
occupied-mid [] b ys = refl
occupied-mid (x ∷ xs) b ys = refl

module _ {A : Type 0} (m : Mem A) (s : Ptr) where
  -- The test `(*node).prev == (*node).next` finds out whether the node is the only one.
  pub last-eq-empty :
      (xs : List Ptr) (b : Ptr) (ys : List Ptr)
      → IsRing m s (xs ++ b ∷ ys)
      → ((m b).prev == (m b).next) ≡ is_empty (xs ++ ys)
  last-eq-empty [] b [] r = ground arith
  last-eq-empty [] b (y ∷ ys) r = ground arith
  last-eq-empty (x ∷ xs) b ys r = ground (
    arith,
    end_prev-mem m x xs b (Links-split m x xs b ys s r.links.2).0,
    next-mem m s (x ∷ xs) b ys s r.links,
    Unique-apart (x ∷ xs) (b ∷ ys) (m b).prev r.unique,
    has-append s (x ∷ xs) (b ∷ ys),
  )

  -- So does the same test at the sentinel.
  pub sentinel-eq-empty :
      (b : Ptr) (ys : List Ptr) → IsRing m s (b ∷ ys) → ((m s).prev == (m s).next) ≡ is_empty ys
  sentinel-eq-empty b [] r = ground arith
  sentinel-eq-empty b (y ∷ ys) r = ground (arith, end_prev-mem m y ys s r.links.2.2)

pub Unique-tail :
    (xs : List Ptr) (b : Ptr) (ys : List Ptr) → Unique (xs ++ b ∷ ys) → has b ys ≡ false
Unique-tail [] b ys u = u.0
Unique-tail (x ∷ xs) b ys u = Unique-tail xs b ys u.1
