-- ===== src/Llist/Links.antt =====
-- What a circular list stands for: the nodes between the sentinel and itself, in order.
use mathlib.Core.Bool.{or_assoc, false≢true}
use tauos.Base.{
  ◌≡◌, refl, Bool, true, false, ◌||◌, List, [], ◌∷◌, ◌++◌, arith, ◌==◌, Bool-cases, inl, inr,
}
use tauos.Llist.{Ptr, Mem}

abbrev pub has : Ptr → List Ptr → Bool
has a [] = false
has a (x ∷ xs) = (a == x) || has a xs

abbrev pub Unique : List Ptr → Type 0
Unique [] = Unit {0}
Unique (x ∷ xs) = (has x xs ≡ false) × Unique xs

pub has-append : (a : Ptr) (xs ys : List Ptr) → has a (xs ++ ys) ≡ (has a xs || has a ys)
has-append a [] ys = refl
has-append a (x ∷ xs) ys = rw (has-append a xs ys, or_assoc)

pub Unique-apart :
    (xs ys : List Ptr) (a : Ptr) → Unique (xs ++ ys) → has a xs ≡ true → has a ys ≡ false
Unique-apart [] ys a u h = absurd (false≢true h)
Unique-apart (x ∷ xs) ys a u h = elim (Bool-cases (a == x)) [
  | inl e ↦ ground (arith, has-append x xs ys)
  | inr ne ↦ Unique-apart xs ys a u.1 (ground arith)
]

module _ {A : Type 0} where
  -- From `p` the `next` pointers lead through `xs` to `q`, and the `prev` pointers back.
  abbrev pub Links : Mem A → Ptr → List Ptr → Ptr → Type 0
  Links m p [] q = ((m p).next ≡ q) × ((m q).prev ≡ p)
  Links m p (x ∷ xs) q = ((m p).next ≡ x) × ((m x).prev ≡ p) × Links m x xs q

  -- `s` is the sentinel of a list of the distinct nodes `xs`.
  pub record IsRing (m : Mem A) (s : Ptr) (xs : List Ptr) : Type 0 where
    pub links : Links m s xs s
    pub fresh : has s xs ≡ false
    pub unique : Unique xs

  -- A segment survives any change that spares its nodes and the two outer pointers.
  pub Links-frame :
      (m g : Mem A) (p : Ptr) (xs : List Ptr) (q : Ptr)
      → ((a : Ptr) → has a xs ≡ true → g a ≡ m a)
      → (g p).next ≡ (m p).next
      → (g q).prev ≡ (m q).prev
      → Links m p xs q
      → Links g p xs q
  Links-frame m g p [] q same ep eq l = ground arith
  Links-frame m g p (x ∷ xs) q same ep eq l =
      let sx : g x ≡ m x = same x (ground arith) in
      (
        ground arith,
        ground arith,
        Links-frame m g x xs q (λ a h. same a (ground arith)) (ground arith) eq l.2,
      )

  -- Two lists with no common node do not see writes to one another.
  pub IsRing-frame :
      (m g : Mem A) (s : Ptr) (xs : List Ptr)
      → ((a : Ptr) → has a (s ∷ xs) ≡ true → g a ≡ m a)
      → IsRing m s xs
      → IsRing g s xs
  IsRing-frame m g s xs same r =
      let es : g s ≡ m s = same s (ground arith) in
      record {
        links =
            Links-frame m g s xs s (λ a h. same a (ground arith)) (ground arith) (ground arith)
              r.links;
        fresh = r.fresh;
        unique = r.unique;
      }

  pub Links-split :
      (m : Mem A) (p : Ptr) (xs : List Ptr) (y : Ptr) (ys : List Ptr) (q : Ptr)
      → Links m p (xs ++ y ∷ ys) q
      → Links m p xs y × Links m y ys q
  Links-split m p [] y ys q l = ((l.0, l.1), l.2)
  Links-split m p (x ∷ xs) y ys q l =
      let (front, back) = Links-split m x xs y ys q l.2 in ((l.0, l.1, front), back)

  pub Links-join :
      (m : Mem A) (p : Ptr) (xs : List Ptr) (y : Ptr) (ys : List Ptr) (q : Ptr)
      → Links m p xs y
      → Links m y ys q
      → Links m p (xs ++ y ∷ ys) q
  Links-join m p [] y ys q front back = (front.0, front.1, back)
  Links-join m p (x ∷ xs) y ys q front back =
      (front.0, front.1, Links-join m x xs y ys q front.2 back)

  -- The node that ends a segment points back into it.
  pub end_prev-mem :
      (m : Mem A) (p : Ptr) (xs : List Ptr) (q : Ptr)
      → Links m p xs q
      → has (m q).prev (p ∷ xs) ≡ true
  end_prev-mem m p [] q l = ground arith
  end_prev-mem m p (x ∷ xs) q l = ground (arith, end_prev-mem m x xs q l.2)
