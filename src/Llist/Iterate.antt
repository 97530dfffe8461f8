-- ===== src/Llist/Iterate.antt =====
-- The iterator over a circular list, from the front and from the back.
use mathlib.Core.Option
use mathlib.Core.List.{reverse-cons}
use tauos.Base.{
  ℕ, zero, suc, ◌<◌, ◌≡◌, refl, ap, ◌∙◌, Bool, true, false, List, [], ◌∷◌, ◌++◌, reverse, arith,
  ◌!=◌, Option, none, some, length, length-append,
}
use tauos.Llist.{Ptr, Mem, IterMut, iter_mut, iter_next, iter_next_back}
use tauos.Llist.Links.{has, has-append, Unique, Links, IsRing, Links-join, end_prev-mem}

abbrev iter : Ptr → Ptr → Bool → IterMut
iter p q b = record { forward = p; backward = q; ongoing = b }

has-reverse : (a : Ptr) (xs : List Ptr) → has a (reverse xs) ≡ has a xs
has-reverse a [] = refl
has-reverse a (x ∷ xs) =
    ground
      (arith, ap (has a) (reverse-cons x xs), has-append a (reverse xs) (x ∷ []), has-reverse a xs)

Unique-snoc : (xs : List Ptr) (x : Ptr) → Unique xs → has x xs ≡ false → Unique (xs ++ x ∷ [])
Unique-snoc [] x u h = (refl, tt)
Unique-snoc (y ∷ ys) x u h =
    (ground (arith, has-append y ys (x ∷ [])), Unique-snoc ys x u.1 (ground arith))

Unique-reverse : (xs : List Ptr) → Unique xs → Unique (reverse xs)
Unique-reverse [] u = tt
Unique-reverse (x ∷ xs) u =
    rw reverse-cons (Unique-snoc (reverse xs) x (Unique-reverse xs u.1) (rw has-reverse u.0))

length-reverse : (xs : List Ptr) → length (reverse xs) ≡ length xs
length-reverse [] = refl
length-reverse (x ∷ xs) = omega (
  arith,
  ap (length {A = Ptr}) (reverse-cons x xs),
  length-append {0} (reverse xs) (x ∷ []),
  length-reverse xs,
)

module _ {A : Type 0} where
  -- A `for` loop over the iterator: what it yields, or `none` when the fuel runs out.
  pub collect : ℕ → Mem A → IterMut → Option (List Ptr)
  collect zero m it = none
  collect (suc f) m it =
      let (item, it') = iter_next m it in
      elim item [ none ↦ some [] | some p ↦ Option.map (λ ps. p ∷ ps) (collect f m it') ]

  -- The same over `.rev()`.
  pub collect_back : ℕ → Mem A → IterMut → Option (List Ptr)
  collect_back zero m it = none
  collect_back (suc f) m it =
      let (item, it') = iter_next_back m it in
      elim item [ none ↦ some [] | some p ↦ Option.map (λ ps. p ∷ ps) (collect_back f m it') ]

  collect_more :
      (f : ℕ) (m : Mem A) (p q : Ptr)
      → collect (suc f) m (iter p q true)
        ≡ Option.map (λ ps. p ∷ ps) (collect f m (iter (m p).next q (p != q)))
  unfolding collect iter_next
  collect_more f m p q = refl

  collect_end : (f : ℕ) (m : Mem A) (p q : Ptr) → collect (suc f) m (iter p q false) ≡ some []
  unfolding collect iter_next
  collect_end f m p q = refl

  collect_from :
      (f : ℕ) (m : Mem A) (x : Ptr) (xs : List Ptr) (s : Ptr)
      → Links m x xs s
      → Unique (x ∷ xs)
      → suc (length xs) < f
      → collect f m (iter x (m s).prev true) ≡ some (x ∷ xs)
  collect_from zero m x xs s l u h = absurd (omega arith)
  collect_from (suc zero) m x xs s l u h = absurd (omega arith)
  collect_from (suc (suc f)) m x [] s l u h =
      let e : (x != (m s).prev) ≡ false = ground arith in rw (collect_more, e, collect_end)
  collect_from (suc (suc f)) m x (y ∷ ys) s l u h =
      let e : (x != (m s).prev) ≡ true = ground (arith, end_prev-mem m y ys s l.2) in
      rw (collect_more, e, l.0, collect_from (suc f) m y ys s l.2 u.1 (omega arith))

  -- Calling next until it gives none, with more steps allowed than the list has nodes, yields the
  -- nodes of a circular list in order, without the sentinel.
  pub collect-IsRing :
      (f : ℕ) (m : Mem A) (s : Ptr) (xs : List Ptr)
      → IsRing m s xs
      → length xs < f
      → collect f m (iter_mut m s) ≡ some xs
  unfolding iter_mut
  collect-IsRing zero m s xs r h = absurd (omega arith)
  collect-IsRing (suc f) m s [] r h =
      let e : (s != (m s).next) ≡ false = ground arith in rw (e, collect_end)
  collect-IsRing (suc f) m s (x ∷ xs) r h =
      let e : (s != (m s).next) ≡ true = ground arith in
      rw (e, r.links.0, collect_from (suc f) m x xs s r.links.2 r.unique h)

  -- The memory with the two directions exchanged.
  abbrev flip : Mem A → Mem A
  flip m a = record { content = (m a).content; next = (m a).prev; prev = (m a).next }

  collect_back-flip :
      (f : ℕ) (m : Mem A) (p q : Ptr) (b : Bool)
      → collect_back f m (iter p q b) ≡ collect f (flip m) (iter q p b)
  unfolding collect collect_back iter_next iter_next_back
  collect_back-flip zero m p q b = refl
  collect_back-flip (suc f) m p q false = refl
  collect_back-flip (suc f) m p q true =
      let e : (p != q) ≡ (q != p) = ground arith in
      ap (Option.map (λ ps. q ∷ ps)) (collect_back-flip f m p (m q).prev (p != q) ∙ rw e)

  Links-reverse :
      (m : Mem A) (p : Ptr) (xs : List Ptr) (q : Ptr)
      → Links m p xs q
      → Links (flip m) q (reverse xs) p
  Links-reverse m p [] q l = (l.1, l.0)
  Links-reverse m p (x ∷ xs) q l =
      rw reverse-cons
        (Links-join (flip m) q (reverse xs) x [] p (Links-reverse m x xs q l.2) (l.1, l.0))

  flip-IsRing :
      (m : Mem A) (s : Ptr) (xs : List Ptr) → IsRing m s xs → IsRing (flip m) s (reverse xs)
  flip-IsRing m s xs r = record {
    links = Links-reverse m s xs s r.links;
    fresh = rw has-reverse r.fresh;
    unique = Unique-reverse xs r.unique;
  }

  iter_mut-flip :
      (m : Mem A) (s : Ptr) (xs : List Ptr) → IsRing m s xs → (s != (m s).next) ≡ (s != (m s).prev)
  iter_mut-flip m s [] r = ground arith
  iter_mut-flip m s (x ∷ xs) r = ground (arith, end_prev-mem m x xs s r.links.2)

  -- Calling next_back until it gives none, with more steps allowed than the list has nodes, yields
  -- the nodes of a circular list in reverse order, without the sentinel.
  pub collect_back-IsRing :
      (f : ℕ) (m : Mem A) (s : Ptr) (xs : List Ptr)
      → IsRing m s xs
      → length xs < f
      → collect_back f m (iter_mut m s) ≡ some (reverse xs)
  collect_back-IsRing f m s xs r h =
      let forth =
        collect-IsRing f (flip m) s (reverse xs) (flip-IsRing m s xs r) (rw length-reverse h) in
      unfold iter_mut in rw (collect_back-flip, iter_mut-flip m s xs r) forth
