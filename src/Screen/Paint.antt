-- ===== src/Screen/Paint.antt =====
-- Loops that write a rectangle of pixels: each pixel of the rectangle gets its value, and no other
-- byte changes.
use tauos.Base.{ℕ, zero, suc, ◌+◌, ◌≤◌, ◌<◌, ◌≡◌, ◌≢◌, ◌⊎◌, inl, inr, refl, sym, ap, ◌∙◌, arith}
use tauos.Screen.{Pixel, Bytes, get, put, for_range, for_pixels}
use tauos.Screen.Pixels.{Apart, put_outside, get-put_same, get-put-Apart}

by_last : (i n : ℕ) → i < suc n → (i < n) ⊎ (i ≡ n)
by_last i n l = ground arith

module _ (height width : ℕ) (at : ℕ → ℕ → ℕ) (value : ℕ → ℕ → Bytes → Pixel) where
  abbrev row_loop : (row n : ℕ) → Bytes → Bytes
  row_loop row n m = for_range n (λ col b. put b (at row col) (value row col b)) m

  abbrev rows_loop : ℕ → Bytes → Bytes
  rows_loop n m = for_range n (λ row. row_loop row width) m

  row_outside :
      (row n : ℕ) (m : Bytes) (i : ℕ)
      → ((col : ℕ) → col < n → (i < at row col) ⊎ (at row col + 4 ≤ i))
      → row_loop row n m i ≡ m i
  unfolding for_range
  row_outside row zero m i h = refl
  row_outside row (suc n) m i h =
      put_outside _ (at row n) _ i (h n (omega arith))
      ∙ row_outside row n m i (λ col l. h col (omega arith))

  rows_outside :
      (n : ℕ) (m : Bytes) (i : ℕ)
      → ((row col : ℕ) → row < n → col < width → (i < at row col) ⊎ (at row col + 4 ≤ i))
      → rows_loop n m i ≡ m i
  unfolding for_range
  rows_outside zero m i h = refl
  rows_outside (suc n) m i h =
      row_outside n width _ i (λ col. h n col (omega arith))
      ∙ rows_outside n m i (λ row col l. h row col (omega arith))

  pub for_pixels_outside :
      (m : Bytes) (i : ℕ)
      → ((row col : ℕ) → row < height → col < width → (i < at row col) ⊎ (at row col + 4 ≤ i))
      → for_pixels height width at value m i ≡ m i
  unfolding for_pixels
  for_pixels_outside m i h = rows_outside height m i h

  -- Two pixels of the rectangle do not meet.
  abbrev pub Distinct : Type 0
  Distinct =
      (row col row' col' : ℕ)
      → row < height
      → col < width
      → row' < height
      → col' < width
      → (col ≢ col') ⊎ (row ≢ row')
      → Apart (at row col) (at row' col')

  -- A value does not depend on what was written to its own row and those above it.
  abbrev pub Stable : Type 0
  Stable =
      (row col row' col' : ℕ) (m : Bytes) (p : Pixel)
      → row < height
      → col < width
      → row' ≤ row
      → col' < width
      → value row col (put m (at row' col') p) ≡ value row col m

  module _ (distinct : Distinct) (stable : Stable) where
    row_stable :
        (row col row' n : ℕ) (m : Bytes)
        → row < height
        → col < width
        → row' ≤ row
        → n ≤ width
        → value row col (row_loop row' n m) ≡ value row col m
    unfolding for_range
    row_stable row col row' zero m a b c d = refl
    row_stable row col row' (suc n) m a b c d =
        stable row col row' n _ _ a b c (omega arith)
        ∙ row_stable row col row' n m a b c (omega arith)

    rows_stable :
        (row col n : ℕ) (m : Bytes)
        → row < height
        → col < width
        → n ≤ suc row
        → value row col (rows_loop n m) ≡ value row col m
    unfolding for_range
    rows_stable row col zero m a b c = refl
    rows_stable row col (suc n) m a b c =
        row_stable row col n width _ a b (omega arith) (omega arith)
        ∙ rows_stable row col n m a b (omega arith)

    row_other :
        (row col row' n : ℕ) (m : Bytes)
        → row < height
        → col < width
        → row' < height
        → n ≤ width
        → row ≢ row'
        → get (row_loop row' n m) (at row col) ≡ get m (at row col)
    unfolding for_range
    row_other row col row' zero m a b c d e = refl
    row_other row col row' (suc n) m a b c d e =
        get-put-Apart _ (at row' n) _ (at row col)
          (distinct row col row' n a b c (omega arith) (inr e))
        ∙ row_other row col row' n m a b c (omega arith) e

    row_inside :
        (row col n : ℕ) (m : Bytes)
        → row < height
        → col < n
        → n ≤ width
        → get (row_loop row n m) (at row col) ≡ value row col m
    unfolding for_range
    row_inside row col zero m a b c = absurd (omega arith)
    row_inside row col (suc n) m a b c = elim (by_last col n b) [
      | inl l ↦
          get-put-Apart _ (at row n) _ (at row col)
            (distinct row col row n a (omega arith) a (omega arith) (inl (omega arith)))
          ∙ row_inside row col n m a l (omega arith)
      | inr e ↦
          ap (λ (k : ℕ). get (row_loop row (suc n) m) (at row k)) e
          ∙ get-put_same _ (at row n) _
          ∙ ap (λ (k : ℕ). value row k (row_loop row n m)) (sym e)
          ∙ row_stable row col row n m a (omega arith) (omega arith) (omega arith)
    ]

    rows_inside :
        (row col n : ℕ) (m : Bytes)
        → row < n
        → n ≤ height
        → col < width
        → get (rows_loop n m) (at row col) ≡ value row col m
    unfolding for_range
    rows_inside row col zero m a b c = absurd (omega arith)
    rows_inside row col (suc n) m a b c = elim (by_last row n a) [
      | inl l ↦
          row_other row col n width _ (omega arith) c (omega arith) (omega arith) (omega arith)
          ∙ rows_inside row col n m l (omega arith) c
      | inr e ↦
          ap (λ (k : ℕ). get (rows_loop (suc n) m) (at k col)) e
          ∙ row_inside n col width (rows_loop n m) (omega arith) c (omega arith)
          ∙ ap (λ (k : ℕ). value k col (rows_loop n m)) (sym e)
          ∙ rows_stable row col n m (omega arith) c (omega arith)
    ]

    pub for_pixels_inside :
        (m : Bytes) (row col : ℕ)
        → row < height
        → col < width
        → get (for_pixels height width at value m) (at row col) ≡ value row col m
    unfolding for_pixels
    for_pixels_inside m row col a b = rows_inside row col height m a (omega arith) b
