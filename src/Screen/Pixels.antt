-- ===== src/Screen/Pixels.antt =====
-- Reading a pixel after a write, and the offsets of pixels.
use tauos.Base.{ℕ, ◌+◌, ◌*◌, ◌^◌, ◌≤◌, ◌<◌, ◌≡◌, ◌≢◌, ◌⊎◌, inl, inr, arith, ◌==◌, if◌then◌else◌}
use native.Mathlib.Nat.{mul-le-mul_right, mul_comm}
use tauos.Screen.{Pixel, pixel, Bytes, get, put, offset}

-- The four bytes of one pixel do not meet those of the other.
abbrev pub Apart : (o p : ℕ) → Type 0
Apart o p = (o + 4 ≤ p) ⊎ (p + 4 ≤ o)

pub pixel_eq :
    {a b c d a' b' c' d' : ℕ}
    → a ≡ a'
    → b ≡ b'
    → c ≡ c'
    → d ≡ d'
    → pixel a b c d ≡ pixel a' b' c' d'
pixel_eq e f g h i = pixel (e i) (f i) (g i) (h i)

pub get_eq :
    (b b' : Bytes) (o : ℕ) → ((i : ℕ) → o ≤ i → i < o + 4 → b i ≡ b' i) → get b o ≡ get b' o
get_eq b b' o h =
    pixel_eq (h o (omega arith) (omega arith)) (h (o + 1) (omega arith) (omega arith))
      (h (o + 2) (omega arith) (omega arith)) (h (o + 3) (omega arith) (omega arith))

module _ (m : Bytes) (o : ℕ) (p : Pixel) where
  pub put_outside : (i : ℕ) → (i < o) ⊎ (o + 4 ≤ i) → put m o p i ≡ m i
  unfolding put
  put_outside i (inl l) = ground arith
  put_outside i (inr l) = ground arith

  put_at :
      (k : ℕ)
      → k < 4
      → put m o p (o + k)
        ≡ (if k == 0 then p.b0 else if k == 1 then p.b1 else if k == 2 then p.b2 else p.b3)
  unfolding put
  put_at k l = ground arith

  pub get-put_same : get (put m o p) o ≡ p
  unfolding put
  get-put_same = pixel_eq (ground arith) (ground arith) (ground arith) (ground arith)

  pub get-put-Apart : (q : ℕ) → Apart q o → get (put m o p) q ≡ get m q
  get-put-Apart q (inl l) = get_eq (put m o p) m q (λ i a b. put_outside i (inl (omega arith)))
  get-put-Apart q (inr l) = get_eq (put m o p) m q (λ i a b. put_outside i (inr (omega arith)))

-- Inside a buffer whose rows hold its pixels and which fits in memory, nothing wraps around.
module _ (width height stride : ℕ) (rows : width * 4 ≤ stride)
    (fits : stride * height ≤ 2 ^ 64) where
  rows_apart : (row row' : ℕ) → row < row' → row * stride + stride ≤ row' * stride
  rows_apart row row' l =
      omega (arith, mul-le-mul_right {m = row + 1} {n = row'} stride (omega arith))

  row_end : (row : ℕ) → row < height → row * stride + stride ≤ stride * height
  row_end row l = omega (arith, rows_apart row height l, mul_comm stride height)

  pub offset-eq :
      (col row : ℕ) → col < width → row < height → offset col row stride ≡ col * 4 + row * stride
  offset-eq col row k l = omega (arith, row_end row l)

  pub offset-lt :
      (col row : ℕ) → col < width → row < height → offset col row stride + 4 ≤ stride * height
  offset-lt col row k l = omega (arith, row_end row l, offset-eq col row k l)

  pub offset-Apart :
      (col row col' row' : ℕ)
      → col < width
      → row < height
      → col' < width
      → row' < height
      → (col ≢ col') ⊎ (row ≢ row')
      → Apart (offset col row stride) (offset col' row' stride)
  offset-Apart col row col' row' a b c d n =
      rw (offset-eq col row a b, offset-eq col' row' c d)
        (elim (by_order row row') [
          | inl l ↦ inl (omega (arith, rows_apart row row' l))
          | inr (inl l) ↦ inr (omega (arith, rows_apart row' row l))
          | inr (inr e) ↦ rw e (same_row row' n e)
        ])
    where
      by_order : (i j : ℕ) → (i < j) ⊎ ((j < i) ⊎ (i ≡ j))
      by_order i j = ground arith

      same_row :
          (r : ℕ)
          → (col ≢ col') ⊎ (row ≢ row')
          → row ≡ row'
          → Apart (col * 4 + r * stride) (col' * 4 + r * stride)
      same_row r (inl k) e = ground arith
      same_row r (inr k) e = absurd (k e)
