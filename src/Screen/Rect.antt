-- ===== src/Screen/Rect.antt =====
-- Rectangles inside the frame buffer: what filling, copying and drawing leave at every pixel.
use tauos.Base.{
  ℕ, ◌+◌, ◌-◌, ◌*◌, ◌^◌, ◌≤◌, ◌<◌, ◌≡◌, ◌≢◌, ap₂, ◌⊎◌, inl, inr, refl, sym, ap, ◌∙◌, arith, Bool,
  true, false, Bool-cases, some, ltb, leb, ◌&&◌, if◌then◌else◌,
}
use tauos.Bits.{add64}
use tauos.Screen.{
  Pixel, Bytes, get, FrameBuffer, with_buffer, for_pixels, offset, Color, color_to_pixel, fill_rect,
  internal_blt,
}
use tauos.Screen.Pixels.{Apart, offset-lt, offset-Apart, get-put-Apart, get_eq}
use tauos.Screen.Paint.{for_pixels_outside, for_pixels_inside, Stable}

-- The rows hold their pixels, and the buffer fits in memory.
abbrev pub IsFrame : FrameBuffer → Type 0
IsFrame fb =
    (fb.width * 4 ≤ fb.stride)
    × ((fb.stride * fb.height ≤ 2 ^ 64) × ((fb.stride < 2 ^ 64) × (fb.height < 2 ^ 64)))

abbrev pub pixel_at : FrameBuffer → (col row : ℕ) → Pixel
pixel_at fb col row = get fb.buffer (offset col row fb.stride)

abbrev pub is_inside : (x y width height col row : ℕ) → Bool
is_inside x y width height col row =
    (leb x col && ltb col (x + width)) && (leb y row && ltb row (y + height))

module _ (fb : FrameBuffer) (frame : IsFrame fb) (x y width height : ℕ)
    (fits_x : x + width ≤ fb.width) (fits_y : y + height ≤ fb.height) where
  abbrev pub at : ℕ → ℕ → ℕ
  at row col = offset (add64 x col) (add64 y row) fb.stride

  pub at-eq :
      (row col : ℕ) → row < height → col < width → at row col ≡ offset (x + col) (y + row) fb.stride
  at-eq row col l k =
      let small_x : add64 x col ≡ x + col = omega (arith, frame.0, frame.1.1.0, fits_x) in
      let small_y : add64 y row ≡ y + row = omega (arith, frame.1.1.1, fits_y) in
      ap₂ (λ (a b : ℕ). offset a b fb.stride) small_x small_y

  at-Apart :
      (row col row' col' : ℕ)
      → row < height
      → col < width
      → row' < fb.height
      → col' < fb.width
      → (x + col ≢ col') ⊎ (y + row ≢ row')
      → Apart (at row col) (offset col' row' fb.stride)
  at-Apart row col row' col' a b c d n = rw (at-eq row col a b) (
      offset-Apart fb.width fb.height fb.stride frame.0 frame.1.0 (x + col) (y + row) col' row'
        (omega arith) (omega arith) d c n)

  module _ (value : ℕ → ℕ → Bytes → Pixel) where
    abbrev pub painted : Bytes
    painted = for_pixels height width at value fb.buffer

    pub painted_beyond : (i : ℕ) → fb.stride * fb.height ≤ i → painted i ≡ fb.buffer i
    painted_beyond i l = for_pixels_outside height width at value fb.buffer i (λ row col a b. inr (
        rw (at-eq row col a b) (
          omega (
            arith,
            offset-lt fb.width fb.height fb.stride frame.0 frame.1.0 (x + col) (y + row)
                (omega arith) (omega arith),
          ))))

    painted_outside :
        (row col : ℕ)
        → row < fb.height
        → col < fb.width
        → is_inside x y width height col row ≡ false
        → get painted (offset col row fb.stride) ≡ get fb.buffer (offset col row fb.stride)
    painted_outside row col a b out = get_eq painted fb.buffer (offset col row fb.stride) (λ i l k.
        for_pixels_outside height width at value fb.buffer i
          (λ r c a' b'. misses l k (at-Apart r c row col a' b' a b (ground arith))))
      where
        misses : {o p i : ℕ} → o ≤ i → i < o + 4 → Apart p o → (i < p) ⊎ (p + 4 ≤ i)
        misses l k (inl e) = inr (omega arith)
        misses l k (inr e) = inl (omega arith)

    module _ (stable : Stable height width at value) where
      painted_inside :
          (row col : ℕ)
          → row < height
          → col < width
          → get painted (offset (x + col) (y + row) fb.stride) ≡ value row col fb.buffer
      painted_inside row col a b =
          ap (λ (o : ℕ). get painted o) (sym (at-eq row col a b))
          ∙ for_pixels_inside height width at value distinct stable fb.buffer row col a b
        where
          distinct :
              (row col row' col' : ℕ)
              → row < height
              → col < width
              → row' < height
              → col' < width
              → (col ≢ col') ⊎ (row ≢ row')
              → Apart (at row col) (at row' col')
          distinct row col row' col' a b c d n = rw (at-eq row' col' c d) (
              at-Apart row col (y + row') (x + col') a b (omega arith) (omega arith) (ground arith))

      -- Every pixel of the frame.
      pub painted_lem :
          (row col : ℕ)
          → row < fb.height
          → col < fb.width
          → get painted (offset col row fb.stride) ≡ (
              if is_inside x y width height col row
              then value (row - y) (col - x) fb.buffer
              else get fb.buffer (offset col row fb.stride))
      painted_lem row col a b = elim (Bool-cases (is_inside x y width height col row)) [
        | inl e ↦
            let same_col : x + (col - x) ≡ col = ground arith in
            let same_row : y + (row - y) ≡ row = ground arith in
            rw e (
              ap₂ (λ (c r : ℕ). get painted (offset c r fb.stride)) (sym same_col) (sym same_row)
              ∙ painted_inside (row - y) (col - x) (ground arith) (ground arith))
        | inr e ↦ rw e (painted_outside row col a b e)
      ]

-- A rectangle inside the frame is filled with the color, and nothing else changes.
pub fill_rect_lem :
    (fb : FrameBuffer) (x y width height : ℕ) (color : Color)
    → IsFrame fb
    → x + width ≤ fb.width
    → y + height ≤ fb.height
    → (buffer : Bytes) × ((fill_rect fb x y width height color ≡ some (with_buffer fb buffer))
        × (((row col : ℕ)
              → row < fb.height
              → col < fb.width
              → get buffer (offset col row fb.stride) ≡ (
                  if is_inside x y width height col row
                  then color_to_pixel color fb.format
                  else pixel_at fb col row))
            × ((i : ℕ) → fb.stride * fb.height ≤ i → buffer i ≡ fb.buffer i)))
unfolding fill_rect
fill_rect_lem fb x y width height color frame l k =
    let value : ℕ → ℕ → Bytes → Pixel = λ row col m. color_to_pixel color fb.format in
    let rows : add64 y height - y ≡ height = omega (arith, frame.1.1.1) in
    let ok_x : leb (add64 x width) fb.width ≡ true = ground (arith, frame.0, frame.1.1.0) in
    let ok_y : leb (add64 y height) fb.height ≡ true = ground (arith, frame.1.1.1) in
    (
      painted fb frame x y width height l k value,
      (
        rw (ok_x, ok_y, rows) refl,
        (
          painted_lem fb frame x y width height l k value (λ _ _ _ _ _ _ _ _ _ _. refl),
          painted_beyond fb frame x y width height l k value,
        ),
      ),
    )

-- A rectangle that is copied upwards, both places inside the frame, arrives whole, and nothing else
-- changes.
pub internal_blt_lem :
    (fb : FrameBuffer) (src_x src_y width height dst_x dst_y : ℕ)
    → IsFrame fb
    → dst_y < src_y
    → src_x + width ≤ fb.width
    → src_y + height ≤ fb.height
    → dst_x + width ≤ fb.width
    → ((row col : ℕ)
        → row < fb.height
        → col < fb.width
        → pixel_at (internal_blt fb src_x src_y width height dst_x dst_y) col row ≡ (
            if is_inside dst_x dst_y width height col row
            then pixel_at fb (src_x + (col - dst_x)) (src_y + (row - dst_y))
            else pixel_at fb col row))
      × ((i : ℕ)
          → fb.stride * fb.height ≤ i
          → (internal_blt fb src_x src_y width height dst_x dst_y).buffer i ≡ fb.buffer i)
unfolding internal_blt
internal_blt_lem fb src_x src_y width height dst_x dst_y frame up sx sy dx =
    let value : ℕ → ℕ → Bytes → Pixel =
      λ row col m. get m (offset (add64 src_x col) (add64 src_y row) fb.stride) in
    let dy : dst_y + height ≤ fb.height = omega arith in
    let stable : Stable height width (at fb frame dst_x dst_y width height dx dy) value =
      λ row col row' col' m p a b c d. get-put-Apart m _ p _ (
        rw (at-eq fb frame dst_x dst_y width height dx dy row' col' (omega arith) d) (
          at-Apart fb frame src_x src_y width height sx sy row col (dst_y + row') (dst_x + col') a b
            (omega arith) (omega arith) (inr (omega arith)))) in
    (
      λ row col a b.
          painted_lem fb frame dst_x dst_y width height dx dy value stable row col a b
          ∙ elim (Bool-cases (is_inside dst_x dst_y width height col row)) [
            | inl e ↦ rw e (
                ap (λ (o : ℕ). get fb.buffer o)
                  (at-eq fb frame src_x src_y width height sx sy (row - dst_y) (col - dst_x)
                    (ground arith) (ground arith)))
            | inr e ↦ rw e refl
          ],
      painted_beyond fb frame dst_x dst_y width height dx dy value,
    )
