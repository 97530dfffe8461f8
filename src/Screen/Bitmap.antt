-- ===== src/Screen/Bitmap.antt =====
-- Drawing a bitmap: every pixel of its rectangle shows its bit.
use tauos.Base.{
  ℕ, ◌+◌, ◌-◌, ◌*◌, ◌/◌, ◌%◌, ◌^◌, ◌≤◌, ◌<◌, ◌≡◌, refl, sym, ◌∙◌, arith, bit_and, Bool, true, false,
  Bool-cases, inl, inr, some, leb, ◌!=◌, if◌then◌else◌,
}
use native.Mathlib.Nat.{mul-le-mul_right, mul-le-mul_left, mul_left_comm, mul_comm}
use tauos.Bits.{add64, sub64, wrap}
use tauos.Screen.{
  Pixel, Bytes, get, FrameBuffer, with_buffer, offset, Color, color_to_pixel, write_bitmap,
}
use tauos.Screen.Rect.{IsFrame, pixel_at, is_inside, painted, painted_lem, painted_beyond}

-- Bit `n` of a bitmap, the highest bit of each byte first.
abbrev pub bit_at : Bytes → ℕ → Bool
bit_at src n = bit_and (src (n / 8)) (2 ^ (7 - n % 8)) != 0

choose :
    {A B : Type 0} (f : A → B) (a a' : A) (b : Bool)
    → (if b then f a else f a') ≡ f (if b then a else a')
choose f a a' true = refl
choose f a a' false = refl

-- A row begins at a byte.
row_byte : (n row k : ℕ) → (n + row * (8 * k)) % 8 ≡ n % 8
row_byte n row k =
    let e : row * (8 * k) ≡ 8 * (row * k) = mul_left_comm row 8 k in rw e (omega arith)

-- For a rectangle inside the frame and a bitmap whose rows are whole bytes and which holds all of
-- them, write_bitmap succeeds: every pixel of the rectangle has the color of its bit, counted from
-- the highest bit of each byte, every other pixel is unchanged, and so is every byte behind the
-- buffer.
pub write_bitmap_lem :
    (fb : FrameBuffer) (src : Bytes) (src_len start width height bytes_per_row dst_x dst_y : ℕ)
    (zero_color one_color : Color)
    → IsFrame fb
    → 0 < height
    → dst_x + width ≤ fb.width
    → dst_y + height ≤ fb.height
    → width ≤ 8 * bytes_per_row
    → start + 8 * bytes_per_row * height ≤ src_len * 8
    → src_len * 8 < 2 ^ 64
    → 8 * bytes_per_row < 2 ^ 64
    → (buffer : Bytes) × ((write_bitmap fb src src_len start width height
            (8 * bytes_per_row)
            dst_x
            dst_y
            zero_color
            one_color
          ≡ some (with_buffer fb buffer))
        × (((row col : ℕ)
              → row < fb.height
              → col < fb.width
              → get buffer (offset col row fb.stride) ≡ (
                  if is_inside dst_x dst_y width height col row
                  then color_to_pixel
                      (if bit_at src (start + (col - dst_x) + (row - dst_y) * (8 * bytes_per_row))
                        then one_color
                        else zero_color)
                      fb.format
                  else pixel_at fb col row))
            × ((i : ℕ) → fb.stride * fb.height ≤ i → buffer i ≡ fb.buffer i)))
unfolding write_bitmap
write_bitmap_lem fb src src_len start width height q x y zero_color one_color frame some_row l k w
      fits memory row_fits =
    let stride = 8 * q in
    let value : ℕ → ℕ → Bytes → Pixel = λ row col m.
      let bit_offset = add64 col start in
      if bit_and (src (add64 bit_offset (wrap (row * stride)) / 8)) (2 ^ (7 - bit_offset % 8)) != 0
      then color_to_pixel one_color fb.format
      else color_to_pixel zero_color fb.format in
    let whole : stride ≤ stride * height =
      omega (arith, mul-le-mul_left {m = 1} {n = height} stride some_row) in
    let ok_src : leb (sub64 (add64 start (wrap (stride * height))) (sub64 stride width))
          (wrap (src_len * 8))
        ≡ true =
      ground (arith, whole) in
    let ok_x : leb (add64 x (width / 8)) fb.width ≡ true = ground (arith, frame.0, frame.1.1.0) in
    let ok_y : leb (add64 y height) fb.height ≡ true = ground (arith, frame.1.1.1) in
    let bit : (row col : ℕ)
        → row < height
        → col < width
        → value row col fb.buffer
          ≡ color_to_pixel
              (if bit_at src (start + col + row * stride) then one_color else zero_color)
              fb.format =
      λ row col a b.
        let last : row * stride + stride ≤ stride * height = omega (
          arith,
          mul-le-mul_right {m = row + 1} {n = height} stride (omega arith),
          mul_comm stride height,
        ) in
        let first : add64 col start ≡ start + col = omega (arith, whole, last) in
        let place : add64 (start + col) (wrap (row * stride)) ≡ start + col + row * stride =
          omega (arith, last) in
        rw (first, place, sym (row_byte (start + col) row q))
          (choose (λ (c : Color). color_to_pixel c fb.format) one_color zero_color
            (bit_at src (start + col + row * stride))) in
    (
      painted fb frame x y width height l k value,
      (
        rw (ok_src, ok_x, ok_y) refl,
        (
          λ row col a b.
              painted_lem fb frame x y width height l k value (λ _ _ _ _ _ _ _ _ _ _. refl) row col
                a b
              ∙ elim (Bool-cases (is_inside x y width height col row)) [
                | inl e ↦ rw e (bit (row - y) (col - x) (ground arith) (ground arith))
                | inr e ↦ rw e refl
              ],
          painted_beyond fb frame x y width height l k value,
        ),
      ),
    )
