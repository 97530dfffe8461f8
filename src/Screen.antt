-- ===== src/Screen.antt =====
-- kernel/src/out/framebuffer.rs: the frame buffer. Its bytes are a function from the offset to the
-- byte; an access is not checked against the buffer's end, as in the code.
pub mod Pixels
pub mod Paint
pub mod Rect
pub mod Bitmap
use tauos.Base.{
  ℕ, zero, suc, ◌+◌, ◌-◌, ◌*◌, ◌/◌, ◌%◌, ◌^◌, bit_and, Bool, Option, some, none, ◌==◌, ◌!=◌, ◌&&◌,
  leb, if◌then◌else◌,
}
use tauos.Bits.{add64, sub64, wrap}

pub data PixelFormat : Type 0 where
  rgba bgra argb abgr : PixelFormat

pub record Color : Type 0 where
  pub red : ℕ
  pub green : ℕ
  pub blue : ℕ
  pub alpha : ℕ

abbrev pub white : Color
white = record { red = 255; green = 255; blue = 255; alpha = 255 }

abbrev pub black : Color
black = record { red = 0; green = 0; blue = 0; alpha = 0 }

-- `[u8; 4]`
pub record Pixel : Type 0 where
  pub b0 : ℕ
  pub b1 : ℕ
  pub b2 : ℕ
  pub b3 : ℕ

abbrev pub pixel : ℕ → ℕ → ℕ → ℕ → Pixel
pixel a b c d = record { b0 = a; b1 = b; b2 = c; b3 = d }

unfoldable pub color_to_pixel : Color → PixelFormat → Pixel
color_to_pixel c rgba = pixel c.red c.green c.blue c.alpha
color_to_pixel c bgra = pixel c.blue c.green c.red c.alpha
color_to_pixel c argb = pixel c.alpha c.red c.green c.blue
color_to_pixel c abgr = pixel c.alpha c.blue c.green c.red

abbrev pub Bytes : Type 0
Bytes = ℕ → ℕ

-- `ptr.cast::<[u8; 4]>().read()`
abbrev pub get : Bytes → ℕ → Pixel
get m o = pixel (m o) (m (o + 1)) (m (o + 2)) (m (o + 3))

-- `ptr.cast::<[u8; 4]>().write(p)`
unfoldable pub put : Bytes → ℕ → Pixel → Bytes
put m o p i =
    if i == o
    then p.b0
    else if i == o + 1
    then p.b1
    else if i == o + 2
    then p.b2
    else if i == o + 3
    then p.b3
    else m i

pub record FrameBuffer : Type 0 where
  pub buffer : Bytes
  pub width : ℕ
  pub height : ℕ
  pub stride : ℕ
  pub format : PixelFormat

-- The frame with other contents.
abbrev pub with_buffer : FrameBuffer → Bytes → FrameBuffer
with_buffer fb buffer = record {
  buffer = buffer;
  width = fb.width;
  height = fb.height;
  stride = fb.stride;
  format = fb.format;
}

-- `for i in 0..n`
unfoldable pub for_range : {A : Type 0} → (n : ℕ) → (ℕ → A → A) → A → A
for_range zero f m = m
for_range (suc n) f m = f n (for_range n f m)

-- `for row in 0..height { for col in 0..width { .. } }` with one write in the body
unfoldable pub for_pixels :
    (height width : ℕ) → (at : ℕ → ℕ → ℕ) → (value : ℕ → ℕ → Bytes → Pixel) → Bytes → Bytes
for_pixels height width at value =
    for_range height (λ row. for_range width (λ col m. put m (at row col) (value row col m)))

-- `col * 4 + row * stride`
abbrev pub offset : (col row stride : ℕ) → ℕ
offset col row stride = add64 (wrap (col * 4)) (wrap (row * stride))

unfoldable pub blt : FrameBuffer → (src : Bytes) (width height stride dst_x dst_y : ℕ) → FrameBuffer
blt fb src width height stride dst_x dst_y = with_buffer fb (
    for_pixels height width (λ row col. offset (add64 dst_x col) (add64 dst_y row) fb.stride)
      (λ row col m. get src (offset col row stride)) fb.buffer)

unfoldable pub internal_blt : FrameBuffer → (src_x src_y width height dst_x dst_y : ℕ) → FrameBuffer
internal_blt fb src_x src_y width height dst_x dst_y = with_buffer fb (
    for_pixels height width (λ row col. offset (add64 dst_x col) (add64 dst_y row) fb.stride)
      (λ row col m. get m (offset (add64 src_x col) (add64 src_y row) fb.stride)) fb.buffer)

-- `none` is a failed assertion.
unfoldable pub write_bitmap :
    FrameBuffer
    → (src : Bytes) (src_len start width height stride dst_x dst_y : ℕ)
      (dst_zero_color dst_one_color : Color)
    → Option FrameBuffer
write_bitmap fb src src_len start width height stride dst_x dst_y dst_zero_color dst_one_color =
    if leb (sub64 (add64 start (wrap (stride * height))) (sub64 stride width)) (wrap (src_len * 8))
      && leb (add64 dst_x (width / 8)) fb.width
      && leb (add64 dst_y height) fb.height
    then some (
        with_buffer fb (
          for_pixels height width (λ row col. offset (add64 dst_x col) (add64 dst_y row) fb.stride)
            (λ row col m.
              let bit_offset = add64 col start in
              if bit_and (src (add64 bit_offset (wrap (row * stride)) / 8))
                  (2 ^ (7 - bit_offset % 8))
                != 0
              then color_to_pixel dst_one_color fb.format
              else color_to_pixel dst_zero_color fb.format)
            fb.buffer))
    else none

unfoldable pub fill_rect : FrameBuffer → (x y width height : ℕ) → Color → Option FrameBuffer
fill_rect fb x y width height color =
    if leb (add64 x width) fb.width && leb (add64 y height) fb.height
    then some (
        with_buffer fb (
          for_pixels (add64 y height - y) width
            (λ row col. offset (add64 x col) (add64 y row) fb.stride)
            (λ row col m. color_to_pixel color fb.format) fb.buffer))
    else none
