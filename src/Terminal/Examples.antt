-- ===== src/Terminal/Examples.antt =====
-- Uses of the theorems on the frame, the font and the terminal at given ones, and tests.
use tauos.Base.{
  ℕ, ◌+◌, ◌-◌, ◌*◌, ◌≤◌, ◌<◌, ◌≡◌, refl, arith, [], ◌∷◌, some, none, ltb, if◌then◌else◌,
}
use tauos.Screen.{
  rgba, Bytes, get, put, pixel, for_range, for_pixels, FrameBuffer, with_buffer, offset, white,
  black, color_to_pixel, fill_rect, write_bitmap,
}
use tauos.Screen.Rect.{pixel_at, is_inside, fill_rect_lem}
use tauos.Screen.Bitmap.{bit_at, write_bitmap_lem}
use tauos.Font.{PsfFontHeader, PsfFont, psf_font_magic, new}
use tauos.Font.Header.{encode, new-encode}
use tauos.Terminal.{Term1, new_line, write_str}
use tauos.Terminal.Scroll.{new_line_scroll}
use tauos.Terminal.Write.{IsReady, Succeeds, write_str-Succeeds, write_str_past_last}

-- Eight pixels by four.
abbrev frame : FrameBuffer
frame = record { buffer = λ i. 7; width = 8; height = 4; stride = 32; format = rgba }

-- One glyph of eight pixels by two.
abbrev header : PsfFontHeader
header = record {
  magic = psf_font_magic;
  version = 0;
  header_size = 32;
  flags = 0;
  glyph_count = 1;
  glyph_size = 2;
  height = 2;
  width = 8;
}

-- A font of two glyphs, and one that ends after the first.
abbrev font : PsfFont
font = record { header = header; bytes = encode header (255 ∷ 129 ∷ 1 ∷ 2 ∷ []) }

abbrev short_font : PsfFont
short_font = record { header = header; bytes = encode header (255 ∷ 129 ∷ []) }

abbrev terminal : Term1
terminal = record { fb = frame; font = font; char_col = 0 }

test_fill :
    pixel_at
      (with_buffer frame (for_pixels 1 1 (λ r c. 36) (λ r c m. pixel 1 2 3 4) frame.buffer))
      1
      1
    ≡ pixel 1 2 3 4
unfolding for_pixels for_range put
test_fill = refl

fill_rect_lem_example :
    (buffer : Bytes) × ((fill_rect frame 1 1 2 2 white ≡ some (with_buffer frame buffer))
      × (((row col : ℕ)
            → row < 4
            → col < 8
            → get buffer (offset col row 32) ≡ (
                if is_inside 1 1 2 2 col row
                then color_to_pixel white rgba
                else pixel_at frame col row))
          × ((i : ℕ) → 32 * 4 ≤ i → buffer i ≡ frame.buffer i)))
fill_rect_lem_example =
    fill_rect_lem frame 1 1 2 2 white (omega arith, (omega arith, (omega arith, omega arith)))
      (omega arith) (omega arith)

write_bitmap_lem_example :
    (buffer : Bytes) × ((write_bitmap frame (λ i. 129) 2 0 8 2 (8 * 1) 0 2 black white
        ≡ some (with_buffer frame buffer))
      × (((row col : ℕ)
            → row < 4
            → col < 8
            → get buffer (offset col row 32) ≡ (
                if is_inside 0 2 8 2 col row
                then color_to_pixel
                    (if bit_at (λ i. 129) (0 + (col - 0) + (row - 2) * (8 * 1))
                      then white
                      else black)
                    rgba
                else pixel_at frame col row))
          × ((i : ℕ) → 32 * 4 ≤ i → buffer i ≡ frame.buffer i)))
write_bitmap_lem_example =
    write_bitmap_lem frame (λ i. 129) 2 0 8 2 1 0 2 black white
      (omega arith, (omega arith, (omega arith, omega arith))) (omega arith) (omega arith)
      (omega arith) (omega arith) (omega arith) (omega arith) (omega arith)

new-encode_example : new (encode header (255 ∷ 129 ∷ [])) ≡ some short_font
new-encode_example = new-encode header (255 ∷ 129 ∷ []) refl

new_line_scroll_example :
    (buffer : Bytes) × ((new_line terminal
        ≡ some (record { fb = with_buffer frame buffer; font = font; char_col = 0 }))
      × (((row col : ℕ)
            → row < 4
            → col < 8
            → get buffer (offset col row 32) ≡ (
                if ltb row (4 - 2)
                then pixel_at frame col (row + 2)
                else color_to_pixel black rgba))
          × ((i : ℕ) → 32 * 4 ≤ i → buffer i ≡ frame.buffer i)))
new_line_scroll_example =
    new_line_scroll terminal (omega arith, (omega arith, (omega arith, omega arith))) (omega arith)
      (omega arith)

terminal-IsReady : IsReady terminal
terminal-IsReady = record {
  frame = (omega arith, (omega arith, (omega arith, omega arith)));
  some_height = omega arith;
  line_fits = omega arith;
  some_width = omega arith;
  char_fits = omega arith;
  cursor_fits = omega arith;
  glyphs = (omega arith, omega arith);
  glyph_rows = omega arith;
  glyph_small = omega arith;
}

-- A glyph, a character beyond the font, and a new line.
write_str-Succeeds_example : Succeeds terminal (write_str terminal (1 ∷ 900 ∷ 10 ∷ []))
write_str-Succeeds_example = write_str-Succeeds terminal (1 ∷ 900 ∷ 10 ∷ []) terminal-IsReady

write_str_past_last_example :
    write_str (record { fb = frame; font = short_font; char_col = 0 }) (1 ∷ []) ≡ none
write_str_past_last_example =
    write_str_past_last (record { fb = frame; font = short_font; char_col = 0 }) [] (omega arith)
      (omega arith) (omega arith) (omega arith) (omega arith) (omega arith)
