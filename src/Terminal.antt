-- ===== src/Terminal.antt =====
-- kernel/src/out/terminal.rs: the terminal on the frame buffer. Text is written on the lowest line;
-- a new line scrolls the frame. `none` is a panic.
pub mod Scroll
pub mod Write
pub mod Examples
use tauos.Base.{
  ℕ, ◌+◌, ◌-◌, ◌*◌, ◌%◌, ◌^◌, bit_and, List, [], ◌∷◌, length, get_or, Bool, true, false, Option,
  some, none, ◌==◌, ltb,
}
use tauos.Base.Partial.{◌>>=◌}
use tauos.Bits.{add64, sub64, wrap, not64}
use tauos.Screen.{FrameBuffer, with_buffer, internal_blt, fill_rect, write_bitmap, black, white}
use tauos.Font.{PsfFont, get_glyph}

pub record Term1 : Type 0 where
  pub fb : FrameBuffer
  pub font : PsfFont
  pub char_col : ℕ

unfoldable pub new_line : Term1 → Option Term1
new_line t = do
  let font_height = t.font.header.height
  let fb : FrameBuffer =
      internal_blt t.fb 0 font_height t.fb.width (sub64 t.fb.height font_height) 0 0
  filled ← fill_rect fb 0 (sub64 fb.height font_height) fb.width font_height black
  some (record { fb = filled; font = t.font; char_col = 0 })

-- The line that the character goes to.
unfoldable pub wrapped : Term1 → Option Term1
wrapped t = elim (ltb t.fb.width (wrap (add64 t.char_col 1 * t.font.header.width))) [
  | true ↦ new_line t
  | false ↦ some t
]

-- The character at the cursor, and the cursor after it.
unfoldable pub draw : ℕ → Term1 → Option Term1
draw c t = do
  let font_width = t.font.header.width
  let font_height = t.font.header.height
  glyph ← get_glyph t.font c
  drawn ←
      write_bitmap t.fb (λ i. get_or glyph i 0) (length glyph) 0 font_width font_height
        (bit_and (add64 font_width 7) (not64 7)) (wrap (t.char_col * font_width))
        (sub64 t.fb.height font_height) black white
  some (record { fb = drawn; font = t.font; char_col = add64 t.char_col 1 })

unfoldable pub write_char : Term1 → ℕ → Option Term1
write_char t c = elim (c == 10) [ true ↦ new_line t | false ↦ wrapped t >>= draw c ]

-- `Write::write_str`, on the characters of the text
unfoldable pub write_str : Term1 → List ℕ → Option Term1
write_str t [] = some t
write_str t (c ∷ s) =
    elim (ltb t.font.header.glyph_count c) [ true ↦ write_char t 0 | false ↦ write_char t c ]
    >>= λ t'. write_str t' s
