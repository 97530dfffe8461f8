-- ===== src/Terminal/Write.antt =====
-- Writing text ends, on a terminal whose font file has a glyph for every character that gets there.
use tauos.Base.{
  ℕ, ◌+◌, ◌-◌, ◌*◌, ◌/◌, ◌^◌, ◌≤◌, ◌<◌, ◌≡◌, refl, ◌∙◌, arith, bit_and, List, [], ◌∷◌, length,
  get_or, true, false, Bool-cases, inl, inr, Option, some, none, ltb, ◌==◌, ◌≢◌,
}
use native.Mathlib.Nat.{mul-le-mul_left}
use tauos.Bits.{add64, sub64, wrap, not64}
use tauos.Bits.Masks.{and_not_low}
use tauos.Screen.{Bytes, with_buffer, write_bitmap, black, white}
use tauos.Screen.Rect.{IsFrame}
use tauos.Screen.Bitmap.{write_bitmap_lem}
use tauos.Font.{PsfFont, get_glyph}
use tauos.Font.Header.{HasGlyphs, get_glyph_lem, get_glyph_beyond}
use tauos.Terminal.{Term1, new_line, wrapped, draw, write_char, write_str}
use tauos.Terminal.Scroll.{new_line_scroll}

-- The bytes that a row of a glyph takes.
abbrev pub row_bytes : PsfFont → ℕ
row_bytes font = (font.header.width + 7) / 8

-- A line of text with at least one character fits, the cursor is in it, and the font file has one
-- glyph more than its header counts, each of the size that its width and height ask for.
pub record IsReady (t : Term1) : Type 0 where
  pub frame : IsFrame t.fb
  pub some_height : 0 < t.font.header.height
  pub line_fits : t.font.header.height ≤ t.fb.height
  pub some_width : 0 < t.font.header.width
  pub char_fits : t.font.header.width ≤ t.fb.width
  pub cursor_fits : t.char_col * t.font.header.width ≤ t.fb.width
  pub glyphs : HasGlyphs (t.font.header.glyph_count + 1) t.font
  pub glyph_rows : 8 * row_bytes t.font * t.font.header.height ≤ t.font.header.glyph_size * 8
  pub glyph_small : t.font.header.glyph_size * 8 < 2 ^ 64

-- The terminal with other contents and another cursor.
abbrev pub moved : Term1 → Bytes → ℕ → Term1
moved t buffer col = record { fb = with_buffer t.fb buffer; font = t.font; char_col = col }

-- The step returns the terminal, ready again, with nothing changed but the bytes of the frame and
-- the cursor.
abbrev pub Succeeds : Term1 → Option Term1 → Type 0
Succeeds t r =
    (buffer : Bytes) × ((col : ℕ) × ((r ≡ some (moved t buffer col))
        × (IsReady (moved t buffer col)
            × ((i : ℕ) → t.fb.stride * t.fb.height ≤ i → buffer i ≡ t.fb.buffer i))))

row_stride : (w : ℕ) → w + 7 < 2 ^ 64 → bit_and (add64 w 7) (not64 7) ≡ 8 * ((w + 7) / 8)
row_stride w l =
    let e : add64 w 7 ≡ w + 7 = omega (arith, l) in
    rw e (and_not_low 3 (w + 7) (omega arith) l ∙ omega arith)

-- The steps of `draw` one after the other.
draw-eq :
    (t : Term1) (c : ℕ) (glyph : List ℕ) (buffer : Bytes) (x y stride next : ℕ)
    → get_glyph t.font c ≡ some glyph
    → wrap (t.char_col * t.font.header.width) ≡ x
    → sub64 t.fb.height t.font.header.height ≡ y
    → bit_and (add64 t.font.header.width 7) (not64 7) ≡ stride
    → add64 t.char_col 1 ≡ next
    → write_bitmap t.fb
        (λ i. get_or glyph i 0)
        (length glyph)
        0
        t.font.header.width
        t.font.header.height
        stride
        x
        y
        black
        white
      ≡ some (with_buffer t.fb buffer)
    → draw c t ≡ some (moved t buffer next)
unfolding draw
draw-eq t c glyph buffer x y stride next e f g h i j = rw (e, f, g, h, i, j) refl

module _ (t : Term1) (r : IsReady t) where
  IsReady-moved :
      (buffer : Bytes) (col : ℕ)
      → col * t.font.header.width ≤ t.fb.width
      → IsReady (moved t buffer col)
  IsReady-moved buffer col l = record {
    frame = r.frame;
    some_height = r.some_height;
    line_fits = r.line_fits;
    some_width = r.some_width;
    char_fits = r.char_fits;
    cursor_fits = l;
    glyphs = r.glyphs;
    glyph_rows = r.glyph_rows;
    glyph_small = r.glyph_small;
  }

  new_line-Succeeds : Succeeds t (new_line t)
  new_line-Succeeds =
      let scroll = new_line_scroll t r.frame r.some_height r.line_fits in
      (scroll.0, (0, (scroll.1.0, (IsReady-moved scroll.0 0 (omega arith), scroll.1.1.1))))

  -- A glyph of the file is drawn where the line still has room for it.
  draw-Succeeds :
      (c : ℕ)
      → c ≤ t.font.header.glyph_count
      → (t.char_col + 1) * t.font.header.width ≤ t.fb.width
      → Succeeds t (draw c t)
  draw-Succeeds c l room =
      let w = t.font.header.width in
      let h = t.font.header.height in
      let (glyph, (found, (_, size))) =
        get_glyph_lem t.font (t.font.header.glyph_count + 1) c r.glyphs (omega arith) in
      let cursor : t.char_col ≤ t.char_col * w =
        omega (arith, mul-le-mul_left {m = 1} {n = w} t.char_col r.some_width) in
      let narrow : t.fb.width < 2 ^ 62 = omega (arith, r.frame.0, r.frame.1.1.0) in
      let x : wrap (t.char_col * w) ≡ t.char_col * w = omega (arith, r.cursor_fits) in
      let y : sub64 t.fb.height h ≡ t.fb.height - h = omega (arith, r.line_fits, r.frame.1.1.1) in
      let next : add64 t.char_col 1 ≡ t.char_col + 1 = omega (arith, r.cursor_fits, cursor) in
      let stride = row_stride w (omega (arith, r.char_fits)) in
      let drawn =
        write_bitmap_lem t.fb (λ i. get_or glyph i 0) (length glyph) 0 w h (row_bytes t.font)
          (t.char_col * w) (t.fb.height - h) black white r.frame r.some_height (omega (arith, room))
          (omega (arith, r.line_fits)) (omega arith) (omega (arith, r.glyph_rows, size))
          (omega (arith, r.glyph_small, size)) (omega (arith, r.char_fits)) in
      (
        drawn.0,
        (
          t.char_col + 1,
          (
            draw-eq t c glyph drawn.0 (t.char_col * w) (t.fb.height - h) (8 * row_bytes t.font)
                (t.char_col + 1) found x y stride next drawn.1.0,
            (IsReady-moved drawn.0 (t.char_col + 1) room, drawn.1.1.1),
          ),
        ),
      )

  -- After a wrap the line has room for one more character.
  wrapped-Succeeds :
      (buffer : Bytes) × ((col : ℕ) × ((wrapped t ≡ some (moved t buffer col))
          × (((col + 1) * t.font.header.width ≤ t.fb.width)
              × ((i : ℕ) → t.fb.stride * t.fb.height ≤ i → buffer i ≡ t.fb.buffer i))))
  unfolding wrapped
  wrapped-Succeeds =
      let w = t.font.header.width in
      let cursor : t.char_col ≤ t.char_col * w =
        omega (arith, mul-le-mul_left {m = 1} {n = w} t.char_col r.some_width) in
      let narrow : t.fb.width < 2 ^ 62 = omega (arith, r.frame.0, r.frame.1.1.0) in
      let next : add64 t.char_col 1 ≡ t.char_col + 1 = omega (arith, cursor, r.cursor_fits) in
      let small : (t.char_col + 1) * w < 2 ^ 64 = omega (arith, r.cursor_fits, r.char_fits) in
      let same : wrap (add64 t.char_col 1 * w) ≡ (t.char_col + 1) * w =
        rw next (omega (arith, small)) in
      let scroll = new_line_scroll t r.frame r.some_height r.line_fits in
      elim (Bool-cases (ltb t.fb.width (wrap (add64 t.char_col 1 * w)))) [
        | inl e ↦ (
          scroll.0,
          (0, (rw (e, wrapped) scroll.1.0, (omega (arith, r.char_fits), scroll.1.1.1))),
        )
        | inr e ↦ (
          t.fb.buffer,
          (t.char_col, (rw (e, wrapped) refl, (ground (arith, e, same), λ i _. refl))),
        )
      ]

-- A step after a step.
Succeeds-after :
    (t : Term1) (buffer : Bytes) (col : ℕ) (r : Option Term1)
    → ((i : ℕ) → t.fb.stride * t.fb.height ≤ i → buffer i ≡ t.fb.buffer i)
    → Succeeds (moved t buffer col) r
    → Succeeds t r
Succeeds-after t buffer col r kept (b, (c, (e, (ready, kept')))) =
    (b, (c, (e, (ready, λ i l. kept' i l ∙ kept i l))))

write_char-Succeeds :
    (t : Term1) → IsReady t → (c : ℕ) → c ≤ t.font.header.glyph_count → Succeeds t (write_char t c)
unfolding write_char
write_char-Succeeds t r c l = elim (Bool-cases (c == 10)) [
  | inl e ↦ rw (e, write_char) (new_line-Succeeds t r)
  | inr e ↦
      let (buffer, (col, (same, (room, kept)))) = wrapped-Succeeds t r in
      let ready = IsReady-moved t r buffer col (omega (arith, room)) in
      rw (e, write_char, same)
        (Succeeds-after t buffer col _ kept (draw-Succeeds (moved t buffer col) ready c l room))
]

-- A character that the header does not count is replaced by the first one.
replaced-Succeeds :
    (t : Term1)
    → IsReady t
    → (c : ℕ)
    → Succeeds t
        (elim (ltb t.font.header.glyph_count c) [ true ↦ write_char t 0 | false ↦ write_char t c ])
replaced-Succeeds t r c = elim (Bool-cases (ltb t.font.header.glyph_count c)) [
  | inl e ↦ rw e (write_char-Succeeds t r 0 (omega arith))
  | inr e ↦ rw e (write_char-Succeeds t r c (ground arith))
]

-- On a terminal with room for a line and a character, whose font file has a glyph for one character
-- more than its header counts, each of the size that its width and height ask for, write_str of any
-- text ends without a panic: the terminal is again such a terminal, its font and dimensions are the
-- same, and no byte behind the frame buffer has changed.
pub write_str-Succeeds : (t : Term1) (s : List ℕ) → IsReady t → Succeeds t (write_str t s)
unfolding write_str
write_str-Succeeds t [] r = (t.fb.buffer, (t.char_col, (refl, (r, λ i _. refl))))
write_str-Succeeds t (c ∷ s) r =
    let (buffer, (col, (same, (ready, kept)))) = replaced-Succeeds t r c in
    rw (same, write_str)
      (Succeeds-after t buffer col _ kept (write_str-Succeeds (moved t buffer col) s ready))

-- When the font file ends before the glyph with the number of glyphs that the header counts, and
-- the line has room, write_str of a text that begins with that character panics, unless it is the
-- line feed.
pub write_str_past_last :
    (t : Term1) (s : List ℕ)
    → t.font.header.glyph_count ≢ 10
    → t.font.header.header_size
        + t.font.header.glyph_size * t.font.header.glyph_count
        + t.font.header.glyph_size
      < 2 ^ 64
    → length t.font.bytes
      < t.font.header.header_size
        + t.font.header.glyph_size * t.font.header.glyph_count
        + t.font.header.glyph_size
    → (t.char_col + 1) * t.font.header.width ≤ t.fb.width
    → t.fb.width < 2 ^ 64
    → t.char_col + 1 < 2 ^ 64
    → write_str t (t.font.header.glyph_count ∷ s) ≡ none
unfolding write_str write_char wrapped draw
write_str_past_last t s other memory short room width cursor =
    let counted : ltb t.font.header.glyph_count t.font.header.glyph_count ≡ false = ground arith in
    let plain : (t.font.header.glyph_count == 10) ≡ false = ground arith in
    let next : add64 t.char_col 1 ≡ t.char_col + 1 = omega (arith, cursor) in
    let stays : ltb t.fb.width (wrap (add64 t.char_col 1 * t.font.header.width)) ≡ false =
      rw next (ground (arith, room, width)) in
    rw
      (
        counted,
        write_char,
        plain,
        wrapped,
        stays,
        draw,
        get_glyph_beyond t.font t.font.header.glyph_count memory short,
      )
      refl
