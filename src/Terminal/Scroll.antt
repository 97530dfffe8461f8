-- ===== src/Terminal/Scroll.antt =====
-- A new line moves the picture up by a line of text.
use tauos.Base.{
  ℕ, ◌+◌, ◌-◌, ◌*◌, ◌≤◌, ◌<◌, ◌≡◌, refl, ap, ap₂, ◌∙◌, arith, true, false, Bool-cases, Option, some,
  inl, inr, ltb, if◌then◌else◌,
}
use tauos.Bits.{sub64}
use tauos.Screen.{
  Bytes, get, offset, FrameBuffer, with_buffer, fill_rect, internal_blt, color_to_pixel, black,
}
use tauos.Screen.Rect.{IsFrame, pixel_at, is_inside, fill_rect_lem, internal_blt_lem}
use tauos.Terminal.{Term1, new_line}
use tauos.Base.Partial.{◌>>=◌}

-- When a frame's rows hold its pixels and a line of text of at least one row fits, new_line returns
-- the terminal with the cursor at the start, in which every pixel above the last line is the one
-- that was a line of text below it, every pixel of the last line is black, and no byte behind the
-- buffer has changed.
pub new_line_scroll :
    (t : Term1)
    → IsFrame t.fb
    → 0 < t.font.header.height
    → t.font.header.height ≤ t.fb.height
    → (buffer : Bytes) × ((new_line t
          ≡ some (record { fb = with_buffer t.fb buffer; font = t.font; char_col = 0 }))
        × (((row col : ℕ)
              → row < t.fb.height
              → col < t.fb.width
              → get buffer (offset col row t.fb.stride) ≡ (
                  if ltb row (t.fb.height - t.font.header.height)
                  then pixel_at t.fb col (row + t.font.header.height)
                  else color_to_pixel black t.fb.format))
            × ((i : ℕ) → t.fb.stride * t.fb.height ≤ i → buffer i ≡ t.fb.buffer i)))
unfolding new_line internal_blt
new_line_scroll t frame some_height fits =
    let h = t.font.header.height in
    let text_top : sub64 t.fb.height h ≡ t.fb.height - h = omega (arith, frame.1.1.1) in
    let finish : Option FrameBuffer → Option Term1 =
      λ r. r >>= λ filled. some (record { fb = filled; font = t.font; char_col = 0 }) in
    let moved : FrameBuffer = internal_blt t.fb 0 h t.fb.width (t.fb.height - h) 0 0 in
    let copied =
      internal_blt_lem t.fb 0 h t.fb.width (t.fb.height - h) 0 0 frame some_height (omega arith)
        (omega arith) (omega arith) in
    let (buffer, (filled, (pixels, beyond))) =
      fill_rect_lem moved 0 (t.fb.height - h) t.fb.width h black frame (omega arith)
        (omega arith) in
    (
      buffer,
      (
        ap
              (λ (k : ℕ).
                finish (fill_rect (internal_blt t.fb 0 h t.fb.width k 0 0) 0 k t.fb.width h black))
              text_top
            ∙ ap finish filled,
        (
          λ row col a b. pixels row col a b ∙ elim (Bool-cases (ltb row (t.fb.height - h))) [
            | inl e ↦
                let above : is_inside 0 (t.fb.height - h) t.fb.width h col row ≡ false =
                  ground arith in
                let below : is_inside 0 0 t.fb.width (t.fb.height - h) col row ≡ true =
                  ground arith in
                let same_col : 0 + (col - 0) ≡ col = omega arith in
                let same_row : h + (row - 0) ≡ row + h = omega arith in
                rw (e, above)
                  (copied.0 row col a b
                    ∙ rw below (ap₂ (λ (c r : ℕ). pixel_at t.fb c r) same_col same_row))
            | inr e ↦
                let inside : is_inside 0 (t.fb.height - h) t.fb.width h col row ≡ true =
                  ground arith in
                rw (e, inside) refl
          ],
          λ i l. beyond i l ∙ copied.1 i l,
        ),
      ),
    )
