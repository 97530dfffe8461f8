-- ===== src/Font/Header.antt =====
-- What a font file is read as: the header, and the glyphs.
use tauos.Base.{
  ℕ, ◌+◌, ◌-◌, ◌*◌, ◌/◌, ◌%◌, ◌^◌, ◌≤◌, ◌<◌, ◌≡◌, refl, ◌∙◌, arith, List, ◌∷◌, length, length-drop,
  length-take, take, drop, true, false, some, none, leb, ◌&&◌,
}
use native.Mathlib.Nat.{mul-le-mul_left}
use tauos.Bits.{add64, wrap}
use tauos.Font.{PsfFontHeader, PsfFont, psf_font_magic, slice_to_u32, new, get_slice, get_glyph}

-- A number in four bytes, the lowest first.
abbrev pub le_bytes : ℕ → List ℕ → List ℕ
le_bytes n rest = n % 2 ^ 8 ∷ n / 2 ^ 8 % 2 ^ 8 ∷ n / 2 ^ 16 % 2 ^ 8 ∷ n / 2 ^ 24 ∷ rest

-- The file with the header and these bytes after it.
abbrev pub encode : PsfFontHeader → List ℕ → List ℕ
encode h rest = le_bytes h.magic (
    le_bytes h.version (
      le_bytes h.header_size (
        le_bytes h.flags (
          le_bytes h.glyph_count
            (le_bytes h.glyph_size (le_bytes h.height (le_bytes h.width rest)))))))

le_join :
    (n : ℕ)
    → n % 2 ^ 8 + n / 2 ^ 8 % 2 ^ 8 * 2 ^ 8 + n / 2 ^ 16 % 2 ^ 8 * 2 ^ 16 + n / 2 ^ 24 * 2 ^ 24 ≡ n
le_join n = omega arith

-- For a header with the format's magic number, reading the file that begins with the header, each
-- field in four bytes with the lowest first, gives that header and the whole file.
pub new-encode :
    (h : PsfFontHeader) (rest : List ℕ)
    → h.magic ≡ psf_font_magic
    → new (encode h rest) ≡ some (record { header = h; bytes = encode h rest })
unfolding new slice_to_u32
new-encode h rest e =
    rw
      (
        le_join h.magic,
        e,
        le_join h.version,
        le_join h.header_size,
        le_join h.flags,
        le_join h.glyph_count,
        le_join h.glyph_size,
        le_join h.height,
        le_join h.width,
      )
      refl

-- The file is in memory and holds the first `count` glyphs.
abbrev pub HasGlyphs : ℕ → PsfFont → Type 0
HasGlyphs count font =
    (font.header.header_size + font.header.glyph_size * count ≤ length font.bytes)
    × (length font.bytes < 2 ^ 64)

-- When a font file in memory holds the first glyphs up to a count, get_glyph of a smaller index
-- gives the glyph at its place, of the glyph size.
pub get_glyph_lem :
    (font : PsfFont) (count i : ℕ)
    → HasGlyphs count font
    → i < count
    → (glyph : List ℕ) × ((get_glyph font i ≡ some glyph)
        × ((glyph
              ≡ take font.header.glyph_size
                  (drop (font.header.header_size + font.header.glyph_size * i) font.bytes))
            × (length glyph ≡ font.header.glyph_size)))
unfolding get_glyph get_slice
get_glyph_lem font count i (fits, memory) l =
    let size = font.header.glyph_size in
    let start = font.header.header_size + size * i in
    let room : size * i + size ≤ size * count =
      omega (arith, mul-le-mul_left {m = i + 1} {n = count} size (omega arith)) in
    let first : add64 font.header.header_size (wrap (size * i)) ≡ start =
      omega (arith, room, fits, memory) in
    let last : add64 start size ≡ start + size = omega (arith, room, fits, memory) in
    let in_range : (leb start (start + size) && leb (start + size) (length font.bytes)) ≡ true =
      ground (arith, room, fits) in
    let same : start + size - start ≡ size = omega arith in
    (
      take size (drop start font.bytes),
      (
        rw (first, last, in_range, same) refl,
        (
          refl,
          length-take size (drop start font.bytes)
              ∙ rw (length-drop start font.bytes) (omega (arith, room, fits)),
        ),
      ),
    )

-- There is no glyph whose end lies behind the file's, when its place does not overflow.
pub get_glyph_beyond :
    (font : PsfFont) (i : ℕ)
    → font.header.header_size + font.header.glyph_size * i + font.header.glyph_size < 2 ^ 64
    → length font.bytes
      < font.header.header_size + font.header.glyph_size * i + font.header.glyph_size
    → get_glyph font i ≡ none
unfolding get_glyph get_slice
get_glyph_beyond font i memory short =
    let size = font.header.glyph_size in
    let start = font.header.header_size + size * i in
    let first : add64 font.header.header_size (wrap (size * i)) ≡ start = omega (arith, memory) in
    let last : add64 start size ≡ start + size = omega (arith, memory) in
    let in_range : (leb start (start + size) && leb (start + size) (length font.bytes)) ≡ false =
      ground (arith, short) in
    rw (first, last, in_range) refl
