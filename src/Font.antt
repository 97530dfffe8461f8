-- ===== src/Font.antt =====
-- kernel/src/utils/psf.rs: fonts in the PSF2 format. Indexing a slice out of range panics: `none`.
pub mod Header
use tauos.Base.{
  ℕ, ◌+◌, ◌-◌, ◌*◌, ◌%◌, ◌^◌, List, [], ◌∷◌, length, get_elem?, take, drop, Bool, true, Option,
  some, none, ◌==◌, leb, ◌&&◌, if◌then◌else◌,
}
use tauos.Base.Partial.{◌>>=◌, ◌>>◌}
use tauos.Bits.{add64, wrap}

pub record PsfFontHeader : Type 0 where
  pub magic : ℕ
  pub version : ℕ
  pub header_size : ℕ
  pub flags : ℕ
  pub glyph_count : ℕ
  pub glyph_size : ℕ
  pub height : ℕ
  pub width : ℕ

pub record PsfFont : Type 0 where
  pub header : PsfFontHeader
  -- the field `data`
  pub bytes : List ℕ

abbrev pub psf_font_magic : ℕ
psf_font_magic = 0x864ab572

-- Four bytes, the lowest first.
unfoldable pub slice_to_u32 : ℕ → List ℕ → Option ℕ
slice_to_u32 i file = do
  b0 ← get_elem? file (i + 0)
  b1 ← get_elem? file (i + 1)
  b2 ← get_elem? file (i + 2)
  b3 ← get_elem? file (i + 3)
  some (b0 + b1 * 2 ^ 8 + b2 * 2 ^ 16 + b3 * 2 ^ 24)

unfoldable pub new : List ℕ → Option PsfFont
new file = do
  magic ← slice_to_u32 0 file
  (if magic == psf_font_magic then some tt else none)
  version ← slice_to_u32 4 file
  header_size ← slice_to_u32 8 file
  flags ← slice_to_u32 12 file
  glyph_count ← slice_to_u32 16 file
  glyph_size ← slice_to_u32 20 file
  height ← slice_to_u32 24 file
  width ← slice_to_u32 28 file
  let header : PsfFontHeader = record {
    magic = magic;
    version = version;
    header_size = header_size;
    flags = flags;
    glyph_count = glyph_count;
    glyph_size = glyph_size;
    height = height;
    width = width;
  }
  some (record { header = header; bytes = file })

-- `data.get(first..last)`
unfoldable pub get_slice : List ℕ → (first last : ℕ) → Option (List ℕ)
get_slice file first last =
    if leb first last && leb last (length file)
    then some (take (last - first) (drop first file))
    else none

unfoldable pub get_glyph : PsfFont → ℕ → Option (List ℕ)
get_glyph font i =
    let start = add64 font.header.header_size (wrap (font.header.glyph_size * i)) in
    get_slice font.bytes start (add64 start font.header.glyph_size)
