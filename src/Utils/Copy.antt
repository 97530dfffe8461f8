-- ===== src/Utils/Copy.antt =====
-- kernel/src/utils/mod.rs: `copy_slice_bits`, on slices of bytes that do not overlap. A shift of a
-- byte takes its distance modulo 8, as compiled code does.
use tauos.Base.{
  ℕ, zero, suc, ◌+◌, ◌-◌, ◌*◌, ◌/◌, ◌%◌, ◌^◌, bit_and, bit_or, List, Bool, true, false, Option,
  some, none, ◌==◌, ◌&&◌, ltb, get_or, set, length, take, drop, ◌++◌,
}
use tauos.Bits.{sub64}

abbrev ones : ℕ
ones = 255

-- `u8::rotate_left`, by less than 8
unfoldable pub rotate_left : ℕ → ℕ → ℕ
rotate_left x k = x * 2 ^ k % 2 ^ 8 + x / 2 ^ (8 - k)

-- `ONES << k` and `ONES >> k`
abbrev pub ones_shl : ℕ → ℕ
ones_shl k = ones * 2 ^ (k % 8) % 2 ^ 8

abbrev pub ones_shr : ℕ → ℕ
ones_shr k = ones / 2 ^ (k % 8)

-- The bytes written, and the carry.
unfoldable pub copy_rotated :
    (count : ℕ) → (src : List ℕ) (offset mask src_index dst_index carry : ℕ) → List ℕ → List ℕ × ℕ
copy_rotated zero src offset mask src_index dst_index carry dst = (dst, carry)
copy_rotated (suc count) src offset mask src_index dst_index carry dst =
    let rol = rotate_left (get_or src src_index 0) offset in
    copy_rotated count src offset mask (src_index + 1) (dst_index + 1) (bit_and rol mask)
      (set dst dst_index (bit_or (bit_and rol (ones - mask)) carry))

-- The bits beside those copied in the first byte, and in the byte that is taken for the last one.
abbrev pub restore : List ℕ → (dst_index_base dst_bit_index bit_len first last : ℕ) → List ℕ
restore dst base dst_bit_index bit_len first last =
    let front =
      set dst base
        (bit_or (bit_and (get_or dst base 0) (ones_shl (bit_and dst_bit_index 7))) first) in
    set front base (
      bit_or (bit_and (get_or front base 0) (ones_shr (8 - bit_and (dst_bit_index + bit_len) 7)))
        last)

-- `diff_wraps ^ equal`, negated
abbrev pub appends : (diff_wraps equal : Bool) → Bool
appends true equal = equal
appends false true = false
appends false false = true

-- `none` where an assertion fails.
unfoldable pub copy_slice_bits :
    (dst src : List ℕ) (dst_bit_index src_bit_index bit_len : ℕ) → Option (List ℕ)
copy_slice_bits dst src dst_bit_index src_bit_index zero = some dst
copy_slice_bits dst src dst_bit_index src_bit_index (suc bit_len_1) =
    let bit_len = suc bit_len_1 in
    let src_index_base = src_bit_index / 8 in
    let src_index_acme = (src_bit_index + bit_len - 1) / 8 in
    let dst_index_base = dst_bit_index / 8 in
    let dst_index_acme = (dst_bit_index + bit_len - 1) / 8 in
    elim (ltb src_index_acme (length src) && ltb dst_index_acme (length dst)) [
      | false ↦ none
      | true ↦
          let first = bit_and (get_or dst dst_index_base 0) (2 ^ bit_and dst_bit_index 7 - 1) in
          let last =
            bit_and (get_or dst dst_index_base 0)
              (ones - ones_shr (8 - bit_and (dst_bit_index + bit_len) 7)) in
          let wraps = ltb (bit_and dst_bit_index 7) (bit_and src_bit_index 7) in
          let offset = bit_and (sub64 (bit_and dst_bit_index 7) (bit_and src_bit_index 7)) 7 in
          let mask = 2 ^ offset - 1 in
          let skip : ℕ = elim wraps [ true ↦ 1 | false ↦ 0 ] in
          let carry : ℕ = elim wraps [
            | true ↦ bit_and (rotate_left (get_or src src_index_base 0) offset) mask
            | false ↦ 0
          ] in
          let count = src_index_acme + 1 - (src_index_base + skip) in
          let (copied, left) =
            copy_rotated count src offset mask (src_index_base + skip) dst_index_base carry dst in
          let whole : List ℕ =
            elim (appends wraps
              (dst_index_acme - dst_index_base == src_index_acme - src_index_base)) [
                | true ↦ set copied (dst_index_base + count) left
                | false ↦ copied
              ] in
          some (restore whole dst_index_base dst_bit_index bit_len first last)
    ]

-- `copy_from_nonoverlapping`, of `count` bytes within the slices
abbrev pub copy_bytes : (dst src : List ℕ) (dst_index src_index count : ℕ) → List ℕ
copy_bytes dst src dst_index src_index count =
    take dst_index dst ++ (take count (drop src_index src) ++ drop (dst_index + count) dst)
