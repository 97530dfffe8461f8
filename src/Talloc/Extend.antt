-- ===== src/Talloc/Extend.antt =====
-- Construction and `extend`: the sizes of the status data, its place, and what it takes over.
use tauos.Base.{
  ℕ, zero, suc, ◌+◌, ◌-◌, ◌*◌, ◌/◌, ◌%◌, ◌^◌, bit_and, max, Bool, true, false, List, [], replicate,
  length, Option, some, none, ◌==◌, ◌&&◌, leb, ltb, if◌then◌else◌,
}
use tauos.Base.Partial.{◌>>=◌}
use tauos.Bits.{add64, sub64, not64, ◌<<◌, ◌>>>◌, signed_le}
use tauos.Utils.{leading_zeros}
use tauos.Utils.Copy.{copy_slice_bits, copy_bytes}
use tauos.Llist.{Ptr, Mem}
use tauos.Llist
use tauos.Talloc.{
  State, Talloc, NodeSlice, node_size, maximum_arena_size, minimum_arena_size, bitmap_offset,
}
use tauos.Talloc.Release.{release}

-- `usize::log2` of a nonzero value, `usize::next_power_of_two`, `usize::is_power_of_two`
unfoldable pub log2 : ℕ → ℕ
log2 n = 63 - leading_zeros n

unfoldable pub next_power_of_two : ℕ → ℕ
next_power_of_two n = 2 ^ (64 - leading_zeros (n - 1))

abbrev pub is_power_of_two : ℕ → Bool
is_power_of_two n = n == next_power_of_two n

-- The assertions of `validate_arena_args`
abbrev pub validate_arena_args : (arena_size smallest_block : ℕ) → Bool
validate_arena_args arena_size smallest_block =
    leb minimum_arena_size arena_size
    && (leb arena_size maximum_arena_size
        && (is_power_of_two smallest_block && leb node_size smallest_block))

abbrev pub llists_len : (arena_size smallest_block : ℕ) → ℕ
llists_len arena_size smallest_block =
    (log2 (arena_size - 1) + 1 + 2 ^ 32 - log2 smallest_block + 1) % 2 ^ 32

abbrev pub bitmap_len : ℕ → ℕ
bitmap_len len = let bytes = 1 << len >>> 3 in if bytes == 0 then 1 else bytes

-- `none` where an assertion fails.
unfoldable pub slice_bytes : (arena_size smallest_block : ℕ) → Option (ℕ × ℕ)
slice_bytes arena_size smallest_block = elim (validate_arena_args arena_size smallest_block) [
  | false ↦ none
  | true ↦ let len = llists_len arena_size smallest_block in some (len * node_size, bitmap_len len)
]

abbrev pub new_invalid : (smallest_block : ℕ) → Mem (Unit {0}) → State
new_invalid smallest_block mem = record {
  talloc = record {
    arena_base = 0;
    arena_size = 0;
    arena_size_pow2 = 0;
    smlst_block = smallest_block;
    avails = 0;
    llists = record { ptr = 0; len = 0 };
    bitmap = [];
  };
  mem = mem;
}

abbrev pub get_arena : Talloc → ℕ × ℕ
get_arena t = (t.arena_base, t.arena_size)

unfoldable pub req_free_mem : Talloc → (arena_base arena_size : ℕ) → Option ℕ
req_free_mem t arena_base arena_size =
    slice_bytes arena_size t.smlst_block >>= λ bytes. some (arena_base % 16 + bytes.0 + bytes.1)

-- The assertions of `extend`
abbrev pub extend_fits : Talloc → (arena_base arena_size free_ptr free_len : ℕ) → Bool
extend_fits t arena_base arena_size free_ptr free_len =
    let arena_acme = add64 arena_base arena_size in
    signed_le arena_base free_ptr
    && (signed_le (add64 free_ptr free_len) arena_acme && (elim (length t.bitmap == 0) [
      | true ↦ true
      | false ↦
          signed_le arena_base t.arena_base
          && signed_le (add64 t.arena_base t.arena_size) arena_acme
    ]))

-- `ll_align_offset`
abbrev pub align_offset : ℕ → ℕ
align_offset free_ptr = node_size - bit_and free_ptr (node_size - 1)

-- The first `count` sentinels from `i`: new ones, and then those of the old lists.
unfoldable pub move_llists :
    (count i gra_diff : ℕ) → (old new : NodeSlice) → Mem (Unit {0}) → Mem (Unit {0})
move_llists zero i gra_diff old new mem = mem
move_llists (suc count) i gra_diff old new mem =
    let dst = new.ptr + node_size * i in
    let src = old.ptr + node_size * (i - gra_diff) in
    move_llists count (suc i) gra_diff old new
      (if ltb i gra_diff then Llist.new_llist mem dst tt else Llist.mov mem src dst)

-- `old_bmp_bit_offst_sz`
abbrev pub old_field : ℕ → ℕ
old_field g = max (1 << g >>> 1) 1

-- The fields of `count` granularities from `g`, copied from the old bitmap.
unfoldable pub copy_fields :
    (count g : ℕ) → (old new : Talloc) → (bitmap : List ℕ) → Option (List ℕ)
copy_fields zero g old new bitmap = some bitmap
copy_fields (suc count) g old new bitmap =
    let field = old_field g in
    let place = bitmap_offset new old.arena_base (old.arena_size_pow2 >>> g) in
    (elim (ltb g 4) [
      | true ↦ copy_slice_bits bitmap old.bitmap place field field
      | false ↦ some (copy_bytes bitmap old.bitmap (place / 8) (field / 8) (field / 8))
    ])
    >>= λ bitmap'. copy_fields count (suc g) old new bitmap'

-- The new instance, before the old lists and bits are taken over.
abbrev pub new_talloc : Talloc → (arena_base arena_size llists_ptr ll_bytes bm_bytes : ℕ) → Talloc
new_talloc t arena_base arena_size llists_ptr ll_bytes bm_bytes = record {
  arena_base = arena_base;
  arena_size = arena_size;
  arena_size_pow2 = next_power_of_two arena_size;
  smlst_block = t.smlst_block;
  avails = 0;
  llists = record { ptr = llists_ptr; len = ll_bytes / node_size };
  bitmap = replicate bm_bytes 0;
}

-- The lists, the availability bits and the bitmap of `s` taken over by `t`.
unfoldable pub take_over : State → Talloc → Option State
take_over s t =
    let old = s.talloc in
    let gra_diff = sub64 t.llists.len old.llists.len in
    let mem = move_llists t.llists.len 0 gra_diff old.llists t.llists s.mem in
    let count : ℕ = elim (length old.bitmap == 0) [ true ↦ 0 | false ↦ old.llists.len ] in
    copy_fields count 0 old t t.bitmap >>= λ bitmap.
    some
      (record { talloc = record t { avails = old.avails << gra_diff; bitmap = bitmap }; mem = mem })

-- The old status data, up to the next smallest block
unfoldable pub release_old : Talloc → State → Option State
release_old old s = elim (length old.bitmap == 0) [
  | true ↦ some s
  | false ↦
      let size = old.llists.len * node_size + length old.bitmap in
      let size_ceild =
        bit_and (sub64 (add64 size old.smlst_block) 1) (not64 (sub64 old.smlst_block 1)) in
      release s old.llists.ptr size_ceild
]

unfoldable pub extend_status :
    State → (arena_base arena_size free_ptr free_len ll_bytes bm_bytes : ℕ) → Option State
extend_status s arena_base arena_size free_ptr free_len ll_bytes bm_bytes =
    let mem_offset = align_offset free_ptr + ll_bytes + bm_bytes in
    let llists_ptr = add64 free_ptr (align_offset free_ptr) in
    take_over s (new_talloc s.talloc arena_base arena_size llists_ptr ll_bytes bm_bytes) >>= λ s'.
    release_old s.talloc s' >>= λ s''.
    release s'' (add64 free_ptr mem_offset) (sub64 free_len mem_offset)

-- `none` where an assertion fails.
unfoldable pub extend :
    State → (arena_base arena_size : ℕ) (free_ptr : Ptr) (free_len : ℕ) → Option State
extend s arena_base arena_size free_ptr free_len =
    slice_bytes arena_size s.talloc.smlst_block >>= λ bytes.
    elim (extend_fits s.talloc arena_base arena_size free_ptr free_len) [
      | false ↦ none
      | true ↦ extend_status s arena_base arena_size free_ptr free_len bytes.0 bytes.1
    ]

-- `Talloc::new`, in a memory
unfoldable pub new :
    Mem (Unit {0})
    → (arena_base arena_size smallest_block : ℕ) (free_ptr : Ptr) (free_len : ℕ) → Option State
new mem arena_base arena_size smallest_block free_ptr free_len =
    extend (new_invalid smallest_block mem) arena_base arena_size free_ptr free_len
