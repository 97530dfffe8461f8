-- ===== src/Boot.antt =====
-- kernel/src/bootboot.rs: the memory map that the boot loader leaves. Physical memory is a
-- parameter, as a type with the byte accesses of the processor.
pub mod Available
pub mod Examples
use tauos.Base.{
  ℕ, zero, suc, ◌+◌, ◌-◌, ◌*◌, ◌/◌, ◌^◌, bit_and, List, [], ◌∷◌, length, get_elem?, take, drop,
  Bool, true, false, Option, some, none, ◌==◌, ◌!=◌, if◌then◌else◌,
}
use tauos.Bits.{sub64, not64}

pub record MMapEntry : Type 0 where
  pub ptr : ℕ
  pub data_ : ℕ

abbrev pub mmap_data_size_mask : ℕ
mmap_data_size_mask = 0xfffffffffffffff0

abbrev pub mmap_free : ℕ
mmap_free = 1

abbrev pub mmap_mmio : ℕ
mmap_mmio = 3

-- The sizes in bytes of the packed structs `BootBoot` and `MMapEntry`.
abbrev pub boot_boot_size : ℕ
boot_boot_size = 4 + 4 + 1 + 1 + 2 + 2 + 2 + 8 + 8 + 8 + 8 + 4 + 4 + 4 + 4 + 8 * 8 + 16

abbrev pub mmap_entry_size : ℕ
mmap_entry_size = 8 + 8

-- `entry.data & MMAP_FREE != 0`
abbrev pub is_free : MMapEntry → Bool
is_free entry = bit_and entry.data_ mmap_free != 0

-- The free entries, each as its address and size.
unfoldable pub free_spans : List MMapEntry → List (ℕ × ℕ)
free_spans [] = []
free_spans (entry ∷ mmap) =
    let rest = free_spans mmap in
    if is_free entry then (entry.ptr, bit_and entry.data_ mmap_data_size_mask) ∷ rest else rest

module _ {M : Type 0} (read_volatile : M → ℕ → ℕ) (write_volatile : M → ℕ → ℕ → M) where
  -- Whether the byte does not keep a value, and the memory with what was there before.
  abbrev pub probe : M → (base_ptr : ℕ) → Bool × M
  probe m base_ptr =
      let val = read_volatile m base_ptr in
      let m1 = write_volatile m base_ptr 0xae in
      let invalid = read_volatile m1 base_ptr != 0xae in (invalid, write_volatile m1 base_ptr val)

  -- One round of the loop over the entries that are reported free.
  abbrev pub check_entry : M → MMapEntry → MMapEntry × M
  check_entry m entry = elim (is_free entry) [
    | true ↦
        let r = probe m entry.ptr in
        let left : ℕ = if r.0 then bit_and entry.data_ (not64 mmap_free) else entry.data_ in
        (record { ptr = entry.ptr; data_ = left }, r.1)
    | false ↦ (entry, m)
  ]

  unfoldable pub check_entries : M → List MMapEntry → List MMapEntry × M
  check_entries m [] = ([], m)
  check_entries m (entry ∷ mmap) =
      let r = check_entry m entry in let rest = check_entries r.1 mmap in (r.0 ∷ rest.0, rest.1)

  -- `size` is that of the header, and `mmap` are the entries behind the struct in memory.
  unfoldable pub mmap_available_iter : (size : ℕ) → List MMapEntry → M → List (ℕ × ℕ) × M
  mmap_available_iter size mmap m =
      let mmap_len = sub64 size boot_boot_size / mmap_entry_size in
      let checked = check_entries m (take mmap_len mmap) in (free_spans checked.0, checked.1)

-- `env_cfg_as_str`: the bytes before the first zero, of at most 4096.
unfoldable pub env_len : (len : ℕ) → List ℕ → ℕ
env_len zero cfg = 0
env_len (suc n) [] = 0
env_len (suc n) (c ∷ cfg) = let rest = env_len n cfg in if c != 0 then suc rest else 0

unfoldable pub env_cfg_as_str : List ℕ → List ℕ
env_cfg_as_str cfg = take (env_len 4096 cfg) cfg
