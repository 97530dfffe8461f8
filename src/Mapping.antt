-- ===== src/Mapping.antt =====
-- kernel/src/memm/mod.rs: mapping memory. Page tables are read and written at their physical
-- addresses, which the kernel maps at an offset. A panic is `none`.
pub mod Offset
pub mod Examples
use tauos.Base.{
  ℕ, zero, suc, ◌+◌, ◌-◌, ◌*◌, ◌^◌, bit_and, bit_or, Bool, true, false, Option, some, none, ◌==◌,
  ◌!=◌, ◌&&◌, ◌||◌, ltb, leb, if◌then◌else◌,
}
use tauos.Base.Partial.{◌>>=◌}
use tauos.Bits.{add64, sub64, not64, signed_lt}
use tauos.Talloc.{State, Layout}
use tauos.Talloc.Alloc.{done, alloc_error, out_of_fuel, OomHandler, alloc}
use tauos.Paging.{
  Pte, pte_pat, pte_pat_ps, from_paddr, get_paddr, from_pat, page_size, table_index, PatType,
  uncacheable, write_combining, write_through, write_protect, write_back, uncacheable_minus, Types,
  Pat,
}

-- `PHYS_LADDR_OFFSET`, in two's complement
abbrev pub phys_laddr_offset : ℕ
phys_laddr_offset = 2 ^ 64 - 2 ^ 47

-- `from_phys_addr!`
unfoldable pub from_phys_addr : ℕ → ℕ
from_phys_addr paddr = add64 paddr phys_laddr_offset

-- `to_phys_addr!`
unfoldable pub to_phys_addr : ℕ → ℕ
to_phys_addr laddr = sub64 laddr phys_laddr_offset

abbrev pub krnl_default_pat : Pat
krnl_default_pat = record {
  std_types = record {
    t0 = write_back;
    t1 = write_through;
    t2 = uncacheable_minus;
    t3 = uncacheable;
  };
  pat_types = record {
    t0 = write_combining;
    t1 = write_protect;
    t2 = uncacheable_minus;
    t3 = uncacheable_minus;
  };
}

-- The index of a type in the default table.
abbrev pub pat_type_index : PatType → ℕ
pat_type_index uncacheable = 3
pat_type_index write_combining = 4
pat_type_index write_through = 1
pat_type_index write_protect = 5
pat_type_index write_back = 0
pat_type_index uncacheable_minus = 2

unfoldable pub pat_type_to_pte : PatType → Bool → Pte
pat_type_to_pte pat_type is_hpage = from_pat (pat_type_index pat_type) is_hpage

abbrev pub pte_p : Pte
pte_p = 2 ^ 0

abbrev pub pte_ps : Pte
pte_ps = 2 ^ 7

-- `entry.contains(flag)`
abbrev pub has_flag : Pte → Pte → Bool
has_flag entry flag = bit_and entry flag == flag

-- The entries of all tables, by their physical addresses.
abbrev pub Tables : Type 0
Tables = ℕ → Pte

abbrev pub set_entry : Tables → ℕ → Pte → Tables
set_entry tables a entry b = if b == a then entry else tables b

-- `write_bytes(0, 512)` on a table
abbrev pub clear_table : Tables → ℕ → Tables
clear_table tables page a = if leb page a && ltb a (page + 4096) then 0 else tables a

-- `map_offset`'s loop ends by itself after the last entry of the table.
abbrev pub pt_lvl : ℕ
pt_lvl = 1

-- A leaf: whether the rest of the span fills a page of the level.
unfoldable pub is_leaf : (lvl base acme place : ℕ) → Bool
is_leaf lvl base acme place =
    let ps_aligned = bit_and place (page_size lvl - 1) == 0 in
    let remaining = add64 (sub64 acme base) (4096 - 1) in
    (lvl == pt_lvl) || (leb (page_size lvl) remaining && ps_aligned && ltb lvl 4)

-- The entry of a leaf, with the flag for its page size.
unfoldable pub leaf_entry : (lvl : ℕ) → (leaves : Pte) → (paddr : ℕ) → Option Pte
leaf_entry lvl leaves paddr = do
  address ← from_paddr paddr
  let entry = bit_or (bit_or pte_p address) leaves
  some (
      if lvl != pt_lvl
      then (if has_flag entry pte_pat then bit_or entry pte_pat_ps else bit_or entry pte_ps)
      else entry)

module _ {S : Type 0} (page_getter : ℕ → S → Option (ℕ × S)) (branches leaves : Pte) where
  -- The lower table behind an entry, which is made if there is none.
  unfoldable pub branch : (pte_addr : ℕ) → Tables → S → Option (ℕ × (Tables × S))
  branch pte_addr tables s = elim (has_flag (tables pte_addr) pte_p) [
    | true ↦ some (get_paddr (tables pte_addr), (tables, s))
    | false ↦ do
      page ← page_getter 4096 s
      address ← from_paddr page.0
      let entry = bit_or (bit_or pte_p address) branches
      some (get_paddr entry, (set_entry (clear_table tables page.0) pte_addr entry, page.1))
  ]

  -- The entry for `base`: a leaf, or what `lower` does with the table below.
  unfoldable pub map_entry :
      (lower : (base table : ℕ) → Tables → S → Option (Tables × S))
      → (lvl acme base table : ℕ) → Tables
      → S
      → Option (Tables × S)
  map_entry lower lvl acme base table tables s =
      let pte_addr = table + 8 * table_index base lvl in
      elim (is_leaf lvl base acme base) [
        | true ↦ do
          page ← page_getter (page_size lvl) s
          entry ← leaf_entry lvl leaves page.0
          some (set_entry tables pte_addr entry, page.1)
        | false ↦ do below ← branch pte_addr tables s; lower base below.0 below.1.0 below.1.1
      ]

  -- `while base < acme`, for as many entries as the table has left.
  unfoldable pub map_entries :
      (lower : (base table : ℕ) → Tables → S → Option (Tables × S))
      → (fuel lvl acme base table : ℕ) → Tables
      → S
      → Option (Tables × S)
  map_entries lower zero lvl acme base table tables s = some (tables, s)
  map_entries lower (suc fuel) lvl acme base table tables s = elim (signed_lt base acme) [
    | true ↦ do
      mapped ← map_entry lower lvl acme base table tables s
      elim (table_index base lvl == 511) [
        | true ↦ some mapped
        | false ↦
            map_entries lower fuel lvl acme (add64 base (page_size lvl)) table mapped.0 mapped.1
      ]
    | false ↦ some (tables, s)
  ]

  unfoldable pub map_offset : (lvl acme base table : ℕ) → Tables → S → Option (Tables × S)
  map_offset zero acme base table tables s = none
  map_offset (suc below) acme base table tables s = elim (leb (suc below) 4) [
    | true ↦ map_entries (map_offset below acme) 512 (suc below) acme base table tables s
    | false ↦ none
  ]

-- `mapper_oom_handler`
abbrev pub mapper_oom_handler : OomHandler
mapper_oom_handler s layout = (s, false)

-- `Mapper::alloc_phys`. The handler always fails, so one round of each loop is enough.
unfoldable pub alloc_phys : ℕ → State → Option (ℕ × State)
alloc_phys size s = elim (alloc mapper_oom_handler 1 s (record { size = size; align = size })) [
  | done s' ptr ↦ some (to_phys_addr ptr, s')
  | alloc_error s' ↦ none
  | out_of_fuel ↦ none
]

-- `Mapping`
pub record Mapped : Type 0 where
  pub base : ℕ
  pub acme : ℕ
  pub pml4 : ℕ

-- `x & !(PTE_SIZE - 1)`
abbrev pub page_floor : ℕ → ℕ
page_floor x = bit_and x (not64 (4096 - 1))

-- `Mapper::map`, on the physical address of the table.
unfoldable pub map_span :
    (base size : ℕ) (branches leaves : Pte) (pml4 : ℕ)
    → Tables
    → State
    → Option (Mapped × (Tables × State))
map_span base size branches leaves pml4 tables s =
    if size != 0
    then (do
      let first = page_floor base
      let acme = add64 first (page_floor (sub64 (add64 size 4096) 1))
      mapped ← map_offset alloc_phys branches leaves 4 acme first pml4 tables s
      some (record { base = first; acme = acme; pml4 = pml4 }, mapped))
    else none

-- `get_entry_offset` from the table `entry_ptr`, `n` levels above the one that is asked for. As in the
-- code, the index at each level is that of the table's own address.
unfoldable pub walk_tables : (n lvl laddr entry_ptr : ℕ) → Tables → ℕ
walk_tables zero lvl laddr entry_ptr tables = add64 entry_ptr (8 * table_index laddr lvl)
walk_tables (suc n) lvl laddr entry_ptr tables =
    let pte = tables (to_phys_addr (add64 entry_ptr (8 * table_index entry_ptr (lvl + suc n)))) in
    walk_tables n lvl laddr (from_phys_addr (get_paddr pte)) tables

unfoldable pub get_entry_offset : (laddr lvl pml4 : ℕ) → Tables → ℕ
get_entry_offset laddr lvl pml4 tables = walk_tables (4 - lvl) lvl laddr pml4 tables
