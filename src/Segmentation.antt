-- ===== src/Segmentation.antt =====
-- amd64/src/segmentation.rs: inserting a descriptor into the global descriptor table, which is the
-- list of its 64-bit entries. Fields has the selectors and the descriptors' fields.
pub mod Fields
pub mod Insertion
pub mod System
pub mod Examples
use tauos.Base.{
  ℕ, zero, suc, ◌+◌, ◌-◌, ◌*◌, ◌^◌, List, Bool, true, false, ltb, get_or, set, length, bit_and,
  ◌==◌,
}

abbrev pub code_type : ℕ
code_type = 2 ^ 44

abbrev pub code_present : ℕ
code_present = 2 ^ 47

-- `descriptor.contains(flag)`
unfoldable pub contains : (descriptor flag : ℕ) → Bool
contains descriptor flag = bit_and descriptor flag == flag

-- What an insertion returns, with the table that it leaves where it succeeds.
pub data Inserted : Type 0 where
  inserted : ℕ → List ℕ → Inserted
  no_slot : Inserted
  out_of_fuel : Inserted

-- The loop for a code or data descriptor.
unfoldable pub insert_user : (fuel : ℕ) → List ℕ → (seg index : ℕ) → Inserted
insert_user zero gdt seg index = out_of_fuel
insert_user (suc fuel) gdt seg index = elim (ltb index (length gdt)) [
  | false ↦ no_slot
  | true ↦
      let descriptor = get_or gdt index 0 in
      elim (contains descriptor code_present) [
        | false ↦ inserted index (set gdt index seg)
        | true ↦ elim (contains descriptor code_type) [
          | false ↦ insert_user fuel gdt seg (index + 2)
          | true ↦ insert_user fuel gdt seg (index + 1)
        ]
      ]
]

-- The loop for a system descriptor, of two entries.
unfoldable pub insert_sys : (fuel : ℕ) → List ℕ → (seg_lo seg_hi index : ℕ) → Bool → Inserted
insert_sys zero gdt seg_lo seg_hi index prev_avl = out_of_fuel
insert_sys (suc fuel) gdt seg_lo seg_hi index prev_avl = elim (ltb index (length gdt)) [
  | false ↦ no_slot
  | true ↦
      let descriptor = get_or gdt index 0 in
      elim (contains descriptor code_present) [
        | false ↦ elim prev_avl [
          | true ↦ inserted (index - 1) (set (set gdt (index - 1) seg_lo) index seg_hi)
          | false ↦ insert_sys fuel gdt seg_lo seg_hi index true
        ]
        | true ↦ elim (contains descriptor code_type) [
          | false ↦ insert_sys fuel gdt seg_lo seg_hi (index + 2) false
          | true ↦ insert_sys fuel gdt seg_lo seg_hi (index + 1) false
        ]
      ]
]

pub data SegDesc : Type 0 where
  user_seg : ℕ → SegDesc
  sys_seg : (lo hi : ℕ) → SegDesc

-- Each two rounds pass an entry or end the loop.
unfoldable pub try_insert_into_gdt : SegDesc → List ℕ → Inserted
unfolding insert_user insert_sys
try_insert_into_gdt (user_seg seg) gdt = insert_user (length gdt + 1) gdt seg 1
try_insert_into_gdt (sys_seg lo hi) gdt = insert_sys (2 * length gdt + 2) gdt lo hi 1 false
