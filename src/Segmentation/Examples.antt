-- ===== src/Segmentation/Examples.antt =====
-- Uses of the theorem on insertion at a given table, and tests.
use tauos.Base.{ℕ, ◌+◌, ◌^◌, ◌%◌, some, ◌≡◌, refl, List, [], ◌∷◌, true, false, arith}
use tauos.Segmentation.{
  contains, inserted, insert_user, insert_sys, user_seg, sys_seg, try_insert_into_gdt,
}
use tauos.Segmentation.Fields.{SysSegDesc, get_base}
use tauos.Privilege.{ring0}
use tauos.Interrupts.{avl_tss}
use tauos.Segmentation.System.{
  new, get_limit, get_ssdt, get_dpl, is_present, get_page_granularity, system_segment-roundtrip,
}
use tauos.Segmentation.Insertion.{IsPlaced, try_insert_into_gdt-IsPlaced}

-- The null descriptor, a code segment, a system segment of two entries, and two unused entries.
abbrev table : List ℕ
table = 0 ∷ (2 ^ 44 + 2 ^ 47) ∷ 2 ^ 47 ∷ 9 ∷ 0 ∷ 0 ∷ []

test_user :
    try_insert_into_gdt (user_seg 5) table
    ≡ inserted 4 (0 ∷ (2 ^ 44 + 2 ^ 47) ∷ 2 ^ 47 ∷ 9 ∷ 5 ∷ 0 ∷ [])
unfolding try_insert_into_gdt insert_user contains
test_user = refl

-- A system descriptor overwrites the entry before the first unused one.
test_sys :
    try_insert_into_gdt (sys_seg 6 7) table
    ≡ inserted 3 (0 ∷ (2 ^ 44 + 2 ^ 47) ∷ 2 ^ 47 ∷ 6 ∷ 7 ∷ 0 ∷ [])
unfolding try_insert_into_gdt insert_sys contains
test_sys = refl

try_insert_into_gdt-IsPlaced_example : IsPlaced table 5 1 (try_insert_into_gdt (user_seg 5) table)
try_insert_into_gdt-IsPlaced_example = try_insert_into_gdt-IsPlaced table 5

abbrev descriptor : SysSegDesc
descriptor = record {
  limit_lo = 103;
  base_lo = 0;
  base_mid_0 = 0;
  flags = 137;
  g_limit_hi = 0;
  base_mid_1 = 0;
  base_hi = 0;
}

system_segment-roundtrip_example :
    let d = new 305419896 103 avl_tss ring0 false in
    ((get_base d ≡ 305419896) × (get_limit d ≡ 103 % 2 ^ 19))
    × (((get_ssdt d ≡ some avl_tss) × (get_dpl d ≡ some ring0))
        × ((is_present d ≡ true) × (get_page_granularity d ≡ false)))
system_segment-roundtrip_example =
    system_segment-roundtrip 305419896 103 avl_tss ring0 false (omega arith)
