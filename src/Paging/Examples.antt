-- ===== src/Paging/Examples.antt =====
-- Uses of the theorems on paging at given addresses, and tests.
use tauos.Base.{◌*◌, ◌%◌, ◌^◌, ◌≡◌, refl, arith, some}
use tauos.Paging.{
  table_index, recur_to_pte, page_size, pte_size, pde_size, pdpte_size, pml4e_size, default_pat,
  read, write,
}
use tauos.Paging.Recursive.{IsCanonical, recur_to_pte-walk}
use tauos.Paging.Attributes.{read-write}

test_page_size :
    ((page_size 1 ≡ pte_size) × (page_size 2 ≡ pde_size))
    × ((page_size 3 ≡ pdpte_size) × (page_size 4 ≡ pml4e_size))
unfolding page_size
test_page_size = ((refl, refl), (refl, refl))

recur_to_pte-walk_example :
    ((table_index (recur_to_pte 5000 510) 4 ≡ 510)
      × (table_index (recur_to_pte 5000 510) 3 ≡ table_index 5000 4))
    × (((table_index (recur_to_pte 5000 510) 2 ≡ table_index 5000 3)
          × (table_index (recur_to_pte 5000 510) 1 ≡ table_index 5000 2))
        × ((recur_to_pte 5000 510 % 2 ^ 12 ≡ 8 * table_index 5000 1)
            × IsCanonical (recur_to_pte 5000 510)))
recur_to_pte-walk_example = recur_to_pte-walk 5000 510 (omega arith)

read-write_example : read (write default_pat) ≡ some default_pat
read-write_example = read-write default_pat
