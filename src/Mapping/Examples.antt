-- ===== src/Mapping/Examples.antt =====
-- Uses of the theorems on mapping at a given table, and tests.
use tauos.Base.{ℕ, suc, ◌+◌, ◌*◌, ◌%◌, ◌^◌, ◌<◌, ◌≡◌, refl, arith, Option, some}
use tauos.Mapping.{Tables, map_offset, from_phys_addr, to_phys_addr}
use tauos.Mapping.Offset.{iterate, IsMapped, map_offset_lem}

-- Sixteen pages in turn.
abbrev pages : ℕ → ℕ → Option (ℕ × ℕ)
pages size s = some (4096 * (s % 16), suc s)

abbrev page : ℕ → ℕ
page s = 4096 * (s % 16)

test_phys : to_phys_addr (from_phys_addr 8192) ≡ 8192
unfolding to_phys_addr from_phys_addr
test_phys = refl

is_page : (s : ℕ) → (page s % 2 ^ 12 ≡ 0) × (page s < 2 ^ 52)
is_page s = (omega arith, omega arith)

map_offset_lem_example :
    (after : Tables) × ((map_offset pages 2 2 1 (8192 + 3 * 4096) 8192 65536 (λ a. 0) 5
        ≡ some (after, iterate suc 3 5))
      × IsMapped pages page suc (λ s. refl) is_page 2 2 65536 2 3 (λ a. 0) after 5)
map_offset_lem_example =
    map_offset_lem pages page suc (λ s. refl) is_page 2 2 3 8192 65536 (λ a. 0) 5 (omega arith)
      (omega arith)
