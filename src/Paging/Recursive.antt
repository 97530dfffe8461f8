-- ===== src/Paging/Recursive.antt =====
-- The recursive addresses of page table entries.
use native.Mathlib.Nat.{mod-eq_of_lt}
use tauos.Base.{
  ℕ, ◌+◌, ◌-◌, ◌*◌, ◌/◌, ◌%◌, ◌^◌, ◌<◌, bit_and, ◌≡◌, ap, ◌∙◌, arith, ◌⊎◌, ltb, Bool-cases, inl,
  inr,
}
use tauos.Bits.{◌<<◌}
use tauos.Bits.Masks.{or_fields, or_comm}
use tauos.Bits.Field.{asr, and_field}
use tauos.Paging.{table_index, recur_to_pte, recur_to_pde, recur_to_pdpte, recur_to_pml4e}
use tauos.Paging.Indices.{index_1, index_2, index_3, index_4}

-- The part that the entry's address takes from the address translated.
walk_part : (a : ℕ) → bit_and (asr a 9) (2 ^ 39 - 2 ^ 3) ≡ a / 2 ^ 12 % 2 ^ 36 * 2 ^ 3
walk_part a =
    and_field 3 36 (asr a 9)
    ∙ ap (λ (t : ℕ). t * 2 ^ 3)
        (elim (Bool-cases (ltb a (2 ^ 63))) [
          | inl low ↦ rw low (omega arith)
          | inr high ↦ rw high (omega arith)
        ])

-- The part that holds the recursive index, sign extended.
slot_part :
    (r : ℕ)
    → r < 512
    → (q : ℕ) × ((asr (r << 55) 16 ≡ q * 2 ^ 39)
        × ((q % 512 ≡ r) × ((q / 256 ≡ 0) ⊎ (q / 256 ≡ 2 ^ 17 - 1))))
slot_part r l =
    let e : (r << 55) ≡ r * 2 ^ 55 = mod-eq_of_lt (omega arith) in
    rw e (elim (Bool-cases (ltb (r * 2 ^ 55) (2 ^ 63))) [
      | inl low ↦ rw low (r, (omega arith, (omega arith, inl (ground arith))))
      | inr high ↦ rw high (r + (2 ^ 25 - 2 ^ 9), (omega arith, (omega arith, inr (ground arith))))
    ])

-- The fields of an entry's address.
recur-fields :
    (a r : ℕ)
    → r < 512
    → (q : ℕ) × ((recur_to_pte a r ≡ q * 2 ^ 39 + a / 2 ^ 12 % 2 ^ 36 * 2 ^ 3)
        × ((q % 512 ≡ r) × ((q / 256 ≡ 0) ⊎ (q / 256 ≡ 2 ^ 17 - 1))))
unfolding recur_to_pte
recur-fields a r l =
    let (q, (slot, low)) = slot_part r l in
    (q, (rw (walk_part a, slot) (or_comm _ (q * 2 ^ 39) ∙ or_fields 39 q _ (omega arith)), low))

-- The bits above bit 46 are equal.
abbrev pub IsCanonical : ℕ → Type 0
IsCanonical a = (a / 2 ^ 47 ≡ 0) ⊎ (a / 2 ^ 47 ≡ 2 ^ 17 - 1)

-- For a recursive index below 512, the address that recur_to_pte gives walks through the recursive
-- slot and then along the tables of the given address: its index at level 4 is the recursive index,
-- its indices at levels 3, 2 and 1 are the address's at levels 4, 3 and 2, its offset in the page
-- is 8 times the address's index at level 1, and it is canonical.
pub recur_to_pte-walk :
    (a r : ℕ)
    → r < 512
    → ((table_index (recur_to_pte a r) 4 ≡ r)
        × (table_index (recur_to_pte a r) 3 ≡ table_index a 4))
      × (((table_index (recur_to_pte a r) 2 ≡ table_index a 3)
            × (table_index (recur_to_pte a r) 1 ≡ table_index a 2))
          × ((recur_to_pte a r % 2 ^ 12 ≡ 8 * table_index a 1) × IsCanonical (recur_to_pte a r)))
recur_to_pte-walk a r l =
    let (q, (e, (low, top))) = recur-fields a r l in
    rw
      (
        index_4 (recur_to_pte a r),
        index_3 (recur_to_pte a r),
        index_2 (recur_to_pte a r),
        index_1 (recur_to_pte a r),
        index_4 a,
        index_3 a,
        index_2 a,
        index_1 a,
        e,
      )
      (
        (omega (arith, low), omega arith),
        (
          (omega arith, omega arith),
          (
            omega arith,
            elim top [ inl z ↦ inl (omega (arith, z)) | inr z ↦ inr (omega (arith, z)) ],
          ),
        ),
      )

-- For a recursive index below 512, the address that recur_to_pml4e gives has the recursive index at
-- all four levels, its offset in the page is 8 times the given address's index at level 4, and it
-- is canonical.
pub recur_to_pml4e-walk :
    (a r : ℕ)
    → r < 512
    → ((table_index (recur_to_pml4e a r) 4 ≡ r) × (table_index (recur_to_pml4e a r) 3 ≡ r))
      × (((table_index (recur_to_pml4e a r) 2 ≡ r) × (table_index (recur_to_pml4e a r) 1 ≡ r))
          × ((recur_to_pml4e a r % 2 ^ 12 ≡ 8 * table_index a 4)
              × IsCanonical (recur_to_pml4e a r)))
unfolding recur_to_pml4e recur_to_pdpte recur_to_pde
recur_to_pml4e-walk a r l =
    let b = recur_to_pte a r in
    let c = recur_to_pte (recur_to_pte a r) r in
    let d = recur_to_pte (recur_to_pte (recur_to_pte a r) r) r in
    let ((a4, a3), ((a2, a1), (a0, ka))) = recur_to_pte-walk a r l in
    let ((b4, b3), ((b2, b1), (b0, kb))) = recur_to_pte-walk b r l in
    let ((c4, c3), ((c2, c1), (c0, kc))) = recur_to_pte-walk c r l in
    let ((d4, d3), ((d2, d1), (d0, kd))) = recur_to_pte-walk d r l in
    (
      (d4, d3 ∙ c4),
      ((d2 ∙ c3 ∙ b4, d1 ∙ c2 ∙ b3 ∙ a4), (d0 ∙ ap (λ (t : ℕ). 8 * t) (c1 ∙ b2 ∙ a3), kd)),
    )
