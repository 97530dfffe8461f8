-- ===== src/Paging/Indices.antt =====
-- `table_index`, `set_pml4_idx`, `page_size` and `table_of_entry`.
use tauos.Base.{
  ℕ, ◌+◌, ◌-◌, ◌*◌, ◌/◌, ◌%◌, ◌^◌, ◌≤◌, ◌<◌, bit_and, ◌≡◌, refl, sym, ◌∙◌, arith, ltb, Bool-cases,
  inl, inr,
}
use tauos.Bits.{modulus, not64, ◌<<◌}
use tauos.Bits.Masks.{and_low, and_not_low}
use tauos.Bits.Field.{asr, and_field, and_complement, or_and, and_apart}
use tauos.Paging.{table_index, set_pml4_idx, table_of_entry, pml4_idx_mask}

asr_field :
    (a k c : ℕ)
    → modulus - 2 ^ (64 - k % 64) ≡ 512 * c
    → bit_and (asr a k) 511 ≡ a / 2 ^ (k % 64) % 512
asr_field a k c e = elim (Bool-cases (ltb a (2 ^ 63))) [
  | inl low ↦ rw low (and_low 9 (a / 2 ^ (k % 64)))
  | inr high ↦ rw (high, e) (and_low 9 (a / 2 ^ (k % 64) + 512 * c) ∙ omega arith)
]

pub index_1 : (a : ℕ) → table_index a 1 ≡ a / 2 ^ 12 % 512
unfolding table_index
index_1 a = asr_field a 12 ((modulus - 2 ^ 52) / 512) refl

pub index_2 : (a : ℕ) → table_index a 2 ≡ a / 2 ^ 21 % 512
unfolding table_index
index_2 a = asr_field a 21 ((modulus - 2 ^ 43) / 512) refl

pub index_3 : (a : ℕ) → table_index a 3 ≡ a / 2 ^ 30 % 512
unfolding table_index
index_3 a = asr_field a 30 ((modulus - 2 ^ 34) / 512) refl

pub index_4 : (a : ℕ) → table_index a 4 ≡ a / 2 ^ 39 % 512
unfolding table_index
index_4 a = asr_field a 39 ((modulus - 2 ^ 25) / 512) refl

-- Two addresses of the lower half of the address space with the same table_index at each of the
-- four levels lie in the same page.
pub table_index_unique :
    (a b : ℕ)
    → a < 2 ^ 47
    → b < 2 ^ 47
    → table_index a 4 ≡ table_index b 4
    → table_index a 3 ≡ table_index b 3
    → table_index a 2 ≡ table_index b 2
    → table_index a 1 ≡ table_index b 1
    → a / 2 ^ 12 ≡ b / 2 ^ 12
table_index_unique a b p q e4 e3 e2 e1 = omega (
  arith,
  sym (index_4 a) ∙ e4 ∙ index_4 b,
  sym (index_3 a) ∙ e3 ∙ index_3 b,
  sym (index_2 a) ∙ e2 ∙ index_2 b,
  sym (index_1 a) ∙ e1 ∙ index_1 b,
)

set_pml4_idx-fields :
    (a g : ℕ) → a < modulus → set_pml4_idx a g ≡ a / 2 ^ 48 * 2 ^ 48 + g % 512 * 2 ^ 39 + a % 2 ^ 39
unfolding set_pml4_idx
set_pml4_idx-fields a g l =
    let kept = and_complement 64 a pml4_idx_mask l (omega arith) in
    let field = and_field 39 9 a in
    let new_field = and_field 39 9 (g << 39) in
    let apart = and_apart pml4_idx_mask a (g << 39) (omega arith) l in
    let sum =
      or_and 64 (bit_and a (not64 pml4_idx_mask)) (bit_and (g << 39) pml4_idx_mask)
        (omega (arith, kept)) (omega (arith, new_field)) in
    omega (arith, kept, field, new_field, apart, sum)

-- For a 64-bit address, set_pml4_idx gives the address whose index at level 4 is the new index
-- modulo 512; the indices at the other levels, the offset in the page and the bits from 48 on are
-- those of the old address.
pub set_pml4_idx-index :
    (a g : ℕ)
    → a < modulus
    → ((table_index (set_pml4_idx a g) 4 ≡ g % 512)
        × (table_index (set_pml4_idx a g) 3 ≡ table_index a 3))
      × (((table_index (set_pml4_idx a g) 2 ≡ table_index a 2)
            × (table_index (set_pml4_idx a g) 1 ≡ table_index a 1))
          × ((set_pml4_idx a g % 2 ^ 12 ≡ a % 2 ^ 12) × (set_pml4_idx a g / 2 ^ 48 ≡ a / 2 ^ 48)))
set_pml4_idx-index a g l =
    let e = set_pml4_idx-fields a g l in
    let b = set_pml4_idx a g in
    (
      (index_4 b ∙ omega (arith, e), index_3 b ∙ omega (arith, e) ∙ sym (index_3 a)),
      (
        (
          index_2 b ∙ omega (arith, e) ∙ sym (index_2 a),
          index_1 b ∙ omega (arith, e) ∙ sym (index_1 a),
        ),
        (omega (arith, e), omega (arith, e)),
      ),
    )

-- For a 64-bit address of an entry, table_of_entry gives a page-aligned table whose 512 entries of
-- 8 bytes include that address.
pub table_of_entry-table :
    (a : ℕ)
    → a < modulus
    → ((table_of_entry a).0 % 2 ^ 12 ≡ 0)
      × (((table_of_entry a).0 ≤ a) × (a < (table_of_entry a).0 + 8 * (table_of_entry a).1))
unfolding table_of_entry
table_of_entry-table a l =
    let down = and_not_low 12 a (omega arith) l in
    (omega (arith, down), (omega (arith, down), omega (arith, down)))
