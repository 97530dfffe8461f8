-- ===== src/Paging/Entries.antt =====
-- Page table entries.
use tauos.Base.{
  ℕ, zero, suc, ◌+◌, ◌*◌, ◌/◌, ◌%◌, ◌^◌, ◌<◌, bit_and, ◌≡◌, refl, ◌∙◌, arith, ltb, ◌==◌, ◌!=◌, ◌&&◌,
  Bool, if◌then◌else◌, true, false, some, none,
}
use tauos.Bits.{modulus, not64}
use tauos.Bits.Field.{and_field, and_complement}
use tauos.Paging.{
  Pte, from_paddr, get_paddr, from_pat, pte_base_mask, pte_pwt, pte_pcd, pte_pat, pte_pat_ps,
}

pub get_paddr-eq : (e : Pte) → get_paddr e ≡ e / 2 ^ 12 % 2 ^ 40 * 2 ^ 12
unfolding get_paddr
get_paddr-eq e = and_field 12 40 e

-- For a 64-bit address, from_paddr returns the address as an entry when it is a multiple of 4096
-- and below 2 ^ 52, and panics otherwise.
pub from_paddr_iff :
    (p : ℕ)
    → p < modulus
    → from_paddr p ≡ (if p % 2 ^ 12 == 0 && ltb p (2 ^ 52) then some p else none)
unfolding from_paddr
from_paddr_iff p l =
    let parts = and_complement 64 p pte_base_mask l (omega arith) in
    let field = and_field 12 40 p in
    let test : (bit_and p (not64 pte_base_mask) == 0) ≡ (p % 2 ^ 12 == 0 && ltb p (2 ^ 52)) =
      ground (arith, parts, field) in
    rw test refl

-- For a multiple of 4096 below 2 ^ 52, from_paddr succeeds, and get_paddr of its entry is the
-- address.
pub get_paddr-from_paddr :
    (p : ℕ) → p % 2 ^ 12 ≡ 0 → p < 2 ^ 52 → (from_paddr p ≡ some p) × (get_paddr p ≡ p)
get_paddr-from_paddr p aligned small = (
  let yes : (p % 2 ^ 12 == 0 && ltb p (2 ^ 52)) ≡ true = ground arith in
      rw (from_paddr_iff p (omega arith), yes) refl,
  get_paddr-eq p ∙ omega arith,
)

-- The index into the page attribute table that the processor reads from a leaf entry.
abbrev pub pat_index : Pte → Bool → ℕ
pat_index e is_hpage =
    (if bit_and e pte_pwt != 0 then 1 else 0)
    + ((if bit_and e pte_pcd != 0 then 2 else 0)
        + (if bit_and e (if is_hpage then pte_pat_ps else pte_pat) != 0 then 4 else 0))

pat_table : ℕ → Bool
pat_table zero = true
pat_table (suc n) =
    (pat_index (from_pat n true) true == n && pat_index (from_pat n false) false == n)
    && pat_table n

pat_table_sound : (n i : ℕ) (h : Bool) → pat_table n ≡ true → i < n → pat_index (from_pat i h) h ≡ i
unfolding pat_table
pat_table_sound zero i h t l = absurd (omega arith)
pat_table_sound (suc n) i true t l = ground (arith, pat_table_sound n i true)
pat_table_sound (suc n) i false t l = ground (arith, pat_table_sound n i false)

-- For an index below 8, the index into the page attribute table that the entry of from_pat encodes,
-- for a page of either kind, is that index.
pub pat_index-from_pat : (i : ℕ) (h : Bool) → i < 8 → pat_index (from_pat i h) h ≡ i
unfolding pat_table from_pat
pat_index-from_pat i h l = pat_table_sound 8 i h refl l
