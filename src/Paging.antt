-- ===== src/Paging.antt =====
-- amd64/src/paging.rs: indices into page tables, the recursive addresses of their entries, and the
-- encoding of entries and of the page attribute table. Addresses are words; where the source
-- computes on `isize`, a word stands for its two's complement.
pub mod Indices
pub mod Recursive
pub mod Entries
pub mod Attributes
pub mod Examples
use tauos.Base.{
  ℕ, ◌+◌, ◌-◌, ◌*◌, ◌/◌, ◌%◌, ◌^◌, bit_and, bit_or, Bool, ◌==◌, ◌!=◌, if◌then◌else◌, Option, some,
  none,
}
use tauos.Bits.{modulus, not64, ◌<<◌, ◌>>>◌}
use tauos.Bits.Field.{asr}

abbrev pub pml4_idx_mask : ℕ
pml4_idx_mask = 511 * 2 ^ 39

abbrev pub lower_half : ℕ
lower_half = 2 ^ 47

-- `-LOWER_HALF`
abbrev pub higher_half : ℕ
higher_half = modulus - 2 ^ 47

abbrev pub pte_size : ℕ
pte_size = 2 ^ 12

abbrev pub pde_size : ℕ
pde_size = 2 ^ 21

abbrev pub pdpte_size : ℕ
pdpte_size = 2 ^ 30

abbrev pub pml4e_size : ℕ
pml4e_size = 2 ^ 39

unfoldable pub page_size : ℕ → ℕ
page_size lvl = 8 << (lvl * 9)

unfoldable pub table_index : (laddr lvl : ℕ) → ℕ
table_index laddr lvl = bit_and (asr laddr (lvl * 9 + 3)) 511

unfoldable pub set_pml4_idx : (laddr guest_idx : ℕ) → ℕ
set_pml4_idx laddr guest_idx =
    bit_or (bit_and laddr (not64 pml4_idx_mask)) (bit_and (guest_idx << 39) pml4_idx_mask)

unfoldable pub recur_to_pte : (laddr rcrsv_idx : ℕ) → ℕ
recur_to_pte laddr rcrsv_idx =
    bit_or (bit_and (asr laddr 9) (not64 (bit_or (bit_or higher_half pml4_idx_mask) 7)))
      (asr (rcrsv_idx << 55) 16)

unfoldable pub recur_to_pde : (laddr rcrsv_idx : ℕ) → ℕ
recur_to_pde laddr rcrsv_idx = recur_to_pte (recur_to_pte laddr rcrsv_idx) rcrsv_idx

unfoldable pub recur_to_pdpte : (laddr rcrsv_idx : ℕ) → ℕ
unfolding recur_to_pde
recur_to_pdpte laddr rcrsv_idx = recur_to_pde (recur_to_pte laddr rcrsv_idx) rcrsv_idx

unfoldable pub recur_to_pml4e : (laddr rcrsv_idx : ℕ) → ℕ
unfolding recur_to_pdpte
recur_to_pml4e laddr rcrsv_idx = recur_to_pdpte (recur_to_pte laddr rcrsv_idx) rcrsv_idx

-- The table that contains an entry: its address, and its number of entries.
unfoldable pub table_of_entry : ℕ → ℕ × ℕ
table_of_entry laddr = (bit_and laddr (not64 4095), 512)

-- `PTE`: its bits.
abbrev pub Pte : Type 0
Pte = ℕ

abbrev pub pte_pwt : Pte
pte_pwt = 2 ^ 3

abbrev pub pte_pcd : Pte
pte_pcd = 2 ^ 4

abbrev pub pte_pat : Pte
pte_pat = 2 ^ 7

abbrev pub pte_pat_ps : Pte
pte_pat_ps = 2 ^ 12

abbrev pub pte_base_mask : Pte
pte_base_mask = 2 ^ 52 - 2 ^ 12

-- `PTE::from_paddr`; `none` where it panics.
unfoldable pub from_paddr : ℕ → Option Pte
from_paddr paddr = if bit_and paddr (not64 pte_base_mask) == 0 then some paddr else none

unfoldable pub get_paddr : Pte → ℕ
get_paddr pte = bit_and pte pte_base_mask

unfoldable pub from_pat : (pat_idx : ℕ) → Bool → Pte
from_pat pat_idx is_hpage =
    let pte1 = if bit_and pat_idx 1 != 0 then bit_or 0 pte_pwt else 0 in
    let pte2 = if bit_and pat_idx 2 != 0 then bit_or pte1 pte_pcd else pte1 in
    if bit_and pat_idx 4 != 0
    then (if is_hpage then bit_or pte2 pte_pat_ps else bit_or pte2 pte_pat)
    else pte2

pub data PatType : Type 0 where
  uncacheable : PatType
  write_combining : PatType
  write_through : PatType
  write_protect : PatType
  write_back : PatType
  uncacheable_minus : PatType

-- `PatType::to_bits`
unfoldable pub to_bits : PatType → ℕ
to_bits uncacheable = 0
to_bits write_combining = 1
to_bits write_through = 4
to_bits write_protect = 5
to_bits write_back = 6
to_bits uncacheable_minus = 7

-- `PatType::from_bits`; `none` where it panics.
unfoldable pub from_bits : ℕ → Option PatType
from_bits code =
    if code == 0
    then some uncacheable
    else if code == 1
    then some write_combining
    else if code == 4
    then some write_through
    else if code == 5
    then some write_protect
    else if code == 6
    then some write_back
    else if code == 7
    then some uncacheable_minus
    else none

-- `[PatType; 4]`
pub record Types : Type 0 where
  pub t0 : PatType
  pub t1 : PatType
  pub t2 : PatType
  pub t3 : PatType

pub record Pat : Type 0 where
  pub std_types : Types
  pub pat_types : Types

abbrev pub reset_types : Types
reset_types = record {
  t0 = write_back;
  t1 = write_through;
  t2 = uncacheable_minus;
  t3 = uncacheable;
}

-- `Pat::default`
abbrev pub default_pat : Pat
default_pat = record { std_types = reset_types; pat_types = reset_types }

infixl 5 ◌>>=◌
abbrev ◌>>=◌ : {A B : Type 0} → Option A → (A → Option B) → Option B
some a >>= f = f a
none >>= f = none

-- `PatType::from_bits((pat_msr >> shift) as u8)`
abbrev pub type_at : (pat_msr shift : ℕ) → Option PatType
type_at pat_msr shift = from_bits ((pat_msr >>> shift) % 2 ^ 8)

-- `Pat::read`, from the value of the register; `none` where it panics.
unfoldable pub read : ℕ → Option Pat
read pat_msr = do
  s0 ← type_at pat_msr 0
  s1 ← type_at pat_msr 8
  s2 ← type_at pat_msr 16
  s3 ← type_at pat_msr 24
  p0 ← type_at pat_msr 32
  p1 ← type_at pat_msr 40
  p2 ← type_at pat_msr 48
  p3 ← type_at pat_msr 56
  some (record {
    std_types = record { t0 = s0; t1 = s1; t2 = s2; t3 = s3 };
    pat_types = record { t0 = p0; t1 = p1; t2 = p2; t3 = p3 };
  })

-- `pat |= (t.to_bits() as u64) << shift`
abbrev pub put : (pat : ℕ) → PatType → (shift : ℕ) → ℕ
put pat t shift = bit_or pat (to_bits t << shift)

-- `Pat::write`: the value that it writes to the register.
unfoldable pub write : Pat → ℕ
write p =
    let std = p.std_types in
    let ext = p.pat_types in
    put
      (put
        (put (put (put (put (put (put 0 std.t0 0) std.t1 8) std.t2 16) std.t3 24) ext.t0 32) ext.t1
          40)
        ext.t2 48)
      ext.t3 56
