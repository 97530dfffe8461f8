-- ===== src/Segmentation/Fields.antt =====
-- The fields of segment selectors (`SegSel`, its bits) and of system segment descriptors.
use tauos.Base.{
  ℕ, ◌+◌, ◌*◌, ◌/◌, ◌%◌, ◌^◌, ◌<◌, ◌≡◌, ◌∙◌, arith, bit_and, bit_or, Bool, ◌==◌, true, false, ◌-◌,
  if◌then◌else◌,
}
use tauos.Bits.{◌<<◌, ◌>>>◌}
use tauos.Bits.Masks.{and_low, and_pow, test_bit-eq-div, or_fields, or_comm}
use tauos.Bits.Field.{or_and, join_field}

-- `SegSel::new_gdt`, with the privilege level's two bits
unfoldable pub new_gdt : (rpl index : ℕ) → ℕ
new_gdt rpl index = bit_or (bit_and rpl 3) (index * 2 ^ 3 % 2 ^ 16)

unfoldable pub new_ldt : (rpl index : ℕ) → ℕ
new_ldt rpl index = bit_or (bit_or (bit_and rpl 3) (index * 2 ^ 3 % 2 ^ 16)) 4

-- The bits of `SegSel::get_rpl`
unfoldable pub get_rpl : ℕ → ℕ
get_rpl sel = bit_and sel 3

unfoldable pub get_index : ℕ → ℕ
get_index sel = sel >>> 3

unfoldable pub get_ti : ℕ → Bool
get_ti sel = bit_and sel 4 == 4

unfoldable pub set_rpl : (sel rpl : ℕ) → ℕ
set_rpl sel rpl = bit_or (bit_and sel (65535 - 3)) rpl

unfoldable pub set_index : (sel index : ℕ) → ℕ
set_index sel index = bit_or (bit_and sel (bit_or 3 4)) (index * 2 ^ 3 % 2 ^ 16)

unfoldable pub set_ti : ℕ → Bool → ℕ
set_ti sel ti = if ti then bit_or sel 4 else bit_and sel (65535 - 4)

gdt_fields : (rpl index : ℕ) → rpl < 4 → index < 2 ^ 13 → new_gdt rpl index ≡ index * 2 ^ 3 + rpl
unfolding new_gdt
gdt_fields rpl index l k =
    let level : bit_and rpl 3 ≡ rpl = and_low 2 rpl ∙ omega arith in
    let place : index * 2 ^ 3 % 2 ^ 16 ≡ index * 2 ^ 3 = omega arith in
    rw (level, place) (or_comm rpl (index * 2 ^ 3) ∙ or_fields 3 index rpl (omega arith))

ldt_fields :
    (rpl index : ℕ) → rpl < 4 → index < 2 ^ 13 → new_ldt rpl index ≡ index * 2 ^ 3 + 4 + rpl
unfolding new_ldt
ldt_fields rpl index l k =
    let e : bit_or (bit_and rpl 3) (index * 2 ^ 3 % 2 ^ 16) ≡ index * 2 ^ 3 + rpl =
      unfold new_gdt in gdt_fields rpl index l k in
    let sum = or_and 16 (index * 2 ^ 3 + rpl) 4 (omega arith) (omega arith) in
    rw e
      (omega (arith, sum, and_pow 2 (index * 2 ^ 3 + rpl), test_bit-eq-div (index * 2 ^ 3 + rpl) 2))

ti_test : (sel : ℕ) → get_ti sel ≡ (sel / 4 % 2 == 1)
unfolding get_ti
ti_test sel = ground (arith, and_pow 2 sel, test_bit-eq-div sel 2)

-- For a privilege level below 4 and an index below 2 ^ 13, the selectors of new_gdt and new_ldt
-- give back the level and the index, and get_ti tells which of the two tables they select.
pub selector_roundtrip :
    (rpl index : ℕ)
    → rpl < 4
    → index < 2 ^ 13
    → (((get_rpl (new_gdt rpl index) ≡ rpl) × (get_index (new_gdt rpl index) ≡ index))
        × (get_ti (new_gdt rpl index) ≡ false))
      × (((get_rpl (new_ldt rpl index) ≡ rpl) × (get_index (new_ldt rpl index) ≡ index))
          × (get_ti (new_ldt rpl index) ≡ true))
unfolding get_rpl get_index
selector_roundtrip rpl index l k =
    let g = gdt_fields rpl index l k in
    let t = ldt_fields rpl index l k in
    (
      (
        (and_low 2 (new_gdt rpl index) ∙ omega (arith, g), omega (arith, g)),
        ti_test (new_gdt rpl index) ∙ ground (arith, g),
      ),
      (
        (and_low 2 (new_ldt rpl index) ∙ omega (arith, t), omega (arith, t)),
        ti_test (new_ldt rpl index) ∙ ground (arith, t),
      ),
    )

-- `SysSegDesc`, less the reserved field, which stays 0
pub record SysSegDesc : Type 0 where
  pub limit_lo : ℕ
  pub base_lo : ℕ
  pub base_mid_0 : ℕ
  pub flags : ℕ
  pub g_limit_hi : ℕ
  pub base_mid_1 : ℕ
  pub base_hi : ℕ

unfoldable pub get_base : SysSegDesc → ℕ
get_base d =
    bit_or (bit_or (bit_or d.base_lo (d.base_mid_0 << 16)) (d.base_mid_1 << 24)) (d.base_hi << 32)

unfoldable pub set_base : SysSegDesc → ℕ → SysSegDesc
set_base d base_laddr = record d {
  base_lo = base_laddr % 2 ^ 16;
  base_mid_0 = (base_laddr >>> 16) % 2 ^ 8;
  base_mid_1 = (base_laddr >>> 24) % 2 ^ 8;
  base_hi = (base_laddr >>> 32) % 2 ^ 32;
}

-- For every system segment descriptor and 64-bit address, get_base after set_base is the address.
pub get_base-set_base : (d : SysSegDesc) (a : ℕ) → a < 2 ^ 64 → get_base (set_base d a) ≡ a
unfolding get_base set_base
get_base-set_base d a l =
    let f16 : ((a / 2 ^ 16 % 2 ^ 8) << 16) ≡ a / 2 ^ 16 % 2 ^ 8 * 2 ^ 16 = omega arith in
    let f24 : ((a / 2 ^ 24 % 2 ^ 8) << 24) ≡ a / 2 ^ 24 % 2 ^ 8 * 2 ^ 24 = omega arith in
    let f32 : ((a / 2 ^ 32 % 2 ^ 32) << 32) ≡ a / 2 ^ 32 % 2 ^ 32 * 2 ^ 32 = omega arith in
    rw
      (
        f16,
        f24,
        f32,
        join_field 16 (a / 2 ^ 16 % 2 ^ 8) (a % 2 ^ 16) (omega arith),
        join_field 24 (a / 2 ^ 24 % 2 ^ 8) (a / 2 ^ 16 % 2 ^ 8 * 2 ^ 16 + a % 2 ^ 16) (omega arith),
        join_field 32 (a / 2 ^ 32 % 2 ^ 32)
            (a / 2 ^ 24 % 2 ^ 8 * 2 ^ 24 + (a / 2 ^ 16 % 2 ^ 8 * 2 ^ 16 + a % 2 ^ 16))
            (omega arith),
      )
      (omega arith)
