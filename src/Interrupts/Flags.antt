-- ===== src/Interrupts/Flags.antt =====
-- The fields of a byte of gate flags.
use tauos.Base.{ℕ, ◌<◌, ◌≡◌, refl, arith, bit_and, bit_or, true, ◌&&◌, ◌==◌, ==_iff}
use tauos.Bits.Table.{all_below, all_below_sound}
use tauos.Interrupts.{not8, gate_flag_present, gate_dpl_mask, gate_ssdt_mask}

-- Replacing the descriptor's type or the present bit leaves the other fields, and a privilege level
-- that is put in unshifted goes to the lowest bits.
fields_table :
    all_below 256 (λ f.
      (bit_and (bit_or f gate_flag_present) gate_flag_present == 128)
      && (bit_and (bit_or f gate_flag_present) gate_dpl_mask == bit_and f gate_dpl_mask)
      && (bit_and (bit_or f gate_flag_present) gate_ssdt_mask == bit_and f gate_ssdt_mask)
      && (bit_and (bit_and f (not8 gate_flag_present)) gate_flag_present == 0)
      && (bit_and (bit_and f (not8 gate_flag_present)) gate_dpl_mask == bit_and f gate_dpl_mask)
      && (bit_and (bit_and f (not8 gate_flag_present)) gate_ssdt_mask == bit_and f gate_ssdt_mask))
    ≡ true
unfolding all_below
fields_table = refl

module _ (f : ℕ) (l : f < 256) where
  row :
      ((bit_and (bit_or f gate_flag_present) gate_flag_present == 128)
        && (bit_and (bit_or f gate_flag_present) gate_dpl_mask == bit_and f gate_dpl_mask)
        && (bit_and (bit_or f gate_flag_present) gate_ssdt_mask == bit_and f gate_ssdt_mask)
        && (bit_and (bit_and f (not8 gate_flag_present)) gate_flag_present == 0)
        && (bit_and (bit_and f (not8 gate_flag_present)) gate_dpl_mask == bit_and f gate_dpl_mask)
        && (bit_and (bit_and f (not8 gate_flag_present)) gate_ssdt_mask
            == bit_and f gate_ssdt_mask))
      ≡ true
  row = all_below_sound 256 _ f fields_table l

  pub present-set : bit_and (bit_or f gate_flag_present) gate_flag_present ≡ 128
  present-set = ground (arith, row)

  pub present_dpl : bit_and (bit_or f gate_flag_present) gate_dpl_mask ≡ bit_and f gate_dpl_mask
  present_dpl = ground (arith, row)

  pub present_ssdt : bit_and (bit_or f gate_flag_present) gate_ssdt_mask ≡ bit_and f gate_ssdt_mask
  present_ssdt = ground (arith, row)

  pub absent-clear : bit_and (bit_and f (not8 gate_flag_present)) gate_flag_present ≡ 0
  absent-clear = ground (arith, row)

  pub absent_dpl :
      bit_and (bit_and f (not8 gate_flag_present)) gate_dpl_mask ≡ bit_and f gate_dpl_mask
  absent_dpl = ground (arith, row)

  pub absent_ssdt :
      bit_and (bit_and f (not8 gate_flag_present)) gate_ssdt_mask ≡ bit_and f gate_ssdt_mask
  absent_ssdt = ground (arith, row)

-- Clearing the privilege level and putting `p` in the lowest bits, as `set_dpl` does.
unshifted_table :
    all_below 256 (λ f.
      all_below 4 (λ p. bit_and (bit_or (bit_and f (not8 gate_dpl_mask)) p) gate_dpl_mask == 0))
    ≡ true
unfolding all_below
unshifted_table = refl

pub unshifted_dpl :
    (f p : ℕ)
    → f < 256
    → p < 4
    → bit_and (bit_or (bit_and f (not8 gate_dpl_mask)) p) gate_dpl_mask ≡ 0
unshifted_dpl f p l k =
    (==_iff _ _).0 (all_below_sound 4 _ p (all_below_sound 256 _ f unshifted_table l) k)
