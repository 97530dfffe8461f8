-- ===== src/Interrupts/IntTrapGate.antt =====
-- `IntTrapGate`: interrupt and trap gates, less the reserved field and the marker type.
use tauos.Base.{
  ℕ, ◌%◌, ◌*◌, ◌^◌, Bool, ◌&&◌, Option, some, none, ◌==◌, ltb, if◌then◌else◌, bit_and, bit_or,
}
use tauos.Bits.{◌<<◌, ◌>>>◌}
use tauos.Privilege
use tauos.Privilege.{PrivLvl}
use tauos.Interrupts.{
  Ssdt, ssdt_bits, ssdt_of_bits, is_int_or_trap, not8, gate_flag_present, gate_dpl_mask,
  gate_ssdt_mask,
}

pub record IntTrapGate : Type 0 where
  pub isr_ptr_lo : ℕ
  pub selector : ℕ
  pub ist : ℕ
  pub flags : ℕ
  pub isr_ptr_mid : ℕ
  pub isr_ptr_hi : ℕ

-- `none` where the assertion fails.
unfoldable pub missing : Ssdt → Option IntTrapGate
missing ssdt =
    if is_int_or_trap ssdt
    then some (record {
      isr_ptr_lo = 0;
      selector = 0;
      ist = 0;
      flags = ssdt_bits ssdt;
      isr_ptr_mid = 0;
      isr_ptr_hi = 0;
    })
    else none

unfoldable pub new : (target_laddr selector ist : ℕ) → Ssdt → PrivLvl → Option IntTrapGate
new target_laddr selector ist ssdt priviledge =
    if ltb ist 8 && is_int_or_trap ssdt
    then some (record {
      isr_ptr_lo = target_laddr % 2 ^ 16;
      selector = selector;
      ist = ist;
      flags =
          bit_or (bit_or (ssdt_bits ssdt) (Privilege.to_bits priviledge * 2 ^ 5)) gate_flag_present;
      isr_ptr_mid = (target_laddr >>> 16) % 2 ^ 16;
      isr_ptr_hi = (target_laddr >>> 32) % 2 ^ 32;
    })
    else none

unfoldable pub get_target : IntTrapGate → ℕ
get_target g = bit_or (bit_or g.isr_ptr_lo (g.isr_ptr_mid << 16)) (g.isr_ptr_hi << 32)

unfoldable pub set_target : IntTrapGate → ℕ → IntTrapGate
set_target g target_laddr = record g {
  isr_ptr_lo = target_laddr % 2 ^ 16;
  isr_ptr_mid = (target_laddr >>> 16) % 2 ^ 16;
  isr_ptr_hi = (target_laddr >>> 32) % 2 ^ 32;
}

unfoldable pub get_ist : IntTrapGate → ℕ
get_ist g = g.ist

unfoldable pub set_ist : IntTrapGate → ℕ → Option IntTrapGate
set_ist g ist = if ltb ist 8 then some (record g { ist = ist }) else none

unfoldable pub get_ssdt : IntTrapGate → Option Ssdt
get_ssdt g = ssdt_of_bits (bit_and g.flags gate_ssdt_mask)

unfoldable pub set_ssdt : IntTrapGate → Ssdt → Option IntTrapGate
set_ssdt g ssdt =
    if is_int_or_trap ssdt
    then some (record g { flags = bit_or (bit_and g.flags (not8 gate_ssdt_mask)) (ssdt_bits ssdt) })
    else none

unfoldable pub get_dpl : IntTrapGate → Option PrivLvl
get_dpl g = Privilege.from_bits (bit_and g.flags gate_dpl_mask >>> 5)

unfoldable pub set_dpl : IntTrapGate → PrivLvl → IntTrapGate
set_dpl g dpl = record g {
  flags = bit_or (bit_and g.flags (not8 gate_dpl_mask)) (Privilege.to_bits dpl);
}

unfoldable pub is_present : IntTrapGate → Bool
is_present g = bit_and g.flags gate_flag_present == gate_flag_present

unfoldable pub set_present : IntTrapGate → Bool → IntTrapGate
set_present g is_present =
    if is_present
    then record g { flags = bit_or g.flags gate_flag_present }
    else record g { flags = bit_and g.flags (not8 gate_flag_present) }
