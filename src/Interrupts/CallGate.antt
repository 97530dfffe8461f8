-- ===== src/Interrupts/CallGate.antt =====
-- `CallGate`, less the reserved fields and the marker type.
use tauos.Base.{ℕ, ◌%◌, ◌*◌, ◌^◌, Bool, Option, ◌==◌, if◌then◌else◌, bit_and, bit_or}
use tauos.Bits.{◌<<◌, ◌>>>◌}
use tauos.Privilege
use tauos.Privilege.{PrivLvl}
use tauos.Interrupts.{call_gate, ssdt_bits, not8, gate_flag_present, gate_dpl_mask}

pub record CallGate : Type 0 where
  pub isr_ptr_lo : ℕ
  pub selector : ℕ
  pub flags : ℕ
  pub isr_ptr_mid : ℕ
  pub isr_ptr_hi : ℕ

unfoldable pub missing : CallGate
missing = record {
  isr_ptr_lo = 0;
  selector = 0;
  flags = ssdt_bits call_gate;
  isr_ptr_mid = 0;
  isr_ptr_hi = 0;
}

unfoldable pub new : (target_laddr selector : ℕ) → PrivLvl → CallGate
new target_laddr selector priviledge = record {
  isr_ptr_lo = target_laddr % 2 ^ 16;
  selector = selector;
  flags =
      bit_or (bit_or (ssdt_bits call_gate) (Privilege.to_bits priviledge * 2 ^ 5))
        gate_flag_present;
  isr_ptr_mid = (target_laddr >>> 16) % 2 ^ 16;
  isr_ptr_hi = (target_laddr >>> 32) % 2 ^ 32;
}

unfoldable pub get_target : CallGate → ℕ
get_target g = bit_or (bit_or g.isr_ptr_lo (g.isr_ptr_mid << 16)) (g.isr_ptr_hi << 32)

unfoldable pub set_target : CallGate → ℕ → CallGate
set_target g target_laddr = record g {
  isr_ptr_lo = target_laddr % 2 ^ 16;
  isr_ptr_mid = (target_laddr >>> 16) % 2 ^ 16;
  isr_ptr_hi = (target_laddr >>> 32) % 2 ^ 32;
}

unfoldable pub get_dpl : CallGate → Option PrivLvl
get_dpl g = Privilege.from_bits (bit_and g.flags gate_dpl_mask >>> 5)

unfoldable pub set_dpl : CallGate → PrivLvl → CallGate
set_dpl g dpl = record g {
  flags = bit_or (bit_and g.flags (not8 gate_dpl_mask)) (Privilege.to_bits dpl);
}

unfoldable pub is_present : CallGate → Bool
is_present g = bit_and g.flags gate_flag_present == gate_flag_present

unfoldable pub set_present : CallGate → Bool → CallGate
set_present g is_present =
    if is_present
    then record g { flags = bit_or g.flags gate_flag_present }
    else record g { flags = bit_and g.flags (not8 gate_flag_present) }
