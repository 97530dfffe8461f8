-- ===== src/Interrupts.antt =====
-- amd64/src/interrupts.rs: the descriptors of the interrupt descriptor table. A gate's flags are a
-- byte: the descriptor's type, the privilege level and whether the gate is present.
pub mod Flags
pub mod IntTrapGate
pub mod CallGate
pub mod Idt
pub mod Gates
pub mod Examples
use tauos.Base.{ℕ, ◌-◌, Bool, true, false, Option, some, none, ◌==◌, if◌then◌else◌, bit_and, bit_or}

abbrev pub gate_flag_present : ℕ
gate_flag_present = 128

abbrev pub gate_dpl_mask : ℕ
gate_dpl_mask = 96

abbrev pub gate_ssdt_mask : ℕ
gate_ssdt_mask = 15

-- `!x` of a `u8`
abbrev pub not8 : ℕ → ℕ
not8 x = 255 - x

pub data Ssdt : Type 0 where
  ldt avl_tss busy_tss call_gate interrupt_gate trap_gate : Ssdt

-- `ssdt as u8`
unfoldable pub ssdt_bits : Ssdt → ℕ
ssdt_bits ldt = 2
ssdt_bits avl_tss = 9
ssdt_bits busy_tss = 11
ssdt_bits call_gate = 12
ssdt_bits interrupt_gate = 14
ssdt_bits trap_gate = 15

-- `Ssdt::from_bits`; `none` where it panics.
unfoldable pub ssdt_of_bits : ℕ → Option Ssdt
ssdt_of_bits from =
    if from == 2
    then some ldt
    else if from == 9
    then some avl_tss
    else if from == 11
    then some busy_tss
    else if from == 12
    then some call_gate
    else if from == 14
    then some interrupt_gate
    else if from == 15
    then some trap_gate
    else none

-- `matches!(ssdt, Ssdt::InterruptGate | Ssdt::TrapGate)`
unfoldable pub is_int_or_trap : Ssdt → Bool
is_int_or_trap interrupt_gate = true
is_int_or_trap trap_gate = true
is_int_or_trap _ = false
