-- ===== src/Interrupts/Idt.antt =====
-- `IDT`: the interrupt descriptor table. A reserved entry is a number of 128 bits.
use tauos.Base.{ℕ, List, [], ◌∷◌, ◌++◌, map, replicate}
use tauos.Interrupts.{interrupt_gate, ssdt_bits}
use tauos.Interrupts.IntTrapGate.{IntTrapGate}

pub record Idt : Type 0 where
  pub div_by_zero_fault : IntTrapGate
  pub debug : IntTrapGate
  pub non_maskable_interrupt : IntTrapGate
  pub break_point_trap : IntTrapGate
  pub overflow_trap : IntTrapGate
  pub bound_range_fault : IntTrapGate
  pub invalid_opcode_fault : IntTrapGate
  pub device_not_available_fault : IntTrapGate
  pub double_fault_abort : IntTrapGate
  pub reserved_0 : ℕ
  pub invalid_tss_fault : IntTrapGate
  pub segment_not_present_fault : IntTrapGate
  pub stack_fault : IntTrapGate
  pub general_protection_fault : IntTrapGate
  pub page_fault : IntTrapGate
  pub reserved_1 : ℕ
  pub x87_fp_fault : IntTrapGate
  pub alignment_check_fault : IntTrapGate
  pub machine_check_abort : IntTrapGate
  pub simd_fp_fault : IntTrapGate
  pub reserved_2 : ℕ
  pub control_protection_fault : IntTrapGate
  pub reserved_3 : List ℕ
  pub hypervisor_injection : IntTrapGate
  pub vmm_communication_fault : IntTrapGate
  pub security : IntTrapGate
  pub reserved_4 : ℕ
  pub interrupts : List IntTrapGate

-- `IntTrapGate::missing(Ssdt::InterruptGate)`, whose assertion holds.
abbrev pub missing_gate : IntTrapGate
missing_gate = record {
  isr_ptr_lo = 0;
  selector = 0;
  ist = 0;
  flags = ssdt_bits interrupt_gate;
  isr_ptr_mid = 0;
  isr_ptr_hi = 0;
}

unfoldable pub empty : Idt
empty = record {
  div_by_zero_fault = missing_gate;
  debug = missing_gate;
  non_maskable_interrupt = missing_gate;
  break_point_trap = missing_gate;
  overflow_trap = missing_gate;
  bound_range_fault = missing_gate;
  invalid_opcode_fault = missing_gate;
  device_not_available_fault = missing_gate;
  double_fault_abort = missing_gate;
  reserved_0 = 0;
  invalid_tss_fault = missing_gate;
  segment_not_present_fault = missing_gate;
  stack_fault = missing_gate;
  general_protection_fault = missing_gate;
  page_fault = missing_gate;
  reserved_1 = 0;
  x87_fp_fault = missing_gate;
  alignment_check_fault = missing_gate;
  machine_check_abort = missing_gate;
  simd_fp_fault = missing_gate;
  reserved_2 = 0;
  control_protection_fault = missing_gate;
  reserved_3 = replicate 6 0;
  hypervisor_injection = missing_gate;
  vmm_communication_fault = missing_gate;
  security = missing_gate;
  reserved_4 = 0;
  interrupts = replicate 224 missing_gate;
}

pub data Entry : Type 0 where
  gate : IntTrapGate → Entry
  reserved : ℕ → Entry

-- The entries in the order of their vectors, as `repr(C)` lays them out.
unfoldable pub entries : Idt → List Entry
entries x =
    (gate x.div_by_zero_fault
      ∷ gate x.debug
      ∷ gate x.non_maskable_interrupt
      ∷ gate x.break_point_trap
      ∷ gate x.overflow_trap
      ∷ gate x.bound_range_fault
      ∷ gate x.invalid_opcode_fault
      ∷ gate x.device_not_available_fault
      ∷ gate x.double_fault_abort
      ∷ reserved x.reserved_0
      ∷ gate x.invalid_tss_fault
      ∷ gate x.segment_not_present_fault
      ∷ gate x.stack_fault
      ∷ gate x.general_protection_fault
      ∷ gate x.page_fault
      ∷ reserved x.reserved_1
      ∷ gate x.x87_fp_fault
      ∷ gate x.alignment_check_fault
      ∷ gate x.machine_check_abort
      ∷ gate x.simd_fp_fault
      ∷ reserved x.reserved_2
      ∷ gate x.control_protection_fault
      ∷ [])
    ++ (map reserved x.reserved_3
        ++ ((gate x.hypervisor_injection
              ∷ gate x.vmm_communication_fault
              ∷ gate x.security
              ∷ reserved x.reserved_4
              ∷ [])
            ++ map gate x.interrupts))
