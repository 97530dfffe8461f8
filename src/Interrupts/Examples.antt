-- ===== src/Interrupts/Examples.antt =====
-- Uses of the theorems at given gates, and tests.
use tauos.Base.{ℕ, ◌≡◌, refl, arith, true, false, some}
use tauos.Privilege.{ring0, ring3}
use tauos.Interrupts.{interrupt_gate, is_int_or_trap}
use tauos.Interrupts.IntTrapGate
use tauos.Interrupts.IntTrapGate.{IntTrapGate}
use tauos.Interrupts.CallGate
use tauos.Interrupts.CallGate.{CallGate}
use tauos.Interrupts.Gates.{int_trap_gate-roundtrip, set_present_fields, set_dpl_lost}

abbrev handler : ℕ
handler = 0xffff8000deadbeef

abbrev gate : IntTrapGate
gate = record {
  isr_ptr_lo = 0xbeef;
  selector = 8;
  ist = 1;
  flags = 238;
  isr_ptr_mid = 0xdead;
  isr_ptr_hi = 0xffff8000;
}

abbrev call : CallGate
call = record {
  isr_ptr_lo = 0xbeef;
  selector = 8;
  flags = 236;
  isr_ptr_mid = 0xdead;
  isr_ptr_hi = 0xffff8000;
}

int_trap_gate-roundtrip_example :
    (g : IntTrapGate) × ((IntTrapGate.new handler 8 1 interrupt_gate ring3 ≡ some g)
      × (((IntTrapGate.get_target g ≡ handler) × (g.selector ≡ 8))
          × (((IntTrapGate.get_ist g ≡ 1) × (IntTrapGate.get_ssdt g ≡ some interrupt_gate))
              × ((IntTrapGate.get_dpl g ≡ some ring3) × (IntTrapGate.is_present g ≡ true)))))
unfolding is_int_or_trap
int_trap_gate-roundtrip_example =
    int_trap_gate-roundtrip handler 8 1 interrupt_gate ring3 (omega arith) (omega arith) refl

set_present_fields_example :
    (IntTrapGate.is_present (IntTrapGate.set_present gate false) ≡ false)
    × ((IntTrapGate.get_dpl (IntTrapGate.set_present gate false) ≡ IntTrapGate.get_dpl gate)
        × ((IntTrapGate.get_ssdt (IntTrapGate.set_present gate false) ≡ IntTrapGate.get_ssdt gate)
            × (IntTrapGate.get_target (IntTrapGate.set_present gate false)
                ≡ IntTrapGate.get_target gate)))
set_present_fields_example = set_present_fields gate false (omega arith)

set_dpl_lost_example :
    (IntTrapGate.get_dpl (IntTrapGate.set_dpl gate ring3) ≡ some ring0)
    × (CallGate.get_dpl (CallGate.set_dpl call ring3) ≡ some ring0)
set_dpl_lost_example = set_dpl_lost gate call ring3 (omega arith) (omega arith)
