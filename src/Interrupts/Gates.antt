-- ===== src/Interrupts/Gates.antt =====
-- What the getters of gates read after the constructors and setters.
use tauos.Base.{
  ℕ, ◌+◌, ◌*◌, ◌/◌, ◌%◌, ◌^◌, ◌<◌, ◌≡◌, refl, arith, bit_and, bit_or, Bool, true, false, some, ◌==◌,
  ltb,
}
use tauos.Bits.{◌<<◌}
use tauos.Bits.Field.{join_field}
use tauos.Privilege
use tauos.Privilege.{PrivLvl, ring0, ring1, ring2, ring3}
use tauos.Interrupts.{
  Ssdt, ldt, avl_tss, busy_tss, call_gate, interrupt_gate, trap_gate, ssdt_bits, ssdt_of_bits,
  is_int_or_trap, gate_flag_present, gate_dpl_mask, gate_ssdt_mask,
}
use tauos.Interrupts.Flags.{
  present-set, present_dpl, present_ssdt, absent-clear, absent_dpl, absent_ssdt, unshifted_dpl,
}
use tauos.Interrupts.IntTrapGate
use tauos.Interrupts.IntTrapGate.{IntTrapGate}
use tauos.Interrupts.CallGate
use tauos.Interrupts.CallGate.{CallGate}

-- The address comes back together from its three parts.
target_join :
    (a : ℕ)
    → a < 2 ^ 64
    → bit_or (bit_or (a % 2 ^ 16) ((a / 2 ^ 16 % 2 ^ 16) << 16)) ((a / 2 ^ 32 % 2 ^ 32) << 32) ≡ a
target_join a l =
    let f16 : ((a / 2 ^ 16 % 2 ^ 16) << 16) ≡ a / 2 ^ 16 % 2 ^ 16 * 2 ^ 16 = omega arith in
    let f32 : ((a / 2 ^ 32 % 2 ^ 32) << 32) ≡ a / 2 ^ 32 % 2 ^ 32 * 2 ^ 32 = omega arith in
    rw
      (
        f16,
        f32,
        join_field 16 (a / 2 ^ 16 % 2 ^ 16) (a % 2 ^ 16) (omega arith),
        join_field 32 (a / 2 ^ 32 % 2 ^ 32) (a / 2 ^ 16 % 2 ^ 16 * 2 ^ 16 + a % 2 ^ 16)
            (omega arith),
      )
      (omega arith)

-- The flags of a new gate.
abbrev pub new_flags : Ssdt → PrivLvl → ℕ
new_flags ssdt priviledge =
    bit_or (bit_or (ssdt_bits ssdt) (Privilege.to_bits priviledge * 2 ^ 5)) gate_flag_present

abbrev pub HasFields : (flags : ℕ) → Ssdt → PrivLvl → Type 0
HasFields flags ssdt priviledge =
    (ssdt_of_bits (bit_and flags gate_ssdt_mask) ≡ some ssdt)
    × ((Privilege.from_bits (bit_and flags gate_dpl_mask / 2 ^ 5) ≡ some priviledge)
        × ((bit_and flags gate_flag_present == gate_flag_present) ≡ true))

pub new_flags-HasFields : (t : Ssdt) (p : PrivLvl) → HasFields (new_flags t p) t p
unfolding ssdt_bits ssdt_of_bits Privilege.to_bits Privilege.from_bits
new_flags-HasFields ldt ring0 = (refl, (refl, refl))
new_flags-HasFields ldt ring1 = (refl, (refl, refl))
new_flags-HasFields ldt ring2 = (refl, (refl, refl))
new_flags-HasFields ldt ring3 = (refl, (refl, refl))
new_flags-HasFields avl_tss ring0 = (refl, (refl, refl))
new_flags-HasFields avl_tss ring1 = (refl, (refl, refl))
new_flags-HasFields avl_tss ring2 = (refl, (refl, refl))
new_flags-HasFields avl_tss ring3 = (refl, (refl, refl))
new_flags-HasFields busy_tss ring0 = (refl, (refl, refl))
new_flags-HasFields busy_tss ring1 = (refl, (refl, refl))
new_flags-HasFields busy_tss ring2 = (refl, (refl, refl))
new_flags-HasFields busy_tss ring3 = (refl, (refl, refl))
new_flags-HasFields call_gate ring0 = (refl, (refl, refl))
new_flags-HasFields call_gate ring1 = (refl, (refl, refl))
new_flags-HasFields call_gate ring2 = (refl, (refl, refl))
new_flags-HasFields call_gate ring3 = (refl, (refl, refl))
new_flags-HasFields interrupt_gate ring0 = (refl, (refl, refl))
new_flags-HasFields interrupt_gate ring1 = (refl, (refl, refl))
new_flags-HasFields interrupt_gate ring2 = (refl, (refl, refl))
new_flags-HasFields interrupt_gate ring3 = (refl, (refl, refl))
new_flags-HasFields trap_gate ring0 = (refl, (refl, refl))
new_flags-HasFields trap_gate ring1 = (refl, (refl, refl))
new_flags-HasFields trap_gate ring2 = (refl, (refl, refl))
new_flags-HasFields trap_gate ring3 = (refl, (refl, refl))

-- For a 64-bit target, a stack index below 8 and the type of an interrupt or trap gate, new gives a
-- gate, and the getters return the target, the selector, the stack index, the type and the
-- privilege level; the gate is present.
pub int_trap_gate-roundtrip :
    (target selector ist : ℕ) (ssdt : Ssdt) (priviledge : PrivLvl)
    → target < 2 ^ 64
    → ist < 8
    → is_int_or_trap ssdt ≡ true
    → (g : IntTrapGate) × ((IntTrapGate.new target selector ist ssdt priviledge ≡ some g)
        × (((IntTrapGate.get_target g ≡ target) × (g.selector ≡ selector))
            × (((IntTrapGate.get_ist g ≡ ist) × (IntTrapGate.get_ssdt g ≡ some ssdt))
                × ((IntTrapGate.get_dpl g ≡ some priviledge) × (IntTrapGate.is_present g ≡ true)))))
unfolding IntTrapGate.new IntTrapGate.get_target IntTrapGate.get_ist IntTrapGate.get_ssdt
    IntTrapGate.get_dpl IntTrapGate.is_present
int_trap_gate-roundtrip target selector ist ssdt priviledge l k m =
    let fields = new_flags-HasFields ssdt priviledge in
    let in_range : ltb ist 8 ≡ true = ground arith in
    (
      record {
        isr_ptr_lo = target % 2 ^ 16;
        selector = selector;
        ist = ist;
        flags = new_flags ssdt priviledge;
        isr_ptr_mid = target / 2 ^ 16 % 2 ^ 16;
        isr_ptr_hi = target / 2 ^ 32 % 2 ^ 32;
      },
      (
        rw (in_range, m) refl,
        ((target_join target l, refl), ((refl, fields.0), (fields.1.0, fields.1.1))),
      ),
    )

-- For a 64-bit target, the getters of a new call gate return the target, the selector and the
-- privilege level, and the gate is present.
pub call_gate-roundtrip :
    (target selector : ℕ) (priviledge : PrivLvl)
    → target < 2 ^ 64
    → let g = CallGate.new target selector priviledge in
      ((CallGate.get_target g ≡ target) × (g.selector ≡ selector))
      × ((CallGate.get_dpl g ≡ some priviledge) × (CallGate.is_present g ≡ true))
unfolding CallGate.new CallGate.get_target CallGate.get_dpl CallGate.is_present
call_gate-roundtrip target selector priviledge l =
    let fields = new_flags-HasFields call_gate priviledge in
    ((target_join target l, refl), (fields.1.0, fields.1.1))

-- For flags of eight bits, set_present sets what is_present reads and leaves the privilege level,
-- the type and the target.
pub set_present_fields :
    (g : IntTrapGate) (v : Bool)
    → g.flags < 256
    → (IntTrapGate.is_present (IntTrapGate.set_present g v) ≡ v)
      × ((IntTrapGate.get_dpl (IntTrapGate.set_present g v) ≡ IntTrapGate.get_dpl g)
          × ((IntTrapGate.get_ssdt (IntTrapGate.set_present g v) ≡ IntTrapGate.get_ssdt g)
              × (IntTrapGate.get_target (IntTrapGate.set_present g v) ≡ IntTrapGate.get_target g)))
unfolding IntTrapGate.set_present IntTrapGate.get_target IntTrapGate.get_ssdt IntTrapGate.get_dpl
    IntTrapGate.is_present
set_present_fields g true l = (
  rw (present-set g.flags l) refl,
  (rw (present_dpl g.flags l) refl, (rw (present_ssdt g.flags l) refl, refl)),
)
set_present_fields g false l = (
  rw (absent-clear g.flags l) refl,
  (rw (absent_dpl g.flags l) refl, (rw (absent_ssdt g.flags l) refl, refl)),
)

lvl-lt : (p : PrivLvl) → Privilege.to_bits p < 4
unfolding Privilege.to_bits
lvl-lt ring0 = omega arith
lvl-lt ring1 = omega arith
lvl-lt ring2 = omega arith
lvl-lt ring3 = omega arith

-- For flags of eight bits, the privilege level of an interrupt or trap gate and of a call gate
-- reads as ring 0 after set_dpl, whatever level was set.
pub set_dpl_lost :
    (g : IntTrapGate) (h : CallGate) (dpl : PrivLvl)
    → g.flags < 256
    → h.flags < 256
    → (IntTrapGate.get_dpl (IntTrapGate.set_dpl g dpl) ≡ some ring0)
      × (CallGate.get_dpl (CallGate.set_dpl h dpl) ≡ some ring0)
unfolding IntTrapGate.set_dpl IntTrapGate.get_dpl CallGate.set_dpl CallGate.get_dpl
    Privilege.from_bits
set_dpl_lost g h dpl l k = (
  rw (unshifted_dpl g.flags (Privilege.to_bits dpl) l (lvl-lt dpl)) refl,
  rw (unshifted_dpl h.flags (Privilege.to_bits dpl) k (lvl-lt dpl)) refl,
)
