-- ===== src/Uart/Safety.antt =====
-- What is written to a chip's registers once its version is known.
use tauos.Base.{
  ℕ, ◌+◌, ◌^◌, ◌≤◌, ◌<◌, ◌≡◌, refl, arith, bit_and, List, ◌++◌, Bool, true, false, ◌==◌, ◌≢◌,
}
use tauos.Bits.Digits.{test_bit-and, test_bit_ext}
use tauos.Bits.Masks.{and-zero}
use tauos.UartFlags.{lcr_all}
use tauos.Ports.{w8, Event, input, output, Io, Hardware, History, ◌>>=◌, ◌>>◌, pure, read, write}
use tauos.Ports.Trace.{AllEvents, Emits, Emits-bind, Emits-pure, Emits-write, Emits-read}
use tauos.Uart.{
  UartChipVersion, v16550a, v16750, at_least, fcr_mask, mcr_mask, registers, BaudRate, br115200,
  io_port, add16, outcome, set_baud_rate, reset_to_default, test, identify_uart, new,
}

and_assoc : (a b c : ℕ) → bit_and (bit_and a b) c ≡ bit_and a (bit_and b c)
and_assoc a b c = test_bit_ext _ _ (λ i.
    rw
      (
        test_bit-and (bit_and a b) c i,
        test_bit-and a b i,
        test_bit-and a (bit_and b c) i,
        test_bit-and b c i,
      )
      (omega arith))

-- The access is to one of the chip's eight registers, a chip without a working FIFO gets no bit set
-- in its FIFO control register, and one older than the 16750 no autoflow control.
unfoldable pub IsSafe : (port_addr : ℕ) → UartChipVersion → Event → Type 0
IsSafe port_addr ver (input w port value) = (w ≡ w8) × ((port_addr ≤ port) × (port < port_addr + 8))
IsSafe port_addr ver (output w port value) =
    ((w ≡ w8) × ((port_addr ≤ port) × (port < port_addr + 8)))
    × ((at_least ver v16550a ≡ false → port ≡ port_addr + 2 → value ≡ 0)
        × (at_least ver v16750 ≡ false → port ≡ port_addr + 4 → bit_and value 32 ≡ 0))

module _ (port_addr : ℕ) (ver : UartChipVersion) (fits : port_addr + 7 < 2 ^ 16) where
  fcr_safe : (v : ℕ) → at_least ver v16550a ≡ false → bit_and v (fcr_mask ver) ≡ 0
  fcr_safe v e = rw e (and-zero v)

  mcr_safe : (v : ℕ) → at_least ver v16750 ≡ false → bit_and (bit_and v (mcr_mask ver)) 32 ≡ 0
  mcr_safe v e = rw (e, and_assoc v 31 32) (and-zero v)

  abbrev Keeps : {A : Type 0} → Io A → Type 0
  Keeps m = Emits (IsSafe port_addr ver) m

  -- A write to a register that is neither of the two.
  Emits-plain :
      (k mask value : ℕ)
      → k < 8
      → k ≢ 2
      → k ≢ 4
      → Keeps (write (io_port (add16 port_addr k) mask) value)
  unfolding IsSafe
  Emits-plain k mask value l n m = Emits-write _ _ _ (
    (refl, (omega arith, omega arith)),
    ((λ e q. absurd (omega arith)), (λ e q. absurd (omega arith))),
  )

  Emits-fcr : (value : ℕ) → Keeps (write (registers port_addr ver).fcr value)
  unfolding IsSafe
  Emits-fcr value = Emits-write _ _ _ (
    (refl, (omega arith, omega arith)),
    ((λ e q. fcr_safe value e), (λ e q. absurd (omega arith))),
  )

  Emits-mcr : (value : ℕ) → Keeps (write (registers port_addr ver).mcr value)
  unfolding IsSafe
  Emits-mcr value = Emits-write _ _ _ (
    (refl, (omega arith, omega arith)),
    ((λ e q. absurd (omega arith)), (λ e q. mcr_safe value e)),
  )

  module _ (hardware : Hardware) where
    Emits-input : (k mask : ℕ) → k < 8 → Keeps (read hardware (io_port (add16 port_addr k) mask))
    unfolding IsSafe
    Emits-input k mask l = Emits-read hardware _ _ (λ v. (refl, (omega arith, omega arith)))

    Emits-set_baud_rate :
        (b : BaudRate) → Keeps (set_baud_rate hardware (registers port_addr ver) b)
    unfolding set_baud_rate
    Emits-set_baud_rate b = Emits-bind _ _ _ (Emits-input 3 _ (omega arith)) (λ l.
        Emits-bind _ _ _ (Emits-plain 3 _ _ (omega arith) (omega arith) (omega arith)) (λ _.
          Emits-bind _ _ _ (Emits-plain 0 _ _ (omega arith) (omega arith) (omega arith)) (λ _.
            Emits-bind _ _ _ (Emits-plain 1 _ _ (omega arith) (omega arith) (omega arith)) (λ _.
              Emits-bind _ _ _ (Emits-plain 3 _ _ (omega arith) (omega arith) (omega arith))
                (λ _. Emits-pure _ _)))))

    pub Emits-reset_to_default : Keeps (reset_to_default hardware (registers port_addr ver))
    unfolding reset_to_default
    Emits-reset_to_default =
        Emits-bind _ _ _ (Emits-plain 1 _ _ (omega arith) (omega arith) (omega arith)) (λ _.
          Emits-bind _ _ _ (Emits-set_baud_rate br115200) (λ _.
            Emits-bind _ _ _ (Emits-plain 3 lcr_all 3 (omega arith) (omega arith) (omega arith))
              (λ _.
                Emits-bind _ _ _ (Emits-fcr _)
                  (λ _. Emits-bind _ _ _ (Emits-mcr _) (λ _. Emits-pure _ _)))))

    pub Emits-test : Keeps (test hardware (registers port_addr ver))
    unfolding test
    Emits-test = Emits-bind _ _ _ (Emits-input 4 _ (omega arith)) (λ mcr.
        Emits-bind _ _ _ (Emits-mcr _) (λ _.
          Emits-bind _ _ _ (Emits-plain 0 255 0x2b (omega arith) (omega arith) (omega arith)) (λ _.
            Emits-bind _ _ _ (Emits-input 0 _ (omega arith))
              (λ sent. answer mcr.0 (sent.0 == 0x2b)))))
      where
        answer :
            (v : ℕ) (same : Bool)
            → Keeps (elim same [
              | true ↦ write (registers port_addr ver).mcr v >> pure true
              | false ↦ pure false
            ])
        answer v true = Emits-bind _ _ _ (Emits-mcr _) (λ _. Emits-pure _ _)
        answer v false = Emits-pure _ _

    -- What `new` does once it knows the version.
    pub Emits-configure : Keeps (
        reset_to_default hardware (registers port_addr ver)
        >> (test hardware (registers port_addr ver) >>= λ ok.
            outcome (registers port_addr ver) ver ok))
    Emits-configure =
        Emits-bind _ _ _ Emits-reset_to_default
          (λ _. Emits-bind _ _ _ Emits-test (λ ok. Emits-pure _ _))

-- For a port address whose eight registers are 16-bit port numbers: after the chip is identified,
-- everything that new reads or writes is one of the chip's eight registers, a chip without a
-- working FIFO gets only zero written to its FIFO control register, and one older than the 16750
-- gets no autoflow bit in its modem control register, whatever the hardware answers.
pub new-IsSafe :
    (hardware : Hardware) (port_addr : ℕ) (h : History)
    → port_addr + 7 < 2 ^ 16
    → let identified = identify_uart hardware port_addr h in
      (es : List Event) × (((new hardware port_addr h).1 ≡ es ++ identified.1)
        × AllEvents (IsSafe port_addr identified.0) es)
unfolding new Emits ◌>>=◌
new-IsSafe hardware port_addr h fits =
    let identified = identify_uart hardware port_addr h in
    Emits-configure port_addr identified.0 fits hardware identified.1
