-- ===== src/Uart/Transmit.antt =====
-- Setting the baud rate, and sending text.
use tauos.Base.{
  ℕ, zero, suc, ◌+◌, ◌*◌, ◌/◌, ◌%◌, ◌^◌, ◌<◌, ◌≡◌, refl, sym, ap, ◌∙◌, arith, bit_and, bit_or, List,
  [], ◌∷◌, ◌++◌, map, Bool, true, false, Bool-cases, ◌⊎◌, inl, inr,
}
use tauos.Bits.Masks.{and_low, or-lt}
use tauos.UartFlags.{lsr_bits, empty_transmitter_holding_register}
use tauos.Ports.{
  w8, input, output, History, Hardware, read, write, Io, ◌>>=◌, ◌>>◌, pure, port_out, port_in,
}
use mathlib.Core.Bool.{false≢true}
use mathlib.Core.List.{append_assoc, append-nil}
use tauos.Uart.{
  UartChipVersion, UartPort, add16, registers, BaudRate, br50, br110, br220, br300, br600, br1200,
  br2400, br4800, br9600, br19200, br38400, br57600, br115200, baud, contains, set_baud_rate,
  wait_for, write_byte, write_str,
}

divisor-lt : (b : BaudRate) → 115200 / baud b < 2 ^ 16
divisor-lt br50 = omega arith
divisor-lt br110 = omega arith
divisor-lt br220 = omega arith
divisor-lt br300 = omega arith
divisor-lt br600 = omega arith
divisor-lt br1200 = omega arith
divisor-lt br2400 = omega arith
divisor-lt br4800 = omega arith
divisor-lt br9600 = omega arith
divisor-lt br19200 = omega arith
divisor-lt br38400 = omega arith
divisor-lt br57600 = omega arith
divisor-lt br115200 = omega arith

byte_and : (a : ℕ) → a < 256 → bit_and a 255 ≡ a
byte_and a l = and_low 8 a ∙ omega arith

add16-eq : (port_addr k : ℕ) → port_addr + 7 < 2 ^ 16 → k < 8 → add16 port_addr k ≡ port_addr + k
add16-eq port_addr k fits l = omega arith

-- For a port address whose eight registers are 16-bit port numbers: set_baud_rate reads the line
-- control register, writes it back with the divisor latch bit, writes the low and the high byte of
-- 115200 divided by the baud rate to the first two registers, and restores the value that it read;
-- it does nothing else.
pub set_baud_rate_trace :
    (hardware : Hardware) (port_addr : ℕ) (ver : UartChipVersion) (b : BaudRate) (h : History)
    → port_addr + 7 < 2 ^ 16
    → let l = bit_and (hardware h w8 (port_addr + 3)) 255 in
      (lo hi : ℕ) × ((lo + 256 * hi ≡ 115200 / baud b)
        × ((lo < 256)
            × ((hi < 256)
                × ((set_baud_rate hardware (registers port_addr ver) b h).1
                    ≡ output w8 (port_addr + 3) l
                      ∷ output w8 (port_addr + 1) hi
                      ∷ output w8 (port_addr + 0) lo
                      ∷ output w8 (port_addr + 3) (bit_or l 128)
                      ∷ input w8 (port_addr + 3) l
                      ∷ h))))
unfolding set_baud_rate ◌>>=◌ pure port_out port_in
set_baud_rate_trace hardware port_addr ver b h fits =
    let x = hardware h w8 (port_addr + 3) in
    let d = 115200 / baud b in
    let l = bit_and x 255 in
    let l-lt : l < 256 = rw (and_low 8 x) (omega arith) in
    let small : d % 2 ^ 16 ≡ d = omega (arith, divisor-lt b) in
    let lo : bit_and (bit_and (d % 2 ^ 16) 255) 255 ≡ d % 256 =
      rw (small, and_low 8 d) (byte_and (d % 256) (omega arith)) in
    let hi : bit_and (d % 2 ^ 16 / 2 ^ 8) 255 ≡ d / 256 =
      rw small (byte_and (d / 256) (omega (arith, divisor-lt b))) in
    (
      d % 256,
      d / 256,
      (
        omega arith,
        (
          omega arith,
          (
            omega (arith, divisor-lt b),
            rw
                (
                  add16-eq port_addr 0 fits (omega arith),
                  add16-eq port_addr 1 fits (omega arith),
                  add16-eq port_addr 3 fits (omega arith),
                  byte_and l l-lt,
                  byte_and l l-lt,
                  lo,
                  hi,
                  byte_and (bit_or l 128) (or-lt 8 l 128 l-lt (omega arith)),
                )
                refl,
          ),
        ),
      ),
    )

-- What was sent so far, the port with each value, in the order of time.
unfoldable pub sent : History → List (ℕ × ℕ)
sent [] = []
sent (input w port value ∷ h) = sent h
sent (output w port value ∷ h) = sent h ++ ((port, value) ∷ [])

-- From this history the transmitter becomes empty within so many reads of the line status.
unfoldable pub AnswersWithin : ℕ → Hardware → UartPort → History → Type 0
AnswersWithin zero hardware u h = ⊥
AnswersWithin (suc fuel) hardware u h =
    let r = read hardware u.lsr h in
    (contains r.0.0 (lsr_bits empty_transmitter_holding_register) ≡ true)
    ⊎ AnswersWithin fuel hardware u r.1

module _ (hardware : Hardware) (u : UartPort) where
  wait_for_lem :
      (fuel : ℕ) (h : History)
      → AnswersWithin fuel hardware u h
      → let r = wait_for hardware fuel u (lsr_bits empty_transmitter_holding_register) h in
        (r.0 ≡ true) × (sent r.1 ≡ sent h)
  unfolding wait_for AnswersWithin sent ◌>>=◌ pure port_in
  wait_for_lem zero h a = absurd a
  wait_for_lem (suc fuel) h (inl ready) = rw (ready, wait_for) (refl, refl)
  wait_for_lem (suc fuel) h (inr later) =
      let r = read hardware u.lsr h in
      elim (Bool-cases (contains r.0.0 (lsr_bits empty_transmitter_holding_register))) [
        | inl e ↦ rw (e, wait_for) (refl, refl)
        | inr e ↦ rw (e, wait_for) (wait_for_lem fuel r.1 later)
      ]

  module _ (fuel : ℕ) (answers : (h : History) → AnswersWithin fuel hardware u h) where
    write_byte_lem :
        (byte : ℕ) (h : History)
        → let r = write_byte hardware fuel u byte h in
          (r.0 ≡ true) × (sent r.1 ≡ sent h ++ ((u.thbr.port, bit_and byte u.thbr.mask) ∷ []))
    unfolding write_byte sent ◌>>=◌ pure port_out
    write_byte_lem byte h =
        let flag = lsr_bits empty_transmitter_holding_register in
        let waited = wait_for_lem fuel h (answers h) in
        after (wait_for hardware fuel u flag h).0 (wait_for hardware fuel u flag h).1 waited.0
          waited.1
      where
        after :
            (ready : Bool) (g : History)
            → ready ≡ true
            → sent g ≡ sent h
            → let m : Io Bool = elim ready [
              | true ↦ write u.thbr byte >> pure true
              | false ↦ pure false
            ] in
              ((m g).0 ≡ true)
              × (sent (m g).1 ≡ sent h ++ ((u.thbr.port, bit_and byte u.thbr.mask) ∷ []))
        after true g _ same = (
          refl,
          ap (λ (t : List (ℕ × ℕ)). t ++ ((u.thbr.port, bit_and byte u.thbr.mask) ∷ [])) same,
        )
        after false g is_true same = absurd (false≢true is_true)

    -- When from every history the transmitter becomes empty within the number of status reads that
    -- each byte is given, write_str sends the whole text: the values written to ports so far are
    -- followed by the bytes of the text, in order, at the port of the transmit register, under its
    -- mask.
    pub write_str-sent :
        (s : List ℕ) (h : History)
        → let r = write_str hardware fuel u s h in
          (r.0 ≡ true)
          × (sent r.1 ≡ sent h ++ map (λ (b : ℕ). (u.thbr.port, bit_and b u.thbr.mask)) s)
    unfolding write_str
    write_str-sent [] h = (refl, sym (append-nil (sent h)))
    write_str-sent (byte ∷ s) h =
        let first = write_byte_lem byte h in
        let rest = write_str-sent s (write_byte hardware fuel u byte h).1 in
        rw (first.0, write_str)
          (
            rest.0,
            rest.1
                ∙ ap
                    (λ (t : List (ℕ × ℕ)).
                      t ++ map (λ (b : ℕ). (u.thbr.port, bit_and b u.thbr.mask)) s)
                    first.1
                ∙ append_assoc (sent h) ((u.thbr.port, bit_and byte u.thbr.mask) ∷ [])
                    (map (λ (b : ℕ). (u.thbr.port, bit_and b u.thbr.mask)) s),
          )
