-- ===== src/Uart/Examples.antt =====
-- Uses of the theorems at given chips, and tests.
use tauos.Base.{
  ℕ, ◌+◌, ◌*◌, ◌/◌, ◌<◌, ◌≡◌, refl, arith, bit_and, bit_or, List, [], ◌∷◌, ◌++◌, map, true, inl,
  inr,
}
use tauos.Ports.{w8, Event, input, output, History, Hardware, ◌>>=◌, pure, port_in, port_out}
use tauos.Ports.Trace.{AllEvents}
use tauos.Uart.{
  v16750, v8250, registers, br9600, baud, identify_uart, new, set_baud_rate, write_str,
}
use tauos.Uart.Safety.{IsSafe, new-IsSafe}
use tauos.Uart.Transmit.{set_baud_rate_trace, sent, AnswersWithin, write_str-sent}

-- A chip that answers every read with the same byte: 0xff is a 16750, 0 an 8250.
abbrev constant : ℕ → Hardware
constant value h w port = value

-- The transmitter is empty at every other read.
abbrev alternating : Hardware
alternating [] w port = 0
alternating (input v p value ∷ h) w port = 0xff
alternating (output v p value ∷ h) w port = 0

test_16750 : (identify_uart (constant 0xff) 0x3f8 []).0 ≡ v16750
unfolding identify_uart ◌>>=◌ pure port_in port_out
test_16750 = refl

test_8250 : (identify_uart (constant 0) 0x3f8 []).0 ≡ v8250
unfolding identify_uart ◌>>=◌ pure port_in port_out
test_8250 = refl

new-IsSafe_example :
    (es : List Event) × (((new (constant 0x2b) 0x3f8 []).1
        ≡ es ++ (identify_uart (constant 0x2b) 0x3f8 []).1)
      × AllEvents (IsSafe 0x3f8 (identify_uart (constant 0x2b) 0x3f8 []).0) es)
new-IsSafe_example = new-IsSafe (constant 0x2b) 0x3f8 [] (omega arith)

set_baud_rate_trace_example :
    (lo hi : ℕ) × ((lo + 256 * hi ≡ 115200 / baud br9600)
      × ((lo < 256)
          × ((hi < 256)
              × ((set_baud_rate (constant 3) (registers 0x3f8 v16750) br9600 []).1
                  ≡ output w8 0x3fb 3
                    ∷ output w8 0x3f9 hi
                    ∷ output w8 0x3f8 lo
                    ∷ output w8 0x3fb (bit_or 3 128)
                    ∷ input w8 0x3fb 3
                    ∷ []))))
set_baud_rate_trace_example = set_baud_rate_trace (constant 3) 0x3f8 v16750 br9600 [] (omega arith)

alternates : (h : History) → AnswersWithin 2 alternating (registers 0x3f8 v16750) h
unfolding AnswersWithin ◌>>=◌ pure port_in
alternates [] = inr (inl refl)
alternates (input v p value ∷ h) = inl refl
alternates (output v p value ∷ h) = inr (inl refl)

write_str-sent_example :
    let r = write_str alternating 2 (registers 0x3f8 v16750) (72 ∷ 105 ∷ []) [] in
    (r.0 ≡ true)
    × (sent r.1
        ≡ sent []
          ++ map (λ (b : ℕ). ((registers 0x3f8 v16750).thbr.port, bit_and b 255)) (72 ∷ 105 ∷ []))
write_str-sent_example =
    write_str-sent alternating (registers 0x3f8 v16750) 2 alternates (72 ∷ 105 ∷ []) []
