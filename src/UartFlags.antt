-- ===== src/UartFlags.antt =====
-- kernel/src/out/uart.rs: the flags of the serial port's registers, each with the bits that its
-- constant has.
use tauos.Base.{ℕ, ◌^◌, bit_or, List, [], ◌∷◌}

-- `flags | ...`
abbrev pub union : List ℕ → ℕ
union [] = 0
union (b ∷ bs) = bit_or b (union bs)

-- Interrupt enable register
pub data Ier : Type 0 where
  received_data_available_interrupt : Ier
  transmitter_holding_register_empty_interrupt : Ier
  receiver_line_status_interrupt : Ier
  modem_status_interrupt : Ier
  enable_sleep_mode : Ier
  enable_low_power_mode : Ier

abbrev pub ier_bits : Ier → ℕ
ier_bits received_data_available_interrupt = 2 ^ 0
ier_bits transmitter_holding_register_empty_interrupt = 2 ^ 1
ier_bits receiver_line_status_interrupt = 2 ^ 2
ier_bits modem_status_interrupt = 2 ^ 3
ier_bits enable_sleep_mode = 2 ^ 4
ier_bits enable_low_power_mode = 2 ^ 5

-- `IER::all()`
abbrev pub ier_all : ℕ
ier_all = union (
    ier_bits received_data_available_interrupt
    ∷ ier_bits transmitter_holding_register_empty_interrupt
    ∷ ier_bits receiver_line_status_interrupt
    ∷ ier_bits modem_status_interrupt
    ∷ ier_bits enable_sleep_mode
    ∷ ier_bits enable_low_power_mode
    ∷ [])

-- Interrupt identification register
pub data Iir : Type 0 where
  interrupt_not_pending pending_interrupt_mask time_out_interrupt line_status_change : Iir
  received_data_available transmitter_holding_register_empty modem_status : Iir
  fifo_64_bytes_enabled fifo_state_mask fifo_enabled fifo_nonfunctional no_fifo : Iir

abbrev pub iir_bits : Iir → ℕ
iir_bits interrupt_not_pending = 0x01
iir_bits pending_interrupt_mask = 0x0e
iir_bits time_out_interrupt = 0x0c
iir_bits line_status_change = 0x06
iir_bits received_data_available = 0x04
iir_bits transmitter_holding_register_empty = 0x02
iir_bits modem_status = 0
iir_bits fifo_64_bytes_enabled = 0x20
iir_bits fifo_state_mask = 0xc0
iir_bits fifo_enabled = 0xc0
iir_bits fifo_nonfunctional = 0x80
iir_bits no_fifo = 0

-- `IIR::all()`
abbrev pub iir_all : ℕ
iir_all = union (
    iir_bits interrupt_not_pending
    ∷ iir_bits pending_interrupt_mask
    ∷ iir_bits time_out_interrupt
    ∷ iir_bits line_status_change
    ∷ iir_bits received_data_available
    ∷ iir_bits transmitter_holding_register_empty
    ∷ iir_bits modem_status
    ∷ iir_bits fifo_64_bytes_enabled
    ∷ iir_bits fifo_state_mask
    ∷ iir_bits fifo_enabled
    ∷ iir_bits fifo_nonfunctional
    ∷ iir_bits no_fifo
    ∷ [])

-- FIFO control register
pub data Fcr : Type 0 where
  enable_fifos clear_receive_fifo clear_transmit_fifo enable_64_byte_fifo : Fcr
  interrupt_trigger_level_mask interrupt_trigger_level_1_1 : Fcr
  interrupt_trigger_level_4_16 interrupt_trigger_level_8_32 interrupt_trigger_level_14_56 : Fcr

abbrev pub fcr_bits : Fcr → ℕ
fcr_bits enable_fifos = 2 ^ 0
fcr_bits clear_receive_fifo = 2 ^ 1
fcr_bits clear_transmit_fifo = 2 ^ 2
fcr_bits enable_64_byte_fifo = 2 ^ 5
fcr_bits interrupt_trigger_level_mask = 0xc0
fcr_bits interrupt_trigger_level_1_1 = 0
fcr_bits interrupt_trigger_level_4_16 = 0x40
fcr_bits interrupt_trigger_level_8_32 = 0x80
fcr_bits interrupt_trigger_level_14_56 = 0xc0

-- `FCR::all()`
abbrev pub fcr_all : ℕ
fcr_all = union (
    fcr_bits enable_fifos
    ∷ fcr_bits clear_receive_fifo
    ∷ fcr_bits clear_transmit_fifo
    ∷ fcr_bits enable_64_byte_fifo
    ∷ fcr_bits interrupt_trigger_level_mask
    ∷ fcr_bits interrupt_trigger_level_1_1
    ∷ fcr_bits interrupt_trigger_level_4_16
    ∷ fcr_bits interrupt_trigger_level_8_32
    ∷ fcr_bits interrupt_trigger_level_14_56
    ∷ [])

-- Line control register
pub data Lcr : Type 0 where
  word_length_mask word_length_5_bits word_length_6_bits word_length_7_bits : Lcr
  word_length_8_bits stop_bit_len_2 parity_enabled parity_type_mask no_parity odd_parity : Lcr
  even_parity mark_parity space_parity enable_break_signal divisor_latch_access_bit : Lcr

abbrev pub lcr_bits : Lcr → ℕ
lcr_bits word_length_mask = 3
lcr_bits word_length_5_bits = 0
lcr_bits word_length_6_bits = 1
lcr_bits word_length_7_bits = 2
lcr_bits word_length_8_bits = 3
lcr_bits stop_bit_len_2 = 2 ^ 2
lcr_bits parity_enabled = 2 ^ 3
lcr_bits parity_type_mask = 0x38
lcr_bits no_parity = 0
lcr_bits odd_parity = 0x08
lcr_bits even_parity = 0x18
lcr_bits mark_parity = 0x28
lcr_bits space_parity = 0x38
lcr_bits enable_break_signal = 2 ^ 6
lcr_bits divisor_latch_access_bit = 2 ^ 7

-- `LCR::all()`; the flags left out are parts of these.
abbrev pub lcr_all : ℕ
lcr_all = union (
    lcr_bits word_length_mask
    ∷ lcr_bits stop_bit_len_2
    ∷ lcr_bits parity_enabled
    ∷ lcr_bits parity_type_mask
    ∷ lcr_bits enable_break_signal
    ∷ lcr_bits divisor_latch_access_bit
    ∷ [])

-- Modem control register
pub data Mcr : Type 0 where
  data_terminal_ready request_to_send auxillary_output_1 auxillary_output_2 : Mcr
  loopback_enabled autoflow_control_enabled : Mcr

abbrev pub mcr_bits : Mcr → ℕ
mcr_bits data_terminal_ready = 2 ^ 0
mcr_bits request_to_send = 2 ^ 1
mcr_bits auxillary_output_1 = 2 ^ 2
mcr_bits auxillary_output_2 = 2 ^ 3
mcr_bits loopback_enabled = 2 ^ 4
mcr_bits autoflow_control_enabled = 2 ^ 5

-- `MCR::all()`
abbrev pub mcr_all : ℕ
mcr_all = union (
    mcr_bits data_terminal_ready
    ∷ mcr_bits request_to_send
    ∷ mcr_bits auxillary_output_1
    ∷ mcr_bits auxillary_output_2
    ∷ mcr_bits loopback_enabled
    ∷ mcr_bits autoflow_control_enabled
    ∷ [])

-- Line status register
pub data Lsr : Type 0 where
  data_ready overrun_error parity_error framing_error break_interrupt : Lsr
  empty_transmitter_holding_register empty_data_holding_registers : Lsr
  fifo_received_erroneous_data : Lsr

abbrev pub lsr_bits : Lsr → ℕ
lsr_bits data_ready = 2 ^ 0
lsr_bits overrun_error = 2 ^ 1
lsr_bits parity_error = 2 ^ 2
lsr_bits framing_error = 2 ^ 3
lsr_bits break_interrupt = 2 ^ 4
lsr_bits empty_transmitter_holding_register = 2 ^ 5
lsr_bits empty_data_holding_registers = 2 ^ 6
lsr_bits fifo_received_erroneous_data = 2 ^ 7

-- `LSR::all()`
abbrev pub lsr_all : ℕ
lsr_all = union (
    lsr_bits data_ready
    ∷ lsr_bits overrun_error
    ∷ lsr_bits parity_error
    ∷ lsr_bits framing_error
    ∷ lsr_bits break_interrupt
    ∷ lsr_bits empty_transmitter_holding_register
    ∷ lsr_bits empty_data_holding_registers
    ∷ lsr_bits fifo_received_erroneous_data
    ∷ [])

-- Modem status register
pub data Msr : Type 0 where
  delta_clear_to_send delta_data_set_ready trailing_edge_ring_detector : Msr
  delta_carrier_detect clear_to_send data_set_ready ring_indicator carrier_detect : Msr

abbrev pub msr_bits : Msr → ℕ
msr_bits delta_clear_to_send = 2 ^ 0
msr_bits delta_data_set_ready = 2 ^ 1
msr_bits trailing_edge_ring_detector = 2 ^ 2
msr_bits delta_carrier_detect = 2 ^ 3
msr_bits clear_to_send = 2 ^ 4
msr_bits data_set_ready = 2 ^ 5
msr_bits ring_indicator = 2 ^ 6
msr_bits carrier_detect = 2 ^ 7

-- `MSR::all()`
abbrev pub msr_all : ℕ
msr_all = union (
    msr_bits delta_clear_to_send
    ∷ msr_bits delta_data_set_ready
    ∷ msr_bits trailing_edge_ring_detector
    ∷ msr_bits delta_carrier_detect
    ∷ msr_bits clear_to_send
    ∷ msr_bits data_set_ready
    ∷ msr_bits ring_indicator
    ∷ msr_bits carrier_detect
    ∷ [])
