-- ===== src/Uart.antt =====
-- kernel/src/out/uart.rs: the serial port. Registers are I/O ports with masks for the bits that the
-- chip's version reserves.
pub mod Safety
pub mod Transmit
pub mod Examples
use tauos.Base.{
  ℕ, zero, suc, ◌+◌, ◌-◌, ◌/◌, ◌%◌, ◌^◌, bit_and, bit_or, List, [], ◌∷◌, Bool, true, false, Option,
  some, none, ◌==◌, ◌!=◌, leb, if◌then◌else◌,
}
use tauos.UartFlags.{
  union, enable_sleep_mode, enable_low_power_mode, fifo_64_bytes_enabled, enable_fifos,
  clear_receive_fifo, clear_transmit_fifo, enable_64_byte_fifo, interrupt_trigger_level_8_32,
  word_length_8_bits, no_parity, divisor_latch_access_bit, data_terminal_ready, request_to_send,
  auxillary_output_1, auxillary_output_2, loopback_enabled, autoflow_control_enabled, data_ready,
  empty_transmitter_holding_register, ier_bits, iir_bits, fcr_bits, lcr_bits, mcr_bits, lsr_bits,
  ier_all, iir_all, fcr_all, lcr_all, mcr_all, lsr_all, msr_all,
}
use tauos.Ports.{Width, w8, Io, ◌>>=◌, ◌>>◌, pure, Hardware, port_out, port_in, IoPort, read, write}

pub data UartChipVersion : Type 0 where
  v8250 v16450 v16550 v16550a v16750 : UartChipVersion

-- The discriminants, by which versions compare.
abbrev pub number : UartChipVersion → ℕ
number v8250 = 8250
number v16450 = 16450
number v16550 = 16550
number v16550a = 16551
number v16750 = 16750

pub data BaudRate : Type 0 where
  br50 br110 br220 br300 br600 br1200 br2400 br4800 br9600 br19200 br38400 br57600 br115200 :
      BaudRate

-- `baud_rate as u32`
abbrev pub baud : BaudRate → ℕ
baud br50 = 50
baud br110 = 110
baud br220 = 220
baud br300 = 300
baud br600 = 600
baud br1200 = 1200
baud br2400 = 2400
baud br4800 = 4800
baud br9600 = 9600
baud br19200 = 19200
baud br38400 = 38400
baud br57600 = 57600
baud br115200 = 115200

-- What `reset_to_default` writes.
abbrev pub default_fcr : ℕ
default_fcr = union (
    fcr_bits enable_fifos
    ∷ fcr_bits clear_receive_fifo
    ∷ fcr_bits clear_transmit_fifo
    ∷ fcr_bits enable_64_byte_fifo
    ∷ fcr_bits interrupt_trigger_level_8_32
    ∷ [])

abbrev pub default_mcr : ℕ
default_mcr = union (
    mcr_bits data_terminal_ready
    ∷ mcr_bits request_to_send
    ∷ mcr_bits auxillary_output_1
    ∷ mcr_bits auxillary_output_2
    ∷ [])

-- `flags.contains(flag)`
abbrev pub contains : ℕ → ℕ → Bool
contains flags flag = bit_and flags flag == flag

pub record UartPort : Type 0 where
  pub thbr : IoPort
  pub rbr : IoPort
  pub dll : IoPort
  pub ier : IoPort
  pub dlh : IoPort
  pub iir : IoPort
  pub fcr : IoPort
  pub lcr : IoPort
  pub mcr : IoPort
  pub lsr : IoPort
  pub msr : IoPort
  pub scr : IoPort

-- `ver >= other`
abbrev pub at_least : UartChipVersion → UartChipVersion → Bool
at_least ver other = leb (number other) (number ver)

abbrev pub ier_mask : UartChipVersion → ℕ
ier_mask ver =
    if at_least ver v16750
    then ier_all
    else bit_and ier_all
        (255 - bit_or (ier_bits enable_sleep_mode) (ier_bits enable_low_power_mode))

abbrev pub iir_mask : UartChipVersion → ℕ
iir_mask ver =
    if at_least ver v16750 then iir_all else bit_and iir_all (255 - iir_bits fifo_64_bytes_enabled)

abbrev pub fcr_mask : UartChipVersion → ℕ
fcr_mask ver = if at_least ver v16550a then fcr_all else 0

abbrev pub mcr_mask : UartChipVersion → ℕ
mcr_mask ver =
    if at_least ver v16750
    then mcr_all
    else bit_and mcr_all (255 - mcr_bits autoflow_control_enabled)

abbrev pub io_port : (port mask : ℕ) → IoPort
io_port port mask = record { width = w8; port = port; mask = mask }

-- `port_addr + offset` on 16-bit port numbers, as a release build wraps it
abbrev pub add16 : (port_addr offset : ℕ) → ℕ
add16 port_addr offset = (port_addr + offset) % 2 ^ 16

-- The registers of a chip, as `UartPort::new` lays them out.
abbrev pub registers : (port_addr : ℕ) → UartChipVersion → UartPort
registers port_addr ver = record {
  thbr = io_port (add16 port_addr 0) 255;
  rbr = io_port (add16 port_addr 0) 255;
  dll = io_port (add16 port_addr 0) 255;
  ier = io_port (add16 port_addr 1) (ier_mask ver);
  dlh = io_port (add16 port_addr 1) 255;
  iir = io_port (add16 port_addr 2) (iir_mask ver);
  fcr = io_port (add16 port_addr 2) (fcr_mask ver);
  lcr = io_port (add16 port_addr 3) lcr_all;
  mcr = io_port (add16 port_addr 4) (mcr_mask ver);
  lsr = io_port (add16 port_addr 5) lsr_all;
  msr = io_port (add16 port_addr 6) msr_all;
  scr = io_port (add16 port_addr 7) 255;
}

-- `test()?` and `Ok`, with `none` for the error
abbrev pub outcome : UartPort → UartChipVersion → Bool → Io (Option (UartPort × UartChipVersion))
outcome uart ver ok = pure (if ok then some (uart, ver) else none)

module _ (hardware : Hardware) where
  -- A chip without a FIFO: whether it has the scratch register.
  abbrev pub identify_by_scratch : (port : ℕ) → Io UartChipVersion
  identify_by_scratch port = do
    port_out w8 (add16 port 7) 0x2a
    scr ← port_in hardware w8 (add16 port 7)
    pure (if scr == 0x2a then v16450 else v8250)

  unfoldable pub identify_uart : (port : ℕ) → Io UartChipVersion
  identify_uart port = do
    port_out w8 (add16 port 2) 0xe7
    iir ← port_in hardware w8 (add16 port 2)
    elim (bit_and iir (2 ^ 6) != 0) [
      | true ↦ pure (
          if bit_and iir (2 ^ 7) != 0
          then (if bit_and iir (2 ^ 5) != 0 then v16750 else v16550a)
          else v16550)
      | false ↦ identify_by_scratch port
    ]

  unfoldable pub set_baud_rate : UartPort → BaudRate → Io (Unit {0})
  set_baud_rate u baud_rate = do
    let devisor_latch_value = 115200 / baud baud_rate % 2 ^ 16
    lcr ← read hardware u.lcr
    write u.lcr (bit_or lcr.0 (lcr_bits divisor_latch_access_bit))
    write u.dll (bit_and devisor_latch_value 255)
    write u.dlh (devisor_latch_value / 2 ^ 8)
    write u.lcr lcr.0
    pure tt

  unfoldable pub reset_to_default : UartPort → Io (Unit {0})
  reset_to_default u = do
    write u.ier 0
    set_baud_rate u br115200
    write u.lcr (bit_or (lcr_bits word_length_8_bits) (lcr_bits no_parity))
    write u.fcr default_fcr
    write u.mcr default_mcr
    pure tt

  -- Whether the chip sends back the byte.
  unfoldable pub test : UartPort → Io Bool
  test u = do
    mcr ← read hardware u.mcr
    write u.mcr (bit_or mcr.0 (mcr_bits loopback_enabled))
    write u.rbr 0x2b
    sent ← read hardware u.thbr
    elim (sent.0 == 0x2b) [ true ↦ write u.mcr mcr.0 >> pure true | false ↦ pure false ]

  unfoldable pub new : (port_addr : ℕ) → Io (Option (UartPort × UartChipVersion))
  new port_addr = do
    ver ← identify_uart port_addr
    let uart = registers port_addr ver
    reset_to_default uart
    ok ← test uart
    outcome uart ver ok

  -- `while !lsr.contains(flag) {}`: whether the flag came within the fuel.
  unfoldable pub wait_for : (fuel : ℕ) → UartPort → (flag : ℕ) → Io Bool
  wait_for zero u flag h = (false, h)
  wait_for (suc fuel) u flag h =
      let r = read hardware u.lsr h in
      elim (contains r.0.0 flag) [ true ↦ (true, r.1) | false ↦ wait_for fuel u flag r.1 ]

  -- The result is false where the fuel runs out.
  unfoldable pub write_byte : (fuel : ℕ) → UartPort → (byte : ℕ) → Io Bool
  write_byte fuel u byte = do
    ready ← wait_for fuel u (lsr_bits empty_transmitter_holding_register)
    elim ready [ true ↦ write u.thbr byte >> pure true | false ↦ pure false ]

  unfoldable pub read_byte : (fuel : ℕ) → UartPort → Io Bool
  read_byte fuel u = do
    ready ← wait_for fuel u (lsr_bits data_ready)
    elim ready [ true ↦ read hardware u.rbr >> pure true | false ↦ pure false ]

  -- `Write::write_str`, with fuel for each byte
  unfoldable pub write_str : (fuel : ℕ) → UartPort → List ℕ → Io Bool
  write_str fuel u [] h = (true, h)
  write_str fuel u (byte ∷ s) h =
      let r = write_byte fuel u byte h in
      elim r.0 [ true ↦ write_str fuel u s r.1 | false ↦ (false, r.1) ]
