-- ===== src/Virtdev/Com/Receive.antt =====
-- A byte from the host console, from its arrival to the guest's read of the data port.
use mythril.Prelude.{ℕ, ◌+◌, ◌^◌, ◌<◌, ◌≡◌, refl, ◌∙◌, ap, arith, false, none, some, List, ◌∷◌}
use mythril.Prelude.Word.{u16, wrapping_sub16}
use mythril.Virtdev.PortRead.{PortReadRequest}
use mythril.Virtdev.PortRead.Codec.{filled, copy_from_u32-filled}
use mythril.Virtdev.Event.{DeviceEventResponse, host_uart_received, port_read, gsi}
use mythril.Virtdev.Com.{
  Uart8250, divisor_latch_bit_set, write, on_event, on_port_read, read_data, read_interrupt,
  read_status, line_status, on_host_uart_received, gsi_uart, lsr_offset,
}

-- The port at an offset from the base, and the offset that the device computes back.
abbrev pub port_at : ℕ → ℕ → ℕ
port_at base offset = u16 (base + offset)

at_offset :
    (base offset : ℕ) (self : Uart8250)
    → base < 2 ^ 16
    → offset < 2 ^ 16
    → self.base_port ≡ base
    → wrapping_sub16 (port_at base offset) self.base_port ≡ offset
at_offset base offset self hb ho h = omega arith

-- A read at the data port with a byte waiting, and a read of the line status.
on_event-data :
    (base byte : ℕ) (self : Uart8250) (val : PortReadRequest)
    → base < 2 ^ 16
    → self.base_port ≡ base
    → divisor_latch_bit_set self ≡ false
    → self.receive_buffer ≡ some byte
    → let after = on_event self (port_read (port_at base 0) val) in
      (after.kind ≡ port_read (port_at base 0) (filled val byte))
      × (after.device.receive_buffer ≡ none)
      × (after.device.base_port ≡ base)
unfolding on_event on_port_read read_data read_interrupt read_status
on_event-data base byte self val hb h hl hr =
    let o = at_offset base 0 self hb (omega arith) h in
    rw (o, hl, hr, copy_from_u32-filled val byte) (refl, refl, h)

on_event-status :
    (base : ℕ) (self : Uart8250) (val : PortReadRequest)
    → base < 2 ^ 16
    → self.base_port ≡ base
    → (on_event self (port_read (port_at base lsr_offset) val)).kind
      ≡ port_read (port_at base lsr_offset) (filled val (line_status self))
unfolding on_event on_port_read read_data read_interrupt read_status
on_event-status base self val hb h =
    let o = at_offset base 5 self hb (omega arith) h in
    rw (o, copy_from_u32-filled val (line_status self)) refl

latch_off :
    (self next : Uart8250)
    → next.line_control_register ≡ self.line_control_register
    → divisor_latch_bit_set self ≡ false
    → divisor_latch_bit_set next ≡ false
unfolding divisor_latch_bit_set
latch_off self next h off = rw h off

arrived-keeps :
    (self : Uart8250) (byte : ℕ)
    → let waiting = (on_event self (host_uart_received byte)).device in
      (waiting.base_port ≡ self.base_port)
      × (waiting.line_control_register ≡ self.line_control_register)
      × (waiting.receive_buffer ≡ some byte)
unfolding on_event on_host_uart_received write
arrived-keeps self byte = (refl, refl, refl)

status-waiting :
    (self : Uart8250) (byte : ℕ) → self.receive_buffer ≡ some byte → line_status self ≡ 0x61
unfolding line_status
status-waiting self byte h = rw h refl

status-empty : (self : Uart8250) → self.receive_buffer ≡ none → line_status self ≡ 0x60
unfolding line_status
status-empty self h = rw h refl

on_event-received :
    (self : Uart8250) (byte : ℕ)
    → (rest : List DeviceEventResponse) × ((on_event self (host_uart_received byte)).responses
        ≡ gsi gsi_uart ∷ rest)
unfolding on_event on_host_uart_received
on_event-received self byte = (_, refl)

-- A byte that arrives while the divisor latch is off raises the interrupt line of the UART, shows as
-- data ready in the line status (0x61), and is what the next read of the data port gives; that read
-- takes it away: the line status is then 0x60, with no data ready.
pub received_byte_read_once :
    (self : Uart8250) (byte : ℕ) (val status : PortReadRequest)
    → self.base_port < 2 ^ 16
    → divisor_latch_bit_set self ≡ false
    → let arrived = on_event self (host_uart_received byte) in
      let taken = on_event arrived.device (port_read (port_at self.base_port 0) val) in
      let at_lsr = port_at self.base_port lsr_offset in
      ((rest : List DeviceEventResponse) × (arrived.responses ≡ gsi gsi_uart ∷ rest))
      × ((on_event arrived.device (port_read at_lsr status)).kind
          ≡ port_read at_lsr (filled status 0x61))
      × (taken.kind ≡ port_read (port_at self.base_port 0) (filled val byte))
      × ((on_event taken.device (port_read at_lsr status)).kind
          ≡ port_read at_lsr (filled status 0x60))
received_byte_read_once self byte val status hb hl =
    let base = self.base_port in
    let waiting = (on_event self (host_uart_received byte)).device in
    let kept = arrived-keeps self byte in
    let reading =
      on_event-data base byte waiting val hb kept.0 (latch_off self waiting kept.1 hl) kept.2 in
    let taken = (on_event waiting (port_read (port_at base 0) val)).device in
    (
      on_event-received self byte,
      on_event-status base waiting status hb kept.0
          ∙ ap (λ n. port_read (port_at base lsr_offset) (filled status n))
              (status-waiting waiting byte kept.2),
      reading.0,
      on_event-status base taken status hb reading.2
          ∙ ap (λ n. port_read (port_at base lsr_offset) (filled status n))
              (status-empty taken reading.1),
    )
