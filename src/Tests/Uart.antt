-- ===== src/Tests/Uart.antt =====
-- mythril/src/virtdev/com.rs at concrete inputs.
use mythril.Prelude.{◌<◌, ◌≤◌, ◌≡◌, refl, arith, List, [], ◌∷◌, none, false, length}
use mythril.Error.{ok}
use mythril.Virtdev.PortRead.{one_byte}
use mythril.Virtdev.PortRead.Codec.{filled}
use mythril.Virtdev.PortWrite
use mythril.Virtdev.Event.{
  DeviceEvent, DeviceEventResponse, host_uart_received, port_read, port_write, gsi,
  max_event_responses,
}
use mythril.Virtdev.Com.{Uart8250, new, divisor_latch_bit_set, on_event, run, gsi_uart, lsr_offset}
use mythril.Virtdev.Com.Receive.{port_at, received_byte_read_once}
use mythril.Virtdev.Com.Console.{console_switches, on_event_console}
use mythril.Virtdev.Com.Latch.{run_latch_never_set}

-- A UART at the port of the first serial line, after two presses of ctrl+a.
abbrev uart : Uart8250
uart = record {
  base_port = 0x3f8;
  divisor = 0;
  receive_buffer = none;
  interrupt_enable_register = 1;
  interrupt_identification_register = 1;
  line_control_register = 0;
  modem_control_register = 0;
  line_status_register = 0;
  modem_status_register = 0;
  scratch_register = 0;
  ctrl_a_count = 2;
}

received_byte_read_once_example :
    let arrived = on_event uart (host_uart_received 0x41) in
    let taken = on_event arrived.device (port_read (port_at 0x3f8 0) (one_byte 0)) in
    let at_lsr = port_at 0x3f8 lsr_offset in
    ((rest : List DeviceEventResponse) × (arrived.responses ≡ gsi gsi_uart ∷ rest))
    × ((on_event arrived.device (port_read at_lsr (one_byte 0))).kind
        ≡ port_read at_lsr (filled (one_byte 0) 0x61))
    × (taken.kind ≡ port_read (port_at 0x3f8 0) (filled (one_byte 0) 0x41))
    × ((on_event taken.device (port_read at_lsr (one_byte 0))).kind
        ≡ port_read at_lsr (filled (one_byte 0) 0x60))
received_byte_read_once_example =
    received_byte_read_once uart 0x41 (one_byte 0) (one_byte 0) (omega arith)
      (unfold divisor_latch_bit_set in refl)

on_event_console_example :
    let after = on_event uart (host_uart_received 0x01) in
    (after.device.ctrl_a_count < 3)
    × (after.device.ctrl_a_count ≡ 0)
    × (console_switches after.responses ≡ 1)
    × (length after.responses ≤ 2)
    × (2 ≤ max_event_responses)
on_event_console_example = on_event_console uart (host_uart_received 0x01) (omega arith)

abbrev events : List DeviceEvent
events =
    port_write 0x3fb (PortWrite.PortWriteRequest.one_byte 0x80)
    ∷ port_write 0x3f8 (PortWrite.PortWriteRequest.one_byte 0x0c)
    ∷ []

run_latch_never_set_example :
    (self : Uart8250) × (new 0x3f8 ≡ ok self)
    × (divisor_latch_bit_set (run self events) ≡ false)
    × ((run self events).line_control_register ≡ 0)
    × ((run self events).divisor ≡ 0)
run_latch_never_set_example = run_latch_never_set 0x3f8 events
