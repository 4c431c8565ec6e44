-- ===== src/Virtdev/Com.antt =====
-- mythril/src/virtdev/com.rs: the emulated 8250 UART, with the registers of physdev/com.rs. A set of
-- flags is its bits; every bit of `IerFlags` has a name, so `from_bits_truncate` keeps a byte whole.
pub mod Receive
pub mod Console
pub mod Latch
use mythril.Prelude.{
  ℕ, ◌+◌, ◌-◌, ◌*◌, ◌/◌, ◌%◌, ◌^◌, bit_and, bit_or, Bool, true, false, not, ◌&&◌, ◌==◌, ◌/=◌,
  if◌then◌else◌, List, [], ◌∷◌, ◌++◌, Option, none, some,
}
use mythril.Prelude.Word.{u8, u16, u32, ◌>>>◌, ◌<<<◌, wrapping_sub16, has_bit}
use mythril.Error.{Result, ok, err, panic, ◌>>=◌}
use mythril.Virtdev.PortRead.{PortReadRequest, copy_from_u32}
use mythril.Virtdev.PortWrite.{PortWriteRequest, try_into_u8}
use mythril.Virtdev.DeviceMap.{DeviceRegion, port_io}
use mythril.Virtdev.Event.{
  DeviceEvent, host_uart_received, port_read, port_write, DeviceEventResponse,
  guest_uart_transmitted, next_console, gsi, Outcome, ignored, answered,
}

-- `SerialOffset`.
abbrev pub data_offset : ℕ
data_offset = 0

abbrev pub dll_offset : ℕ
dll_offset = 0

abbrev pub ier_offset : ℕ
ier_offset = 1

abbrev pub iir_offset : ℕ
iir_offset = 2

abbrev pub lsr_offset : ℕ
lsr_offset = 5

-- `interrupt::gsi::UART`.
abbrev pub gsi_uart : ℕ
gsi_uart = 4

-- The positions of flags.
abbrev pub thr_empty_interrupt : ℕ
thr_empty_interrupt = 1

abbrev pub data_ready : ℕ
data_ready = 0

abbrev pub empty_transmit_holding_register : ℕ
empty_transmit_holding_register = 5

abbrev pub empty_data_holding_register : ℕ
empty_data_holding_register = 6

pub record Uart8250 : Type 0 where
  pub base_port : ℕ
  pub divisor : ℕ
  pub receive_buffer : Option ℕ
  pub interrupt_enable_register : ℕ
  pub interrupt_identification_register : ℕ
  pub line_control_register : ℕ
  pub modem_control_register : ℕ
  pub line_status_register : ℕ
  pub modem_status_register : ℕ
  pub scratch_register : ℕ
  pub ctrl_a_count : ℕ

unfoldable pub new : ℕ → Result Uart8250
new base_port = ok (record {
  base_port = base_port;
  divisor = 0;
  receive_buffer = none;
  interrupt_enable_register = 0;
  interrupt_identification_register = 0x01;
  line_control_register = 0;
  modem_control_register = 0;
  line_status_register = 0;
  modem_status_register = 0;
  scratch_register = 0;
  ctrl_a_count = 0;
})

unfoldable pub divisor_latch_bit_set : Uart8250 → Bool
divisor_latch_bit_set self = has_bit self.line_control_register 7

unfoldable pub write : Uart8250 → ℕ → Uart8250
write self byte = record self {
  receive_buffer = some byte;
  interrupt_identification_register = 0b100;
}

unfoldable pub services : Uart8250 → List DeviceRegion
services self = port_io (record { start = self.base_port; end = u16 (self.base_port + 7) }) ∷ []

-- `DeviceEvent::HostUartReceived`; the count of ctrl+a is a u8.
unfoldable pub on_host_uart_received : Uart8250 → ℕ → Outcome Uart8250
unfolding write
on_host_uart_received self key =
    let count = if key == 0x01 then u8 (self.ctrl_a_count + 1) else self.ctrl_a_count in
    let switch = count == 3 in
    record {
      device = write (record self { ctrl_a_count = if switch then 0 else count }) key;
      kind = host_uart_received key;
      responses = gsi gsi_uart ∷ (if switch then next_console ∷ [] else []);
      result = ok tt;
    }

abbrev is_some : Option ℕ → Bool
is_some none = false
is_some (some _) = true

-- A step of a port read: it mutates the device and fills the request.
abbrev pub then_fill :
    Uart8250 × Result PortReadRequest
    → (Uart8250 → PortReadRequest → Uart8250 × Result PortReadRequest)
    → Uart8250 × Result PortReadRequest
then_fill (self, ok val) f = f self val
then_fill (self, err e) f = (self, err e)
then_fill (self, panic) f = (self, panic)

-- `if let Some(receive_buffer) = self.receive_buffer`.
abbrev pub take_received : Uart8250 → Option ℕ → PortReadRequest → Uart8250 × Result PortReadRequest
take_received self none val = (self, ok val)
take_received self (some byte) val = (
  record self { receive_buffer = none; interrupt_identification_register = 1 },
  copy_from_u32 val byte,
)

-- The three chains of tests of a port read: the data port and the divisor; the interrupt registers;
-- the line status.
unfoldable pub read_data : ℕ → Uart8250 → PortReadRequest → Uart8250 × Result PortReadRequest
read_data offset self val =
    if offset == data_offset && not (divisor_latch_bit_set self)
    then take_received self self.receive_buffer val
    else if offset == data_offset && divisor_latch_bit_set self
    then (self, copy_from_u32 val (bit_and self.divisor 0xff))
    else if offset == dll_offset && divisor_latch_bit_set self
    then (self, copy_from_u32 val (self.divisor >>> 8))
    else (self, ok val)

unfoldable pub read_interrupt : ℕ → Uart8250 → PortReadRequest → Uart8250 × Result PortReadRequest
read_interrupt offset self val =
    if offset == iir_offset
    then (
      record self { interrupt_identification_register = 1 },
      copy_from_u32 val self.interrupt_identification_register,
    )
    else if offset == ier_offset
    then (self, copy_from_u32 val self.interrupt_enable_register)
    else (self, ok val)

unfoldable pub line_status : Uart8250 → ℕ
line_status self =
    bit_or (bit_or (2 ^ empty_transmit_holding_register) (2 ^ empty_data_holding_register))
      (if is_some self.receive_buffer then 2 ^ data_ready else 0)

unfoldable pub read_status : ℕ → Uart8250 → PortReadRequest → Uart8250 × Result PortReadRequest
read_status offset self val =
    if offset == lsr_offset then (self, copy_from_u32 val (line_status self)) else (self, ok val)

unfoldable pub on_port_read : Uart8250 → ℕ → PortReadRequest → Uart8250 × Result PortReadRequest
on_port_read self port val =
    let offset = wrapping_sub16 port self.base_port in
    then_fill (then_fill (read_data offset self val) (read_interrupt offset)) (read_status offset)

-- A byte written to the data port or to the divisor: the device and the responses.
unfoldable pub write_data : Uart8250 → ℕ → ℕ → Uart8250 × List DeviceEventResponse
write_data self offset val =
    if offset == data_offset
    then if divisor_latch_bit_set self
      then (record self { divisor = bit_and self.divisor (bit_or 0xff00 val) }, [])
      else (
        record self { interrupt_identification_register = 0b10 },
        guest_uart_transmitted val
            ∷ (if has_bit self.interrupt_enable_register thr_empty_interrupt
                then gsi gsi_uart ∷ []
                else []),
      )
    else if offset == dll_offset && divisor_latch_bit_set self
    then (record self { divisor = bit_or (bit_and self.divisor 0xff) (u16 (val <<< 8)) }, [])
    else (self, [])

unfoldable pub write_interrupt : Uart8250 → ℕ → ℕ → Uart8250
write_interrupt self offset val =
    if offset == ier_offset then record self { interrupt_enable_register = val } else self

unfoldable pub on_port_write : Uart8250 → ℕ → PortWriteRequest → Outcome Uart8250
on_port_write self port val = elim (try_into_u8 val) [
  | ok byte ↦
      let offset = wrapping_sub16 port self.base_port in
      let written = write_data self offset byte in
      record {
        device = write_interrupt written.0 offset byte;
        kind = port_write port val;
        responses = written.1;
        result = ok tt;
      }
  | err e ↦ record { device = self; kind = port_write port val; responses = []; result = err e }
  | panic ↦ record { device = self; kind = port_write port val; responses = []; result = panic }
]

unfoldable pub on_event : Uart8250 → DeviceEvent → Outcome Uart8250
on_event self (host_uart_received key) = on_host_uart_received self key
on_event self (port_read port val) = answered port val (on_port_read self port val)
on_event self (port_write port val) = on_port_write self port val
on_event self kind = ignored self kind

-- A run of the device over a sequence of events.
unfoldable pub run : Uart8250 → List DeviceEvent → Uart8250
run self [] = self
run self (event ∷ events) = run (on_event self event).device events
