-- ===== src/Virtdev/Com/Latch.antt =====
-- The divisor latch over a run of the device.
use mythril.Prelude.{ℕ, ◌≡◌, refl, arith, false, List, [], ◌∷◌, none}
use mythril.Prelude.Word.{wrapping_sub16}
use mythril.Error.{ok}
use mythril.Virtdev.PortWrite.{PortWriteRequest, try_into_u8}
use mythril.Virtdev.Event.{
  DeviceEvent, host_uart_received, port_read, port_write, mem_read, mem_write,
}
use mythril.Virtdev.Com.{
  Uart8250, new, divisor_latch_bit_set, write, on_event, on_port_read, on_port_write, write_data,
  write_interrupt, on_host_uart_received, run,
}
use mythril.Virtdev.Com.Console.{on_port_read-Kept, answered-responses}

-- The state of the latch that `new` sets up.
abbrev LatchOff : Uart8250 → Type 0
LatchOff self = (self.line_control_register ≡ 0) × (self.divisor ≡ 0)

off-unset : (self : Uart8250) → LatchOff self → divisor_latch_bit_set self ≡ false
unfolding divisor_latch_bit_set
off-unset self h = rw h.0 refl

write_data-LatchOff :
    (self : Uart8250) (offset val : ℕ) → LatchOff self → LatchOff (write_data self offset val).0
unfolding write_data
write_data-LatchOff self offset val h = let off = off-unset self h in ground arith

on_port_write-LatchOff :
    (self : Uart8250) (port : ℕ) (val : PortWriteRequest)
    → LatchOff self
    → LatchOff (on_port_write self port val).device
unfolding on_port_write write_interrupt try_into_u8
on_port_write-LatchOff self port (PortWriteRequest.one_byte a) h =
    ground (arith, write_data-LatchOff self (wrapping_sub16 port self.base_port) a h)
on_port_write-LatchOff self port (PortWriteRequest.two_bytes a b) h = h
on_port_write-LatchOff self port (PortWriteRequest.four_bytes a b c d) h = h

on_event-LatchOff :
    (self : Uart8250) (event : DeviceEvent) → LatchOff self → LatchOff (on_event self event).device
unfolding on_event on_host_uart_received write
on_event-LatchOff self (host_uart_received key) h = h
on_event-LatchOff self (port_read port val) h = ground (
  arith,
  answered-responses self port val (on_port_read self port val),
  on_port_read-Kept self port val,
)
on_event-LatchOff self (port_write port val) h = on_port_write-LatchOff self port val h
on_event-LatchOff self (mem_read a r) h = h
on_event-LatchOff self (mem_write a r) h = h

run-LatchOff :
    (self : Uart8250) (events : List DeviceEvent) → LatchOff self → LatchOff (run self events)
unfolding run
run-LatchOff self [] h = h
run-LatchOff self (event ∷ events) h =
    run-LatchOff (on_event self event).device events (on_event-LatchOff self event h)

-- A new UART is made, and whatever events it then takes, its divisor latch is never on and its divisor
-- stays zero: no write of the guest reaches the line control register, whose top bit is the latch.
pub run_latch_never_set :
    (base_port : ℕ) (events : List DeviceEvent)
    → (self : Uart8250) × (new base_port ≡ ok self)
      × (divisor_latch_bit_set (run self events) ≡ false)
      × ((run self events).line_control_register ≡ 0)
      × ((run self events).divisor ≡ 0)
unfolding new
run_latch_never_set base_port events = (fresh, refl, off-unset (run fresh events) h, h.0, h.1)
  where
    fresh : Uart8250
    fresh = record {
      base_port = base_port;
      divisor = 0;
      receive_buffer = none;
      interrupt_enable_register = 0;
      interrupt_identification_register = 0x01;
      line_control_register = 0;
      modem_control_register = 0;
      line_status_register = 0;
      modem_status_register = 0;
      scratch_register = 0;
      ctrl_a_count = 0;
    }

    h : LatchOff (run fresh events)
    h = run-LatchOff fresh events (refl, refl)
