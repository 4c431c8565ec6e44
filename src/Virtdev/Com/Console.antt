-- ===== src/Virtdev/Com/Console.antt =====
-- The switch of consoles by three presses of ctrl+a, and the number of responses to an event.
use mythril.Prelude.{
  ℕ, ◌+◌, ◌<◌, ◌≤◌, ◌≡◌, refl, ◌∙◌, arith, Bool, true, false, ◌==◌, if◌then◌else◌, List, [], ◌∷◌,
  length, Option, none, some,
}
use mythril.Error.{Result, ok, err, panic}
use mythril.Prelude.Word.{wrapping_sub16}
use mythril.Virtdev.PortRead.{PortReadRequest}
use mythril.Virtdev.PortWrite.{PortWriteRequest, try_into_u8}
use mythril.Virtdev.Event.{
  DeviceEvent, host_uart_received, port_read, port_write, mem_read, mem_write, DeviceEventResponse,
  next_console, answered, max_event_responses,
}
use mythril.Virtdev.Com.{
  Uart8250, write, on_event, on_port_read, on_port_write, read_data, read_interrupt, read_status,
  write_data, write_interrupt, on_host_uart_received, then_fill, take_received,
}

abbrev switches : DeviceEventResponse → Bool
switches next_console = true
switches _ = false

-- How many of the responses ask for the next console.
abbrev pub console_switches : List DeviceEventResponse → ℕ
console_switches [] = 0
console_switches (r ∷ rs) = (if switches r then 1 else 0) + console_switches rs

abbrev is_ctrl_a : DeviceEvent → Bool
is_ctrl_a (host_uart_received key) = key == 0x01
is_ctrl_a _ = false

-- What an event does to the count of ctrl+a: the count and the number of switches asked for.
abbrev pub counted : Uart8250 → DeviceEvent → ℕ × ℕ
counted self event =
    if is_ctrl_a event
    then (if self.ctrl_a_count == 2 then (0, 1) else (self.ctrl_a_count + 1, 0))
    else (self.ctrl_a_count, 0)

-- What reads leave alone.
abbrev pub Kept : Uart8250 → Uart8250 → Type 0
Kept self next =
    (next.ctrl_a_count ≡ self.ctrl_a_count)
    × (next.line_control_register ≡ self.line_control_register)
    × (next.divisor ≡ self.divisor)

then_fill-Kept :
    (self : Uart8250) (p : Uart8250 × Result PortReadRequest)
    → (f : Uart8250 → PortReadRequest → Uart8250 × Result PortReadRequest) → Kept self p.0
    → ((s : Uart8250) (v : PortReadRequest) → Kept s (f s v).0)
    → Kept self (then_fill p f).0
then_fill-Kept self (s, ok v) f h k = ((k s v).0 ∙ h.0, (k s v).1 ∙ h.1, (k s v).2 ∙ h.2)
then_fill-Kept self (s, err e) f h k = h
then_fill-Kept self (s, panic) f h k = h

take_received-Kept :
    (self : Uart8250) (o : Option ℕ) (val : PortReadRequest)
    → Kept self (take_received self o val).0
take_received-Kept self none val = (refl, refl, refl)
take_received-Kept self (some b) val = (refl, refl, refl)

read_data-Kept :
    (offset : ℕ) (self : Uart8250) (val : PortReadRequest) → Kept self (read_data offset self val).0
unfolding read_data
read_data-Kept offset self val = ground (arith, take_received-Kept self self.receive_buffer val)

read_interrupt-Kept :
    (offset : ℕ) (self : Uart8250) (val : PortReadRequest)
    → Kept self (read_interrupt offset self val).0
unfolding read_interrupt
read_interrupt-Kept offset self val = ground arith

read_status-Kept :
    (offset : ℕ) (self : Uart8250) (val : PortReadRequest)
    → Kept self (read_status offset self val).0
unfolding read_status
read_status-Kept offset self val = ground arith

pub on_port_read-Kept :
    (self : Uart8250) (port : ℕ) (val : PortReadRequest) → Kept self (on_port_read self port val).0
unfolding on_port_read
on_port_read-Kept self port val =
    let offset = wrapping_sub16 port self.base_port in
    then_fill-Kept self (then_fill (read_data offset self val) (read_interrupt offset))
      (read_status offset)
      (then_fill-Kept self (read_data offset self val) (read_interrupt offset)
        (read_data-Kept offset self val) (read_interrupt-Kept offset))
      (read_status-Kept offset)

data_responses :
    (self : Uart8250) (offset val : ℕ)
    → (length (write_data self offset val).1 ≤ 2)
      × (console_switches (write_data self offset val).1 ≡ 0)
      × ((write_data self offset val).0.ctrl_a_count ≡ self.ctrl_a_count)
unfolding write_data
data_responses self offset val = ground arith

-- Any event: the count and the switches are as `counted` says, and the responses fit.
write_responses :
    (self : Uart8250) (port : ℕ) (val : PortWriteRequest)
    → let after = on_port_write self port val in
      (length after.responses ≤ 2)
      × (console_switches after.responses ≡ 0)
      × (after.device.ctrl_a_count ≡ self.ctrl_a_count)
unfolding on_port_write write_interrupt try_into_u8
write_responses self port (PortWriteRequest.one_byte a) =
    ground (arith, data_responses self (wrapping_sub16 port self.base_port) a)
write_responses self port (PortWriteRequest.two_bytes a b) = (omega arith, refl, refl)
write_responses self port (PortWriteRequest.four_bytes a b c d) = (omega arith, refl, refl)

pub answered-responses :
    (self : Uart8250) (port : ℕ) (val : PortReadRequest) (p : Uart8250 × Result PortReadRequest)
    → ((answered {S = Uart8250} port val p).responses ≡ [])
      × ((answered {S = Uart8250} port val p).device ≡ p.0)
answered-responses self port val (s, ok v) = (refl, refl)
answered-responses self port val (s, err e) = (refl, refl)
answered-responses self port val (s, panic) = (refl, refl)

received_responses :
    (self : Uart8250) (key : ℕ)
    → self.ctrl_a_count < 3
    → let after = on_host_uart_received self key in
      (length after.responses ≤ 2)
      × (after.device.ctrl_a_count ≡ (counted self (host_uart_received key)).0)
      × (console_switches after.responses ≡ (counted self (host_uart_received key)).1)
unfolding on_host_uart_received write
received_responses self key h = ground arith

-- Below three, the count of ctrl+a stays below three. The third ctrl+a in a row of counted ones asks for
-- the next console, once, and starts the count again; no other event asks for it, and none but a
-- ctrl+a changes the count. Every event has at most two responses, so the array of eight holds them.
pub on_event_console :
    (self : Uart8250) (event : DeviceEvent)
    → self.ctrl_a_count < 3
    → let after = on_event self event in
      (after.device.ctrl_a_count < 3)
      × (after.device.ctrl_a_count ≡ (counted self event).0)
      × (console_switches after.responses ≡ (counted self event).1)
      × (length after.responses ≤ 2)
      × (2 ≤ max_event_responses)
unfolding on_event
on_event_console self (host_uart_received key) h = ground (arith, received_responses self key h)
on_event_console self (port_read port val) h = ground (
  arith,
  answered-responses self port val (on_port_read self port val),
  on_port_read-Kept self port val,
)
on_event_console self (port_write port val) h = ground (arith, write_responses self port val)
on_event_console self (mem_read a r) h = ground arith
on_event_console self (mem_write a r) h = ground arith
