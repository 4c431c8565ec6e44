-- ===== src/Virtdev/Event.antt =====
-- Events, responses and what `on_event` comes to (mythril/src/virtdev/mod.rs). A device mutates itself,
-- fills the borrowed request, pushes responses and returns a result; an `Outcome` holds the four. The
-- address space of an event is left out: no handler of this library uses it.
use mythril.Prelude.{ℕ, List, []}
use mythril.Error.{Result, ok, err, panic}
use mythril.Virtdev.PortRead.{PortReadRequest}
use mythril.Virtdev.PortWrite.{PortWriteRequest, MemReadRequest, MemWriteRequest}

pub data DeviceEvent : Type 0 where
  host_uart_received : ℕ → DeviceEvent
  mem_read : ℕ → MemReadRequest → DeviceEvent
  mem_write : ℕ → MemWriteRequest → DeviceEvent
  port_read : ℕ → PortReadRequest → DeviceEvent
  port_write : ℕ → PortWriteRequest → DeviceEvent

pub data DeviceEventResponse : Type 0 where
  guest_uart_transmitted : ℕ → DeviceEventResponse
  next_console : DeviceEventResponse
  gsi : ℕ → DeviceEventResponse

abbrev pub max_event_responses : ℕ
max_event_responses = 8

pub record Outcome (S : Type 0) : Type 0 where
  pub device : S
  pub kind : DeviceEvent
  pub responses : List DeviceEventResponse
  pub result : Result (Unit {0})

module _ {S : Type 0} where
  -- A handler that does nothing with the event.
  abbrev pub ignored : S → DeviceEvent → Outcome S
  ignored s kind = record { device = s; kind = kind; responses = []; result = ok tt }

  -- A port read: the handler's device, and the request as it was filled.
  abbrev pub answered : ℕ → PortReadRequest → S × Result PortReadRequest → Outcome S
  answered port val (s, ok filled) = record {
    device = s;
    kind = port_read port filled;
    responses = [];
    result = ok tt;
  }
  answered port val (s, err e) = record {
    device = s;
    kind = port_read port val;
    responses = [];
    result = err e;
  }
  answered port val (s, panic) = record {
    device = s;
    kind = port_read port val;
    responses = [];
    result = panic;
  }

  -- A port write: the handler's device and its result.
  abbrev pub accepted : ℕ → PortWriteRequest → S × Result (Unit {0}) → Outcome S
  accepted port val (s, r) = record {
    device = s;
    kind = port_write port val;
    responses = [];
    result = r;
  }

  -- `self.field = val.try_into()?` and the like.
  abbrev pub with_value : {A B : Type 0} → S → Result A → (A → S × Result B) → S × Result B
  with_value s (ok a) f = f a
  with_value s (err e) f = (s, err e)
  with_value s panic f = (s, panic)
