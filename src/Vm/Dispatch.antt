-- ===== src/Vm/Dispatch.antt =====
-- `dispatch_event` of mythril/src/vm.rs: the device that serves a port or an address handles the event. A device is
-- referred to by its number; each has a lock of its own, which is held for the event.
use mythril.Prelude.{ℕ, ◌==◌, ltb, if◌then◌else◌, Option, none, some, List, ◌++◌, length}
use mythril.Error.{Result, ok, err, panic, missing_device}
use mythril.Error.Run.{Run}
use mythril.Virtdev.PortRead.{copy_from_u32}
use mythril.Virtdev.DeviceMap.{DeviceMap, find_port, find_addr}
use mythril.Virtdev.Device.{Env, EmulatedDevice}
use mythril.Virtdev.Event.{
  DeviceEvent, DeviceEventResponse, port_read, port_write, mem_read, mem_write, host_uart_received,
  Outcome, max_event_responses,
}

-- The two types that implement `DeviceInteraction`.
pub data DeviceInteraction : Type 0 where
  port address : ℕ → DeviceInteraction

-- What an event works on: the devices of the machine, their surroundings, and the responses that are
-- collected in this exit.
pub record Bus (S : Type 0) : Type 0 where
  pub map : DeviceMap ℕ
  pub devices : ℕ → S
  pub env : Env
  pub responses : List DeviceEventResponse

unfoldable pub find_device : DeviceMap ℕ → DeviceInteraction → Option ℕ
unfolding find_port find_addr
find_device map (port p) = find_port map p
find_device map (address a) = find_addr map a

-- Where no device is found; a port reads as zero.
unfoldable pub unserved : DeviceEvent → Result DeviceEvent
unserved (port_read p req) = elim (copy_from_u32 req 0) [
  | ok filled ↦ ok (port_read p filled)
  | err e ↦ ok (port_read p req)
  | panic ↦ panic
]
unserved (port_write p req) = ok (port_write p req)
unserved (mem_read a req) = err missing_device
unserved (mem_write a req) = err missing_device
unserved (host_uart_received key) = err missing_device

module _ {S : Type 0} where
  -- The responses are pushed to an array of eight, and a push beyond it panics.
  abbrev pub collected : Outcome S → List DeviceEventResponse → Result DeviceEvent
  collected o all =
      if ltb max_event_responses (length all)
      then panic
      else (elim o.result [ ok done ↦ ok o.kind | err e ↦ err e | panic ↦ panic ])

  abbrev pub handled : ℕ → Env × Outcome S → Bus S → Bus S × Result DeviceEvent
  handled dev (env, o) self =
      let all = self.responses ++ o.responses in
      (
        record self {
          devices = λ d. if d == dev then o.device else self.devices d;
          env = env;
          responses = all;
        },
        collected o all,
      )

  -- The event that results holds the request as the device filled it.
  unfoldable pub dispatch_event :
      EmulatedDevice S → DeviceInteraction → DeviceEvent → Run (Bus S) DeviceEvent
  unfolding unserved
  dispatch_event trait ident kind self = elim (find_device self.map ident) [
    | none ↦ (self, unserved kind)
    | some dev ↦ handled dev (trait.on_event self.env (self.devices dev) kind) self
  ]
