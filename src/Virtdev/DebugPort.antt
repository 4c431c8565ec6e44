-- ===== src/Virtdev/DebugPort.antt =====
-- mythril/src/virtdev/debug.rs.
use mythril.Prelude.{ℕ, List, [], ◌∷◌}
use mythril.Error.{Result, ok, err, panic}
use mythril.Virtdev.PortRead.{copy_from_u32}
use mythril.Virtdev.PortWrite.{PortWriteRequest, try_into_u8}
use mythril.Virtdev.DeviceMap.{DeviceRegion, port_io}
use mythril.Virtdev.Event.{
  DeviceEvent, guest_uart_transmitted, port_read, port_write, Outcome, ignored, answered,
}

pub record DebugPort : Type 0 where
  pub port : ℕ

unfoldable pub services : DebugPort → List DeviceRegion
services self = port_io (record { start = self.port; end = self.port }) ∷ []

-- A byte that is written goes out like one of the serial port.
transmitted : ℕ → DebugPort → PortWriteRequest → Result ℕ → Outcome DebugPort
transmitted port self val (ok byte) = record {
  device = self;
  kind = port_write port val;
  responses = guest_uart_transmitted byte ∷ [];
  result = ok tt;
}
transmitted port self val (err e) = record {
  device = self;
  kind = port_write port val;
  responses = [];
  result = err e;
}
transmitted port self val panic = record {
  device = self;
  kind = port_write port val;
  responses = [];
  result = panic;
}

unfoldable pub on_event : DebugPort → DeviceEvent → Outcome DebugPort
unfolding transmitted
on_event self (port_read port val) = answered port val (self, copy_from_u32 val 0xe9)
on_event self (port_write port val) = transmitted port self val (try_into_u8 val)
on_event self kind = ignored self kind
