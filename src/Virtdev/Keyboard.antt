-- ===== src/Virtdev/Keyboard.antt =====
-- mythril/src/virtdev/keyboard.rs.
use mythril.Prelude.{ℕ, List, [], ◌∷◌}
use mythril.Virtdev.PortRead.{copy_from_u32}
use mythril.Virtdev.DeviceMap.{DeviceRegion, port_io}
use mythril.Virtdev.Event.{DeviceEvent, port_read, Outcome, ignored, answered}

abbrev pub ps2_data : ℕ
ps2_data = 0x0060

abbrev pub ps2_status : ℕ
ps2_status = 0x0064

pub data Keyboard8042 : Type 0 where
  keyboard_8042 : Keyboard8042

unfoldable pub services : List DeviceRegion
services =
    port_io (record { start = ps2_data; end = ps2_data })
    ∷ port_io (record { start = ps2_status; end = ps2_status })
    ∷ []

unfoldable pub on_event : Keyboard8042 → DeviceEvent → Outcome Keyboard8042
on_event self (port_read port val) = answered port val (self, copy_from_u32 val 0xff)
on_event self kind = ignored self kind
