-- ===== src/Virtdev/VirtualIoApic.antt =====
-- mythril/src/virtdev/ioapic.rs.
use mythril.Prelude.{List, [], ◌∷◌}
use mythril.Virtdev.DeviceMap.{DeviceRegion, mem_io}
use mythril.Virtdev.Event.{DeviceEvent, Outcome, ignored}

pub data VirtualIoApic : Type 0 where
  io_apic : VirtualIoApic

unfoldable pub services : List DeviceRegion
services =
    mem_io (record { start = 0xfec00000; end = 0xfec010f0 })
    ∷ mem_io (record { start = 0xfed00000; end = 0xfed010f0 })
    ∷ []

unfoldable pub on_event : VirtualIoApic → DeviceEvent → Outcome VirtualIoApic
on_event self kind = ignored self kind
