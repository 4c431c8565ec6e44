-- ===== src/Tests/DeviceMap.antt =====
-- The device map of mythril/src/virtdev/mod.rs at concrete inputs.
use mythril.Prelude.{ℕ, ◌≡◌, refl, arith, ◌⊎◌, ◌↔◌, List, [], ◌∷◌, ◌++◌, if◌then◌else◌, some, none}
use mythril.Prelude.BTreeMap
use mythril.Error.{ok, err, invalid_device}
use mythril.Virtdev.DeviceMap.{
  DeviceRegion, port_io, mem_io, DeviceMap, RegionMap, point, port_cmp, find_port, find_addr,
  register_device, register_region,
}
use mythril.Virtdev.DeviceMap.Lookup.{Serves, get_iff-Serves}
use mythril.Virtdev.DeviceMap.Register.{
  serves_port, serves_addr, IsOrdered, register_device-IsOrdered, register_device-find,
  find-register_device,
}
use mythril.Virtdev.DeviceMap.Conflict.{Conflicts, Overlap, register_device_conflict}

-- Device 1 serves two ports and a page.
abbrev ports : RegionMap ℕ
ports = (record { start = 0x70; end = 0x71 }, 1) ∷ []

abbrev devices : DeviceMap ℕ
devices = record {
  portio_map = ports;
  memio_map = (record { start = 0x1000; end = 0x1fff }, 1) ∷ [];
}

devices-IsOrdered : IsOrdered devices
devices-IsOrdered = record {
  ports = (omega arith, omega arith, tt);
  addrs = (omega arith, omega arith, tt);
}

-- The services of device 2, and those of device 3, which overlap with those of device 1.
abbrev uart : List DeviceRegion
uart = port_io (record { start = 0x3f8; end = 0x3ff }) ∷ []

abbrev greedy : List DeviceRegion
greedy =
    port_io (record { start = 0x20; end = 0x21 })
    ∷ mem_io (record { start = 0x1800; end = 0x2800 })
    ∷ []

abbrev with_uart : DeviceMap ℕ
with_uart = record devices {
  portio_map = ports ++ ((record { start = 0x3f8; end = 0x3ff }, 2) ∷ []);
}

registered : register_device devices 2 uart ≡ (with_uart, ok tt)
unfolding register_device register_region BTreeMap.contains_key BTreeMap.insert port_cmp
registered = refl

get_iff-Serves_example : (BTreeMap.get port_cmp (point 0x71) ports ≡ some 1) ↔ Serves ports 0x71 1
get_iff-Serves_example = get_iff-Serves 0 ports 0x71 1 (omega arith, omega arith, tt)

register_device-IsOrdered_example : IsOrdered (register_device devices 3 greedy).0
register_device-IsOrdered_example =
    register_device-IsOrdered devices 3 greedy devices-IsOrdered (omega arith, (omega arith, tt))

register_device-find_example :
    (find_port with_uart 0x3fd
      ≡ (if serves_port uart 0x3fd then some 2 else find_port devices 0x3fd))
    × (find_addr with_uart 0x3fd
        ≡ (if serves_addr uart 0x3fd then some 2 else find_addr devices 0x3fd))
register_device-find_example =
    register_device-find devices 2 uart with_uart 0x3fd devices-IsOrdered (omega arith, tt)
      registered

find-register_device_example :
    let after = (register_device devices 3 greedy).0 in
    ((find_port after 0x70 ≡ find_port devices 0x70) ⊎ (find_port devices 0x70 ≡ none))
    × ((find_addr after 0x70 ≡ find_addr devices 0x70) ⊎ (find_addr devices 0x70 ≡ none))
find-register_device_example =
    find-register_device devices 3 greedy 0x70 devices-IsOrdered (omega arith, (omega arith, tt))

register_device_conflict_example :
    (((register_device devices 3 greedy).1 ≡ ok tt) × ¬ (Conflicts devices greedy ⊎ Overlap greedy))
    ⊎ (((register_device devices 3 greedy).1 ≡ err invalid_device)
        × (Conflicts devices greedy ⊎ Overlap greedy))
register_device_conflict_example =
    register_device_conflict devices 3 greedy devices-IsOrdered (omega arith, (omega arith, tt))
