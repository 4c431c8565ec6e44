-- ===== src/Tests/Machine.antt =====
-- Virtual machines at concrete inputs: mythril/src/vm.rs.
use mythril.Prelude.{◌≡◌, refl, arith, List, [], ◌∷◌, length}
use mythril.Error.{Result, ok, err, panic}
use mythril.Virtdev.Acpi as Acpi
use mythril.Virtdev.Vga as Vga
use mythril.Virtdev.Pci as Pci
use mythril.Virtdev.Pic as Pic
use mythril.Virtdev.Rtc as Rtc
use mythril.Virtdev.DebugPort as DebugPort
use mythril.Virtdev.Device.{Device, services, debug_port}
use mythril.Vm.Insert.{static_devices, register_devices, empty_map}
use mythril.Vm.Insert.Devices.{Found, AllServices, standard_devices_served}

abbrev made : Result (List Device) → List Device
made (ok devices) = devices
made (err e) = []
made panic = []

-- The standard devices of a machine of 512 MiB, and a debug port.
abbrev devices : List Device
devices = made (static_devices 512)

abbrev dynamic : List Device
dynamic = debug_port (record { port = 0xe9 }) ∷ []

devices-made : static_devices 512 ≡ ok devices
unfolding static_devices Acpi.new Vga.new Pci.new Pic.new Rtc.new
devices-made = refl

dynamic-AllServices : AllServices dynamic
unfolding services DebugPort.services
dynamic-AllServices = ground arith

standard_devices_served_example :
    let first = register_devices 0 devices empty_map in
    (first.1 ≡ ok tt) × Found 0 devices ((register_devices (length devices) dynamic (first.0)).0)
standard_devices_served_example =
    standard_devices_served 512 devices dynamic devices-made dynamic-AllServices
