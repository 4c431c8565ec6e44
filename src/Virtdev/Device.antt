-- ===== src/Virtdev/Device.antt =====
-- The trait `EmulatedDevice` and the devices that implement it (mythril/src/virtdev/mod.rs). What a handler may
-- change besides its device, the memory of the guest and the timers of the core, is its `Env`. A
-- `Platform` holds what does not change while a guest runs.
use mythril.Prelude.{ℕ, List}
use mythril.Prelude.Primitive.{TryFromPrimitive}
use mythril.Time.Core.{Timing}
use mythril.Memory.Bytes.{GuestAddressSpace}
use mythril.Virtdev.DeviceMap.{DeviceRegion}
use mythril.Virtdev.Event.{DeviceEvent, Outcome}
use mythril.Virtdev.Acpi
use mythril.Virtdev.Vga
use mythril.Virtdev.Pci
use mythril.Virtdev.Pic
use mythril.Virtdev.Keyboard
use mythril.Virtdev.Pit
use mythril.Virtdev.Rtc
use mythril.Virtdev.VirtualIoApic
use mythril.Virtdev.DebugPort
use mythril.Virtdev.Com
use mythril.Virtdev.QemuFwCfg
use mythril.Virtdev.QemuFwCfg.Dma

pub record Env : Type 0 where
  pub space : GuestAddressSpace
  pub timing : Timing

pub record EmulatedDevice (S : Type 0) : Type 0 where
  pub services : S → List DeviceRegion
  pub on_event : Env → S → DeviceEvent → Env × Outcome S

-- The frequency of the time source, the instant of the start, the number of the core, the addresses in
-- entries of the guest's tables, the root of these, and the conversions from numbers.
pub record Platform : Type 0 where
  pub frequency : ℕ
  pub start : ℕ
  pub core_id : ℕ
  pub address : ℕ → ℕ
  pub cr3 : ℕ
  pub cmos_registers : TryFromPrimitive Rtc.cmos_code
  pub vga_registers : TryFromPrimitive Vga.vga_code

-- The static devices, and those of `DynamicVirtualDevice`.
pub data Device : Type 0 where
  acpi_runtime : Acpi.AcpiRuntime → Device
  vga_controller : Vga.VgaController → Device
  pci_root : Pci.PciRootComplex → Device
  pic : Pic.Pic8259 → Device
  keyboard : Keyboard.Keyboard8042 → Device
  pit : Pit.Pit8254 → Device
  rtc : Rtc.CmosRtc → Device
  io_apic : VirtualIoApic.VirtualIoApic → Device
  debug_port : DebugPort.DebugPort → Device
  uart : Com.Uart8250 → Device
  qemu : QemuFwCfg.QemuFwCfg → Device

unfoldable pub services : Device → List DeviceRegion
services (acpi_runtime d) = Acpi.services d
services (vga_controller d) = Vga.services
services (pci_root d) = Pci.services
services (pic d) = Pic.services
services (keyboard d) = Keyboard.services
services (pit d) = Pit.services
services (rtc d) = Rtc.services
services (io_apic d) = VirtualIoApic.services
services (debug_port d) = DebugPort.services d
services (uart d) = Com.services d
services (qemu d) = Dma.services d

abbrev rewrap : {S T : Type 0} → (S → T) → Outcome S → Outcome T
rewrap wrap o = record {
  device = wrap o.device;
  kind = o.kind;
  responses = o.responses;
  result = o.result;
}

abbrev with_timing : Env → Timing → Env
with_timing env timing = record env { timing = timing }

unfoldable pub on_event : Platform → Env → Device → DeviceEvent → Env × Outcome Device
on_event p env (acpi_runtime d) kind =
    let (o, clock) = Acpi.on_event p.frequency p.start env.timing.clock d kind in
    (with_timing env (record (env.timing) { clock = clock }), rewrap acpi_runtime o)
on_event p env (vga_controller d) kind =
    (env, rewrap vga_controller (Vga.on_event p.vga_registers d kind))
on_event p env (pci_root d) kind = (env, rewrap pci_root (Pci.on_event d kind))
on_event p env (pic d) kind = (env, rewrap pic (Pic.on_event d kind))
on_event p env (keyboard d) kind = (env, rewrap keyboard (Keyboard.on_event d kind))
on_event p env (pit d) kind =
    let (timing, o) = Pit.on_event p.frequency p.core_id env.timing d kind in
    (with_timing env timing, rewrap pit o)
on_event p env (rtc d) kind = (env, rewrap rtc (Rtc.on_event p.cmos_registers d kind))
on_event p env (io_apic d) kind = (env, rewrap io_apic (VirtualIoApic.on_event d kind))
on_event p env (debug_port d) kind = (env, rewrap debug_port (DebugPort.on_event d kind))
on_event p env (uart d) kind = (env, rewrap uart (Com.on_event d kind))
on_event p env (qemu d) kind =
    let (space, o) = Dma.on_event p.address p.cr3 env.space d kind in
    (record env { space = space }, rewrap qemu o)

unfoldable pub emulated : Platform → EmulatedDevice Device
unfolding services on_event
emulated p = record { services = services; on_event = on_event p }
