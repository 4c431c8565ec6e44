-- ===== src/Vm/Insert.antt =====
-- A virtual machine and its insertion into the set of machines (mythril/src/vm.rs). A device is registered
-- by its number: those of the standard ones are their places in `devices()`, the dynamic ones follow.
pub mod Devices
use mythril.Prelude.{ℕ, ◌+◌, ◌%◌, ◌^◌, ◌==◌, Bool, List, [], ◌∷◌, length, compare, false, Option}
use mythril.Prelude.BTreeMap
use mythril.Prelude.Primitive.{TryFromPrimitive}
use mythril.Prelude.Word.{u32}
use mythril.Error.{Result, ok, err, panic, ◌>>=◌ as and_then}
use mythril.Error.Run as Run
use mythril.Error.Run.{Run, ◌>>=◌, ◌>>◌}
use mythril.Memory.Address.{from_start_address}
use mythril.Memory.Entry.{mem_type_code}
use mythril.Memory.Ept.{HostMemory}
use mythril.Memory.Bytes.{GuestAddressSpace}
use mythril.Virtdev.Acpi as Acpi
use mythril.Virtdev.Vga as Vga
use mythril.Virtdev.Pci as Pci
use mythril.Virtdev.Pic as Pic
use mythril.Virtdev.Keyboard.{keyboard_8042}
use mythril.Virtdev.Pit as Pit
use mythril.Virtdev.Rtc as Rtc
use mythril.Virtdev.VirtualIoApic as VirtualIoApic
use mythril.Virtdev.Lapic.{LogicalDestinations}
use mythril.Virtdev.DeviceMap.{DeviceMap, register_device}
use mythril.Virtdev.Device.{
  Device, services, acpi_runtime, vga_controller, pci_root, pic, keyboard, pit, rtc, io_apic,
}
use mythril.Vm.Messages.{VirtualMachineSet, VmRef, push, max_vm_count, create_queues}
use mythril.Vm.Setup.{map_frame, setup_ept}
use mythril.Emulate.MemIo.Apic.{guest_local_apic_addr}

pub record VirtualMachine : Type 0 where
  pub vm : VmRef
  pub memory : ℕ
  pub dynamic_virtual_devices : List Device
  pub virtual_device_map : DeviceMap ℕ
  pub static_virtual_devices : List Device
  pub guest_space : GuestAddressSpace
  pub apic_access_page : ℕ
  pub logical_apic_state : LogicalDestinations
  pub cpus_ready : ℕ

abbrev pub empty_map : DeviceMap ℕ
empty_map = record { portio_map = []; memio_map = [] }

-- `StaticVirtualDevices::new`, in the order of `devices()`.
unfoldable pub static_devices : ℕ → Result (List Device)
static_devices memory = and_then (Acpi.new 0x600) λ acpi. and_then Vga.new λ vga.
    and_then Pci.new λ pci. and_then Pic.new λ pics. and_then (Rtc.new memory) λ clock. ok (
      acpi_runtime acpi
      ∷ vga_controller vga
      ∷ pci_root pci
      ∷ pic pics
      ∷ keyboard keyboard_8042
      ∷ pit Pit.new
      ∷ rtc clock
      ∷ io_apic VirtualIoApic.io_apic
      ∷ [])

unfoldable pub logical_apic_states : List ℕ → LogicalDestinations → LogicalDestinations
logical_apic_states [] states = states
logical_apic_states (core ∷ cores) states =
    logical_apic_states cores (BTreeMap.insert compare core 0 states)

-- The devices from number `n` on, up to one that is refused.
unfoldable pub register_devices : ℕ → List Device → DeviceMap ℕ → DeviceMap ℕ × Result (Unit {0})
unfolding services
register_devices n [] map = (map, ok tt)
register_devices n (dev ∷ devices) map =
    let rest = register_devices (n + 1) devices in
    Run.continue (λ done. rest) (register_device map n (services dev))

unfoldable pub notify_ready : VirtualMachine → VirtualMachine
notify_ready self = record self { cpus_ready = u32 (self.cpus_ready + 1) }

unfoldable pub all_cores_ready : VirtualMachine → Bool
all_cores_ready self = self.cpus_ready == u32 (length self.vm.cpus)

module _ (types : TryFromPrimitive mem_type_code) where
  -- `VirtualMachine::new`; the page of the local APIC is part of the machine, at `page`.
  unfoldable pub new :
      {Name : Type 0}
      → (Name → Option (List ℕ))
      → List ℕ
      → VmRef
      → List (Name × ℕ)
      → ℕ
      → List Device
      → ℕ
      → HostMemory
      → (ℕ → ℕ)
      → Result VirtualMachine
  unfolding setup_ept static_devices logical_apic_states
  new find_module bios vm images memory dynamic page heap bytes =
      and_then (setup_ept types find_module bios images memory heap bytes) λ space.
        and_then (static_devices memory) λ devices. ok (record {
          vm = vm;
          memory = memory;
          dynamic_virtual_devices = dynamic;
          virtual_device_map = empty_map;
          static_virtual_devices = devices;
          guest_space = space;
          apic_access_page = page;
          logical_apic_state = logical_apic_states vm.cpus [];
          cpus_ready = 0;
        })

  unfoldable pub setup_guest_local_apic_page : Run VirtualMachine (Unit {0})
  unfolding map_frame
  setup_guest_local_apic_page self =
      Run.continue
        (λ frame.
          Run.zoom (λ s. s.guest_space) (λ g s. record s { guest_space = g })
            (map_frame types guest_local_apic_addr frame false))
        (self, from_start_address self.apic_access_page)

  register : ℕ → List Device → Run (VirtualMachine × VirtualMachineSet) (Unit {0})
  unfolding register_devices
  register n devices =
      Run.zoom (λ s. s.0.virtual_device_map) (λ m s. (record (s.0) { virtual_device_map = m }, s.1))
        (register_devices n devices)

  push_vm : Run (VirtualMachine × VirtualMachineSet) (Unit {0})
  push_vm (self, set) =
      Run.continue (λ vms s. ((s.0, record (s.1) { vms = vms }), ok tt))
        ((self, set), push max_vm_count set.vms self.vm)

  push_contexts : Run (VirtualMachine × VirtualMachineSet) (Unit {0})
  unfolding create_queues
  push_contexts (self, set) =
      Run.continue (λ contexts s. ((s.0, record (s.1) { contexts = contexts }), ok tt))
        ((self, set), create_queues self.vm self.vm.cpus set.contexts)

  -- What `insert` does to the machine that it takes and to the set.
  unfoldable pub insert : Run (VirtualMachine × VirtualMachineSet) (Unit {0})
  unfolding push_vm register setup_guest_local_apic_page push_contexts
  insert = do
    push_vm
    devices ← Run.gets (λ s. s.0.static_virtual_devices)
    dynamic ← Run.gets (λ s. s.0.dynamic_virtual_devices)
    register 0 devices
    register (length devices) dynamic
    Run.zoom (λ s. s.0) (λ m s. (m, s.1)) setup_guest_local_apic_page
    push_contexts
