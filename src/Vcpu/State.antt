-- ===== src/Vcpu/State.antt =====
-- `VCpu` of mythril/src/vcpu.rs, with what it refers to: the registers that the exit handler saved, the control
-- structure, the devices of its machine and the state that all cores share.
use mythril.Prelude.{ℕ, Option, List}
use mythril.Error.Run.{Run, zoom}
use mythril.Time.{InjectedInterruptType}
use mythril.Vmcs.{Control}
use mythril.VmExit.Cpu.{GuestCpuState}
use mythril.Virtdev.Event.{DeviceEvent}
use mythril.Virtdev.Device.{EmulatedDevice}
use mythril.Virtdev.Lapic.{LocalApic, LogicalDestinations, ApicState}
use mythril.IoApic.{IoApic}
use mythril.Vm.Messages.{VmRef, VirtualMachineSet}
use mythril.Vm.Dispatch.{Bus, DeviceInteraction, dispatch_event}

-- `BTreeMap<u8, InjectedInterruptType>`.
abbrev pub Pending : Type 0
Pending = List (ℕ × InjectedInterruptType)

-- What an exit may change of the machine: the I/O APICs, the bytes printed to the console, and how many
-- interrupts were acknowledged at the local APIC.
pub record Host : Type 0 where
  pub ioapics : List IoApic
  pub console : List ℕ
  pub acknowledged : ℕ

-- `serial` is the base port of the serial device that the machine has, if it has one.
pub record VCpu (S : Type 0) : Type 0 where
  pub guest_cpu : GuestCpuState
  pub vmcs : Control
  pub bus : Bus S
  pub local_apic : LocalApic
  pub destinations : LogicalDestinations
  pub pending_interrupts : Pending
  pub vm : VmRef
  pub serial : Option ℕ
  pub host : Host

module _ {S : Type 0} where
  abbrev pub on_vmcs : {A : Type 0} → Run Control A → Run (VCpu S) A
  on_vmcs = zoom (λ s. s.vmcs) (λ c s. record s { vmcs = c })

  abbrev pub on_registers : {A : Type 0} → Run (Control × GuestCpuState) A → Run (VCpu S) A
  on_registers = zoom (λ s. (s.vmcs, s.guest_cpu)) (λ r s. record s { vmcs = r.0; guest_cpu = r.1 })

  abbrev pub on_bus : {A : Type 0} → Run (Bus S) A → Run (VCpu S) A
  on_bus = zoom (λ s. s.bus) (λ b s. record s { bus = b })

  abbrev pub with_machines : VirtualMachineSet → Bus S → Bus S
  with_machines m b = record b {
    env = record (b.env) { timing = record (b.env.timing) { machines = m } };
  }

  abbrev pub on_machines : {A : Type 0} → Run VirtualMachineSet A → Run (VCpu S) A
  on_machines =
      zoom (λ s. s.bus.env.timing.machines) (λ m s. record s { bus = with_machines m s.bus })

  abbrev pub on_apic : {A : Type 0} → Run ApicState A → Run (VCpu S) A
  on_apic =
      zoom
        (λ s. record {
          apic = s.local_apic;
          destinations = s.destinations;
          machines = s.bus.env.timing.machines;
        })
        (λ a s. record s {
          local_apic = a.apic;
          destinations = a.destinations;
          bus = with_machines a.machines s.bus;
        })

  abbrev pub dispatch :
      EmulatedDevice S → DeviceInteraction → DeviceEvent → Run (VCpu S) DeviceEvent
  dispatch trait ident kind = on_bus (dispatch_event trait ident kind)
