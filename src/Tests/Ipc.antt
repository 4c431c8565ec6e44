-- ===== src/Tests/Ipc.antt =====
-- Interrupts between cores at concrete inputs: mythril/src/vcpu.rs.
use mythril.Prelude.{ℕ, ◌+◌, List, [], ◌∷◌, none, true}
use mythril.Prelude.BTreeMap
use mythril.Error.{ok}
use mythril.Time.{
  InjectedInterruptType, external_interrupt, non_maskable_interrupt, TimerId, RunningTimer, direct,
  one_shot,
}
use mythril.VmExit as VmExit
use mythril.VmExit.Info as Info
use mythril.VmExit.Info.{VectoredEventInformation}
use mythril.Virtdev.Device.{Device}
use mythril.Vm.Queue.{send_all}
use mythril.Vcpu.State.{VCpu}
use mythril.Vcpu.Handle.{Outside, vector_ipc}
use mythril.Vcpu.Ipc.{machines, sends_to}
use mythril.Tests.Exits.{vmx, enabled}
use mythril.Tests.Messages as Messages
use mythril.Tests.Emulate.{vcpu, platform, load}

abbrev outside : Outside
outside = record {
  vmx = vmx;
  invvpid = λ vpid. ok tt;
  cpuid_count = λ leaf count. record { eax = 0; ebx = 0; ecx = 0; edx = 0 };
  decode = λ mode ip bytes. load;
  address = platform.address;
  serial_byte = 0;
  apic_enums = Messages.enums;
  frequency = 1_000_000_000;
  core_id = 1;
}

abbrev events : List (ℕ × InjectedInterruptType)
events = (0x31, external_interrupt) ∷ (0x20, non_maskable_interrupt) ∷ []

-- A timer of the core that has elapsed at any reading past 5, and is over then.
abbrev elapsed : TimerId × RunningTimer
elapsed = (
  record { timer_id = 0; core_id = 1 },
  record { duration = 5; mode = one_shot; started = 0; kind = direct 0x40 external_interrupt },
)

abbrev timers : List (ℕ × InjectedInterruptType)
timers = (0x40, external_interrupt) ∷ []

abbrev receiver : VCpu Device
receiver = record vcpu {
  vmcs = enabled;
  bus = record (vcpu.bus) {
    env = record (vcpu.bus.env) {
      timing = record (vcpu.bus.env.timing) {
        wheel = record { counter = 1; timers = elapsed ∷ [] };
        clock = record { readings = λ n. n + 100; taken = 0 };
        machines = send_all (sends_to 1 events) Messages.machines;
      };
    };
  };
}

abbrev info : VectoredEventInformation
info = record {
  vector = vector_ipc;
  interrupt_type = Info.external_interrupt;
  error_code = none;
  nmi_unblocking_iret = true;
  valid = true;
}
