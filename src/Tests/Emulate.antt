-- ===== src/Tests/Emulate.antt =====
-- Emulated instructions and the memory behind them at concrete inputs: mythril/src/emulate and
-- mythril/src/memory.rs.
use mythril.Prelude.{
  ℕ, ◌+◌, ◌*◌, ◌/◌, ◌%◌, ◌<◌, ◌≤◌, ◌≡◌, refl, arith, inl, ◌⊎◌, List, [], ◌∷◌, true, false, ◌==◌,
  if◌then◌else◌, none, length, map,
}
use mythril.Prelude.Word.{from_be_bytes, u64}
use mythril.Error.{ok, panic}
use mythril.Time.Core.{Timing}
use mythril.Memory.Address.{no_paging, as_u64}
use mythril.Memory.Ept.{find_host_frame}
use mythril.Memory.Bytes.{GuestAddressSpace, as_array, read_bytes, read_rounds, window}
use mythril.Memory.Bytes.Each.{read_each, read_bytes_lem}
use mythril.Vmcs.Field.{VmcsField, field_code}
use mythril.VmExit.Cpu.{GuestCpuState}
use mythril.VmExit.Info.{IoInstructionInformation}
use mythril.Vm.Dispatch.{port, dispatch_event, find_device}
use mythril.Virtdev.PortRead.{one_byte, as_slice, copy_from_u32}
use mythril.Virtdev.DeviceMap.{port_cmp}
use mythril.Virtdev.DebugPort
use mythril.Virtdev.Device.{Device, Platform, debug_port, emulated}
use mythril.Virtdev.Event.{port_read, max_event_responses, guest_uart_transmitted}
use mythril.Vcpu.State.{VCpu, dispatch}
use mythril.Emulate.Guest.{read_guest, virt_addr}
use mythril.Emulate.PortIo.{emulate_portio}
use mythril.Emulate.PortIo.Input.{merged, emulate_in_lem}
use mythril.Emulate.PortIo.Output.{Serves, outs_lem}
use mythril.Emulate.Register.{Instruction, register, memory, eax}
use mythril.Tests.Devices.{cmos_codes, vga_codes}

-- Tables of the host that lead every address to the frame at 0x5000, whose bytes are those of their
-- addresses.
abbrev pub space : GuestAddressSpace
space = record {
  tables = record { entries = λ _ _. 0x5007; supply = [] };
  root = 0x1000;
  bytes = λ a. a % 256;
}

read_bytes_lem_example :
    read_bytes (λ e. e / 4096 * 4096) space 0 (no_paging 0x1ffe) 4
    ≡ read_each (λ e. e / 4096 * 4096) space 0 (no_paging 0x1ffe) 0 4
unfolding as_u64
read_bytes_lem_example =
    read_bytes_lem (λ e. e / 4096 * 4096) space 0 (λ e. omega arith) (no_paging 0x1ffe) 4
      (omega arith) (omega arith)

abbrev pub registers : GuestCpuState
registers = record {
  cr2 = 0;
  r15 = 0;
  r14 = 0;
  r13 = 0;
  r12 = 0;
  r11 = 0;
  r10 = 0;
  r9 = 0;
  r8 = 0;
  rbp = 0;
  rdi = 0;
  rsi = 0x2000;
  rdx = 0;
  rcx = 2;
  rbx = 0;
  rax = 0x1234_5678_9abc;
}

abbrev pub timing : Timing
timing = record {
  wheel = record { counter = 0; timers = [] };
  clock = record { readings = λ n. n; taken = 0 };
  scheduled = none;
  machines = record { contexts = []; vms = []; notified = [] };
}

-- A guest without paging, whose only device is a debug port.
abbrev pub vcpu : VCpu Device
vcpu = record {
  guest_cpu = registers;
  vmcs = λ field. if field == field_code VmcsField.guest_linear_address then 0x2000 else 0;
  bus = record {
    map = record { portio_map = (record { start = 0xe9; end = 0xe9 }, 0) ∷ []; memio_map = [] };
    devices = λ _. debug_port (record { port = 0xe9 });
    env = record { space = space; timing = timing };
    responses = [];
  };
  local_apic = record { icr_destination = none };
  destinations = [];
  pending_interrupts = [];
  vm = record { id = 0; cpus = 0 ∷ [] };
  serial = none;
  host = record { ioapics = []; console = []; acknowledged = 0 };
}

abbrev pub platform : Platform
platform = record {
  frequency = 1_000_000_000;
  start = 0;
  core_id = 0;
  address = λ e. e / 4096 * 4096;
  cr3 = 0;
  cmos_registers = cmos_codes;
  vga_registers = vga_codes;
}

abbrev in_byte : IoInstructionInformation
in_byte = record {
  size = 1;
  input = true;
  string = false;
  rep = false;
  immediate = true;
  port = 0xe9;
}

abbrev outs_bytes : IoInstructionInformation
outs_bytes = record {
  size = 1;
  input = false;
  string = true;
  rep = true;
  immediate = false;
  port = 0xe9;
}

-- The debug port gives its own number.
abbrev after_in : VCpu Device
after_in = (dispatch (emulated platform) (port 0xe9) (port_read 0xe9 (one_byte 0)) vcpu).0

emulate_in_lem_example : emulate_portio (emulated platform) platform.address in_byte vcpu ≡ (
  record after_in {
    guest_cpu = record registers {
      rax = merged registers.rax (1 * 8) (from_be_bytes (as_slice (one_byte 0xe9)));
    };
  },
  ok tt,
)
unfolding dispatch_event find_device port_cmp emulated DebugPort.on_event copy_from_u32
emulate_in_lem_example =
    emulate_in_lem (emulated platform) platform.address in_byte vcpu after_in (one_byte 0xe9) refl
      refl (inl refl) refl (omega arith) (omega arith)

debug-Serves : Serves vcpu.bus 0xe9 0 (record { port = 0xe9 })
unfolding find_device port_cmp
debug-Serves = record { found = refl; device = refl }

outs_lem_example :
    let r = emulate_portio (emulated platform) platform.address outs_bytes vcpu in
    let bytes : List ℕ = 0 ∷ 1 ∷ [] in
    ((length bytes ≤ max_event_responses)
      × (r.1 ≡ ok tt)
      × ((r.0).bus.responses ≡ map guest_uart_transmitted bytes)
      × ((r.0).guest_cpu ≡ record registers { rsi = u64 (registers.rsi + length bytes); rcx = 0 }))
    ⊎ ((max_event_responses < length bytes) × (r.1 ≡ panic))
unfolding field_code read_guest virt_addr read_bytes read_rounds as_array find_host_frame as_u64
    window
outs_lem_example =
    outs_lem platform platform.address 0 (record { port = 0xe9 }) outs_bytes vcpu (no_paging 0x2000)
      (0 ∷ 1 ∷ []) refl refl refl debug-Serves refl refl refl

-- A load of four bytes into the low half of the accumulator.
abbrev pub load : Instruction
load = record { op0_kind = register; op1_kind = memory; op_register = λ _. eax; immediate = 0 }
