-- ===== src/Vcpu/Handle.antt =====
-- `handle_vmexit` of mythril/src/vcpu.rs: an exit is handled, then the responses of devices, then the timers that
-- elapsed, then the interrupts that are pending.
use mythril.Prelude.{
  ℕ, ◌+◌, ◌%◌, ◌^◌, true, ◌==◌, if◌then◌else◌, Option, none, some, List, [], ◌∷◌, ◌++◌, bit_and,
}
use mythril.Prelude.Word.{u8, u32, u64, not64, ◌>>>◌}
use mythril.Error.{Result, ok, err, panic, ok_or, ◌>>=◌ as and_then, not_found, device_error}
use mythril.Error.Run.{Run, continue, ◌>>=◌, ◌>>◌, lift, gets, modify, done, zoom}
use mythril.Time.{
  InjectedInterruptType, external_interrupt, TimerInterruptType, direct, expire_elapsed_timers,
}
use mythril.Time as Time
use mythril.Time.Core.{after, cancel_timer}
use mythril.Vmcs.{Vmx, vmcs_read, write_field}
use mythril.Vmcs.Field.{VmcsField}
use mythril.VmExit.{
  ExitInformation, ExitReason, rd_msr, apic_access, cr_access, cpu_id, io_instruction,
  ept_violation, interrupt_window,
}
use mythril.VmExit as VmExit
use mythril.VmExit.Info.{VectoredEventInformation}
use mythril.IoApic.{map_gsi_vector}
use mythril.Virtdev.Event.{
  DeviceEvent, DeviceEventResponse, host_uart_received, guest_uart_transmitted, next_console,
}
use mythril.Virtdev.Event as Event
use mythril.Virtdev.Device.{EmulatedDevice}
use mythril.Virtdev.Lapic.{ApicEnums}
use mythril.Vm.Messages.{
  VirtualMachineMsg, VirtualMachineSet, grant_console, start_vcpu, guest_interrupt, bsp_id, count,
  context_by_vm_id, bsp_of, send_msg, send_msg_core, recv_all_msgs,
}
use mythril.Vm.Messages as Messages
use mythril.Vm.Dispatch.{port}
use mythril.Vcpu.State.{VCpu, Host, dispatch, on_bus, on_vmcs, on_registers, on_machines}
use mythril.Vcpu.Inject.{inject_interrupt, finish_vmexit}
use mythril.Emulate.Register.{Instruction}
use mythril.Emulate.ControlReg.{CpuIdResult, emulate_access, emulate_cpuid}
use mythril.Emulate.PortIo.{emulate_portio}
use mythril.Emulate.MemIo.{handle_ept_violation}
use mythril.Emulate.MemIo.Apic.{handle_apic_access}

-- Constants of mythril/src/interrupt/mod.rs, and the number of the register for the base of the APIC.
abbrev pub vector_uart : ℕ
vector_uart = 36

abbrev pub vector_ipc : ℕ
vector_ipc = 49

abbrev pub gsi_uart : ℕ
gsi_uart = 4

abbrev pub ia32_apic_base : ℕ
ia32_apic_base = 0x1b

-- What handling takes from outside: instructions of the processor, the byte that the serial port gives,
-- the decoder, and the conversions from numbers.
pub record Outside : Type 0 where
  pub vmx : Vmx
  pub invvpid : ℕ → Result (Unit {0})
  pub cpuid_count : ℕ → ℕ → CpuIdResult
  pub decode : ℕ → List ℕ → ℕ → Instruction
  pub address : ℕ → ℕ
  pub serial_byte : ℕ
  pub apic_enums : ApicEnums
  pub frequency : ℕ
  pub core_id : ℕ

module _ {S : Type 0} (outside : Outside) (trait : EmulatedDevice S) where
  unfoldable pub inject : ℕ → InjectedInterruptType → Run (VCpu S) (Unit {0})
  inject vector kind =
      modify
        λ s. record s { pending_interrupts = inject_interrupt vector kind s.pending_interrupts }

  -- `gsi_destination`, for the core and the vector; the kind is always external.
  unfoldable pub gsi_destination : ℕ → VCpu S → Result (ℕ × ℕ)
  gsi_destination gsi s =
      let vector = u8 (u32 (gsi + 48)) in
      if gsi == gsi_uart
      then and_then (bsp_id s.vm) (λ bsp. ok (bsp, vector))
      else ok (outside.core_id, vector)

  unfoldable pub route_interrupt : ℕ → Run (VCpu S) (Unit {0})
  unfolding gsi_destination inject
  route_interrupt gsi s =
      continue
        (λ destination.
          if destination.0 == outside.core_id
          then inject (destination.1) external_interrupt
          else on_machines (
              send_msg_core (guest_interrupt external_interrupt (destination.1)) (destination.0)
                true))
        (s, gsi_destination gsi s)

  unfoldable pub skip_emulated_instruction : Run (VCpu S) (Unit {0})
  skip_emulated_instruction s =
      (lift (vmcs_read s.vmcs VmcsField.guest_rip) >>= λ rip.
      lift (vmcs_read s.vmcs VmcsField.vm_exit_instruction_len) >>= λ length_.
      on_vmcs (write_field outside.vmx VmcsField.guest_rip (u64 (rip + length_))))
        s

  -- One message of another core.
  unfoldable pub handle_msg : VirtualMachineMsg → Run (VCpu S) (Unit {0})
  unfolding inject
  handle_msg (grant_console serial) = modify (λ s. record s { serial = some serial })
  handle_msg (Messages.cancel_timer id) = on_bus (
      zoom (λ b. b.env.timing) (λ t b. record b { env = record (b.env) { timing = t } })
        (cancel_timer outside.frequency outside.core_id id))
  handle_msg (guest_interrupt kind vector) = inject vector kind
  handle_msg (start_vcpu addr) = done tt

  unfoldable pub handle_msgs : List VirtualMachineMsg → Run (VCpu S) (Unit {0})
  unfolding handle_msg
  handle_msgs [] = done tt
  handle_msgs (msg ∷ msgs) = handle_msg msg >> handle_msgs msgs

  unfoldable pub handle_ipc : Run (VCpu S) (Unit {0})
  unfolding handle_msgs
  handle_ipc = on_machines (recv_all_msgs outside.core_id) >>= handle_msgs

  received : Option ℕ → Run (VCpu S) (Unit {0})
  received none = done tt
  received (some base) =
      dispatch trait (port base) (host_uart_received outside.serial_byte) >>= λ event. done tt

  unfoldable pub handle_uart_keypress : Run (VCpu S) (Unit {0})
  unfolding received
  handle_uart_keypress s = received s.serial s

  unfoldable pub read_msr : Run (VCpu S) (Unit {0})
  read_msr = modify λ s.
      let base = bit_and (outside.vmx.rdmsr ia32_apic_base) (not64 (2 ^ 10)) in
      if u32 s.guest_cpu.rcx == ia32_apic_base
      then record s {
        guest_cpu = record (s.guest_cpu) { rdx = base >>> 32; rax = bit_and base 0xffffffff };
      }
      else s

  unfoldable pub acknowledge : Run (VCpu S) (Unit {0})
  acknowledge =
      modify (λ s. record s { host = record (s.host) { acknowledged = s.host.acknowledged + 1 } })

  unfoldable pub handle_interrupt : VectoredEventInformation → Run (VCpu S) (Unit {0})
  unfolding handle_uart_keypress handle_ipc acknowledge
  handle_interrupt info =
      (if info.vector == vector_uart
        then handle_uart_keypress
        else if info.vector == vector_ipc
        then handle_ipc
        else done tt)
      >> acknowledge

  -- The cases of `handle_vmexit_impl`.
  unfoldable pub handle_information : ExitInformation → Run (VCpu S) (Unit {0})
  unfolding read_msr handle_interrupt skip_emulated_instruction
  handle_information rd_msr = read_msr >> skip_emulated_instruction
  handle_information (apic_access info) =
      handle_apic_access outside.apic_enums outside.core_id outside.address outside.decode info
      >> skip_emulated_instruction
  handle_information (cr_access info) =
      on_registers (emulate_access outside.vmx outside.invvpid info) >> skip_emulated_instruction
  handle_information cpu_id =
      modify (λ s. record s {
        guest_cpu = emulate_cpuid outside.cpuid_count outside.core_id s.guest_cpu;
      })
      >> skip_emulated_instruction
  handle_information (io_instruction info) =
      emulate_portio trait outside.address info >> skip_emulated_instruction
  handle_information (ept_violation info) =
      handle_ept_violation outside.address outside.decode trait >> skip_emulated_instruction
  handle_information interrupt_window = done tt
  handle_information (VmExit.external_interrupt info) = handle_interrupt info
  handle_information _ = lift panic

  -- The console goes to the machine of the next number.
  next_vmid : ℕ → ℕ → Result ℕ
  next_vmid id machines = if machines == 0 then panic else ok (u32 (id + 1) % machines)

  map_console : ℕ → Run Host (Unit {0})
  map_console core host =
      let (ioapics, result) = map_gsi_vector host.ioapics gsi_uart vector_uart (u8 core) in
      (
        record host { ioapics = ioapics },
        elim result [ ok done ↦ ok done | err e ↦ err device_error | panic ↦ panic ],
      )

  found_bsp : Option Messages.VirtualMachineContext → Result ℕ
  found_bsp none = err not_found
  found_bsp (some context) = bsp_id context.vm

  unfoldable pub switch_console : Run (VCpu S) (Unit {0})
  unfolding next_vmid map_console found_bsp
  switch_console = do
    taken ← gets (λ s. s.serial)
    modify (λ s. record s { serial = none })
    serial ← lift (ok_or taken not_found)
    machines ← gets (λ s. s.bus.env.timing.machines)
    id ← gets (λ s. s.vm.id)
    vmid ← lift (next_vmid id (count machines))
    on_machines (send_msg (grant_console serial) vmid true)
    set ← gets (λ s. s.bus.env.timing.machines)
    bsp ← lift (found_bsp (context_by_vm_id set vmid))
    zoom (λ s. s.host) (λ h s. record s { host = h }) (map_console bsp)

  transmit : Option ℕ → ℕ → VCpu S → VCpu S
  transmit none val s = s
  transmit (some serial) val s = record s {
    host = record (s.host) { console = s.host.console ++ (val ∷ []) };
  }

  unfoldable pub handle_response : DeviceEventResponse → Run (VCpu S) (Unit {0})
  unfolding route_interrupt switch_console transmit
  handle_response (Event.gsi gsi) = route_interrupt gsi
  handle_response next_console = switch_console
  handle_response (guest_uart_transmitted val) = modify (λ s. transmit s.serial val s)

  unfoldable pub handle_responses : List DeviceEventResponse → Run (VCpu S) (Unit {0})
  unfolding handle_response
  handle_responses [] = done tt
  handle_responses (response ∷ responses) = handle_response response >> handle_responses responses

  -- The array of responses is new for each exit.
  unfoldable pub handle_vmexit_impl : ExitInformation → Run (VCpu S) (Unit {0})
  unfolding handle_information handle_responses
  handle_vmexit_impl info = do
    modify (λ s. record s { bus = record (s.bus) { responses = [] } })
    handle_information info
    responses ← gets (λ s. s.bus.responses)
    handle_responses responses

  -- What an elapsed timer brings.
  unfoldable pub handle_timer : TimerInterruptType → Run (VCpu S) (Unit {0})
  unfolding inject route_interrupt
  handle_timer (direct vector kind) = inject vector kind
  handle_timer (Time.gsi gsi) = route_interrupt gsi

  unfoldable pub handle_timers : List TimerInterruptType → Run (VCpu S) (Unit {0})
  unfolding handle_timer
  handle_timers [] = done tt
  handle_timers (timer ∷ timers) = handle_timer timer >> handle_timers timers

  unfoldable pub expire : Run (VCpu S) (List TimerInterruptType)
  expire = on_bus (
      zoom (λ b. b.env.timing) (λ t b. record b { env = record (b.env) { timing = t } })
        (λ t.
          let stepped = expire_elapsed_timers outside.frequency t.wheel t.clock in
          (after t stepped, stepped.result)))

  unfoldable pub handle_vmexit : ExitReason → Run (VCpu S) (Unit {0})
  unfolding handle_vmexit_impl handle_timers expire
  handle_vmexit exit = do
    handle_vmexit_impl exit.info
    timers ← expire
    handle_timers timers
    zoom (λ s. (s.vmcs, s.pending_interrupts))
        (λ i s. record s { vmcs = i.0; pending_interrupts = i.1 }) (finish_vmexit outside.vmx)
