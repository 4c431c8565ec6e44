-- ===== src/Vcpu/Ipc.antt =====
-- Interrupts between cores, from their sends to the pending interrupts of the core that receives them
-- and the end of its exit (`handle_ipc` and `handle_vmexit` of mythril/src/vcpu.rs).
use mythril.Prelude.{ℕ, List, [], ◌∷◌, true}
use mythril.Error.{Result}
use mythril.Time.{InjectedInterruptType, TimerInterruptType, direct, expire_elapsed_timers}
use mythril.VmExit as VmExit
use mythril.Virtdev.Device.{EmulatedDevice}
use mythril.Vm.Messages.{VirtualMachineMsg, VirtualMachineSet, guest_interrupt, recv_all_msgs}
use mythril.Vm.Queue.{Sending}
use mythril.Vcpu.State.{VCpu, on_machines}
use mythril.Vcpu.Handle.{Outside}

abbrev pub interrupt : ℕ × InjectedInterruptType → VirtualMachineMsg
interrupt (vector, kind) = guest_interrupt kind vector

abbrev pub direct_timer : ℕ × InjectedInterruptType → TimerInterruptType
direct_timer (vector, kind) = direct vector kind

-- Sends of interrupts to one core.
abbrev pub sends_to : ℕ → List (ℕ × InjectedInterruptType) → List Sending
sends_to core [] = []
sends_to core (event ∷ events) =
    record { msg = interrupt event; to = core; notify = true } ∷ sends_to core events

module _ {S : Type 0} (outside : Outside) (trait : EmulatedDevice S) where
  abbrev pub machines : VCpu S → VirtualMachineSet
  machines s = s.bus.env.timing.machines

  -- What is left when the messages of the core were taken.
  abbrev taken : VCpu S → VCpu S
  taken s = (on_machines (recv_all_msgs outside.core_id) s).0

  quiet : VCpu S → VCpu S
  quiet s = record s { bus = record (s.bus) { responses = [] } }

  -- What the wheel of the core brings at the exit.
  abbrev pub expired : VCpu S → Result (List TimerInterruptType)
  expired s =
      (expire_elapsed_timers outside.frequency s.bus.env.timing.wheel s.bus.env.timing.clock).result
