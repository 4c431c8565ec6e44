-- ===== src/Vcpu/Inject.antt =====
-- How mythril/src/vcpu.rs injects interrupts: at the end of an exit the pending interrupt of the lowest vector is
-- injected, if the guest takes interrupts; while some are pending the guest is asked to leave when it
-- does.
use mythril.Prelude.{
  ℕ, Bool, ◌&&◌, ◌==◌, ◌/=◌, if◌then◌else◌, Option, none, some, [], ◌∷◌, bit_and, bit_or, compare,
}
use mythril.Prelude.Word.{not64, ◌<<<◌, has_bit}
use mythril.Prelude.BTreeMap
use mythril.Error.{ok, ok_or, invalid_value}
use mythril.Error.Run.{Run, ◌>>=◌, ◌>>◌, lift, gets, zoom}
use mythril.Time.{
  InjectedInterruptType, external_interrupt, non_maskable_interrupt, hardware_exception,
  software_interrupt, privileged_software_exception, software_exception, other_event,
}
use mythril.Vmcs.{Control, Vmx, vmcs_read, write_field}
use mythril.Vmcs.Field.{VmcsField}
use mythril.Vcpu.State.{Pending}

-- `InjectedInterruptType as u64`.
unfoldable pub injected_code : InjectedInterruptType → ℕ
injected_code external_interrupt = 0
injected_code non_maskable_interrupt = 2
injected_code hardware_exception = 3
injected_code software_interrupt = 4
injected_code privileged_software_exception = 5
injected_code software_exception = 6
injected_code other_event = 7

-- What the injection works on.
abbrev pub Injection : Type 0
Injection = Control × Pending

unfoldable pub inject_interrupt : ℕ → InjectedInterruptType → Pending → Pending
inject_interrupt vector kind pending = BTreeMap.insert compare vector kind pending

-- `InterruptibilityState::from_bits`: five bits are known.
unfoldable pub from_bits : ℕ → Option ℕ
from_bits bits = if bit_and bits (not64 0b11111) /= 0 then none else some bits

-- `CpuBasedCtrlFlags::INTERRUPT_WINDOW_EXITING`.
abbrev pub interrupt_window_exiting : ℕ
interrupt_window_exiting = 4

-- The interruption information of a pending interrupt.
unfoldable pub interrupt_info : ℕ → InjectedInterruptType → ℕ
unfolding injected_code
interrupt_info vector kind = bit_or (bit_or 0x80000000 vector) (injected_code kind <<< 8)

abbrev pub with_window : ℕ → ℕ
with_window field = bit_or field interrupt_window_exiting

abbrev pub without_window : ℕ → ℕ
without_window field = bit_and field (not64 interrupt_window_exiting)

abbrev pub window_for : Pending → ℕ → ℕ
window_for [] field = without_window field
window_for (next ∷ pending) field = with_window field

unfoldable pub interruptible : ℕ → ℕ → Bool
interruptible interruptibility rflags = interruptibility == 0 && has_bit rflags 9

module _ (vmx : Vmx) where
  abbrev pub read_control : VmcsField → Run Injection ℕ
  read_control field s = (s, vmcs_read (s.0) field)

  abbrev pub write_control : VmcsField → ℕ → Run Injection (Unit {0})
  write_control field value = zoom (λ s. s.0) (λ c s. (c, s.1)) (write_field vmx field value)

  -- The first pending interrupt is taken and injected.
  unfoldable pub inject_first : Run Injection (Unit {0})
  inject_first (vmcs, []) = ((vmcs, []), ok tt)
  inject_first (vmcs, (vector, kind) ∷ pending) =
      write_control VmcsField.vm_entry_intr_info_field (interrupt_info vector kind) (vmcs, pending)

  -- Where something is pending.
  unfoldable pub inject_pending : Run Injection (Unit {0})
  unfolding from_bits interruptible inject_first
  inject_pending = do
    bits ← read_control VmcsField.guest_interruptibility_info
    interruptibility ← lift (ok_or (from_bits bits) invalid_value)
    rflags ← read_control VmcsField.guest_rflags
    field ← read_control VmcsField.cpu_based_vm_exec_control
    if interruptible interruptibility rflags
        then (do
          write_control VmcsField.cpu_based_vm_exec_control (without_window field)
          inject_first
          rest ← gets (λ s. s.1)
          write_control VmcsField.cpu_based_vm_exec_control (window_for rest field))
        else write_control VmcsField.cpu_based_vm_exec_control (with_window field)

  -- The second part of `handle_vmexit`, past the timers.
  unfoldable pub finish_vmexit : Run Injection (Unit {0})
  unfolding inject_pending
  finish_vmexit (vmcs, []) = ((vmcs, []), ok tt)
  finish_vmexit (vmcs, next ∷ pending) = inject_pending (vmcs, next ∷ pending)
