-- ===== src/Vcpu/Pending.antt =====
-- Pending interrupts, from exit to exit.
use mythril.Prelude.{
  ℕ, ◌≡◌, refl, arith, true, ◌==◌, if◌then◌else◌, List, [], ◌∷◌, ◌<◌, Option, some, drop, ◌++◌,
}
use mythril.Prelude.Word.{has_bit}
use mythril.Prelude.BTreeMap
use mythril.Error.{Result, ok}
use mythril.Time.{InjectedInterruptType}
use mythril.Vmcs.{Control, Vmx, vmcs_read, write_field}
use mythril.Vmcs.Field.{VmcsField, field_code}
use mythril.Vmcs.Access.{Writable, write_field-Writable}
use mythril.Vcpu.State.{Pending}
use mythril.Vcpu.Inject.{
  inject_interrupt, finish_vmexit, inject_pending, inject_first, interrupt_info, window_for,
  without_window, from_bits, interruptible,
}

-- The guest takes interrupts: nothing blocks them, and the flag IF is set.
pub record IsInterruptible (c : Control) : Type 0 where
  pub unblocked : c (field_code VmcsField.guest_interruptibility_info) ≡ 0
  pub enabled : has_bit (c (field_code VmcsField.guest_rflags)) 9 ≡ true

abbrev exec_control : ℕ
exec_control = 0x4002

abbrev entry_info : ℕ
entry_info = 0x4016

-- In the order of the vectors, above one.
abbrev Above : ℕ → Pending → Type 0
Above v [] = Unit {0}
Above v ((w, kind) ∷ pending) = (v < w) × Above w pending

abbrev pub IsAscending : Pending → Type 0
IsAscending [] = Unit {0}
IsAscending ((v, kind) ∷ pending) = Above v pending

-- Interrupts that arrive, one after the other.
unfoldable pub inject_all : List (ℕ × InjectedInterruptType) → Pending → Pending
unfolding inject_interrupt
inject_all [] pending = pending
inject_all ((v, kind) ∷ events) pending = inject_all events (inject_interrupt v kind pending)

-- The kind of the last arrival of a vector, or what was pending for it.
abbrev pub last_kind :
    ℕ
    → List (ℕ × InjectedInterruptType)
    → Option InjectedInterruptType
    → Option InjectedInterruptType
last_kind v [] before = before
last_kind v ((w, kind) ∷ events) before = last_kind v events (if v == w then some kind else before)

pub inject_all-append :
    (events later : List (ℕ × InjectedInterruptType)) (pending : Pending)
    → inject_all (events ++ later) pending ≡ inject_all later (inject_all events pending)
unfolding inject_all
inject_all-append [] later pending = refl
inject_all-append ((v, kind) ∷ events) later pending =
    inject_all-append events later (inject_interrupt v kind pending)

-- The control structure that an exit leaves: the first pending interrupt is injected, if there is one.
abbrev pub Injected : Control → Pending → Control → Type 0
Injected c [] c' = c' ≡ c
Injected c ((vector, kind) ∷ rest) c' =
    (field : ℕ)
    → c' field ≡ (
        if field == exec_control
        then window_for rest (c exec_control)
        else if field == entry_info
        then interrupt_info vector kind
        else c field)

module _ (vmx : Vmx) (exec : Writable vmx VmcsField.cpu_based_vm_exec_control)
    (info : Writable vmx VmcsField.vm_entry_intr_info_field) where
  finish_vmexit_lem :
      (c : Control) (vector : ℕ) (kind : InjectedInterruptType) (rest : Pending)
      → IsInterruptible c
      → let r = finish_vmexit vmx (c, (vector, kind) ∷ rest) in
        (r.1 ≡ ok tt)
        × ((r.0).1 ≡ rest)
        × ((field : ℕ)
            → (r.0).0 field ≡ (
                if field == exec_control
                then window_for rest (c exec_control)
                else if field == entry_info
                then interrupt_info vector kind
                else c field))
  unfolding finish_vmexit inject_pending inject_first from_bits interruptible vmcs_read
  finish_vmexit_lem c vector kind rest h =
      let field = c exec_control in
      let closed = write_field vmx VmcsField.cpu_based_vm_exec_control (without_window field) c in
      let one =
        write_field-Writable vmx VmcsField.cpu_based_vm_exec_control (without_window field) c
          exec in
      let value = interrupt_info vector kind in
      let injected = write_field vmx VmcsField.vm_entry_intr_info_field value (closed.0) in
      let two = write_field-Writable vmx VmcsField.vm_entry_intr_info_field value (closed.0) info in
      let three =
        write_field-Writable vmx VmcsField.cpu_based_vm_exec_control (window_for rest field)
          (injected.0) exec in
      rw (h.unblocked, h.enabled, one.0, two.0)
        (three.0, refl, λ f. ground (arith, one.1 f, two.1 f, three.1 f))

  pub finish_vmexit-Injected :
      (c : Control) (pending : Pending)
      → IsInterruptible c
      → let r = finish_vmexit vmx (c, pending) in
        (r.1 ≡ ok tt) × ((r.0).1 ≡ drop 1 pending) × Injected c pending (r.0).0
  unfolding finish_vmexit
  finish_vmexit-Injected c [] h = (refl, refl, refl)
  finish_vmexit-Injected c ((vector, kind) ∷ rest) h = finish_vmexit_lem c vector kind rest h

  -- The exits of a guest with what is pending: each starts from the control structure that the guest
  -- left, and ends with a result and the structure that the guest goes on with.
  pub run_exits : List Control → Pending → List (Control × Result (Unit {0})) × Pending
  unfolding finish_vmexit
  run_exits [] pending = ([], pending)
  run_exits (c ∷ controls) pending =
      let ((c', pending'), r) = finish_vmexit vmx (c, pending) in
      let (ends, left) = run_exits controls pending' in ((c', r) ∷ ends, left)

  -- An exit that injects an interrupt and asks for the next exit if some are left.
  abbrev pub Injects :
      Control → ℕ → InjectedInterruptType → Pending → Control × Result (Unit {0}) → Type 0
  Injects c vector kind rest (c', r) = (r ≡ ok tt) × Injected c ((vector, kind) ∷ rest) c'

  abbrev pub AllInject : List Control → Pending → List (Control × Result (Unit {0})) → Type 0
  AllInject [] [] [] = Unit {0}
  AllInject (c ∷ controls) ((vector, kind) ∷ rest) (end ∷ ends) =
      Injects c vector kind rest end × AllInject controls rest ends
  AllInject _ _ _ = ⊥

  abbrev pub AllInterruptible : List Control → Type 0
  AllInterruptible [] = Unit {0}
  AllInterruptible (c ∷ controls) = IsInterruptible c × AllInterruptible controls
