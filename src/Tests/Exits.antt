-- ===== src/Tests/Exits.antt =====
-- Exits of a guest at concrete inputs: mythril/src/vcpu.rs and mythril/src/emulate.
use mythril.Prelude.{ℕ, ◌≡◌, refl, List, [], ◌∷◌, ◌==◌, if◌then◌else◌, some}
use mythril.Prelude.BTreeMap
use mythril.Prelude.Primitive.{TryFromPrimitive, search_code, code-search_code}
use mythril.Error.{
  VmInstructionError, vm_instruction_error_code, unknown_error, vm_call_in_root,
  vm_clear_invalid_address, vm_clear_with_vmx_on_ptr, vm_launch_non_clear, vm_resume_non_launched,
  vm_resume_after_vmx_off, vm_entry_with_invalid_ctrl_fields, vm_entry_with_invalid_host_fields,
  vm_ptr_ld_with_invalid_phys_addr, vm_ptr_ld_with_vmx_on_ptr, vm_ptr_ld_with_wrong_vmcs_revision,
  vm_read_write_to_unsupported_field, vm_write_to_read_only, vmx_on_in_root_mode,
  vm_entry_with_invalid_exec_vmcs_ptr, vm_entry_with_non_launch_exec_vmcs,
  vm_entry_with_exec_vmcs_ptr, vm_call_with_non_clear_vmcs, vm_call_with_invalid_vm_exit_fields,
  vm_call_with_incorrect_mseg_rev, vmx_off_under_dual_monitor, vm_call_with_invalid_smm_features,
  vm_entry_with_invalid_vm_exec_fields, vm_entry_with_events_blocked_mov_ss,
  invalid_operand_to_invept_invvpid,
}
use mythril.Time.{InjectedInterruptType, external_interrupt, non_maskable_interrupt}
use mythril.Vmcs.{Control, Vmx}
use mythril.Vmcs.Field.{VmcsField, field_code}
use mythril.Vcpu.Pending.{IsInterruptible}

abbrev pub instruction_errors_all : List VmInstructionError
instruction_errors_all =
    unknown_error ∷ vm_call_in_root ∷ vm_clear_invalid_address ∷ vm_clear_with_vmx_on_ptr
    ∷ vm_launch_non_clear ∷ vm_resume_non_launched ∷ vm_resume_after_vmx_off
    ∷ vm_entry_with_invalid_ctrl_fields ∷ vm_entry_with_invalid_host_fields
    ∷ vm_ptr_ld_with_invalid_phys_addr ∷ vm_ptr_ld_with_vmx_on_ptr
    ∷ vm_ptr_ld_with_wrong_vmcs_revision ∷ vm_read_write_to_unsupported_field
    ∷ vm_write_to_read_only ∷ vmx_on_in_root_mode ∷ vm_entry_with_invalid_exec_vmcs_ptr
    ∷ vm_entry_with_non_launch_exec_vmcs ∷ vm_entry_with_exec_vmcs_ptr ∷ vm_call_with_non_clear_vmcs
    ∷ vm_call_with_invalid_vm_exit_fields ∷ vm_call_with_incorrect_mseg_rev
    ∷ vmx_off_under_dual_monitor ∷ vm_call_with_invalid_smm_features
    ∷ vm_entry_with_invalid_vm_exec_fields ∷ vm_entry_with_events_blocked_mov_ss
    ∷ invalid_operand_to_invept_invvpid ∷ []

pub instruction_errors-found :
    (a : VmInstructionError)
    → search_code vm_instruction_error_code instruction_errors_all (vm_instruction_error_code a)
      ≡ some a
unfolding vm_instruction_error_code
instruction_errors-found unknown_error = refl
instruction_errors-found vm_call_in_root = refl
instruction_errors-found vm_clear_invalid_address = refl
instruction_errors-found vm_clear_with_vmx_on_ptr = refl
instruction_errors-found vm_launch_non_clear = refl
instruction_errors-found vm_resume_non_launched = refl
instruction_errors-found vm_resume_after_vmx_off = refl
instruction_errors-found vm_entry_with_invalid_ctrl_fields = refl
instruction_errors-found vm_entry_with_invalid_host_fields = refl
instruction_errors-found vm_ptr_ld_with_invalid_phys_addr = refl
instruction_errors-found vm_ptr_ld_with_vmx_on_ptr = refl
instruction_errors-found vm_ptr_ld_with_wrong_vmcs_revision = refl
instruction_errors-found vm_read_write_to_unsupported_field = refl
instruction_errors-found vm_write_to_read_only = refl
instruction_errors-found vmx_on_in_root_mode = refl
instruction_errors-found vm_entry_with_invalid_exec_vmcs_ptr = refl
instruction_errors-found vm_entry_with_non_launch_exec_vmcs = refl
instruction_errors-found vm_entry_with_exec_vmcs_ptr = refl
instruction_errors-found vm_call_with_non_clear_vmcs = refl
instruction_errors-found vm_call_with_invalid_vm_exit_fields = refl
instruction_errors-found vm_call_with_incorrect_mseg_rev = refl
instruction_errors-found vmx_off_under_dual_monitor = refl
instruction_errors-found vm_call_with_invalid_smm_features = refl
instruction_errors-found vm_entry_with_invalid_vm_exec_fields = refl
instruction_errors-found vm_entry_with_events_blocked_mov_ss = refl
instruction_errors-found invalid_operand_to_invept_invvpid = refl

abbrev pub instruction_errors : TryFromPrimitive vm_instruction_error_code
instruction_errors = record {
  try_from = search_code vm_instruction_error_code instruction_errors_all;
  try_from-code = instruction_errors-found;
  code-try_from = code-search_code vm_instruction_error_code instruction_errors_all;
}

-- A processor that accepts every write.
abbrev pub vmx : Vmx
vmx = record {
  rdmsr = λ _. 0;
  vmwrite = λ c field value. (λ other. if other == field then value else c other, 0);
  vmwrite_succeeds = λ c field value e other. refl;
  errors = instruction_errors;
}

-- A guest that takes interrupts.
abbrev pub enabled : Control
enabled field = if field == field_code VmcsField.guest_rflags then 0x202 else 0

pub enabled-IsInterruptible : IsInterruptible enabled
unfolding field_code
enabled-IsInterruptible = record { unblocked = refl; enabled = refl }

abbrev events : List (ℕ × InjectedInterruptType)
events =
    (0x31, external_interrupt) ∷ (0x20, external_interrupt) ∷ (0x31, non_maskable_interrupt) ∷ []
