-- ===== src/Error.antt =====
-- mythril/src/error.rs: the error values. A message is for
-- the log only and is left out of its error; `panic` is the end of a run that the source reaches by
-- a panic (`panic = "abort"`).
pub mod Run
use mythril.Prelude.{
  ℕ, ◌≡◌, refl, ◌⊎◌, inl, inr, Bool, true, false, Option, none, some, not, ◌&&◌, if◌then◌else◌,
}
use mythril.Prelude.Primitive.{TryFromPrimitive}
use mythril.Prelude.Word.{has_bit}

pub data VmInstructionError : Type 0 where
  unknown_error vm_call_in_root vm_clear_invalid_address vm_clear_with_vmx_on_ptr :
      VmInstructionError
  vm_launch_non_clear vm_resume_non_launched vm_resume_after_vmx_off : VmInstructionError
  vm_entry_with_invalid_ctrl_fields vm_entry_with_invalid_host_fields : VmInstructionError
  vm_ptr_ld_with_invalid_phys_addr vm_ptr_ld_with_vmx_on_ptr : VmInstructionError
  vm_ptr_ld_with_wrong_vmcs_revision vm_read_write_to_unsupported_field : VmInstructionError
  vm_write_to_read_only vmx_on_in_root_mode vm_entry_with_invalid_exec_vmcs_ptr : VmInstructionError
  vm_entry_with_non_launch_exec_vmcs vm_entry_with_exec_vmcs_ptr : VmInstructionError
  vm_call_with_non_clear_vmcs vm_call_with_invalid_vm_exit_fields : VmInstructionError
  vm_call_with_incorrect_mseg_rev vmx_off_under_dual_monitor : VmInstructionError
  vm_call_with_invalid_smm_features vm_entry_with_invalid_vm_exec_fields : VmInstructionError
  vm_entry_with_events_blocked_mov_ss invalid_operand_to_invept_invvpid : VmInstructionError

pub data Error : Type 0 where
  vmcs vm_fail_invalid : Error
  vm_fail_valid : VmInstructionError → Error
  duplicate_mapping alloc_error missing_device missing_file null_ptr : Error
  not_supported not_found exists exhausted uefi : Error
  invalid_value invalid_device not_implemented device_error : Error

pub data Result {ℓ} (A : Type ℓ) : Type ℓ where
  panic : Result A
  ok : A → Result A
  err : Error → Result A

abbrev pub ok_or {ℓ} : {A : Type ℓ} → Option A → Error → Result A
ok_or none e = err e
ok_or (some a) e = ok a

-- A test with an early return of an error.
abbrev pub guard : Bool → Error → Result (Unit {0})
guard test e = if test then ok tt else err e

-- `?` and its chains.
infixl 5 ◌>>=◌ ◌>>◌
abbrev pub ◌>>=◌ {ℓ κ} : {A : Type ℓ} {B : Type κ} → Result A → (A → Result B) → Result B
panic >>= next = panic
err e >>= next = err e
ok a >>= next = next a

abbrev pub ◌>>◌ {ℓ} : {B : Type ℓ} → Result (Unit {0}) → Result B → Result B
first >> second = first >>= λ done. second

pub Result-cases {ℓ} :
    {A : Type ℓ} (r : Result A)
    → ((a : A) × (r ≡ ok a)) ⊎ (((e : Error) × (r ≡ err e)) ⊎ (r ≡ panic))
Result-cases (ok a) = inl (a, refl)
Result-cases (err e) = inr (inl (e, refl))
Result-cases panic = inr (inr refl)

pub err-ne-ok {ℓ} : {A : Type ℓ} {e : Error} {a : A} → err e ≡ ok a → ⊥
err-ne-ok h = cc

pub panic-ne-ok {ℓ} : {A : Type ℓ} {a : A} → panic ≡ ok a → ⊥
panic-ne-ok h = cc

-- A chain that succeeds: its first step did, and so did the rest.
pub >>=-eq-ok {ℓ κ} :
    {A : Type ℓ} {B : Type κ} (first : Result A) (next : A → Result B) {b : B}
    → (first >>= next) ≡ ok b
    → (a : A) × (first ≡ ok a) × (next a ≡ ok b)
>>=-eq-ok panic next h = cc
>>=-eq-ok (err e) next h = cc
>>=-eq-ok (ok a) next h = (a, refl, h)

pub guard-ok : (test : Bool) (e : Error) → guard test e ≡ ok tt → test ≡ true
guard-ok true e h = refl
guard-ok false e h = cc

-- `VmInstructionError as u64`.
unfoldable pub vm_instruction_error_code : VmInstructionError → ℕ
vm_instruction_error_code unknown_error = 0
vm_instruction_error_code vm_call_in_root = 1
vm_instruction_error_code vm_clear_invalid_address = 2
vm_instruction_error_code vm_clear_with_vmx_on_ptr = 3
vm_instruction_error_code vm_launch_non_clear = 4
vm_instruction_error_code vm_resume_non_launched = 5
vm_instruction_error_code vm_resume_after_vmx_off = 6
vm_instruction_error_code vm_entry_with_invalid_ctrl_fields = 7
vm_instruction_error_code vm_entry_with_invalid_host_fields = 8
vm_instruction_error_code vm_ptr_ld_with_invalid_phys_addr = 9
vm_instruction_error_code vm_ptr_ld_with_vmx_on_ptr = 10
vm_instruction_error_code vm_ptr_ld_with_wrong_vmcs_revision = 11
vm_instruction_error_code vm_read_write_to_unsupported_field = 12
vm_instruction_error_code vm_write_to_read_only = 13
vm_instruction_error_code vmx_on_in_root_mode = 15
vm_instruction_error_code vm_entry_with_invalid_exec_vmcs_ptr = 16
vm_instruction_error_code vm_entry_with_non_launch_exec_vmcs = 17
vm_instruction_error_code vm_entry_with_exec_vmcs_ptr = 18
vm_instruction_error_code vm_call_with_non_clear_vmcs = 19
vm_instruction_error_code vm_call_with_invalid_vm_exit_fields = 20
vm_instruction_error_code vm_call_with_incorrect_mseg_rev = 22
vm_instruction_error_code vmx_off_under_dual_monitor = 23
vm_instruction_error_code vm_call_with_invalid_smm_features = 24
vm_instruction_error_code vm_entry_with_invalid_vm_exec_fields = 25
vm_instruction_error_code vm_entry_with_events_blocked_mov_ss = 26
vm_instruction_error_code invalid_operand_to_invept_invvpid = 28

-- `unwrap_or(VmInstructionError::UnknownError)`.
abbrev pub known_error : Option VmInstructionError → VmInstructionError
known_error none = unknown_error
known_error (some e) = e

-- The flags CF and ZF, by which an instruction of VMX says that it failed. `number` is what the field
-- `VmInstructionError` reads as.
unfoldable pub check_vm_insruction :
    TryFromPrimitive vm_instruction_error_code → ℕ → ℕ → Result (Unit {0})
check_vm_insruction errors rflags number =
    if has_bit rflags 0
    then err vm_fail_invalid
    else if has_bit rflags 6
    then err (vm_fail_valid (known_error (errors.try_from number)))
    else ok tt
