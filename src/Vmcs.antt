-- ===== src/Vmcs.antt =====
-- mythril/src/vmcs.rs: reads and writes of the fields of the current control structure. The structure
-- is kept by the processor, in a format of its own; `Control` is what VMREAD gives for each encoding.
-- The instructions are a parameter (`Vmx`), with what the Intel manual says of them; a write sets the
-- flags that `check_vm_insruction` tests.
pub mod Field
pub mod Access
use mythril.Prelude.{
  ℕ, ◌/◌, ◌-◌, ◌^◌, ◌≡◌, Bool, true, not, ◌&&◌, ◌==◌, ◌/=◌, if◌then◌else◌, bit_and, bit_or,
}
use mythril.Prelude.Primitive.{TryFromPrimitive}
use mythril.Prelude.Word.{has_bit, not64, ◌>>>◌}
use mythril.Error.{Result, ok, err, vmcs, vm_instruction_error_code, check_vm_insruction}
use mythril.Error.Run.{Run, continue, ◌>>=◌, ◌>>◌, done}
use mythril.Vmcs.Field.{VmcsField, field_code}

abbrev pub Control : Type 0
Control = ℕ → ℕ

-- VMsucceed: CF and ZF are clear.
abbrev pub succeeded : ℕ → Bool
succeeded rflags = not (has_bit rflags 0) && not (has_bit rflags 6)

pub record Vmx : Type 0 where
  pub rdmsr : ℕ → ℕ
  pub vmwrite : Control → ℕ → ℕ → Control × ℕ
  -- A write that succeeds changes the field and no other.
  pub vmwrite_succeeds :
      (c : Control) (field value : ℕ)
      → succeeded ((vmwrite c field value).1) ≡ true
      → (other : ℕ) → (vmwrite c field value).0 other ≡ (if other == field then value else c other)
  pub errors : TryFromPrimitive vm_instruction_error_code

unfoldable pub vmcs_read : Control → VmcsField → Result ℕ
unfolding field_code
vmcs_read c field = ok (c (field_code field))

module _ (vmx : Vmx) where
  unfoldable pub write_field : VmcsField → ℕ → Run Control (Unit {0})
  unfolding field_code check_vm_insruction
  write_field field value c =
      let (c', rflags) = vmx.vmwrite c (field_code field) value in
      (c', check_vm_insruction vmx.errors rflags (c' (field_code VmcsField.vm_instruction_error)))

  -- The value with the bits that the register fixes: those clear in its high half must be zero, those
  -- set in its low half must be one.
  unfoldable pub required_value : ℕ → ℕ → ℕ
  required_value value msr =
      let fixed = vmx.rdmsr msr in
      bit_or (bit_and value (fixed >>> 32)) (bit_and fixed 0x00000000ffffffff)

  unfoldable pub write_with_fixed : VmcsField → ℕ → ℕ → Run Control ℕ
  unfolding required_value write_field
  write_with_fixed field value msr c =
      let required = required_value value msr in
      if bit_and value (not64 required) /= 0
      then (c, err vmcs)
      else (write_field field required >> done required) c
