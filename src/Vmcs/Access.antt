-- ===== src/Vmcs/Access.antt =====
-- A write of a field that the processor accepts.
use mythril.Prelude.{ℕ, ◌≡◌, arith, true, ◌==◌, if◌then◌else◌}
use mythril.Error.{ok, check_vm_insruction}
use mythril.Vmcs.{Control, Vmx, succeeded, write_field}
use mythril.Vmcs.Field.{VmcsField, field_code}

-- The processor accepts writes of the field, in every control structure.
abbrev pub Writable : Vmx → VmcsField → Type 0
Writable vmx field =
    (c : Control) (value : ℕ) → succeeded ((vmx.vmwrite c (field_code field) value).1) ≡ true

pub write_field-Writable :
    (vmx : Vmx) (field : VmcsField) (value : ℕ) (c : Control)
    → Writable vmx field
    → ((write_field vmx field value c).1 ≡ ok tt)
      × ((other : ℕ)
          → (write_field vmx field value c).0 other
            ≡ (if other == field_code field then value else c other))
unfolding write_field check_vm_insruction
write_field-Writable vmx field value c w =
    (ground (arith, w c value), vmx.vmwrite_succeeds c (field_code field) value (w c value))
