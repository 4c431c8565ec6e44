-- ===== src/VmExit/Info.antt =====
-- What the control structure says of an exit (mythril/src/vmexit.rs): the five structures that implement
-- `ExtendedExitInformation`, each read from the exit qualification or the interruption information.
use mythril.Prelude.{ℕ, ◌+◌, Bool, true, false, Option, none, some, if◌then◌else◌, bit_and}
use mythril.Prelude.Word.{has_bit, ◌>>>◌, u8, u16, u32}
use mythril.Prelude.Primitive.{TryFromPrimitive}
use mythril.Error.{Result, ok, ok_or, ◌>>=◌, invalid_value}
use mythril.Vmcs.{Control, vmcs_read}
use mythril.Vmcs.Field.{VmcsField}
use mythril.VmExit.Cpu.{MovCrRegister, mov_cr_code}

pub data ApicAccessKind : Type 0 where
  linear_read linear_write linear_fetch linear_event_delivery : ApicAccessKind
  physical_access_during_event physical_access_during_fetch : ApicAccessKind

unfoldable pub apic_access_code : ApicAccessKind → ℕ
apic_access_code linear_read = 0
apic_access_code linear_write = 1
apic_access_code linear_fetch = 2
apic_access_code linear_event_delivery = 3
apic_access_code physical_access_during_event = 10
apic_access_code physical_access_during_fetch = 15

abbrev pub is_linear : ApicAccessKind → Bool
is_linear physical_access_during_event = false
is_linear physical_access_during_fetch = false
is_linear linear_read = true
is_linear linear_write = true
is_linear linear_fetch = true
is_linear linear_event_delivery = true

pub data InterruptType : Type 0 where
  external_interrupt non_maskable_interrupt hardware_exception software_exception : InterruptType

unfoldable pub interrupt_type_code : InterruptType → ℕ
interrupt_type_code external_interrupt = 0
interrupt_type_code non_maskable_interrupt = 1
interrupt_type_code hardware_exception = 3
interrupt_type_code software_exception = 6

pub data CrAccessType : Type 0 where
  mov_to_cr mov_from_cr clts lmsw : CrAccessType

unfoldable pub cr_access_code : CrAccessType → ℕ
cr_access_code mov_to_cr = 0
cr_access_code mov_from_cr = 1
cr_access_code clts = 2
cr_access_code lmsw = 3

-- The conversions from numbers that num_enum derives.
pub record ExitEnums : Type 0 where
  pub apic_access_kinds : TryFromPrimitive apic_access_code
  pub interrupt_types : TryFromPrimitive interrupt_type_code
  pub cr_access_types : TryFromPrimitive cr_access_code
  pub mov_cr_registers : TryFromPrimitive mov_cr_code

pub record ApicAccessInformation : Type 0 where
  pub offset : Option ℕ
  pub kind : ApicAccessKind
  pub async_instr_exec : Bool

pub record IoInstructionInformation : Type 0 where
  pub size : ℕ
  pub input : Bool
  pub string : Bool
  pub rep : Bool
  pub immediate : Bool
  pub port : ℕ

pub record VectoredEventInformation : Type 0 where
  pub vector : ℕ
  pub interrupt_type : InterruptType
  pub error_code : Option ℕ
  pub nmi_unblocking_iret : Bool
  pub valid : Bool

pub record EptInformation : Type 0 where
  pub read : Bool
  pub write : Bool
  pub exec : Bool
  pub read_allowed : Bool
  pub write_allowed : Bool
  pub priv_exec_allowed : Bool
  pub user_exec_allowed : Bool
  pub guest_linear_addr : Option ℕ
  pub after_page_translation : Bool
  pub user_mode_address : Bool
  pub read_write_page : Bool
  pub nx_page : Bool
  pub nmi_unblocking_iret : Bool
  pub guest_phys_addr : ℕ

pub record CrInformation : Type 0 where
  pub cr_num : ℕ
  pub access_type : CrAccessType
  pub lmsw_memory_operand : Bool
  pub register : Option MovCrRegister
  pub lmsw_data : Option ℕ

-- `IoInstructionInformation::from_active_vmcs`, of the qualification.
unfoldable pub io_instruction_of : ℕ → IoInstructionInformation
io_instruction_of qualifier = record {
  size = u8 (bit_and qualifier 7) + 1;
  input = has_bit qualifier 3;
  string = has_bit qualifier 4;
  rep = has_bit qualifier 5;
  immediate = has_bit qualifier 6;
  port = u16 (bit_and qualifier 0xffff0000 >>> 16);
}

unfoldable pub io_instruction : Control → Result IoInstructionInformation
unfolding io_instruction_of
io_instruction vmcs = do
  qualifier ← vmcs_read vmcs VmcsField.exit_qualification
  ok (io_instruction_of qualifier)

linear_address : Control → ℕ → Result (Option ℕ)
linear_address vmcs qualifier =
    if has_bit qualifier 7
    then (vmcs_read vmcs VmcsField.guest_linear_address >>= λ addr. ok (some addr))
    else ok none

unfoldable pub ept_violation : Control → Result EptInformation
unfolding linear_address
ept_violation vmcs = do
  qualifier ← vmcs_read vmcs VmcsField.exit_qualification
  linear ← linear_address vmcs qualifier
  physical ← vmcs_read vmcs VmcsField.guest_physical_address
  ok (record {
    read = has_bit qualifier 0;
    write = has_bit qualifier 1;
    exec = has_bit qualifier 2;
    read_allowed = has_bit qualifier 3;
    write_allowed = has_bit qualifier 4;
    priv_exec_allowed = has_bit qualifier 5;
    user_exec_allowed = has_bit qualifier 6;
    guest_linear_addr = linear;
    after_page_translation = has_bit qualifier 8;
    user_mode_address = has_bit qualifier 9;
    read_write_page = has_bit qualifier 10;
    nx_page = has_bit qualifier 11;
    nmi_unblocking_iret = has_bit qualifier 12;
    guest_phys_addr = physical;
  })

module _ (enums : ExitEnums) where
  unfoldable pub apic_access : Control → Result ApicAccessInformation
  apic_access vmcs = do
    qualifier ← vmcs_read vmcs VmcsField.exit_qualification
    kind ←
        ok_or (enums.apic_access_kinds.try_from (u8 (bit_and (qualifier >>> 12) 0b1111)))
          invalid_value
    ok (record {
      offset = if is_linear kind then some (u16 (bit_and qualifier 0xfff)) else none;
      kind = kind;
      async_instr_exec = has_bit qualifier 16;
    })

  unfoldable pub vectored_event : Control → Result VectoredEventInformation
  vectored_event vmcs = do
    inter_info ← vmcs_read vmcs VmcsField.vm_exit_intr_info
    inter_error ← vmcs_read vmcs VmcsField.vm_exit_intr_error_code
    interrupt_type ←
        ok_or (enums.interrupt_types.try_from (u8 (bit_and inter_info 0x700 >>> 8))) invalid_value
    ok (record {
      vector = u8 (bit_and inter_info 0xff);
      interrupt_type = interrupt_type;
      error_code = if has_bit inter_info 11 then some (u32 inter_error) else none;
      nmi_unblocking_iret = has_bit inter_info 12;
      valid = has_bit inter_info 31;
    })

  -- The number, the register and the source of an access of each type.
  unfoldable pub cr_operands : CrAccessType → ℕ → Result (ℕ × Option MovCrRegister × Option ℕ)
  cr_operands clts qualifier = ok (0, none, some (u16 (bit_and qualifier 0xffff0000 >>> 16)))
  cr_operands lmsw qualifier = ok (0, none, some (u16 (bit_and qualifier 0xffff0000 >>> 16)))
  cr_operands mov_to_cr qualifier =
      ok_or (enums.mov_cr_registers.try_from (u8 (bit_and qualifier 0xf00 >>> 8))) invalid_value
      >>= λ reg. ok (u8 (bit_and qualifier 0b1111), some reg, none)
  cr_operands mov_from_cr qualifier =
      ok_or (enums.mov_cr_registers.try_from (u8 (bit_and qualifier 0xf00 >>> 8))) invalid_value
      >>= λ reg. ok (u8 (bit_and qualifier 0b1111), some reg, none)

  unfoldable pub cr_access : Control → Result CrInformation
  unfolding cr_operands
  cr_access vmcs = do
    qualifier ← vmcs_read vmcs VmcsField.exit_qualification
    access_type ←
        ok_or (enums.cr_access_types.try_from (u8 (bit_and qualifier 0b110000 >>> 4))) invalid_value
    (cr_num, register, lmsw_data) ← cr_operands access_type qualifier
    ok (record {
      cr_num = cr_num;
      access_type = access_type;
      lmsw_memory_operand = has_bit qualifier 6;
      register = register;
      lmsw_data = lmsw_data;
    })
