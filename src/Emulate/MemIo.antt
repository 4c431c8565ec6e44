-- ===== src/Emulate/MemIo.antt =====
-- mythril/src/emulate/memio.rs: an access of a guest to the memory of a device or of its local APIC, by an
-- instruction that is taken for MOV. The decoder of instructions is a crate and a parameter.
pub mod Apic
pub mod Merge
use mythril.Prelude.{
  ℕ, zero, suc, ◌+◌, ◌-◌, ◌*◌, ◌/◌, ◌%◌, ◌^◌, Bool, true, false, ◌&&◌, ◌||◌, ltb, leb, ◌==◌,
  if◌then◌else◌, Option, none, some, List, [], ◌∷◌, bit_and, bit_or, length, replicate,
}
use mythril.Prelude.Word.{u8, u16, u64, not64, has_bit, to_be_bytes, from_be_bytes}
use mythril.Error.{Result, ok, err, panic, ◌>>=◌ as and_then, invalid_value, not_supported}
use mythril.Error.Run.{Run, continue, ◌>>=◌, ◌>>◌, lift, gets, modify, done}
use mythril.Vmcs.{vmcs_read}
use mythril.Vmcs.Field.{VmcsField}
use mythril.VmExit.Info.{ApicAccessInformation}
use mythril.Virtdev.Event.{DeviceEvent, mem_read, mem_write}
use mythril.Virtdev.PortWrite.{MemReadRequest, MemWriteRequest}
use mythril.Virtdev.Device.{EmulatedDevice}
use mythril.Virtdev.Lapic.{ApicEnums, register_read, register_write}
use mythril.Vm.Dispatch as Dispatch
use mythril.Vcpu.State.{VCpu, dispatch, on_apic}
use mythril.Emulate.Register.{
  Register, OpKind, Instruction, Target, register_value, target, get, put, register, immediate8,
  immediate16, immediate32, immediate64, memory, memory64, unsupported,
}
use mythril.Emulate.Guest.{virt_addr, read_guest}

-- `(value as uN).to_be_bytes()` of so many bytes, and the little-endian value of bytes.
unfoldable pub be_bytes : ℕ → ℕ → List ℕ
be_bytes zero value = []
be_bytes (suc n) value = u8 (value / 2 ^ (8 * n)) ∷ be_bytes n value

unfoldable pub little_endian : List ℕ → ℕ
little_endian [] = 0
little_endian (b ∷ bytes) = b + 2 ^ 8 * little_endian bytes

abbrev pub immediate_size : OpKind → Option ℕ
immediate_size immediate8 = some 1
immediate_size immediate16 = some 2
immediate_size immediate32 = some 4
immediate_size immediate64 = some 8
immediate_size register = none
immediate_size memory = none
immediate_size memory64 = none
immediate_size unsupported = none

abbrev pub is_register : OpKind → Bool
is_register register = true
is_register _ = false

abbrev pub is_memory : OpKind → Bool
is_memory memory = true
is_memory memory64 = true
is_memory _ = false

abbrev pub read_bytes_of : DeviceEvent → Result (List ℕ)
read_bytes_of (mem_read addr request) = ok request.bytes
read_bytes_of _ = err not_supported

-- `*reg &= !mask; *reg |= value`, for the low `size` bytes.
unfoldable pub merge_register : ℕ → ℕ → ℕ → ℕ
merge_register reg size value = bit_or (bit_and reg (not64 (2 ^ (8 * size) - 1))) value

abbrev pub MemIoCallback : Type 0 → Type 0
MemIoCallback S = ℕ → DeviceEvent → Run (VCpu S) DeviceEvent

module _ {S : Type 0} where
  -- The bytes that the second operand gives.
  operand_bytes : Instruction → Option ℕ → Run (VCpu S) (List ℕ)
  unfolding register_value be_bytes
  operand_bytes instr (some size) s = (s, ok (be_bytes size instr.immediate))
  operand_bytes instr none s =
      if is_register instr.op1_kind
      then (
        s,
        and_then (register_value (instr.op_register 1) s.vmcs s.guest_cpu)
            λ found. ok (be_bytes (found.1) (found.0)),
      )
      else (s, err not_supported)

  unfoldable pub do_mmio_write : ℕ → Instruction → MemIoCallback S → Run (VCpu S) (Unit {0})
  unfolding operand_bytes
  do_mmio_write addr instr on_write = do
    bytes ← operand_bytes instr (immediate_size instr.op1_kind)
    event ← on_write addr (mem_write addr (record { bytes = bytes }))
    done tt

  fill_register : Target → ℕ → List ℕ → VCpu S → VCpu S
  unfolding get put little_endian merge_register
  fill_register reg size bytes s = record s {
    guest_cpu =
        put reg (merge_register (get reg s.guest_cpu) size (little_endian bytes)) s.guest_cpu;
  }

  unfoldable pub do_mmio_read : ℕ → Instruction → MemIoCallback S → Run (VCpu S) (Unit {0})
  unfolding target fill_register
  do_mmio_read addr instr on_read = do
    (reg, size) ←
        lift
          (if is_register instr.op0_kind then target (instr.op_register 0) else err not_supported)
    event ← on_read addr (mem_read addr (record { bytes = replicate size 0 }))
    bytes ← lift (read_bytes_of event)
    modify (fill_register reg size bytes)

  read_vmcs : VmcsField → Run (VCpu S) ℕ
  read_vmcs field s = (s, vmcs_read s.vmcs field)

  module _ (address : ℕ → ℕ) (decode : ℕ → List ℕ → ℕ → Instruction) where
    unfoldable pub process_memio_op :
        ℕ → MemIoCallback S → MemIoCallback S → Run (VCpu S) (Unit {0})
    unfolding read_vmcs
    process_memio_op addr on_read on_write = do
      instruction_len ← read_vmcs VmcsField.vm_exit_instruction_len
      ip ← read_vmcs VmcsField.guest_rip
      ip_addr ← (λ s. (s, virt_addr s.vmcs ip))
      bytes ← read_guest address ip_addr instruction_len
      efer ← read_vmcs VmcsField.guest_ia32_efer
      let instr = decode (if has_bit efer 8 then 64 else 32) bytes ip
      if is_memory instr.op0_kind
          then do_mmio_write addr instr on_write
          else if is_memory instr.op1_kind
          then do_mmio_read addr instr on_read
          else lift (err invalid_value)

    unfoldable pub handle_ept_violation : EmulatedDevice S → Run (VCpu S) (Unit {0})
    unfolding read_vmcs process_memio_op
    handle_ept_violation trait = do
      addr ← read_vmcs VmcsField.guest_physical_address
      process_memio_op addr (λ a event. dispatch trait (Dispatch.address a) event)
          (λ a event. dispatch trait (Dispatch.address a) event)
