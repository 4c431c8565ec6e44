-- ===== src/Emulate/MemIo/Apic.antt =====
-- The accesses of a guest to its local APIC (mythril/src/emulate/memio.rs), in the page at
-- `guest_local_apic_addr`.
use mythril.Prelude.{
  ℕ, ◌+◌, ◌-◌, ◌*◌, ◌/◌, ◌&&◌, ltb, leb, ◌==◌, if◌then◌else◌, Option, none, some, List, length,
}
use mythril.Prelude.Word.{u16, u64, to_be_bytes, from_be_bytes}
use mythril.Error.{Result, ok, err, panic, ◌>>=◌ as and_then, not_supported}
use mythril.Error.Run.{Run, ◌>>=◌, ◌>>◌, lift, done}
use mythril.VmExit.Info.{ApicAccessInformation}
use mythril.Virtdev.Event.{DeviceEvent, mem_read, mem_write}
use mythril.Virtdev.Lapic.{ApicEnums, register_read, register_write}
use mythril.Vcpu.State.{VCpu, on_apic}
use mythril.Emulate.Register.{Instruction}
use mythril.Emulate.MemIo.{MemIoCallback, process_memio_op}

-- `GUEST_LOCAL_APIC_ADDR` of mythril/src/vm.rs.
abbrev pub guest_local_apic_addr : ℕ
guest_local_apic_addr = 0xfee00000

-- The offset of an address in the page of the local APIC, by registers of four bytes; outside the
-- page the assertion fails.
unfoldable pub address_to_apic_offset : ℕ → Result ℕ
address_to_apic_offset addr =
    if leb guest_local_apic_addr addr && ltb addr (guest_local_apic_addr + 4096)
    then ok (u16 ((addr - guest_local_apic_addr) / 4))
    else panic

-- `copy_from_slice` of four bytes.
abbrev pub four_bytes : List ℕ → Result (List ℕ)
four_bytes bytes = if length bytes == 4 then ok bytes else panic

module _ (enums : ApicEnums) (core_id : ℕ) where
  answer_read : ℕ → DeviceEvent → Result DeviceEvent
  answer_read res (mem_read a request) =
      and_then (four_bytes request.bytes)
        λ old. ok (mem_read a (record { bytes = to_be_bytes res }))
  answer_read res _ = err not_supported

  unfoldable pub on_apic_read : {S : Type 0} → MemIoCallback S
  unfolding answer_read address_to_apic_offset
  on_apic_read addr event s =
      (lift (address_to_apic_offset addr) >>= λ offset.
      on_apic (register_read enums s.vm.cpus core_id offset) >>= λ res.
      lift (answer_read res event))
        s

  written_value : DeviceEvent → Result ℕ
  written_value (mem_write a request) =
      and_then (four_bytes request.bytes) λ bytes. ok (from_be_bytes bytes)
  written_value _ = err not_supported

  unfoldable pub on_apic_write : {S : Type 0} → MemIoCallback S
  unfolding written_value address_to_apic_offset
  on_apic_write addr event s =
      (lift (address_to_apic_offset addr) >>= λ offset. lift (written_value event) >>= λ value.
      on_apic (register_write enums s.vm.cpus core_id offset value) >> done event)
        s

  -- `exit.offset.expect(..)`.
  expected : Option ℕ → Result ℕ
  expected none = panic
  expected (some offset) = ok offset

  unfoldable pub handle_apic_access :
      {S : Type 0}
      → (ℕ → ℕ)
      → (ℕ → List ℕ → ℕ → Instruction)
      → ApicAccessInformation
      → Run (VCpu S) (Unit {0})
  unfolding expected on_apic_read on_apic_write process_memio_op
  handle_apic_access address decode exit = lift (expected exit.offset) >>= λ offset.
      process_memio_op address decode (u64 (guest_local_apic_addr + offset * 4)) on_apic_read
        on_apic_write
