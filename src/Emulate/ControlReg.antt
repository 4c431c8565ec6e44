-- ===== src/Emulate/ControlReg.antt =====
-- mythril/src/emulate/controlreg.rs and mythril/src/emulate/cpuid.rs. INVVPID and CPUID are instructions of the
-- processor and are parameters.
use mythril.Prelude.{ℕ, ◌-◌, ◌^◌, ◌==◌, if◌then◌else◌, Option, none, some, bit_and, bit_or}
use mythril.Prelude.Word.{u16, u32, not64, has_bit}
use mythril.Error.{Result, ok, err, panic, invalid_value}
use mythril.Error.Run.{Run, ◌>>=◌, ◌>>◌, lift, done, zoom}
use mythril.Vmcs.{Control, Vmx, vmcs_read, write_field}
use mythril.Vmcs.Field.{VmcsField}
use mythril.VmExit.Cpu.{GuestCpuState, MovCrRegister, read, write}
use mythril.VmExit.Info.{CrInformation, CrAccessType, mov_to_cr, mov_from_cr, clts, lmsw}

abbrev pub Registers : Type 0
Registers = Control × GuestCpuState

abbrev pub read_vmcs : VmcsField → Run Registers ℕ
read_vmcs field s = (s, vmcs_read (s.0) field)

-- `info.register.unwrap()`.
abbrev pub unwrap : Option MovCrRegister → Result MovCrRegister
unwrap none = panic
unwrap (some register) = ok register

module _ (vmx : Vmx) (invvpid : ℕ → Result (Unit {0})) where
  write_vmcs : VmcsField → ℕ → Run Registers (Unit {0})
  unfolding write_field
  write_vmcs field value = zoom (λ s. s.0) (λ c s. (c, s.1)) (write_field vmx field value)

  -- The value of the register that the access names.
  operand : CrInformation → Run Registers ℕ
  operand info s = (lift (unwrap info.register) >>= λ reg. lift (read reg (s.0) (s.1))) s

  access_cr0 : CrInformation → CrAccessType → Run Registers (Unit {0})
  unfolding write_vmcs operand
  access_cr0 info clts = do
    cr0 ← read_vmcs VmcsField.guest_cr0
    write_vmcs VmcsField.guest_cr0 (bit_and cr0 (not64 0b1000))
  access_cr0 info mov_to_cr = do val ← operand info; write_vmcs VmcsField.guest_cr0 val
  access_cr0 info mov_from_cr = lift panic
  access_cr0 info lmsw = lift panic

  -- Bit 63 says that nothing is to be flushed, and is not written.
  flush : ℕ → Run Registers ℕ
  flush val =
      if has_bit val 63
      then done (bit_and val (not64 (2 ^ 63)))
      else (do vpid ← read_vmcs VmcsField.virtual_processor_id; lift (invvpid (u16 vpid)); done val)

  access_cr3 : CrInformation → CrAccessType → Run Registers (Unit {0})
  unfolding write_vmcs operand flush
  access_cr3 info mov_to_cr = do
    val ← operand info
    flushed ← flush val
    write_vmcs VmcsField.guest_cr3 flushed
  access_cr3 info mov_from_cr = do
    reg ← lift (unwrap info.register)
    val ← read_vmcs VmcsField.guest_cr3
    write vmx reg val
  access_cr3 info clts = lift panic
  access_cr3 info lmsw = lift panic

  unfoldable pub emulate_access : CrInformation → Run Registers (Unit {0})
  unfolding access_cr0 access_cr3
  emulate_access info =
      if info.cr_num == 0
      then access_cr0 info info.access_type
      else if info.cr_num == 3
      then access_cr3 info info.access_type
      else lift (err invalid_value)

-- What CPUID gives.
pub record CpuIdResult : Type 0 where
  pub eax : ℕ
  pub ebx : ℕ
  pub ecx : ℕ
  pub edx : ℕ

abbrev without : ℕ → ℕ → ℕ
without k x = bit_and x (2 ^ 32 - 1 - 2 ^ k)

-- The features that are hidden, and the number of the core.
unfoldable pub filtered : ℕ → ℕ → CpuIdResult → CpuIdResult
filtered core_id leaf res =
    if leaf == 1
    then record res { edx = without 12 res.edx; ecx = without 24 (without 31 (without 26 res.ecx)) }
    else if leaf == 0x0b
    then record res { edx = u32 core_id }
    else res

-- The high half of a register stays.
abbrev pub low_half : ℕ → ℕ → ℕ
low_half value register = bit_or value (bit_and register 0xffffffff00000000)

unfoldable pub emulate_cpuid : (ℕ → ℕ → CpuIdResult) → ℕ → GuestCpuState → GuestCpuState
unfolding filtered
emulate_cpuid cpuid_count core_id guest_cpu =
    let leaf = u32 guest_cpu.rax in
    let res = filtered core_id leaf (cpuid_count leaf (u32 guest_cpu.rcx)) in
    record guest_cpu {
      rax = low_half res.eax guest_cpu.rax;
      rbx = low_half res.ebx guest_cpu.rbx;
      rcx = low_half res.ecx guest_cpu.rcx;
      rdx = low_half res.edx guest_cpu.rdx;
    }
