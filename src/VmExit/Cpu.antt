-- ===== src/VmExit/Cpu.antt =====
-- `GuestCpuState` and `MovCrRegister` of mythril/src/vmexit.rs: the registers that the exit handler saves on
-- the stack, and the register of a move to or from a control register. The pointer to the core that
-- lies below the registers is left out.
use mythril.Prelude.{ℕ}
use mythril.Error.{Result, ok}
use mythril.Error.Run.{Run, modify, zoom}
use mythril.Vmcs.{Control, Vmx, vmcs_read, write_field}
use mythril.Vmcs.Field.{VmcsField}

pub record GuestCpuState : Type 0 where
  pub cr2 : ℕ
  pub r15 : ℕ
  pub r14 : ℕ
  pub r13 : ℕ
  pub r12 : ℕ
  pub r11 : ℕ
  pub r10 : ℕ
  pub r9 : ℕ
  pub r8 : ℕ
  pub rbp : ℕ
  pub rdi : ℕ
  pub rsi : ℕ
  pub rdx : ℕ
  pub rcx : ℕ
  pub rbx : ℕ
  pub rax : ℕ

pub data MovCrRegister : Type 0 where
  rax rcx rdx rbx rsp rbp rsi rdi r8 r9 r10 r11 r12 r13 r14 r15 : MovCrRegister

-- `MovCrRegister as u8`.
unfoldable pub mov_cr_code : MovCrRegister → ℕ
mov_cr_code rax = 0
mov_cr_code rcx = 1
mov_cr_code rdx = 2
mov_cr_code rbx = 3
mov_cr_code rsp = 4
mov_cr_code rbp = 5
mov_cr_code rsi = 6
mov_cr_code rdi = 7
mov_cr_code r8 = 8
mov_cr_code r9 = 9
mov_cr_code r10 = 10
mov_cr_code r11 = 11
mov_cr_code r12 = 12
mov_cr_code r13 = 13
mov_cr_code r14 = 14
mov_cr_code r15 = 15

unfoldable pub read : MovCrRegister → Control → GuestCpuState → Result ℕ
unfolding vmcs_read
read rax vmcs guest_cpu = ok guest_cpu.rax
read rcx vmcs guest_cpu = ok guest_cpu.rcx
read rdx vmcs guest_cpu = ok guest_cpu.rdx
read rbx vmcs guest_cpu = ok guest_cpu.rbx
read rsp vmcs guest_cpu = vmcs_read vmcs VmcsField.guest_rsp
read rbp vmcs guest_cpu = ok guest_cpu.rbp
read rsi vmcs guest_cpu = ok guest_cpu.rsi
read rdi vmcs guest_cpu = ok guest_cpu.rdi
read r8 vmcs guest_cpu = ok guest_cpu.r8
read r9 vmcs guest_cpu = ok guest_cpu.r9
read r10 vmcs guest_cpu = ok guest_cpu.r10
read r11 vmcs guest_cpu = ok guest_cpu.r11
read r12 vmcs guest_cpu = ok guest_cpu.r12
read r13 vmcs guest_cpu = ok guest_cpu.r13
read r14 vmcs guest_cpu = ok guest_cpu.r14
read r15 vmcs guest_cpu = ok guest_cpu.r15

unfoldable pub write : Vmx → MovCrRegister → ℕ → Run (Control × GuestCpuState) (Unit {0})
unfolding write_field
write vmx rax value = modify (λ s. (s.0, record (s.1) { rax = value }))
write vmx rcx value = modify (λ s. (s.0, record (s.1) { rcx = value }))
write vmx rdx value = modify (λ s. (s.0, record (s.1) { rdx = value }))
write vmx rbx value = modify (λ s. (s.0, record (s.1) { rbx = value }))
write vmx rsp value = zoom (λ s. s.0) (λ c s. (c, s.1)) (write_field vmx VmcsField.guest_rsp value)
write vmx rbp value = modify (λ s. (s.0, record (s.1) { rbp = value }))
write vmx rsi value = modify (λ s. (s.0, record (s.1) { rsi = value }))
write vmx rdi value = modify (λ s. (s.0, record (s.1) { rdi = value }))
write vmx r8 value = modify (λ s. (s.0, record (s.1) { r8 = value }))
write vmx r9 value = modify (λ s. (s.0, record (s.1) { r9 = value }))
write vmx r10 value = modify (λ s. (s.0, record (s.1) { r10 = value }))
write vmx r11 value = modify (λ s. (s.0, record (s.1) { r11 = value }))
write vmx r12 value = modify (λ s. (s.0, record (s.1) { r12 = value }))
write vmx r13 value = modify (λ s. (s.0, record (s.1) { r13 = value }))
write vmx r14 value = modify (λ s. (s.0, record (s.1) { r14 = value }))
write vmx r15 value = modify (λ s. (s.0, record (s.1) { r15 = value }))
