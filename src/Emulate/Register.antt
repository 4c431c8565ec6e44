-- ===== src/Emulate/Register.antt =====
-- The registers of an instruction that mythril/src/emulate/memio.rs takes apart. The decoder is the crate iced_x86:
-- of a decoded instruction the source uses the kind of its first two operands, their registers, and
-- the immediate value.
use mythril.Prelude.{ℕ}
use mythril.Error.{Result, ok, err, invalid_value}
use mythril.Vmcs.{Control}
use mythril.Vmcs.Field.{VmcsField, field_code}
use mythril.VmExit.Cpu.{GuestCpuState}

pub data Register : Type 0 where
  al ax eax rax bl bx ebx rbx cl cx ecx rcx dl dx edx rdx r8l r8w r8d r8 r9l r9w : Register
  r9d r9 r10l r10w r10d r10 r11l r11w r11d r11 r12l r12w r12d r12 r13l r13w r13d : Register
  r13 r14l r14w r14d r14 r15l r15w r15d r15 dil di edi rdi sil si esi rsi spl sp : Register
  esp rsp bpl bp ebp rbp : Register
  other : Register

pub data OpKind : Type 0 where
  register immediate8 immediate16 immediate32 immediate64 memory memory64 unsupported : OpKind

pub record Instruction : Type 0 where
  pub op0_kind : OpKind
  pub op1_kind : OpKind
  pub op_register : ℕ → Register
  pub immediate : ℕ

-- The value that a register holds and how many of its low bytes are meant: `read_register_value` of a
-- register of the guest.
unfoldable pub register_value : Register → Control → GuestCpuState → Result (ℕ × ℕ)
unfolding field_code
register_value al vmcs guest_cpu = ok (guest_cpu.rax, 1)
register_value ax vmcs guest_cpu = ok (guest_cpu.rax, 2)
register_value eax vmcs guest_cpu = ok (guest_cpu.rax, 4)
register_value rax vmcs guest_cpu = ok (guest_cpu.rax, 8)
register_value bl vmcs guest_cpu = ok (guest_cpu.rbx, 1)
register_value bx vmcs guest_cpu = ok (guest_cpu.rbx, 2)
register_value ebx vmcs guest_cpu = ok (guest_cpu.rbx, 4)
register_value rbx vmcs guest_cpu = ok (guest_cpu.rbx, 8)
register_value cl vmcs guest_cpu = ok (guest_cpu.rcx, 1)
register_value cx vmcs guest_cpu = ok (guest_cpu.rcx, 2)
register_value ecx vmcs guest_cpu = ok (guest_cpu.rcx, 4)
register_value rcx vmcs guest_cpu = ok (guest_cpu.rcx, 8)
register_value dl vmcs guest_cpu = ok (guest_cpu.rdx, 1)
register_value dx vmcs guest_cpu = ok (guest_cpu.rdx, 2)
register_value edx vmcs guest_cpu = ok (guest_cpu.rdx, 4)
register_value rdx vmcs guest_cpu = ok (guest_cpu.rdx, 8)
register_value r8l vmcs guest_cpu = ok (guest_cpu.r8, 1)
register_value r8w vmcs guest_cpu = ok (guest_cpu.r8, 2)
register_value r8d vmcs guest_cpu = ok (guest_cpu.r8, 4)
register_value r8 vmcs guest_cpu = ok (guest_cpu.r8, 8)
register_value r9l vmcs guest_cpu = ok (guest_cpu.r9, 1)
register_value r9w vmcs guest_cpu = ok (guest_cpu.r9, 2)
register_value r9d vmcs guest_cpu = ok (guest_cpu.r9, 4)
register_value r9 vmcs guest_cpu = ok (guest_cpu.r9, 8)
register_value r10l vmcs guest_cpu = ok (guest_cpu.r10, 1)
register_value r10w vmcs guest_cpu = ok (guest_cpu.r10, 2)
register_value r10d vmcs guest_cpu = ok (guest_cpu.r10, 4)
register_value r10 vmcs guest_cpu = ok (guest_cpu.r10, 8)
register_value r11l vmcs guest_cpu = ok (guest_cpu.r11, 1)
register_value r11w vmcs guest_cpu = ok (guest_cpu.r11, 2)
register_value r11d vmcs guest_cpu = ok (guest_cpu.r11, 4)
register_value r11 vmcs guest_cpu = ok (guest_cpu.r11, 8)
register_value r12l vmcs guest_cpu = ok (guest_cpu.r12, 1)
register_value r12w vmcs guest_cpu = ok (guest_cpu.r12, 2)
register_value r12d vmcs guest_cpu = ok (guest_cpu.r12, 4)
register_value r12 vmcs guest_cpu = ok (guest_cpu.r12, 8)
register_value r13l vmcs guest_cpu = ok (guest_cpu.r13, 1)
register_value r13w vmcs guest_cpu = ok (guest_cpu.r13, 2)
register_value r13d vmcs guest_cpu = ok (guest_cpu.r13, 4)
register_value r13 vmcs guest_cpu = ok (guest_cpu.r13, 8)
register_value r14l vmcs guest_cpu = ok (guest_cpu.r14, 1)
register_value r14w vmcs guest_cpu = ok (guest_cpu.r14, 2)
register_value r14d vmcs guest_cpu = ok (guest_cpu.r14, 4)
register_value r14 vmcs guest_cpu = ok (guest_cpu.r14, 8)
register_value r15l vmcs guest_cpu = ok (guest_cpu.r15, 1)
register_value r15w vmcs guest_cpu = ok (guest_cpu.r15, 2)
register_value r15d vmcs guest_cpu = ok (guest_cpu.r15, 4)
register_value r15 vmcs guest_cpu = ok (guest_cpu.r15, 8)
register_value dil vmcs guest_cpu = ok (guest_cpu.rdi, 1)
register_value di vmcs guest_cpu = ok (guest_cpu.rdi, 2)
register_value edi vmcs guest_cpu = ok (guest_cpu.rdi, 4)
register_value rdi vmcs guest_cpu = ok (guest_cpu.rdi, 8)
register_value sil vmcs guest_cpu = ok (guest_cpu.rsi, 1)
register_value si vmcs guest_cpu = ok (guest_cpu.rsi, 2)
register_value esi vmcs guest_cpu = ok (guest_cpu.rsi, 4)
register_value rsi vmcs guest_cpu = ok (guest_cpu.rsi, 8)
register_value spl vmcs guest_cpu = ok ((vmcs (field_code VmcsField.guest_rsp)), 1)
register_value sp vmcs guest_cpu = ok ((vmcs (field_code VmcsField.guest_rsp)), 2)
register_value esp vmcs guest_cpu = ok ((vmcs (field_code VmcsField.guest_rsp)), 4)
register_value rsp vmcs guest_cpu = ok ((vmcs (field_code VmcsField.guest_rsp)), 8)
register_value bpl vmcs guest_cpu = ok (guest_cpu.rbp, 1)
register_value bp vmcs guest_cpu = ok (guest_cpu.rbp, 2)
register_value ebp vmcs guest_cpu = ok (guest_cpu.rbp, 4)
register_value rbp vmcs guest_cpu = ok (guest_cpu.rbp, 8)
register_value other vmcs guest_cpu = err invalid_value

-- The register that a read of memory changes, with the bytes that it takes.
pub data Target : Type 0 where
  in_rax in_rbx in_rcx in_rdx in_r8 in_r9 in_r10 in_r11 in_r12 in_r13 in_r14 in_r15 in_rdi in_rsi :
      Target

unfoldable pub target : Register → Result (Target × ℕ)
target al = ok (in_rax, 1)
target ax = ok (in_rax, 2)
target eax = ok (in_rax, 4)
target rax = ok (in_rax, 8)
target bl = ok (in_rbx, 1)
target bx = ok (in_rbx, 2)
target ebx = ok (in_rbx, 4)
target rbx = ok (in_rbx, 8)
target cl = ok (in_rcx, 1)
target cx = ok (in_rcx, 2)
target ecx = ok (in_rcx, 4)
target rcx = ok (in_rcx, 8)
target dl = ok (in_rdx, 1)
target dx = ok (in_rdx, 2)
target edx = ok (in_rdx, 4)
target rdx = ok (in_rdx, 8)
target r8l = ok (in_r8, 1)
target r8w = ok (in_r8, 2)
target r8d = ok (in_r8, 4)
target r8 = ok (in_r8, 8)
target r9l = ok (in_r9, 1)
target r9w = ok (in_r9, 2)
target r9d = ok (in_r9, 4)
target r9 = ok (in_r9, 8)
target r10l = ok (in_r10, 1)
target r10w = ok (in_r10, 2)
target r10d = ok (in_r10, 4)
target r10 = ok (in_r10, 8)
target r11l = ok (in_r11, 1)
target r11w = ok (in_r11, 2)
target r11d = ok (in_r11, 4)
target r11 = ok (in_r11, 8)
target r12l = ok (in_r12, 1)
target r12w = ok (in_r12, 2)
target r12d = ok (in_r12, 4)
target r12 = ok (in_r12, 8)
target r13l = ok (in_r13, 1)
target r13w = ok (in_r13, 2)
target r13d = ok (in_r13, 4)
target r13 = ok (in_r13, 8)
target r14l = ok (in_r14, 1)
target r14w = ok (in_r14, 2)
target r14d = ok (in_r14, 4)
target r14 = ok (in_r14, 8)
target r15l = ok (in_r15, 1)
target r15w = ok (in_r15, 2)
target r15d = ok (in_r15, 4)
target r15 = ok (in_r15, 8)
target dil = ok (in_rdi, 1)
target di = ok (in_rdi, 2)
target edi = ok (in_rdi, 4)
target rdi = ok (in_rdi, 8)
target sil = ok (in_rsi, 1)
target si = ok (in_rsi, 2)
target esi = ok (in_rsi, 4)
target rsi = ok (in_rsi, 8)
target _ = err invalid_value

unfoldable pub get : Target → GuestCpuState → ℕ
get in_rax guest_cpu = guest_cpu.rax
get in_rbx guest_cpu = guest_cpu.rbx
get in_rcx guest_cpu = guest_cpu.rcx
get in_rdx guest_cpu = guest_cpu.rdx
get in_r8 guest_cpu = guest_cpu.r8
get in_r9 guest_cpu = guest_cpu.r9
get in_r10 guest_cpu = guest_cpu.r10
get in_r11 guest_cpu = guest_cpu.r11
get in_r12 guest_cpu = guest_cpu.r12
get in_r13 guest_cpu = guest_cpu.r13
get in_r14 guest_cpu = guest_cpu.r14
get in_r15 guest_cpu = guest_cpu.r15
get in_rdi guest_cpu = guest_cpu.rdi
get in_rsi guest_cpu = guest_cpu.rsi

unfoldable pub put : Target → ℕ → GuestCpuState → GuestCpuState
put in_rax value guest_cpu = record guest_cpu { rax = value }
put in_rbx value guest_cpu = record guest_cpu { rbx = value }
put in_rcx value guest_cpu = record guest_cpu { rcx = value }
put in_rdx value guest_cpu = record guest_cpu { rdx = value }
put in_r8 value guest_cpu = record guest_cpu { r8 = value }
put in_r9 value guest_cpu = record guest_cpu { r9 = value }
put in_r10 value guest_cpu = record guest_cpu { r10 = value }
put in_r11 value guest_cpu = record guest_cpu { r11 = value }
put in_r12 value guest_cpu = record guest_cpu { r12 = value }
put in_r13 value guest_cpu = record guest_cpu { r13 = value }
put in_r14 value guest_cpu = record guest_cpu { r14 = value }
put in_r15 value guest_cpu = record guest_cpu { r15 = value }
put in_rdi value guest_cpu = record guest_cpu { rdi = value }
put in_rsi value guest_cpu = record guest_cpu { rsi = value }
