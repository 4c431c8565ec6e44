-- ===== src/Emulate/PortIo.antt =====
-- mythril/src/emulate/portio.rs: the instructions IN, OUT, INS and OUTS.
pub mod Input
pub mod Output
use mythril.Prelude.{
  ℕ, zero, suc, ◌+◌, ◌-◌, ◌*◌, ◌/◌, ◌%◌, ◌^◌, Bool, true, false, ltb, if◌then◌else◌, List, [], ◌∷◌,
  ◌++◌, bit_and, bit_or, length, take, drop, replicate,
}
use mythril.Prelude.Word.{u32, u64, not64, ◌<<<◌, to_be_bytes, from_be_bytes}
use mythril.Error.{Result, ok, err, panic, ◌>>=◌ as and_then}
use mythril.Error.Run.{Run, continue, ◌>>=◌, ◌>>◌, lift, gets, modify, done}
use mythril.Vmcs.{vmcs_read}
use mythril.Vmcs.Field.{VmcsField}
use mythril.VmExit.Cpu.{GuestCpuState}
use mythril.VmExit.Info.{IoInstructionInformation}
use mythril.Virtdev.PortRead
use mythril.Virtdev.PortRead.{PortReadRequest}
use mythril.Virtdev.PortWrite
use mythril.Virtdev.PortWrite.{PortWriteRequest}
use mythril.Virtdev.Event.{DeviceEvent, port_read, port_write}
use mythril.Virtdev.Device.{EmulatedDevice}
use mythril.Vm.Dispatch.{port}
use mythril.Vcpu.State.{VCpu, dispatch}
use mythril.Emulate.Guest.{virt_addr, read_guest, write_guest}

-- `chunks_exact(size)`: `count` chunks of `size` bytes.
unfoldable pub chunks : ℕ → ℕ → List ℕ → List (List ℕ)
chunks size zero bytes = []
chunks size (suc count) bytes = take size bytes ∷ chunks size count (drop size bytes)

-- `&arr[4 - size..]`, which panics where the size is more than four.
abbrev pub low_bytes : ℕ → List ℕ → Result (List ℕ)
low_bytes size arr = if ltb 4 size then panic else ok (drop (4 - size) arr)

-- The bytes of a request once the device has filled it.
abbrev pub filled_bytes : DeviceEvent → List ℕ
filled_bytes (port_read p req) = PortRead.as_slice req
filled_bytes _ = []

-- `rax &= !rax << (size * 8); rax |= value`.
unfoldable pub merge_input : ℕ → ℕ → ℕ → ℕ
merge_input rax size value = bit_or (bit_and rax (u64 (not64 rax <<< (size * 8)))) value

module _ {S : Type 0} (trait : EmulatedDevice S) (address : ℕ → ℕ) where
  abbrev pub set_cpu : (GuestCpuState → GuestCpuState) → Run (VCpu S) (Unit {0})
  set_cpu f = modify (λ s. record s { guest_cpu = f s.guest_cpu })

  -- One write of a chunk to a port.
  unfoldable pub write_port : ℕ → List ℕ → Run (VCpu S) (Unit {0})
  write_port p bytes = do
    request ← lift (PortWrite.try_from bytes)
    event ← dispatch trait (port p) (port_write p request)
    done tt

  read_port : ℕ → List ℕ → Run (VCpu S) (List ℕ)
  read_port p bytes = do
    request ← lift (PortRead.try_from bytes)
    event ← dispatch trait (port p) (port_read p request)
    done (filled_bytes event)

  unfoldable pub write_chunks : ℕ → List (List ℕ) → Run (VCpu S) (Unit {0})
  unfolding write_port
  write_chunks p [] = done tt
  write_chunks p (chunk ∷ rest) = write_port p chunk >> write_chunks p rest

  -- The chunks as the device filled them.
  unfoldable pub read_chunks : ℕ → List (List ℕ) → Run (VCpu S) (List ℕ)
  unfolding read_port
  read_chunks p [] = done []
  read_chunks p (chunk ∷ rest) =
      read_port p chunk >>= λ bytes. read_chunks p rest >>= λ more. done (bytes ++ more)

  unfoldable pub emulate_outs : IoInstructionInformation → Run (VCpu S) (Unit {0})
  unfolding chunks write_chunks
  emulate_outs exit = do
    guest_addr ←
        (λ s. (s, and_then (vmcs_read s.vmcs VmcsField.guest_linear_address) (virt_addr s.vmcs)))
    rcx ← gets (λ s. s.guest_cpu.rcx)
    bytes ← read_guest address guest_addr (u64 (rcx * exit.size))
    write_chunks exit.port (chunks exit.size (length bytes / exit.size) bytes)
    set_cpu (λ g. record g { rsi = u64 (g.rsi + length bytes); rcx = 0 })

  unfoldable pub emulate_ins : IoInstructionInformation → Run (VCpu S) (Unit {0})
  unfolding chunks read_chunks
  emulate_ins exit = do
    guest_addr ←
        (λ s. (s, and_then (vmcs_read s.vmcs VmcsField.guest_linear_address) (virt_addr s.vmcs)))
    count ← gets (λ s. s.guest_cpu.rcx)
    filled ← read_chunks exit.port (chunks exit.size (count / exit.size) (replicate count 0))
    let bytes = filled ++ replicate (count % exit.size) 0
    write_guest address guest_addr bytes
    set_cpu (λ g. record g { rdi = u64 (g.rdi + count); rcx = 0 })

  unfoldable pub emulate_out : IoInstructionInformation → Run (VCpu S) (Unit {0})
  unfolding write_port
  emulate_out exit = do
    rax ← gets (λ s. s.guest_cpu.rax)
    bytes ← lift (low_bytes exit.size (to_be_bytes (u32 rax)))
    write_port exit.port bytes

  unfoldable pub emulate_in : IoInstructionInformation → Run (VCpu S) (Unit {0})
  unfolding read_port merge_input
  emulate_in exit = do
    zeros ← lift (low_bytes exit.size (replicate 4 0))
    bytes ← read_port exit.port zeros
    set_cpu (λ g. record g { rax = merge_input g.rax exit.size (from_be_bytes bytes) })

  unfoldable pub emulate_portio : IoInstructionInformation → Run (VCpu S) (Unit {0})
  unfolding emulate_outs emulate_ins emulate_out emulate_in
  emulate_portio exit =
      if exit.string
      then (if exit.input then emulate_ins exit else emulate_outs exit)
      else if exit.input
      then emulate_in exit
      else emulate_out exit
