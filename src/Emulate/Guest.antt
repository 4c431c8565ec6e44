-- ===== src/Emulate/Guest.antt =====
-- How an instruction reaches the memory of the guest: its address in the current mode, and the bytes there.
use mythril.Prelude.{ℕ, List, if◌then◌else◌}
use mythril.Prelude.Word.{has_bit}
use mythril.Error.{Result, ok, err, panic, ◌>>=◌}
use mythril.Error.Run.{Run, zoom}
use mythril.Vmcs.{Control, vmcs_read}
use mythril.Vmcs.Field.{VmcsField}
use mythril.Memory.Address.{GuestVirtAddr, no_paging, paging_4_level}
use mythril.Memory.Bytes.{read_bytes, write_bytes}
use mythril.Vcpu.State.{VCpu}

-- `GuestVirtAddr::new`: paging is bit 31 of CR0.
unfoldable pub virt_addr : Control → ℕ → Result GuestVirtAddr
unfolding vmcs_read
virt_addr vmcs val = do
  cr0 ← vmcs_read vmcs VmcsField.guest_cr0
  ok (if has_bit cr0 31 then paging_4_level val else no_paging val)

-- The view of the guest's memory has the root of its tables from the control structure.
module _ {S : Type 0} (address : ℕ → ℕ) where
  unfoldable pub read_guest : GuestVirtAddr → ℕ → Run (VCpu S) (List ℕ)
  unfolding vmcs_read
  read_guest addr length_ s = (
    s,
    vmcs_read s.vmcs VmcsField.guest_cr3 >>= λ cr3.
        read_bytes address s.bus.env.space cr3 addr length_,
  )

  unfoldable pub write_guest : GuestVirtAddr → List ℕ → Run (VCpu S) (Unit {0})
  unfolding vmcs_read
  write_guest addr bytes s =
      zoom (λ v. v.bus.env.space)
        (λ space v. record v {
          bus = record (v.bus) { env = record (v.bus.env) { space = space } };
        })
        (λ space. elim (vmcs_read s.vmcs VmcsField.guest_cr3) [
          | ok cr3 ↦ write_bytes address cr3 addr bytes space
          | err e ↦ (space, err e)
          | panic ↦ (space, panic)
        ])
        s
