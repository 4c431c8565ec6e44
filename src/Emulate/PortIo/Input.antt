-- ===== src/Emulate/PortIo/Input.antt =====
-- What IN leaves in the accumulator.
use mythril.Prelude.{
  ℕ, ◌+◌, ◌-◌, ◌*◌, ◌/◌, ◌%◌, ◌^◌, ◌<◌, ◌≡◌, refl, arith, subst, inl, inr, ◌⊎◌, ◌==◌, if◌then◌else◌,
  true, false, List, [], ◌∷◌, bit_and, bit_or, replicate,
}
use mythril.Prelude.Bits.{bit_and-high, bit_or-fields}
use mythril.Prelude.Word.{from_be_bytes}
use mythril.Error.{ok}
use mythril.VmExit.Info.{IoInstructionInformation}
use mythril.Virtdev.PortRead
use mythril.Virtdev.PortRead.{PortReadRequest, as_slice, one_byte, two_bytes, four_bytes}
use mythril.Virtdev.Event.{port_read}
use mythril.Virtdev.Device.{EmulatedDevice}
use mythril.Vm.Dispatch.{port}
use mythril.Vcpu.State.{VCpu, dispatch}
use mythril.Emulate.PortIo.{low_bytes, merge_input, emulate_portio, emulate_in}

abbrev pub IsWidth : ℕ → Type 0
IsWidth size = (size ≡ 1) ⊎ ((size ≡ 2) ⊎ (size ≡ 4))

-- The value below; above it, the bits of the accumulator that are set, where the bits as far below them
-- are clear.
abbrev pub merged : ℕ → ℕ → ℕ → ℕ
merged rax bits value =
    bit_and (rax / 2 ^ bits) (2 ^ (64 - bits) - 1 - rax % 2 ^ (64 - bits)) * 2 ^ bits + value

merge_fields :
    (k rax b value : ℕ)
    → value < 2 ^ k
    → bit_or (bit_and rax (b * 2 ^ k)) value ≡ bit_and (rax / 2 ^ k) b * 2 ^ k + value
merge_fields k rax b value h =
    rw (bit_and-high k rax b) (bit_or-fields k (bit_and (rax / 2 ^ k) b) value h)

module _ (rax value : ℕ) (r : rax < 2 ^ 64) where
  shifted : ℕ → ℕ
  shifted bits = (2 ^ 64 - 1 - rax) * 2 ^ bits % 2 ^ 64

  merged_fields :
      (bits : ℕ)
      → shifted bits ≡ (2 ^ (64 - bits) - 1 - rax % 2 ^ (64 - bits)) * 2 ^ bits
      → value < 2 ^ bits
      → bit_or (bit_and rax (shifted bits)) value ≡ merged rax bits value
  merged_fields bits e h =
      rw e (merge_fields bits rax (2 ^ (64 - bits) - 1 - rax % 2 ^ (64 - bits)) value h)

  merge_input-merged :
      (size : ℕ)
      → IsWidth size
      → value < 2 ^ (size * 8)
      → merge_input rax size value ≡ merged rax (size * 8) value
  unfolding merge_input shifted
  merge_input-merged size (inl e) h =
      rw e (merged_fields 8 (omega arith) (subst (λ n. value < 2 ^ (n * 8)) e h))
  merge_input-merged size (inr (inl e)) h =
      rw e (merged_fields 16 (omega arith) (subst (λ n. value < 2 ^ (n * 8)) e h))
  merge_input-merged size (inr (inr e)) h =
      rw e (merged_fields 32 (omega arith) (subst (λ n. value < 2 ^ (n * 8)) e h))

-- The request that IN makes, of so many zeros.
abbrev pub zero_request : ℕ → PortReadRequest
zero_request size =
    if size == 1 then one_byte 0 else if size == 2 then two_bytes 0 0 else four_bytes 0 0 0 0

requested :
    (size : ℕ)
    → IsWidth size
    → (bytes : List ℕ) × (low_bytes size (replicate 4 0) ≡ ok bytes)
      × (PortRead.try_from bytes ≡ ok (zero_request size))
unfolding PortRead.try_from
requested size (inl e) = (0 ∷ [], rw e, rw e)
requested size (inr (inl e)) = (0 ∷ 0 ∷ [], rw e, rw e)
requested size (inr (inr e)) = (0 ∷ 0 ∷ 0 ∷ 0 ∷ [], rw e, rw e)

-- IN of one, two or four bytes: the device that serves the port is asked to fill a request of that
-- width, and its bytes, in big-endian order, become the low bits of the accumulator. The bits above
-- do not stay: of them only those are left that are set where the bit as far below them as the
-- width was clear. Nothing else of the core changes but what the device changed.
pub emulate_in_lem :
    {S : Type 0} (trait : EmulatedDevice S) (address : ℕ → ℕ) (exit : IoInstructionInformation)
    (s t : VCpu S) (filled : PortReadRequest)
    → exit.string ≡ false
    → exit.input ≡ true
    → IsWidth exit.size
    → dispatch trait (port exit.port) (port_read exit.port (zero_request exit.size)) s
      ≡ (t, ok (port_read exit.port filled))
    → t.guest_cpu.rax < 2 ^ 64
    → from_be_bytes (as_slice filled) < 2 ^ (exit.size * 8)
    → emulate_portio trait address exit s ≡ (
      record t {
        guest_cpu = record (t.guest_cpu) {
          rax = merged t.guest_cpu.rax (exit.size * 8) (from_be_bytes (as_slice filled));
        };
      },
      ok tt,
    )
unfolding emulate_portio emulate_in
emulate_in_lem trait address exit s t filled es ei w d r b =
    let (bytes, low, request) = requested exit.size w in
    rw (es, ei, low, request, d)
      (rw (merge_input-merged t.guest_cpu.rax (from_be_bytes (as_slice filled)) r exit.size w b)
        refl)
