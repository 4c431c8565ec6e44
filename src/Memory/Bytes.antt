-- ===== src/Memory/Bytes.antt =====
-- Guest memory by bytes (mythril/src/memory.rs): the walk of the guest's own tables and the copies through
-- frames. `bytes` is what the host's frames hold. The entries of the guest's tables are types of the
-- x86 crate, whose `address()` is a parameter. The access is not looked at by the source and is left out.
pub mod Each
use mythril.Prelude.{
  ℕ, suc, zero, ◌+◌, ◌-◌, ◌*◌, ◌/◌, ◌%◌, ◌^◌, ◌==◌, leb, if◌then◌else◌, List, [], ◌∷◌, ◌++◌, length,
  take, drop,
}
use mythril.Prelude.Word.{u64}
use mythril.Error.{Result, ok, err, panic, ◌>>=◌}
use mythril.Error.Run as Run
use mythril.Memory.Address.{
  GuestVirtAddr, no_paging, paging_4_level, as_u64, add_usize, base_page_size, pml4_index,
  pdpt_index, pd_index, large_page_offset,
}
use mythril.Memory.Ept.{HostMemory, find_host_frame}

pub record GuestAddressSpace : Type 0 where
  pub tables : HostMemory
  pub root : ℕ
  pub bytes : ℕ → ℕ

abbrev pub frame_of : GuestAddressSpace → ℕ → Result ℕ
frame_of self addr = find_host_frame self.tables self.root addr

-- `HostPhysFrame::as_array` and `as_mut_array`, which unwrap the pointer to the frame.
unfoldable pub as_array : ℕ → Result ℕ
as_array frame = if frame == 0 then panic else ok frame

-- `n` bytes from a host address on.
unfoldable pub window : (ℕ → ℕ) → ℕ → ℕ → List ℕ
window bytes start zero = []
window bytes start (suc n) = bytes start ∷ window bytes (start + 1) n

-- `copy_from_slice` to a host address.
unfoldable pub store : (ℕ → ℕ) → ℕ → List ℕ → ℕ → ℕ
store bytes start [] = bytes
store bytes start (b ∷ bs) = store (λ a. if a == start then b else bytes a) (start + 1) bs

-- Entry `index` of a guest table in a host frame, in little-endian order.
unfoldable pub guest_entry : (ℕ → ℕ) → ℕ → ℕ → ℕ
guest_entry bytes frame index = little_endian (window bytes (frame + index * 8) 8)
  where
    little_endian : List ℕ → ℕ
    little_endian [] = 0
    little_endian (b ∷ bs) = b + 2 ^ 8 * little_endian bs

module _ (address : ℕ → ℕ) where
  unfoldable pub translate_pl4_address : GuestAddressSpace → ℕ → ℕ → Result ℕ
  unfolding guest_entry
  translate_pl4_address self cr3 addr = do
    guest_pml4 ← frame_of self cr3
    let pml4e = guest_entry self.bytes guest_pml4 (pml4_index addr)
    guest_pdpt ← frame_of self (address pml4e)
    let pdpte = guest_entry self.bytes guest_pdpt (pdpt_index addr)
    guest_pdt ← frame_of self (address pdpte)
    let pdte = guest_entry self.bytes guest_pdt (pd_index addr)
    ok (u64 (address pdte + large_page_offset addr))

  unfoldable pub translate_linear_address : GuestAddressSpace → ℕ → GuestVirtAddr → Result ℕ
  unfolding translate_pl4_address
  translate_linear_address self cr3 (no_paging addr) = ok addr
  translate_linear_address self cr3 (paging_4_level vaddr) = translate_pl4_address self cr3 vaddr

  -- What `FrameIter` gives at an address; the next one is a page further.
  unfoldable pub next_frame : GuestAddressSpace → ℕ → GuestVirtAddr → Result ℕ
  unfolding translate_linear_address
  next_frame self cr3 addr = translate_linear_address self cr3 addr >>= frame_of self

  -- The array of that frame.
  unfoldable pub next_array : GuestAddressSpace → ℕ → GuestVirtAddr → Result ℕ
  unfolding next_frame
  next_array self cr3 addr = next_frame self cr3 addr >>= as_array

  -- The rounds of the loop. The bytes of a round lie in one frame; `rounds` bounds their number.
  unfoldable pub read_rounds : ℕ → GuestAddressSpace → ℕ → GuestVirtAddr → ℕ → ℕ → Result (List ℕ)
  unfolding next_array
  read_rounds zero self cr3 addr start_offset length_ = panic
  read_rounds (suc rounds) self cr3 addr start_offset length_ =
      let rest = λ (n : ℕ). read_rounds rounds self cr3 (add_usize addr base_page_size) 0 n in
      next_array self cr3 addr >>= λ frame.
      if leb (start_offset + length_) base_page_size
      then ok (window self.bytes (frame + start_offset) length_)
      else (rest (length_ - (base_page_size - start_offset)) >>= λ out.
          ok (window self.bytes (frame + start_offset) (base_page_size - start_offset) ++ out))

  unfoldable pub read_bytes : GuestAddressSpace → ℕ → GuestVirtAddr → ℕ → Result (List ℕ)
  unfolding read_rounds
  read_bytes self cr3 addr length_ =
      read_rounds (length_ / base_page_size + 2) self cr3 addr (as_u64 addr % base_page_size)
        length_

  unfoldable pub write_rounds :
      ℕ → ℕ → GuestVirtAddr → ℕ → List ℕ → Run.Run GuestAddressSpace (Unit {0})
  unfolding next_array
  write_rounds zero cr3 addr start_offset bytes self = (self, panic)
  write_rounds (suc rounds) cr3 addr start_offset bytes self =
      let room = base_page_size - start_offset in
      let rest = λ (s : GuestAddressSpace).
        write_rounds rounds cr3 (add_usize addr base_page_size) 0 (drop room bytes) s in
      Run.continue
        (λ frame s.
          if leb (start_offset + length bytes) base_page_size
          then (record s { bytes = store s.bytes (frame + start_offset) bytes }, ok tt)
          else rest (record s { bytes = store s.bytes (frame + start_offset) (take room bytes) }))
        (self, next_array self cr3 addr)

  unfoldable pub write_bytes : ℕ → GuestVirtAddr → List ℕ → Run.Run GuestAddressSpace (Unit {0})
  unfolding write_rounds
  write_bytes cr3 addr bytes =
      write_rounds (length bytes / base_page_size + 2) cr3 addr (as_u64 addr % base_page_size) bytes
