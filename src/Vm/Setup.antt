-- ===== src/Vm/Setup.antt =====
-- The memory of a guest, as mythril/src/vm.rs sets it up (`setup_ept`), with `map_frame` and `map_new_frame` of
-- mythril/src/memory.rs. The modules that the boot loader passed on and the bytes of the BIOS, a file that
-- is compiled in, are parameters. Pages come from the heap that the tables come from.
pub mod Fill
pub mod Chunks
use mythril.Prelude.{
  ℕ, zero, suc, ◌+◌, ◌-◌, ◌*◌, ◌%◌, ◌^◌, ltb, ◌&&◌, leb, if◌then◌else◌, List, [], ◌∷◌, length, take,
  drop, Option, none, some, Bool, true, false,
}
use mythril.Prelude.Primitive.{TryFromPrimitive}
use mythril.Prelude.Word.{u64, ◌<<<◌}
use mythril.Error.{Result, ok, err, panic, Error, ok_or, invalid_value, duplicate_mapping}
use mythril.Error.Run.{Run, continue, ◌>>=◌, ◌>>◌, lift, modify, done, zoom}
use mythril.Memory.Address.{base_page_size, from_start_address}
use mythril.Memory.Entry.{mem_type_code}
use mythril.Memory.Ept.{HostMemory, map_guest_memory, new_space}
use mythril.Memory.Bytes.{GuestAddressSpace, store}

-- `Box::new(Raw4kPage::default())`.
boxed : GuestAddressSpace → List ℕ → GuestAddressSpace × Result ℕ
boxed self [] = (self, panic)
boxed self (page ∷ rest) = (
  record self {
    tables = record (self.tables) { supply = rest };
    bytes = λ a. if leb page a && ltb a (page + base_page_size) then 0 else self.bytes a;
  },
  ok page,
)

unfoldable pub new_page : Run GuestAddressSpace ℕ
unfolding boxed
new_page self = boxed self self.tables.supply

-- The chunks of 4096 bytes; the last one may be shorter. `fuel` bounds their number.
unfoldable pub chunks : ℕ → List ℕ → List (List ℕ)
chunks fuel [] = []
chunks zero (b ∷ bytes) = []
chunks (suc fuel) (b ∷ bytes) =
    take base_page_size (b ∷ bytes) ∷ chunks fuel (drop base_page_size (b ∷ bytes))

-- A page that is mapped already is left as it is.
abbrev pub skip_duplicate :
    GuestAddressSpace × Result (Unit {0}) → GuestAddressSpace × Result (Unit {0})
skip_duplicate (s, ok done) = (s, ok tt)
skip_duplicate (s, err duplicate_mapping) = (s, ok tt)
skip_duplicate (s, err e) = (s, err e)
skip_duplicate (s, panic) = (s, panic)

module _ (types : TryFromPrimitive mem_type_code) where
  unfoldable pub map_frame : ℕ → ℕ → Bool → Run GuestAddressSpace (Unit {0})
  map_frame guest host readonly self =
      zoom (λ s. s.tables) (λ t s. record s { tables = t })
        (map_guest_memory types self.root guest host readonly) self

  unfoldable pub map_new_frame : ℕ → Bool → Run GuestAddressSpace (Unit {0})
  unfolding new_page map_frame
  map_new_frame guest readonly = do
    page ← new_page
    frame ← lift (from_start_address page)
    map_frame guest frame readonly

  -- The chunks from number `i` on.
  map_chunks : ℕ → ℕ → List (List ℕ) → Run GuestAddressSpace (Unit {0})
  unfolding new_page map_frame
  map_chunks guest i [] s = (s, ok tt)
  map_chunks guest i (chunk ∷ rest) s =
      let later = map_chunks guest (i + 1) rest in
      (new_page >>= λ page. lift (from_start_address page) >>= λ frame.
      modify (λ s. record s { bytes = store s.bytes page chunk })
      >> map_frame (u64 (guest + i * base_page_size)) frame false
      >> later)
        s

  unfoldable pub map_data : List ℕ → ℕ → Run GuestAddressSpace (Unit {0})
  unfolding chunks map_chunks
  map_data image guest = map_chunks guest 0 (chunks (length image) image)

  unfoldable pub map_bios : List ℕ → Run GuestAddressSpace (Unit {0})
  unfolding map_data
  map_bios bios =
      map_data bios (u64 (1024 * 1024 + 2 ^ 64 - length bios))
      >> map_data bios (u64 (4 * 1024 * 1024 * 1024 + 2 ^ 64 - length bios))

  module _ {Name : Type 0} (find_module : Name → Option (List ℕ)) where
    unfoldable pub map_image : Name → ℕ → Run GuestAddressSpace (Unit {0})
    unfolding map_data
    map_image image guest =
        lift (ok_or (find_module image) invalid_value) >>= λ data_. map_data data_ guest

    map_images : List (Name × ℕ) → Run GuestAddressSpace (Unit {0})
    unfolding map_image
    map_images [] s = (s, ok tt)
    map_images ((image, guest) ∷ images) s =
        let rest = map_images images in (map_image image guest >> rest) s

  -- So many pages from number `i` on.
  unfoldable pub fill_memory : ℕ → ℕ → Run GuestAddressSpace (Unit {0})
  unfolding map_new_frame
  fill_memory zero i s = (s, ok tt)
  fill_memory (suc n) i s =
      let rest = fill_memory n (i + 1) in
      continue (λ done. rest) (skip_duplicate (map_new_frame (u64 (i * base_page_size)) false s))

  module _ {Name : Type 0} (find_module : Name → Option (List ℕ)) (bios : List ℕ) where
    -- What is left of a run on a new address space.
    abbrev finished : GuestAddressSpace × Result (Unit {0}) → Result GuestAddressSpace
    finished (s, ok done) = ok s
    finished (s, err e) = err e
    finished (s, panic) = panic

    with_root : List (Name × ℕ) → ℕ → (ℕ → ℕ) → HostMemory × Result ℕ → Result GuestAddressSpace
    unfolding map_bios map_images fill_memory
    with_root images memory bytes (m, ok root) = finished (
        (map_bios bios >> map_images find_module images >> fill_memory (u64 (memory <<< 8)) 0)
          (record { tables = m; root = root; bytes = bytes }))
    with_root images memory bytes (m, err e) = err e
    with_root images memory bytes (m, panic) = panic

    -- `memory` counts MiB; `heap` and `bytes` are the memory of the host.
    unfoldable pub setup_ept : List (Name × ℕ) → ℕ → HostMemory → (ℕ → ℕ) → Result GuestAddressSpace
    unfolding new_space with_root
    setup_ept images memory heap bytes = with_root images memory bytes (new_space heap)
