-- ===== src/Memory/Ept.antt =====
-- `map_guest_memory` and `GuestAddressSpace` of mythril/src/memory.rs. The tables lie in host memory,
-- which is the map from the address of a table and an index to an entry. The allocator is not under
-- mythril/src: `supply` holds the addresses that its next allocations return, in order, and an empty
-- one stands for a heap that is used up, where the allocation error handler panics.

pub mod Tree
pub mod Grow
pub mod Step
pub mod Map
pub mod Page
pub mod Spec
pub mod Supply
use mythril.Prelude.{ℕ, Bool, true, false, List, [], ◌∷◌, ◌==◌, ◌&&◌, if◌then◌else◌}
use mythril.Prelude.Primitive.{TryFromPrimitive}
use mythril.Error.{Result, ok, err, panic, ◌>>=◌ as and_then, invalid_value, duplicate_mapping}
use mythril.Memory.Address.{pml4_index, pdpt_index, pd_index, pt_index, from_start_address}
use mythril.Memory.Entry.{
  mem_type_code, write_back, is_unused, addr, set_addr, set_mem_type, pte_set_addr, default_flags,
  page_flags,
}

pub record HostMemory : Type 0 where
  pub entries : ℕ → ℕ → ℕ
  pub supply : List ℕ

-- `(*table)[index] = entry`.
abbrev pub write_entry : (ℕ → ℕ → ℕ) → ℕ → ℕ → ℕ → ℕ → ℕ → ℕ
write_entry entries table index entry t i = if t == table && i == index then entry else entries t i

-- A boxed table is filled by `EptTable::default()`.
abbrev pub zero_table : (ℕ → ℕ → ℕ) → ℕ → ℕ → ℕ → ℕ
zero_table entries table t i = if t == table then 0 else entries t i

-- A function that works on host memory, and may fail or panic.
abbrev pub M : Type 0 → Type 0
M A = HostMemory → HostMemory × Result A

abbrev pub continue : {A B : Type 0} → (A → M B) → HostMemory × Result A → HostMemory × Result B
continue f (m, ok a) = f a m
continue f (m, err e) = (m, err e)
continue f (m, panic) = (m, panic)

infixl 5 ◌>>=◌
abbrev pub ◌>>=◌ : {A B : Type 0} → M A → (A → M B) → M B
◌>>=◌ a f m = continue f (a m)

-- `GuestAddressSpace::new`: the root table is boxed.
unfoldable pub new_space : M ℕ
new_space m = boxed m.supply
  where
    boxed : List ℕ → HostMemory × Result ℕ
    boxed [] = (m, panic)
    boxed (root ∷ rest) = (record { entries = zero_table m.entries root; supply = rest }, ok root)

-- One level of `map_guest_memory`: the table that the entry points to, allocated where the entry is
-- unused.
unfoldable pub allocate_table : HostMemory → ℕ → ℕ → List ℕ → HostMemory × Result ℕ
unfolding addr set_addr
allocate_table m table index [] = (m, panic)
allocate_table m table index (new ∷ rest) =
    let entries = zero_table m.entries new in
    let entry = set_addr new default_flags in
    (record { entries = write_entry entries table index entry; supply = rest }, ok (addr entry))

unfoldable pub next_table : ℕ → ℕ → M ℕ
unfolding is_unused addr allocate_table
next_table table index m =
    if is_unused (m.entries table index)
    then allocate_table m table index m.supply
    else (m, ok (addr (m.entries table index)))

-- The first part of `map_guest_memory`: the page table of the address, with the levels above it.
unfoldable pub page_table : ℕ → ℕ → M ℕ
page_table root guest = do
  pdpt ← next_table root (pml4_index guest)
  pdt ← next_table pdpt (pdpt_index guest)
  next_table pdt (pd_index guest)

-- The rest of it, at an entry of the page table.
module _ (types : TryFromPrimitive mem_type_code) where
  write_page : ℕ → ℕ → HostMemory → Result ℕ → HostMemory × Result (Unit {0})
  write_page table index m (ok entry) = (
    record m { entries = write_entry m.entries table index (set_mem_type entry write_back) },
    ok tt,
  )
  write_page table index m (err e) = (m, err e)
  write_page table index m panic = (m, panic)

  unfoldable pub map_page : ℕ → ℕ → ℕ → Bool → M (Unit {0})
  unfolding is_unused write_page
  map_page table index host readonly m =
      if is_unused (m.entries table index)
      then write_page table index m
          (pte_set_addr types (m.entries table index) host (page_flags readonly))
      else (m, err duplicate_mapping)

  unfoldable pub map_guest_memory : ℕ → ℕ → ℕ → Bool → M (Unit {0})
  map_guest_memory root guest host readonly = do
    pt ← page_table root guest
    map_page pt (pt_index guest) host readonly

-- One level of `find_host_frame`.
unfoldable pub used_entry : HostMemory → ℕ → ℕ → Result ℕ
unfolding is_unused addr
used_entry m table index =
    if is_unused (m.entries table index)
    then err invalid_value
    else ok (addr (m.entries table index))

unfoldable pub find_host_frame : HostMemory → ℕ → ℕ → Result ℕ
unfolding used_entry from_start_address
find_host_frame m root guest = and_then (used_entry m root (pml4_index guest)) λ pdpt.
    and_then (used_entry m pdpt (pdpt_index guest)) λ pdt.
      and_then (used_entry m pdt (pd_index guest))
        λ pt. and_then (used_entry m pt (pt_index guest)) from_start_address
