-- ===== src/Tests/Memory.antt =====
-- mythril/src/memory.rs at concrete inputs.
use mythril.Prelude.{
  ℕ, ◌+◌, ◌*◌, ◌≤◌, ◌<◌, ◌≡◌, refl, arith, List, [], ◌∷◌, true, false, ◌==◌, if◌then◌else◌, some,
}
use mythril.Prelude.Primitive.{TryFromPrimitive, search_code, code-search_code}
use mythril.Error.{ok, err, panic, invalid_value, duplicate_mapping}
use mythril.Memory.Address.{pml4_index, pdpt_index, pd_index, pt_index}
use mythril.Memory.Entry.{
  EptMemoryType, uncacheable, write_cache, write_through, write_p, write_back, mem_type_code,
  pte_set_addr, mem_type, set_mem_type, page_flags,
}
use mythril.Memory.Entry.Laws.{page_mem_type}
use mythril.Memory.Ept.{
  HostMemory, zero_table, new_space, map_guest_memory, find_host_frame, page_table, next_table,
  map_page,
}
use mythril.Memory.Ept.Map.{page_of}
use mythril.Memory.Bytes.{GuestAddressSpace, frame_of}
use mythril.Vm.Setup.{fill_memory}
use mythril.Vm.Setup.Fill.{Keeps, fill_memory_lem}
use mythril.Memory.Ept.Spec.{IsEpt, Maps, map_guest_memory-Maps, FreshSupply, new_space_empty}

abbrev mem_types : List EptMemoryType
mem_types = uncacheable ∷ write_cache ∷ write_through ∷ write_p ∷ write_back ∷ []

mem_types-found :
    (t : EptMemoryType) → search_code mem_type_code mem_types (mem_type_code t) ≡ some t
unfolding mem_type_code
mem_types-found uncacheable = refl
mem_types-found write_cache = refl
mem_types-found write_through = refl
mem_types-found write_p = refl
mem_types-found write_back = refl

abbrev types : TryFromPrimitive mem_type_code
types = record {
  try_from = search_code mem_type_code mem_types;
  try_from-code = mem_types-found;
  code-try_from = code-search_code mem_type_code mem_types;
}

-- A heap that returns five frames, and an address space whose root is the first of them.
abbrev heap : HostMemory
heap = record { entries = λ _ _. 0; supply = 0x1000 ∷ 0x2000 ∷ 0x3000 ∷ 0x4000 ∷ 0x5000 ∷ [] }

abbrev space : HostMemory
space = record {
  entries = zero_table heap.entries 0x1000;
  supply = 0x2000 ∷ 0x3000 ∷ 0x4000 ∷ 0x5000 ∷ [];
}

heap-FreshSupply : FreshSupply heap.supply
heap-FreshSupply = ground arith

space-IsEpt : IsEpt space 0x1000
space-IsEpt = record {
  level = λ x. level x;
  prefix = λ _. 0;
  tree = record {
    root_level = refl;
    root_prefix = refl;
    child_level = λ t i h b u. absurd (u (ground arith));
    child_prefix = λ t i h b u. absurd (u (ground arith));
    fresh = ground arith;
  };
}
  where
    level : ℕ → ℕ
    level x = if x == 0x1000 then 4 else 0

map_guest_memory-Maps_example :
    Maps space 0x1000 0x8000_2000 0x77000
      (map_guest_memory types 0x1000 0x8000_2000 0x77000 true space)
map_guest_memory-Maps_example =
    map_guest_memory-Maps types space 0x1000 0x8000_2000 0x77000 true space-IsEpt
      (refl, omega arith)

new_space_empty_example :
    (n : HostMemory) × (new_space heap ≡ (n, ok 0x1000))
    × IsEpt n 0x1000
    × ((g : ℕ) → find_host_frame n 0x1000 g ≡ err invalid_value)
new_space_empty_example =
    new_space_empty heap 0x1000 (0x2000 ∷ 0x3000 ∷ 0x4000 ∷ 0x5000 ∷ []) refl heap-FreshSupply

-- The page that is mapped above is found, the next one is not, and a second mapping is refused.
mapped_page :
    let mapped = (map_guest_memory types 0x1000 0x8000_2000 0x77000 true space).0 in
    (find_host_frame mapped 0x1000 0x8000_2abc ≡ ok 0x77000)
    × (find_host_frame mapped 0x1000 0x8000_3000 ≡ err invalid_value)
    × ((map_guest_memory types 0x1000 0x8000_2000 0x88000 false mapped).1 ≡ err duplicate_mapping)
unfolding map_guest_memory find_host_frame page_table next_table map_page pte_set_addr pml4_index
    pdpt_index pd_index pt_index set_mem_type page_flags
mapped_page = (refl, refl, refl)

page_mem_type_example :
    (entry : ℕ) × (pte_set_addr types 0 (0x77 * 4096) (page_flags true) ≡ ok entry)
    × (mem_type types entry ≡ panic)
    × (mem_type types (set_mem_type entry write_back) ≡ ok write_back)
page_mem_type_example = page_mem_type types 0x77 true (omega arith)

abbrev guest : GuestAddressSpace
guest = record { tables = space; root = 0x1000; bytes = λ _. 0 }

fill_memory_lem_example :
    let r = fill_memory types 1 0x80 guest in
    Keeps guest r
    × ((g : ℕ) → 0x80 ≤ page_of g → page_of g < 0x80 + 1 → (f : ℕ) × (frame_of (r.0) g ≡ ok f))
fill_memory_lem_example = fill_memory_lem types 1 0x80 guest (omega arith) (omega arith) space-IsEpt
