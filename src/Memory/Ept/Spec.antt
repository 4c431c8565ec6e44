-- ===== src/Memory/Ept/Spec.antt =====
-- `map_guest_memory` as a change of the map from guest pages to host frames.
use mythril.Prelude.{
  ℕ, ◌<◌, ◌≡◌, refl, arith, List, [], ◌∷◌, length, ◌==◌, if◌then◌else◌, Bool, inl, inr,
}
use native.Mathlib.Decide.{ℕ_discrete}
use mythril.Prelude.Primitive.{TryFromPrimitive}
use mythril.Error.{Result, ok, err, panic, invalid_value, duplicate_mapping}
use mythril.Memory.Address.{pt_index}
use mythril.Memory.Entry.{mem_type_code, is_unused}
use mythril.Memory.Ept.{HostMemory, zero_table, new_space, map_guest_memory, find_host_frame}
use mythril.Memory.Ept.Tree.{IsTree, IsFrame, IsSupply, NotIn}
use mythril.Memory.Ept.Map.{page_of, page_table_cases}
use mythril.Memory.Ept.Page.{
  written-IsTree, find-written, find-in_use, find-unused, page_written, page_refused,
}

-- The host memory holds a tree of tables below `root`.
pub record IsEpt (m : HostMemory) (root : ℕ) : Type 0 where
  pub level : ℕ → ℕ
  pub prefix : ℕ → ℕ
  pub tree : IsTree level prefix m root

-- What a call of `map_guest_memory` may come to, seen from `find_host_frame`.
pub data Maps (m : HostMemory) (root guest host : ℕ) : HostMemory × Result (Unit {0}) → Type 0 where
  mapped :
      {n : HostMemory}
      → find_host_frame m root guest ≡ err invalid_value
      → ((g : ℕ)
          → find_host_frame n root g
            ≡ (if page_of g == page_of guest then ok host else find_host_frame m root g))
      → IsEpt n root
      → Maps m root guest host (n, ok tt)
  duplicate :
      {n : HostMemory} (f : ℕ)
      → find_host_frame m root guest ≡ ok f
      → ((g : ℕ) → find_host_frame n root g ≡ find_host_frame m root g)
      → IsEpt n root
      → Maps m root guest host (n, err duplicate_mapping)
  no_room :
      {n : HostMemory}
      → length m.supply < 3
      → ((g : ℕ) → find_host_frame n root g ≡ find_host_frame m root g)
      → Maps m root guest host (n, panic)

-- Mapping a page in a tree of tables, seen from `find_host_frame`. It is done only where no frame was
-- found for the address, and then the page has the frame and the addresses of other pages are found
-- as before. It is refused as a duplicate only where a frame was found, and then every address is
-- found as before. It panics only where fewer than three tables are left in the heap, and then too
-- every address is found as before. Unless it panics, the tables are a tree again.
pub map_guest_memory-Maps :
    (types : TryFromPrimitive mem_type_code) (m : HostMemory) (root guest host : ℕ)
    (readonly : Bool)
    → IsEpt m root
    → IsFrame host
    → Maps m root guest host (map_guest_memory types root guest host readonly m)
unfolding map_guest_memory
map_guest_memory-Maps types m root guest host readonly ept frame =
    elim (page_table_cases m root guest ept.tree) [
      | inr (n, e, same, few) ↦ rw (e, map_guest_memory) (no_room few same)
      | inl (n, pt, e, ready) ↦
          rw (e, map_guest_memory)
            (elim (ℕ_discrete (n.entries pt (pt_index guest)) 0) [
              | yes u ↦ rw (page_written m n root guest pt host readonly ready frame types u) (
                  mapped (find-unused m n root guest pt host readonly ready frame u)
                    (find-written m n root guest pt host readonly ready frame)
                    (record {
                      level = ready.level;
                      prefix = ready.prefix;
                      tree = written-IsTree m n root guest pt host readonly ready frame;
                    }))
              | no u ↦
                  let found = find-in_use m n root guest pt host readonly ready frame u in
                  rw (page_refused m n root guest pt host readonly ready frame types u) (
                    duplicate found.0 found.1 ready.same
                      (record { level = ready.level; prefix = ready.prefix; tree = ready.tree }))
            ])
    ]

-- A new address space: its root table is a fresh allocation.
abbrev pub FreshSupply : List ℕ → Type 0
FreshSupply = IsSupply (λ _. 0)

-- A new address space, whose root is the next allocation, is a tree of tables in which no address is
-- found; what is left of the heap is fresh for it.
pub new_space_empty :
    (m : HostMemory) (root : ℕ) (rest : List ℕ)
    → m.supply ≡ root ∷ rest
    → FreshSupply (root ∷ rest)
    → (n : HostMemory) × (new_space m ≡ (n, ok root))
      × IsEpt n root
      × ((g : ℕ) → find_host_frame n root g ≡ err invalid_value)
unfolding new_space find_host_frame is_unused
new_space_empty m root rest e f = (
  record { entries = zero_table m.entries root; supply = rest },
  ground arith,
  record {
    level = level;
    prefix = λ _. 0;
    tree = record {
      root_level = ground arith;
      root_prefix = refl;
      child_level = λ t i h b u. absurd (u (ground arith));
      child_prefix = λ t i h b u. absurd (u (ground arith));
      fresh = supply rest f.2 f.3;
    };
  },
  λ g. ground arith,
)
  where
    level : ℕ → ℕ
    level x = if x == root then 4 else 0

    supply : (l : List ℕ) → NotIn root l → FreshSupply l → IsSupply level l
    supply [] n s = tt
    supply (a ∷ l) n s = (ground arith, s.1, s.2, supply l n.1 s.3)
