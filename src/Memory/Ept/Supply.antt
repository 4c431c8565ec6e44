-- ===== src/Memory/Ept/Supply.antt =====
-- How much of the heap a call of `map_guest_memory` takes.
use mythril.Prelude.{ℕ, ◌+◌, ◌≤◌, arith, List, [], ◌∷◌, length, Bool, Bool-cases, inl, inr}
use mythril.Prelude.Primitive.{TryFromPrimitive}
use mythril.Error.{Result, ok, err, panic, Result-cases}
use mythril.Memory.Address.{pml4_index, pdpt_index, pd_index, pt_index}
use mythril.Memory.Entry.{mem_type_code, is_unused, pte_set_addr, page_flags}
use mythril.Memory.Ept.{
  HostMemory, M, continue, allocate_table, next_table, page_table, map_page, map_guest_memory,
}

continue-supply :
    {A B : Type 0} (f : A → M B) (k : ℕ)
    → ((a : A) (m : HostMemory) → length m.supply ≤ length ((f a m).0).supply + k)
    → (r : HostMemory × Result A) → length (r.0).supply ≤ length ((continue f r).0).supply + k
continue-supply f k h (m, ok a) = h a m
continue-supply f k h (m, err e) = omega arith
continue-supply f k h (m, panic) = omega arith

allocate_table-supply :
    (m : HostMemory) (table index : ℕ) (supply : List ℕ)
    → length supply ≤ length ((allocate_table m table index supply).0).supply + 1
unfolding allocate_table
allocate_table-supply m table index [] = omega arith
allocate_table-supply m table index (new ∷ rest) = omega arith

next_table-supply :
    (table index : ℕ) (m : HostMemory)
    → length m.supply ≤ length ((next_table table index m).0).supply + 1
unfolding next_table
next_table-supply table index m = elim (Bool-cases (is_unused (m.entries table index))) [
  | inl e ↦ rw e (allocate_table-supply m table index m.supply)
  | inr e ↦ rw e (omega arith)
]

page_table-supply :
    (root guest : ℕ) (m : HostMemory)
    → length m.supply ≤ length ((page_table root guest m).0).supply + 3
unfolding page_table
page_table-supply root guest m =
    let second : (pdpt : ℕ) (n : HostMemory)
        → length n.supply
          ≤ length
              ((continue (λ pdt. next_table pdt (pd_index guest))
                  (next_table pdpt (pdpt_index guest) n)).0
                ).supply
            + 2 =
      λ pdpt n.
        let inner =
          continue-supply (λ pdt. next_table pdt (pd_index guest)) 1
            (λ pdt. next_table-supply pdt (pd_index guest))
            (next_table pdpt (pdpt_index guest) n) in
        omega (arith, next_table-supply pdpt (pdpt_index guest) n, inner) in
    let outer =
      continue-supply
        (λ pdpt n.
          continue (λ pdt. next_table pdt (pd_index guest)) (next_table pdpt (pdpt_index guest) n))
        2 second (next_table root (pml4_index guest) m) in
    omega (arith, next_table-supply root (pml4_index guest) m, outer)

map_page-supply :
    (types : TryFromPrimitive mem_type_code) (pt i host : ℕ) (readonly : Bool) (m : HostMemory)
    → length m.supply ≤ length ((map_page types pt i host readonly m).0).supply
unfolding map_page
map_page-supply types pt i host readonly m = elim (Bool-cases (is_unused (m.entries pt i))) [
  | inr e ↦ rw e (omega arith)
  | inl e ↦ elim (Result-cases (pte_set_addr types (m.entries pt i) host (page_flags readonly))) [
    | inl (entry, p) ↦ rw (e, p) (omega arith)
    | inr (inl (e', p)) ↦ rw (e, p) (omega arith)
    | inr (inr p) ↦ rw (e, p) (omega arith)
  ]
]

-- A mapping takes at most three tables from the heap.
pub map_guest_memory-supply :
    (types : TryFromPrimitive mem_type_code) (root guest host : ℕ) (readonly : Bool)
    (m : HostMemory)
    → length m.supply ≤ length ((map_guest_memory types root guest host readonly m).0).supply + 3
unfolding map_guest_memory
map_guest_memory-supply types root guest host readonly m =
    let mapped =
      continue-supply (λ pt. map_page types pt (pt_index guest) host readonly) 0
        (λ pt n. omega (arith, map_page-supply types pt (pt_index guest) host readonly n))
        (page_table root guest m) in
    omega (arith, page_table-supply root guest m, mapped)
