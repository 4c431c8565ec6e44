-- ===== src/Vm/Setup/Fill.antt =====
-- The pages that are filled in below the size of a guest's memory (`setup_ept` of mythril/src/vm.rs).
use mythril.Prelude.{
  List-cases, ℕ, suc, zero, ◌+◌, ◌*◌, ◌/◌, ◌^◌, ◌<◌, ◌≤◌, ◌≡◌, refl, sym, subst, ap, ◌∙◌, arith,
  List, ◌∷◌, length, true, false, ◌==◌, if◌then◌else◌, Bool-cases, inl, inr,
}
use native.Mathlib.Decide.{ℕ_discrete}
use mythril.Prelude.Primitive.{TryFromPrimitive}
use mythril.Prelude.Word.{u64}
use mythril.Error.{err-ne-ok, Result, ok, err, invalid_value}
use mythril.Error.Run.{continue-ok}
use mythril.Memory.Address.{from_start_address, from_start_address-frame, base_page_size}
use mythril.Memory.Entry.{mem_type_code}
use mythril.Memory.Ept.{HostMemory, find_host_frame, used_entry}
use mythril.Memory.Ept.Tree.{IsSupply}
use mythril.Memory.Ept.Map.{page_of}
use mythril.Memory.Ept.Page.{find-page_of}
use mythril.Memory.Ept.Spec.{IsEpt, Maps, mapped, duplicate, no_room, map_guest_memory-Maps}
use mythril.Memory.Ept.Supply.{map_guest_memory-supply}
use mythril.Memory.Bytes.{GuestAddressSpace, frame_of}
use mythril.Vm.Setup.{boxed, new_page, map_frame, map_new_frame, skip_duplicate, fill_memory}

-- A run that succeeds, after which the pages that had a frame have the same one and the tables are a tree
-- again.
pub record Keeps (s : GuestAddressSpace) (r : GuestAddressSpace × Result (Unit {0})) : Type 0 where
  pub succeeds : r.1 ≡ ok tt
  pub kept : (g f : ℕ) → frame_of s g ≡ ok f → frame_of (r.0) g ≡ ok f
  pub ept : IsEpt ((r.0).tables) ((r.0).root)

-- After a page without a frame was mapped.
module _ (m n : HostMemory) (root guest host : ℕ) where
  kept_beside :
      (g f : ℕ)
      → find_host_frame m root guest ≡ err invalid_value
      → ((x : ℕ)
          → find_host_frame n root x
            ≡ (if page_of x == page_of guest then ok host else find_host_frame m root x))
      → find_host_frame m root g ≡ ok f
      → find_host_frame n root g ≡ ok f
  kept_beside g f free found h = elim (Bool-cases (page_of g == page_of guest)) [
    | inl e ↦
        let same = find-page_of m root g guest (ground (arith, e)) in
        absurd (err-ne-ok (sym free ∙ sym same ∙ h))
    | inr e ↦ found g ∙ rw e h
  ]

  found_here :
      ((x : ℕ)
        → find_host_frame n root x
          ≡ (if page_of x == page_of guest then ok host else find_host_frame m root x))
      → find_host_frame n root guest ≡ ok host
  found_here found =
      let here : (page_of guest == page_of guest) ≡ true = ground arith in
      found guest ∙ rw here refl

new_page-next :
    (s : GuestAddressSpace) (page : ℕ) (rest : List ℕ)
    → s.tables.supply ≡ page ∷ rest
    → new_page s ≡ boxed s (page ∷ rest)
unfolding new_page
new_page-next s page rest e = ap (boxed s) e

module _ (types : TryFromPrimitive mem_type_code) where
  -- One page: it has a frame after that, and takes at most four allocations.
  record Step (s : GuestAddressSpace) (guest : ℕ) (r : GuestAddressSpace × Result (Unit {0}))
      : Type 0 where
    keeps : Keeps s r
    found : (f : ℕ) × (frame_of (r.0) guest ≡ ok f)
    room : length s.tables.supply ≤ length (r.0).tables.supply + 4

  after_mapping :
      (s : GuestAddressSpace) (m : HostMemory) (bytes : ℕ → ℕ) (guest host : ℕ)
      (r : HostMemory × Result (Unit {0}))
      → ((g : ℕ) → find_host_frame m s.root g ≡ frame_of s g)
      → 3 ≤ length m.supply
      → length m.supply ≤ length (r.0).supply + 3
      → length s.tables.supply ≤ length m.supply + 1
      → Maps m s.root guest host r
      → Step s guest (skip_duplicate (record { tables = r.0; root = s.root; bytes = bytes }, r.1))
  after_mapping s m bytes guest host r same l taken one (mapped {n} free found ept) = record {
    keeps = record {
      succeeds = refl;
      kept = λ g f h. kept_beside m n s.root guest host g f free found (same g ∙ h);
      ept = ept;
    };
    found = (host, found_here m n s.root guest host found);
    room = omega (arith, taken, one);
  }
  after_mapping s m bytes guest host r same l taken one (duplicate {n} f found kept ept) = record {
    keeps = record { succeeds = refl; kept = λ g f' h. kept g ∙ same g ∙ h; ept = ept };
    found = (f, kept guest ∙ found);
    room = omega (arith, taken, one);
  }
  after_mapping s m bytes guest host r same l taken one (no_room few kept) =
      absurd (omega (arith, l, few))

  map_new_frame-Step :
      (s : GuestAddressSpace) (guest page : ℕ) (rest : List ℕ)
      → s.tables.supply ≡ page ∷ rest
      → 3 ≤ length rest
      → IsEpt s.tables s.root
      → Step s guest (skip_duplicate (map_new_frame types guest false s))
  unfolding map_new_frame map_frame find_host_frame used_entry boxed
  map_new_frame-Step s guest page rest e l ept =
      let fresh : IsSupply ept.level (page ∷ rest) = subst (IsSupply ept.level) e ept.tree.fresh in
      let m : HostMemory = record { entries = s.tables.entries; supply = rest } in
      let left : IsEpt m s.root = record {
        level = ept.level;
        prefix = ept.prefix;
        tree = record {
          root_level = ept.tree.root_level;
          root_prefix = ept.tree.root_prefix;
          child_level = ept.tree.child_level;
          child_prefix = ept.tree.child_prefix;
          fresh = fresh.3;
        };
      } in
      let frame : from_start_address page ≡ ok page =
        subst (λ p. from_start_address p ≡ ok p) (fresh.1).0
          (from_start_address-frame (page / 4096)) in
      rw (new_page-next s page rest e, frame)
        (after_mapping s m _ guest page _ (λ g. refl) l
          (map_guest_memory-supply types s.root guest page false m) (omega (arith, ap length e))
          (map_guest_memory-Maps types m s.root guest page false left fresh.1))

  next-Step :
      (s : GuestAddressSpace) (guest : ℕ)
      → 4 ≤ length s.tables.supply
      → IsEpt s.tables s.root
      → Step s guest (skip_duplicate (map_new_frame types guest false s))
  next-Step s guest l ept = elim (List-cases s.tables.supply) [
    | inl e ↦ absurd (omega (arith, l, ap length e))
    | inr (page, rest, e) ↦
        map_new_frame-Step s guest page rest e (omega (arith, l, ap length e)) ept
  ]

  -- Where the heap has four allocations left for each page, so many pages from number `i` on are filled
  -- in: this succeeds, each page has a frame after that, and one that had a frame has the same.
  pub fill_memory_lem :
      (n i : ℕ) (s : GuestAddressSpace)
      → i + n ≤ 2 ^ 36
      → 4 * n ≤ length s.tables.supply
      → IsEpt s.tables s.root
      → let r = fill_memory types n i s in
        Keeps s r
        × ((g : ℕ) → i ≤ page_of g → page_of g < i + n → (f : ℕ) × (frame_of (r.0) g ≡ ok f))
  unfolding fill_memory
  fill_memory_lem zero i s b l ept =
      (record { succeeds = refl; kept = λ g f h. h; ept = ept }, λ g h h'. absurd (omega arith))
  fill_memory_lem (suc n) i s b l ept =
      let guest : ℕ = u64 (i * base_page_size) in
      let page : page_of guest ≡ i = omega (arith, b) in
      let first = next-Step s guest (omega (arith, l)) ept in
      let one = skip_duplicate (map_new_frame types guest false s) in
      let rest =
        fill_memory_lem n (i + 1) (one.0) (omega (arith, b)) (omega (arith, l, first.room))
          first.keeps.ept in
      rw (continue-ok (λ done. fill_memory types n (i + 1)) one tt first.keeps.succeeds) (
        record {
          succeeds = rest.0.succeeds;
          kept = λ g f h. rest.0.kept g f (first.keeps.kept g f h);
          ept = rest.0.ept;
        },
        λ g h h'. elim (ℕ_discrete (page_of g) i) [
          | yes e ↦ (
            first.found.0,
            rest.0.kept g (first.found.0) (
                find-page_of ((one.0).tables) ((one.0).root) g guest (e ∙ sym page)
                ∙ first.found.1),
          )
          | no ne ↦ rest.1 g (omega (arith, h, ne)) (omega (arith, h'))
        ],
      )
