-- ===== src/Memory/Ept/Page.antt =====
-- The last level: an entry of the page table is written, and the searches after it.
use mythril.Prelude.{
  ℕ, ◌+◌, ◌*◌, ◌/◌, ◌%◌, ◌≤◌, ◌^◌, ◌≡◌, ◌≢◌, refl, sym, arith, List, [], ◌∷◌, length, ◌==◌,
  if◌then◌else◌, Bool, Bool-cases, inl, inr, ◌⊎◌, ap, subst, ◌∙◌,
}
use mythril.Prelude.Primitive.{TryFromPrimitive}
use mythril.Error.{ok, err, ◌>>=◌ as and_then, invalid_value, duplicate_mapping}
use mythril.Memory.Address.{
  pml4_index, pdpt_index, pd_index, pt_index, from_start_address, from_start_address-frame,
}
use mythril.Memory.Entry.{
  mem_type_code, addr, is_unused, page_flags, pte_set_addr, set_mem_type, write_back,
}
use mythril.Memory.Entry.Laws.{addr-frame, addr-multiple, pte_set_addr_fresh, set_mem_type_page}
use mythril.Memory.Ept.{HostMemory, used_entry, write_entry, map_page, find_host_frame}
use mythril.Memory.Ept.Tree.{
  IsTree, IsFrame, walk, Indices, indices_of, find-walk, walk_cong, used_entry-ok,
}
use mythril.Memory.Ept.Grow.{here_cases}
use mythril.Memory.Ept.Map.{Ready, page_of, page_of-digits, Indices-indices_of}

abbrev pub digits_of : ℕ → List ℕ → ℕ
digits_of p [] = p
digits_of p (i ∷ is) = digits_of (p * 512 + i) is

abbrev pub page_entry : ℕ → Bool → ℕ
page_entry host readonly = host + (if readonly then 0x4c5 else 0x4c7)

module _ (m n : HostMemory) (root guest pt host : ℕ) (readonly : Bool)
    (ready : Ready m root guest n pt) (frame : IsFrame host) where
  abbrev pub written : HostMemory
  written = record n {
    entries = write_entry n.entries pt (pt_index guest) (page_entry host readonly);
  }

  page_entry-addr : (addr (page_entry host readonly) ≡ host) × (page_entry host readonly ≢ 0)
  page_entry-addr = ground (arith, addr-frame (host / 4096) 0x4c5, addr-frame (host / 4096) 0x4c7)

  written_other :
      (x j : ℕ) → (x ≢ pt) ⊎ (j ≢ pt_index guest) → used_entry written x j ≡ used_entry n x j
  unfolding used_entry
  written_other x j d = ground arith

  written_here : used_entry written pt (pt_index guest) ≡ ok host
  unfolding used_entry is_unused
  written_here = ground (arith, page_entry-addr)

  written_upper : (x j : ℕ) → 2 ≤ ready.level x → used_entry written x j ≡ used_entry n x j
  written_upper x j h = written_other x j (inl λ e. omega (arith, ap ready.level e, ready.pt_level))

  written_find : find_host_frame written root guest ≡ ok host
  unfolding find_host_frame
  written_find =
      rw
        (
          written_upper root (pml4_index guest) (omega (arith, ready.tree.root_level))
              ∙ ready.root_entry,
          written_upper ready.pdpt (pdpt_index guest) (omega (arith, ready.pdpt_level))
              ∙ ready.pdpt_entry,
          written_upper ready.pdt (pd_index guest) (omega (arith, ready.pdt_level))
              ∙ ready.pdt_entry,
          written_here,
        )
        (ground (arith, from_start_address-frame (host / 4096)))

  written-walk :
      (x : ℕ) (is : List ℕ)
      → ready.level x ≡ length is
      → 1 ≤ length is
      → Indices is
      → digits_of (ready.prefix x) is ≢ digits_of (ready.prefix pt) (pt_index guest ∷ [])
      → walk written x is ≡ walk n x is
  written-walk x [] e p b ne = absurd (omega arith)
  written-walk x (j ∷ []) e p b ne = elim (here_cases x j pt (pt_index guest)) [
    | inl h ↦ absurd (ne (ground (arith, h)))
    | inr d ↦ walk_cong written n x j [] (written_other x j d) (λ u h. unfold walk in refl)
  ]
  written-walk x (j ∷ k ∷ is) e p b ne =
      walk_cong written n x j (k ∷ is) (written_upper x j (omega arith)) λ u h.
        written-walk u (k ∷ is) (child u h).0 (omega arith) b.1
          (λ same. ne (ap (λ q. digits_of q (k ∷ is)) (sym (child u h).1) ∙ same))
    where
      child :
          (u : ℕ)
          → used_entry n x j ≡ ok u
          → (ready.level u ≡ length (k ∷ is)) × (ready.prefix u ≡ ready.prefix x * 512 + j)
      child u h = ground (
        arith,
        used_entry-ok n x j u h,
        ready.tree.child_level x j,
        ready.tree.child_prefix x j,
        b.0,
      )

  pub written-IsTree : IsTree ready.level ready.prefix written root
  written-IsTree = record {
    root_level = ready.tree.root_level;
    root_prefix = ready.tree.root_prefix;
    child_level = λ t i h b u. ground (arith, ready.tree.child_level t i, ready.pt_level);
    child_prefix = λ t i h b u. ground (arith, ready.tree.child_prefix t i, ready.pt_level);
    fresh = ready.tree.fresh;
  }

  -- Searches for another page end as before.
  written-find_ne :
      (g : ℕ)
      → page_of g ≢ page_of guest
      → find_host_frame written root g ≡ find_host_frame n root g
  written-find_ne g ne =
      find-walk written root g
      ∙ written-walk root (indices_of g) ready.tree.root_level (omega arith) (Indices-indices_of g)
          (λ e. ne (
            omega (
              arith,
              e,
              ready.tree.root_prefix,
              ready.pt_prefix,
              page_of-digits g,
              page_of-digits guest,
            )))
      ∙ sym (find-walk n root g)

indices_of-page_of : (g h : ℕ) → page_of g ≡ page_of h → indices_of g ≡ indices_of h
indices_of-page_of g h e = ground (arith, same)
  where
    same :
        (pml4_index g ≡ pml4_index h)
        × (pdpt_index g ≡ pdpt_index h)
        × (pd_index g ≡ pd_index h)
        × (pt_index g ≡ pt_index h)
    same =
        omega
          (arith, e, page_of-digits g, page_of-digits h, Indices-indices_of g, Indices-indices_of h)

pub find-page_of :
    (m : HostMemory) (root g h : ℕ)
    → page_of g ≡ page_of h
    → find_host_frame m root g ≡ find_host_frame m root h
find-page_of m root g h e =
    find-walk m root g ∙ ap (walk m root) (indices_of-page_of g h e) ∙ sym (find-walk m root h)

-- After the write a search for the page gives the frame, and any other one ends as before.
module _ (m n : HostMemory) (root guest pt host : ℕ) (readonly : Bool)
    (ready : Ready m root guest n pt) (frame : IsFrame host) where
  pub find-written :
      (g : ℕ)
      → find_host_frame (written m n root guest pt host readonly ready frame) root g
        ≡ (if page_of g == page_of guest then ok host else find_host_frame m root g)
  find-written g = elim (Bool-cases (page_of g == page_of guest)) [
    | inl e ↦ rw e (
        find-page_of (written m n root guest pt host readonly ready frame) root g guest
          (ground arith)
        ∙ written_find m n root guest pt host readonly ready frame)
    | inr e ↦ rw e (
        written-find_ne m n root guest pt host readonly ready frame g (ground arith) ∙ ready.same g)
  ]

  find_last :
      find_host_frame n root guest ≡ and_then (used_entry n pt (pt_index guest)) from_start_address
  unfolding find_host_frame
  find_last = rw (ready.root_entry, ready.pdpt_entry, ready.pdt_entry)

  -- An entry in use stands for a frame.
  pub find-in_use :
      n.entries pt (pt_index guest) ≢ 0 → (f : ℕ) × (find_host_frame m root guest ≡ ok f)
  unfolding used_entry is_unused
  find-in_use u = (
    addr (n.entries pt (pt_index guest)),
    sym (ready.same guest)
        ∙ find_last
        ∙ ground (
          arith,
          addr-multiple (n.entries pt (pt_index guest)),
          from_start_address-frame (n.entries pt (pt_index guest) / 2 ^ 12 % 2 ^ 40),
        ),
  )

  pub find-unused :
      n.entries pt (pt_index guest) ≡ 0 → find_host_frame m root guest ≡ err invalid_value
  unfolding used_entry is_unused
  find-unused u = sym (ready.same guest) ∙ find_last ∙ ground arith

  module _ (types : TryFromPrimitive mem_type_code) where
    low : ℕ
    low = if readonly then 0x445 else 0x447

    address_set : pte_set_addr types 0 host (page_flags readonly) ≡ ok (host + low)
    unfolding low
    address_set =
        subst (λ a. pte_set_addr types 0 a (page_flags readonly) ≡ ok (a + low)) frame.0
          (pte_set_addr_fresh types (host / 4096) readonly)

    type_set : set_mem_type (host + low) write_back ≡ page_entry host readonly
    unfolding low
    type_set =
        subst (λ a. set_mem_type (a + low) write_back ≡ page_entry a readonly) frame.0
          (set_mem_type_page (host / 4096) readonly (omega arith))

    pub page_written :
        n.entries pt (pt_index guest) ≡ 0
        → map_page types pt (pt_index guest) host readonly n
          ≡ (written m n root guest pt host readonly ready frame, ok tt)
    unfolding map_page
    page_written u = rw (u, map_page) (rw (address_set, map_page) (rw type_set))

    pub page_refused :
        n.entries pt (pt_index guest) ≢ 0
        → map_page types pt (pt_index guest) host readonly n ≡ (n, err duplicate_mapping)
    unfolding map_page
    page_refused u = ground arith
