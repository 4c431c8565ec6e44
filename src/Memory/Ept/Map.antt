-- ===== src/Memory/Ept/Map.antt =====
-- `map_guest_memory` against the map from pages to frames that `find_host_frame` reads.
use mythril.Prelude.{
  ℕ, ◌+◌, ◌*◌, ◌/◌, ◌%◌, ◌<◌, ◌^◌, ◌≡◌, refl, sym, arith, length, inl, inr, ◌⊎◌, ap, ◌∙◌,
}
use mythril.Error.{Result, ok, panic}
use mythril.Memory.Address.{
  pml4_index, pdpt_index, pd_index, pt_index, pml4_index-digit, pdpt_index-digit, pd_index-digit,
  pt_index-digit,
}
use mythril.Memory.Ept.{HostMemory, used_entry, next_table, page_table, find_host_frame, continue}
use mythril.Memory.Ept.Tree.{IsTree, Indices, indices_of, find-walk}
use mythril.Memory.Ept.Step.{Stepped, next_table_cases}

-- The page of a guest address: its 36 bits above the offset.
abbrev pub page_of : ℕ → ℕ
page_of guest = guest / 4096 % 2 ^ 36

pub Indices-indices_of : (g : ℕ) → Indices (indices_of g)
Indices-indices_of g =
    omega (arith, pml4_index-digit g, pdpt_index-digit g, pd_index-digit g, pt_index-digit g)

pub page_of-digits :
    (g : ℕ)
    → page_of g ≡ ((pml4_index g * 512 + pdpt_index g) * 512 + pd_index g) * 512 + pt_index g
page_of-digits g =
    omega (arith, pml4_index-digit g, pdpt_index-digit g, pd_index-digit g, pt_index-digit g)

-- The three upper levels are in place in `n`, and searches end as they did in `m`.
pub record Ready (m : HostMemory) (root guest : ℕ) (n : HostMemory) (pt : ℕ) : Type 0 where
  pub level : ℕ → ℕ
  pub prefix : ℕ → ℕ
  pub pdpt : ℕ
  pub pdt : ℕ
  pub tree : IsTree level prefix n root
  pub pdpt_level : level pdpt ≡ 3
  pub pdt_level : level pdt ≡ 2
  pub pt_level : level pt ≡ 1
  pub pt_prefix : prefix pt ≡ (pml4_index guest * 512 + pdpt_index guest) * 512 + pd_index guest
  pub root_entry : used_entry n root (pml4_index guest) ≡ ok pdpt
  pub pdpt_entry : used_entry n pdpt (pdpt_index guest) ≡ ok pdt
  pub pdt_entry : used_entry n pdt (pd_index guest) ≡ ok pt
  pub same : (g : ℕ) → find_host_frame n root g ≡ find_host_frame m root g

module _ (m : HostMemory) (root guest : ℕ) where
  -- What the three levels come to.
  abbrev pub Comes : HostMemory × Result ℕ → Type 0
  Comes r =
      ((n : HostMemory) × (pt : ℕ) × (r ≡ (n, ok pt)) × Ready m root guest n pt)
      ⊎ ((n : HostMemory) × (r ≡ (n, panic))
          × ((g : ℕ) → find_host_frame n root g ≡ find_host_frame m root g)
          × (length m.supply < 3))

  same_find :
      {level prefix : ℕ → ℕ} (a b : HostMemory) (t i u : ℕ)
      → level root ≡ 4
      → Stepped level prefix a root t i b u
      → (g : ℕ) → find_host_frame b root g ≡ find_host_frame a root g
  same_find a b t i u e s g =
      find-walk b root g
      ∙ s.walks root (indices_of g) e (omega arith) (Indices-indices_of g)
      ∙ sym (find-walk a root g)

  module _ (level prefix : ℕ → ℕ) (m₁ m₂ m₃ : HostMemory) (pdpt pdt pt : ℕ) (e : level root ≡ 4)
      (z : prefix root ≡ 0) (s₁ : Stepped level prefix m root root (pml4_index guest) m₁ pdpt)
      (s₂ : Stepped s₁.level' s₁.prefix' m₁ root pdpt (pdpt_index guest) m₂ pdt)
      (s₃ : Stepped s₂.level' s₂.prefix' m₂ root pdt (pd_index guest) m₃ pt) where
    root_entry : used_entry m₃ root (pml4_index guest) ≡ ok pdpt
    root_entry =
        s₃.others root (pml4_index guest) (omega (arith, s₂.tree.root_level)) (
          inl λ d. omega (
            arith,
            ap s₂.level' d,
            s₂.below_level,
            s₁.below_level,
            s₂.kept_level pdpt (omega (arith, s₁.below_level)),
            s₂.tree.root_level,
          ))
        ∙ s₂.others root (pml4_index guest) (omega (arith, s₁.tree.root_level))
            (inl λ d. omega (arith, ap s₁.level' d, s₁.below_level, s₁.tree.root_level))
        ∙ s₁.used

    pdpt_entry : used_entry m₃ pdpt (pdpt_index guest) ≡ ok pdt
    pdpt_entry =
        s₃.others pdpt (pdpt_index guest)
          (omega (arith, s₁.below_level, s₂.kept_level pdpt (omega (arith, s₁.below_level))))
          (inl λ d. omega (
            arith,
            ap s₂.level' d,
            s₂.below_level,
            s₂.kept_level pdpt (omega (arith, s₁.below_level)),
            s₁.below_level,
          ))
        ∙ s₂.used

    ready : Ready m root guest m₃ pt
    ready = record {
      level = s₃.level';
      prefix = s₃.prefix';
      pdpt = pdpt;
      pdt = pdt;
      pdpt_level = omega (arith, e, s₁.below_level, s₂.kept_level pdpt, s₃.kept_level pdpt);
      pdt_level = omega (arith, e, s₁.below_level, s₂.below_level, s₃.kept_level pdt);
      tree = s₃.tree;
      pt_level = omega (arith, e, s₁.below_level, s₂.below_level, s₃.below_level);
      pt_prefix = omega (arith, z, s₁.below_prefix, s₂.below_prefix, s₃.below_prefix);
      root_entry = root_entry;
      pdpt_entry = pdpt_entry;
      pdt_entry = s₃.used;
      same = λ g.
          same_find m₂ m₃ pdt (pd_index guest) pt s₂.tree.root_level s₃ g
          ∙ same_find m₁ m₂ pdpt (pdpt_index guest) pdt s₁.tree.root_level s₂ g
          ∙ same_find m m₁ root (pml4_index guest) pdpt e s₁ g;
    }

  -- The levels above the page are put in place, or the heap is used up on the way.
  pub page_table_cases :
      {level prefix : ℕ → ℕ} → IsTree level prefix m root → Comes (page_table root guest m)
  unfolding page_table
  page_table_cases {level} {prefix} tree =
      elim (next_table_cases level prefix m root root (pml4_index guest) tree
        (omega (arith, tree.root_level)) (Indices-indices_of guest).0) [
          | inr (e, no_room) ↦
              rw (e, page_table) (inr (m, refl, λ g. refl, omega (arith, ap length no_room)))
          | inl (m₁, pdpt, e₁, s₁) ↦ rw (e₁, page_table) (second tree s₁)
        ]
    where
      third :
          {level prefix : ℕ → ℕ} {m₁ m₂ : HostMemory} {pdpt pdt : ℕ}
          → IsTree level prefix m root
          → (s₁ : Stepped level prefix m root root (pml4_index guest) m₁ pdpt)
          → Stepped s₁.level' s₁.prefix' m₁ root pdpt (pdpt_index guest) m₂ pdt
          → Comes (next_table pdt (pd_index guest) m₂)
      third {level} {prefix} {m₁} {m₂} {pdpt} {pdt} tree s₁ s₂ =
          elim (next_table_cases s₂.level' s₂.prefix' m₂ root pdt (pd_index guest) s₂.tree
            (omega (arith, tree.root_level, s₁.below_level, s₂.below_level))
            (Indices-indices_of guest).1.1.0) [
              | inr (e, no_room) ↦ rw e (
                  inr (
                    m₂,
                    refl,
                    λ g.
                        same_find m₁ m₂ pdpt (pdpt_index guest) pdt s₁.tree.root_level s₂ g
                        ∙ same_find m m₁ root (pml4_index guest) pdpt tree.root_level s₁ g,
                    omega (arith, ap length no_room, s₁.supply_left, s₂.supply_left),
                  ))
              | inl (m₃, pt, e₃, s₃) ↦ rw e₃ (
                  inl (
                    m₃,
                    pt,
                    refl,
                    ready level prefix m₁ m₂ m₃ pdpt pdt pt tree.root_level tree.root_prefix s₁ s₂
                        s₃,
                  ))
            ]

      second :
          {level prefix : ℕ → ℕ} {m₁ : HostMemory} {pdpt : ℕ}
          → IsTree level prefix m root
          → (s₁ : Stepped level prefix m root root (pml4_index guest) m₁ pdpt)
          → Comes (
              continue
                (λ pdt. next_table pdt (pd_index guest))
                (next_table pdpt (pdpt_index guest) m₁))
      second {level} {prefix} {m₁} {pdpt} tree s₁ =
          elim (next_table_cases s₁.level' s₁.prefix' m₁ root pdpt (pdpt_index guest) s₁.tree
            (omega (arith, tree.root_level, s₁.below_level)) (Indices-indices_of guest).1.0) [
              | inr (e, no_room) ↦ rw e (
                  inr (
                    m₁,
                    refl,
                    same_find m m₁ root (pml4_index guest) pdpt tree.root_level s₁,
                    omega (arith, ap length no_room, s₁.supply_left),
                  ))
              | inl (m₂, pdt, e₂, s₂) ↦ rw e₂ (third tree s₁ s₂)
            ]
