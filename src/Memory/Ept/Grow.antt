-- ===== src/Memory/Ept/Grow.antt =====
-- A table is added at an unused entry of an upper level: the searches and the shape after it.
use mythril.Prelude.{
  ℕ, suc, ◌+◌, ◌-◌, ◌*◌, ◌/◌, ◌≤◌, ◌<◌, ◌≡◌, ◌≢◌, refl, arith, List, [], ◌∷◌, length, ◌==◌,
  if◌then◌else◌, inl, inr, ◌⊎◌, subst, ap, ◌∙◌,
}
use native.Mathlib.Decide.{ℕ_discrete}
use mythril.Error.{ok}
use mythril.Memory.Entry.{addr, is_unused, set_addr, default_flags}
use mythril.Memory.Entry.Laws.{addr-frame, set_addr-table}
use mythril.Memory.Ept.{HostMemory, used_entry, write_entry, zero_table}
use mythril.Memory.Ept.Tree.{
  IsFrame, NotIn, IsSupply, IsTree, walk, Indices, walk_cong, used_entry-ok,
}

set_addr-frame :
    (a : ℕ) → IsFrame a → (addr (set_addr a default_flags) ≡ a) × (set_addr a default_flags ≢ 0)
set_addr-frame a f = (
  ground (arith, set_addr-table (a / 4096), addr-frame (a / 4096) 0x407),
  ground (arith, set_addr-table (a / 4096)),
)

pub here_cases : (x j t i : ℕ) → ((x ≡ t) × (j ≡ i)) ⊎ ((x ≢ t) ⊎ (j ≢ i))
here_cases x j t i = elim (ℕ_discrete x t) [
  | yes p ↦ elim (ℕ_discrete j i) [ yes q ↦ inl (p, q) | no q ↦ inr (inr q) ]
  | no p ↦ inr (inl p)
]

module _ (level prefix : ℕ → ℕ) (m : HostMemory) (root t i new : ℕ) (rest : List ℕ)
    (tree : IsTree level prefix m root) (upper : 2 ≤ level t) (small : i < 512)
    (unused : m.entries t i ≡ 0) (next : m.supply ≡ new ∷ rest) where
  abbrev pub grown : HostMemory
  grown = record {
    entries = write_entry (zero_table m.entries new) t i (set_addr new default_flags);
    supply = rest;
  }

  abbrev pub level' : ℕ → ℕ
  level' x = if x == new then level t - 1 else level x

  abbrev pub prefix' : ℕ → ℕ
  prefix' x = if x == new then prefix t * 512 + i else prefix x

  new_fresh : IsSupply level (new ∷ rest)
  new_fresh = subst (IsSupply level) next tree.fresh

  pub new-ne : (x : ℕ) → level x ≢ 0 → x ≢ new
  new-ne x h e = h (ap level e ∙ new_fresh.0)

  pub grown_at : grown.entries t i ≡ set_addr new default_flags
  grown_at = ground arith

  grown_new : (j : ℕ) → grown.entries new j ≡ 0
  grown_new j = ground (arith, new-ne t)

  grown_other : (x j : ℕ) → level x ≢ 0 → (x ≢ t) ⊎ (j ≢ i) → grown.entries x j ≡ m.entries x j
  grown_other x j h d = ground (arith, new-ne x h)

  IsSupply-level' : (l : List ℕ) → NotIn new l → IsSupply level l → IsSupply level' l
  IsSupply-level' [] n s = tt
  IsSupply-level' (a ∷ l) n s = (ground arith, s.1, s.2, IsSupply-level' l n.1 s.3)

  pub new_entry : (addr (set_addr new default_flags) ≡ new) × (set_addr new default_flags ≢ 0)
  new_entry = set_addr-frame new new_fresh.1

  grown_child :
      (x j : ℕ)
      → 2 ≤ level' x
      → j < 512
      → grown.entries x j ≢ 0
      → (level' (addr (grown.entries x j)) + 1 ≡ level' x)
        × (prefix' (addr (grown.entries x j)) ≡ prefix' x * 512 + j)
  grown_child x j h b u = ground (
    arith,
    grown_new j,
    new-ne t,
    new-ne x,
    new_entry,
    new_fresh.0,
    grown_other x j,
    tree.child_level x j,
    tree.child_prefix x j,
    new-ne (addr (m.entries x j)),
  )

  pub grown-IsTree : IsTree level' prefix' grown root
  grown-IsTree = record {
    root_level = ground (arith, new-ne root, tree.root_level);
    root_prefix = ground (arith, new-ne root, tree.root_level, tree.root_prefix);
    child_level = λ x j h b u. (grown_child x j h b u).0;
    child_prefix = λ x j h b u. (grown_child x j h b u).1;
    fresh = IsSupply-level' rest new_fresh.2 new_fresh.3;
  }

  pub grown_used :
      (x j : ℕ) → level x ≢ 0 → (x ≢ t) ⊎ (j ≢ i) → used_entry grown x j ≡ used_entry m x j
  unfolding used_entry
  grown_used x j h d = rw (grown_other x j h d)

  -- At the entry itself both searches fail: before at the unused entry, after in the empty table.
  grown-walk_here : (k : ℕ) (is : List ℕ) → walk grown t (i ∷ k ∷ is) ≡ walk m t (i ∷ k ∷ is)
  unfolding walk used_entry is_unused
  grown-walk_here k is = ground (arith, new_entry, grown_new k, grown_at)

  pub grown-walk :
      (x : ℕ) (is : List ℕ)
      → level x ≡ length is
      → 1 ≤ length is
      → Indices is
      → walk grown x is ≡ walk m x is
  grown-walk x [] e p b = absurd (omega arith)
  grown-walk x (j ∷ []) e p b =
      walk_cong grown m x j [] (grown_used x j (omega arith) (inl (λ d. level-ne d)))
        λ u h. unfold walk in refl
    where
      level-ne : x ≡ t → ⊥
      level-ne d = ground (arith, upper)
  grown-walk x (j ∷ k ∷ is) e p b = elim (here_cases x j t i) [
    | inl h ↦ rw (h.0, h.1) (grown-walk_here k is)
    | inr d ↦
        walk_cong grown m x j (k ∷ is) (grown_used x j (omega arith) d)
          λ u h. grown-walk u (k ∷ is) (child u h) (omega arith) b.1
  ]
    where
      child : (u : ℕ) → used_entry m x j ≡ ok u → level u ≡ suc (length is)
      child u h = ground (arith, used_entry-ok m x j u h, tree.child_level x j, b.0)
