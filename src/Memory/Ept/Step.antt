-- ===== src/Memory/Ept/Step.antt =====
-- One level of `map_guest_memory`: what `next_table` returns, and what it leaves as it was.
use mythril.Prelude.{
  ℕ, ◌+◌, ◌*◌, ◌≤◌, ◌<◌, ◌≡◌, ◌≢◌, refl, arith, List, [], ◌∷◌, length, inl, inr, ◌⊎◌, ap,
}
use native.Mathlib.Decide.{ℕ_discrete}
use mythril.Error.{ok, panic}
use mythril.Memory.Entry.{addr, is_unused}
use mythril.Memory.Ept.{HostMemory, used_entry, next_table}
use mythril.Memory.Ept.Tree.{IsTree, walk, Indices}
use mythril.Memory.Ept.Grow.{
  grown, level', prefix', grown-IsTree, grown-walk, grown_used, grown_at, new_entry, new-ne,
}

pub record Stepped (level prefix : ℕ → ℕ) (m : HostMemory) (root t i : ℕ) (m' : HostMemory) (t' : ℕ)
    : Type 0 where
  pub level' : ℕ → ℕ
  pub prefix' : ℕ → ℕ
  pub tree : IsTree level' prefix' m' root
  pub kept_level : (x : ℕ) → level x ≢ 0 → level' x ≡ level x
  pub kept_prefix : (x : ℕ) → level x ≢ 0 → prefix' x ≡ prefix x
  pub below_level : level' t' + 1 ≡ level t
  pub below_prefix : prefix' t' ≡ prefix t * 512 + i
  pub used : used_entry m' t i ≡ ok t'
  pub others : (x j : ℕ) → level x ≢ 0 → (x ≢ t) ⊎ (j ≢ i) → used_entry m' x j ≡ used_entry m x j
  pub walks :
      (x : ℕ) (is : List ℕ)
      → level x ≡ length is
      → 1 ≤ length is
      → Indices is
      → walk m' x is ≡ walk m x is
  pub supply_left : length m.supply ≤ length m'.supply + 1

module _ (level prefix : ℕ → ℕ) (m : HostMemory) (root t i : ℕ) (tree : IsTree level prefix m root)
    (upper : 2 ≤ level t) (small : i < 512) where
  Stepped-same : m.entries t i ≢ 0 → Stepped level prefix m root t i m (addr (m.entries t i))
  unfolding used_entry is_unused
  Stepped-same u = record {
    level' = level;
    prefix' = prefix;
    tree = tree;
    kept_level = λ x h. refl;
    kept_prefix = λ x h. refl;
    below_level = tree.child_level t i upper small u;
    below_prefix = tree.child_prefix t i upper small u;
    used = ground arith;
    others = λ x j h d. refl;
    walks = λ x is e p b. refl;
    supply_left = omega arith;
  }

  module _ (new : ℕ) (rest : List ℕ) (unused : m.entries t i ≡ 0)
      (next : m.supply ≡ new ∷ rest) where
    abbrev after : HostMemory
    after = grown level prefix m root t i new rest tree upper small unused next

    new-ne_lem : (x : ℕ) → level x ≢ 0 → x ≢ new
    new-ne_lem = new-ne level prefix m root t i new rest tree upper small unused next

    grown_reads : used_entry after t i ≡ ok new
    unfolding used_entry is_unused
    grown_reads = ground (
      arith,
      grown_at level prefix m root t i new rest tree upper small unused next,
      new_entry level prefix m root t i new rest tree upper small unused next,
    )

    Stepped-grown : Stepped level prefix m root t i after new
    Stepped-grown = record {
      level' = level' level prefix m root t i new rest tree upper small unused next;
      prefix' = prefix' level prefix m root t i new rest tree upper small unused next;
      tree = grown-IsTree level prefix m root t i new rest tree upper small unused next;
      kept_level = λ x h. ground (arith, new-ne_lem x);
      kept_prefix = λ x h. ground (arith, new-ne_lem x);
      below_level = ground arith;
      below_prefix = ground arith;
      used = grown_reads;
      others = grown_used level prefix m root t i new rest tree upper small unused next;
      walks = grown-walk level prefix m root t i new rest tree upper small unused next;
      supply_left = ground (arith, ap length next);
    }

  -- `next_table` returns the table below the entry, or panics where the heap is used up.
  pub next_table_cases :
      ((m' : HostMemory) × (t' : ℕ) × (next_table t i m ≡ (m', ok t'))
        × Stepped level prefix m root t i m' t')
      ⊎ ((next_table t i m ≡ (m, panic)) × (m.supply ≡ []))
  next_table_cases = elim (ℕ_discrete (m.entries t i) 0) [
    | no u ↦ inl (m, addr (m.entries t i), unfold next_table in ground arith, Stepped-same u)
    | yes u ↦ go m.supply refl u
  ]
    where
      go :
          (l : List ℕ)
          → m.supply ≡ l
          → m.entries t i ≡ 0
          → ((m' : HostMemory) × (t' : ℕ) × (next_table t i m ≡ (m', ok t'))
              × Stepped level prefix m root t i m' t')
            ⊎ ((next_table t i m ≡ (m, panic)) × (m.supply ≡ []))
      go [] e u = inr (unfold next_table is_unused in ground arith, e)
      go (new ∷ rest) e u = inl (
        after new rest u e,
        new,
        unfold next_table is_unused in
            ground (arith, new_entry level prefix m root t i new rest tree upper small u e),
        Stepped-grown new rest u e,
      )
