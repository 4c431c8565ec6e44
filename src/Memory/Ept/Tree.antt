-- ===== src/Memory/Ept/Tree.antt =====
-- The shape of the tables: each table has a level and the indices that lead to it, so no two entries
-- lead to one table; and a search as a walk along a list of indices.
use mythril.Prelude.{
  ℕ, ◌+◌, ◌*◌, ◌/◌, ◌≤◌, ◌<◌, ◌^◌, ◌≡◌, ◌≢◌, refl, arith, List, [], ◌∷◌, inl, inr, ◌∙◌,
}
use mythril.Error.{Result, ok, ◌>>=◌ as and_then, Result-cases}
use mythril.Memory.Address.{pml4_index, pdpt_index, pd_index, pt_index, from_start_address}
use mythril.Memory.Entry.{addr, is_unused}
use mythril.Memory.Ept.{HostMemory, used_entry, find_host_frame}

-- The address of a frame that an entry can hold.
abbrev pub IsFrame : ℕ → Type 0
IsFrame a = (a / 4096 * 4096 ≡ a) × (a < 2 ^ 52)

abbrev pub NotIn : ℕ → List ℕ → Type 0
NotIn a [] = Unit {0}
NotIn a (b ∷ rest) = (a ≢ b) × NotIn a rest

-- The allocator returns frames that are no table yet, each once.
abbrev pub IsSupply : (ℕ → ℕ) → List ℕ → Type 0
IsSupply level [] = Unit {0}
IsSupply level (a ∷ rest) = (level a ≡ 0) × IsFrame a × NotIn a rest × IsSupply level rest

-- `level` is 4 at the root, and 0 at an address that is no table. `prefix` holds the indices that
-- lead to a table, as digits.
pub record IsTree (level prefix : ℕ → ℕ) (m : HostMemory) (root : ℕ) : Type 0 where
  pub root_level : level root ≡ 4
  pub root_prefix : prefix root ≡ 0
  pub child_level :
      (t i : ℕ)
      → 2 ≤ level t
      → i < 512
      → m.entries t i ≢ 0
      → level (addr (m.entries t i)) + 1 ≡ level t
  pub child_prefix :
      (t i : ℕ)
      → 2 ≤ level t
      → i < 512
      → m.entries t i ≢ 0
      → prefix (addr (m.entries t i)) ≡ prefix t * 512 + i
  pub fresh : IsSupply level m.supply

-- A search along indices.
unfoldable pub walk : HostMemory → ℕ → List ℕ → Result ℕ
walk m t [] = from_start_address t
walk m t (i ∷ is) = and_then (used_entry m t i) (λ u. walk m u is)

abbrev pub Indices : List ℕ → Type 0
Indices [] = Unit {0}
Indices (i ∷ is) = (i < 512) × Indices is

abbrev pub indices_of : ℕ → List ℕ
indices_of guest = pml4_index guest ∷ pdpt_index guest ∷ pd_index guest ∷ pt_index guest ∷ []

pub find-walk :
    (m : HostMemory) (root guest : ℕ)
    → find_host_frame m root guest ≡ walk m root (indices_of guest)
unfolding find_host_frame walk
find-walk m root guest = refl

pub used_entry-ok :
    (m : HostMemory) (t i u : ℕ)
    → used_entry m t i ≡ ok u
    → (m.entries t i ≢ 0) × (u ≡ addr (m.entries t i))
unfolding used_entry is_unused
used_entry-ok m t i u h = ground arith

-- Two memories whose first entries agree, and whose walks agree behind it.
pub walk_cong :
    (m n : HostMemory) (t i : ℕ) (is : List ℕ)
    → used_entry m t i ≡ used_entry n t i
    → ((u : ℕ) → used_entry n t i ≡ ok u → walk m u is ≡ walk n u is)
    → walk m t (i ∷ is) ≡ walk n t (i ∷ is)
unfolding walk
walk_cong m n t i is e h = elim (Result-cases (used_entry n t i)) [
  | inl (u, k) ↦ rw (e ∙ k) (rw k (h u k))
  | inr (inl (x, k)) ↦ rw (e ∙ k) (rw k)
  | inr (inr k) ↦ rw (e ∙ k) (rw k)
]
