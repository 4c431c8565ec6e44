-- ===== src/Prelude/Primitive.antt =====
-- `TryFromPrimitive` of the num_enum crate, which derives the conversion from a number to an enum:
-- it answers the variant whose discriminant is the number, and fails where there is none.
use mythril.Prelude.{ℕ, ◌≡◌, Option, none, some, List, [], ◌∷◌, arith, ◌==◌, true, false}

pub record TryFromPrimitive {A : Type 0} (code : A → ℕ) : Type 0 where
  pub try_from : ℕ → Option A
  pub try_from-code : (a : A) → try_from (code a) ≡ some a
  pub code-try_from : (n : ℕ) (a : A) → try_from n ≡ some a → code a ≡ n

-- A search through the variants meets both laws, so the assumption can be met.
abbrev pub search_code : {A : Type 0} → (A → ℕ) → List A → ℕ → Option A
search_code code [] n = none
search_code code (a ∷ rest) n = elim (code a == n) [
  | true ↦ some a
  | false ↦ search_code code rest n
]

pub code-search_code :
    {A : Type 0} (code : A → ℕ) (l : List A) (n : ℕ) (a : A)
    → search_code code l n ≡ some a
    → code a ≡ n
code-search_code code [] n a h = cc
code-search_code code (b ∷ l) n a h = ground (arith, code-search_code code l n a)
