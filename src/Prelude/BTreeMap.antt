-- ===== src/Prelude/BTreeMap.antt =====
-- `BTreeMap` as the list of its entries in the order of the keys, over the `cmp` of the key's `Ord`.
-- A search compares with the keys that it meets and ends at an equal one.
use mythril.Prelude.{
  ℕ, ◌≡◌, arith, List, [], ◌∷◌, Option, none, some, Bool, true, false, Ordering, compare, ◌==◌,
  if◌then◌else◌,
}

module _ {ℓ κ} {K : Type ℓ} {V : Type κ} (cmp : K → K → Ordering) where
  unfoldable pub get : K → List (K × V) → Option V
  get k [] = none
  get k ((j, v) ∷ m) = elim (cmp k j) [ Ordering.eq ↦ some v | _ ↦ get k m ]

  unfoldable pub contains_key : K → List (K × V) → Bool
  contains_key k [] = false
  contains_key k ((j, v) ∷ m) = elim (cmp k j) [ Ordering.eq ↦ true | _ ↦ contains_key k m ]

  -- At an equal key the old key stays and takes the new value.
  unfoldable pub insert : K → V → List (K × V) → List (K × V)
  insert k v [] = (k, v) ∷ []
  insert k v ((j, w) ∷ m) = elim (cmp k j) [
    | Ordering.lt ↦ (k, v) ∷ (j, w) ∷ m
    | Ordering.eq ↦ (j, v) ∷ m
    | Ordering.gt ↦ (j, w) ∷ insert k v m
  ]

  unfoldable pub remove : K → List (K × V) → List (K × V)
  remove k [] = []
  remove k ((j, w) ∷ m) = elim (cmp k j) [ Ordering.eq ↦ m | _ ↦ (j, w) ∷ remove k m ]

-- At keys that are numbers, in order or not.
pub get-insert {ℓ} :
    {V : Type ℓ} (j k : ℕ) (v : V) (m : List (ℕ × V))
    → get compare j (insert compare k v m) ≡ (if j == k then some v else get compare j m)
unfolding get insert
get-insert j k v [] = ground arith
get-insert j k v ((i, w) ∷ m) = ground (arith, get-insert j k v m)
