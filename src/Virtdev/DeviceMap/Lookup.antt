-- ===== src/Virtdev/DeviceMap/Lookup.antt =====
-- One map of regions: its order, and what a search finds in it.
use mythril.Prelude.{
  ℕ, ◌+◌, ◌≤◌, ◌<◌, ◌≡◌, refl, ◌↔◌, ◌⊎◌, inl, inr, arith, true, false, none, some, [], ◌∷◌, max,
  if◌then◌else◌, within,
}
use mythril.Prelude.BTreeMap
use mythril.Virtdev.DeviceMap.{RangeInclusive, RegionMap, point, port_cmp, mem_cmp}

abbrev pub Holds : RangeInclusive → ℕ → Type 0
Holds r a = (r.start ≤ a) × (a ≤ r.end)

-- Both maps compare in the same way.
pub port-eq-mem_cmp : (a b : RangeInclusive) → mem_cmp a b ≡ port_cmp a b
unfolding port_cmp mem_cmp
port-eq-mem_cmp a b = refl

-- Two regions meet, or one lies below the other.
meets_cases :
    (r s : RangeInclusive)
    → ((r.start ≤ s.end) × (s.start ≤ r.end)) ⊎ ((r.end < s.start) ⊎ (s.end < r.start))
meets_cases r s = ground arith

module _ {D : Type 0} where
  -- The regions hold a number at least, rise, and do not overlap; the first starts at `lo` or later.
  abbrev pub OrderedFrom : ℕ → RegionMap D → Type 0
  OrderedFrom lo [] = Unit {0}
  OrderedFrom lo ((r, d) ∷ m) = (lo ≤ r.start) × (r.start ≤ r.end) × OrderedFrom (r.end + 1) m

  -- `d` is registered for a region that holds `a`.
  abbrev pub Serves : RegionMap D → ℕ → D → Type 0
  Serves [] a d = ⊥
  Serves ((r, e) ∷ m) a d = (Holds r a × (e ≡ d)) ⊎ Serves m a d

  pub OrderedFrom-mono :
      (lo lo' : ℕ) (m : RegionMap D) → lo' ≤ lo → OrderedFrom lo m → OrderedFrom lo' m
  OrderedFrom-mono lo lo' [] h o = tt
  OrderedFrom-mono lo lo' ((r, d) ∷ m) h o = (omega arith, o.1, o.2)

  Serves-above :
      (lo : ℕ) (m : RegionMap D) (a : ℕ) (d : D) → OrderedFrom lo m → Serves m a d → lo ≤ a
  Serves-above lo [] a d o s = elim s [ ]
  Serves-above lo ((r, e) ∷ m) a d o (inl h) = omega arith
  Serves-above lo ((r, e) ∷ m) a d o (inr s) = omega (arith, Serves-above (r.end + 1) m a d o.2 s)

  -- A search finds the device of the region that holds the number.
  pub get_iff-Serves :
      (lo : ℕ) (m : RegionMap D) (a : ℕ) (d : D)
      → OrderedFrom lo m
      → (BTreeMap.get port_cmp (point a) m ≡ some d) ↔ Serves m a d
  unfolding BTreeMap.get port_cmp
  get_iff-Serves lo [] a d o = (λ h. cc, λ s. elim s [ ])
  get_iff-Serves lo ((r, e) ∷ m) a d o = (
    λ h. ground (arith, (get_iff-Serves (r.end + 1) m a d o.2).0),
    λ s.
        ground
          (arith, Serves-above (r.end + 1) m a d o.2, (get_iff-Serves (r.end + 1) m a d o.2).1),
  )

  -- Where no region overlaps the new one, it goes to its place in the order.
  pub insert-OrderedFrom :
      (lo : ℕ) (m : RegionMap D) (r : RangeInclusive) (d : D)
      → OrderedFrom lo m
      → lo ≤ r.start
      → r.start ≤ r.end
      → BTreeMap.contains_key port_cmp r m ≡ false
      → OrderedFrom lo (BTreeMap.insert port_cmp r d m)
  unfolding BTreeMap.insert BTreeMap.contains_key port_cmp
  insert-OrderedFrom lo [] r d o p q h = (p, q, tt)
  insert-OrderedFrom lo ((s, e) ∷ m) r d o p q h =
      ground (arith, insert-OrderedFrom (s.end + 1) m r d o.2)

  pub get-insert :
      (lo : ℕ) (m : RegionMap D) (r : RangeInclusive) (d : D) (a : ℕ)
      → OrderedFrom lo m
      → r.start ≤ r.end
      → BTreeMap.contains_key port_cmp r m ≡ false
      → BTreeMap.get port_cmp (point a) (BTreeMap.insert port_cmp r d m)
        ≡ (if within r.start r.end a then some d else BTreeMap.get port_cmp (point a) m)
  unfolding BTreeMap.get BTreeMap.insert BTreeMap.contains_key port_cmp
  get-insert lo [] r d a o q h = ground arith
  get-insert lo ((s, e) ∷ m) r d a o q h = ground (arith, get-insert (s.end + 1) m r d a o.2)

  -- A region is in conflict where some number of it is served already.
  pub contains_key-false :
      (lo : ℕ) (m : RegionMap D) (r : RangeInclusive) (a : ℕ)
      → OrderedFrom lo m
      → BTreeMap.contains_key port_cmp r m ≡ false
      → Holds r a
      → BTreeMap.get port_cmp (point a) m ≡ none
  unfolding BTreeMap.get BTreeMap.contains_key port_cmp
  contains_key-false lo [] r a o h p = refl
  contains_key-false lo ((s, e) ∷ m) r a o h p =
      ground (arith, contains_key-false (s.end + 1) m r a o.2)

  pub contains_key-true :
      (lo : ℕ) (m : RegionMap D) (r : RangeInclusive)
      → OrderedFrom lo m
      → r.start ≤ r.end
      → BTreeMap.contains_key port_cmp r m ≡ true
      → (a : ℕ) × (d : D) × Holds r a × (BTreeMap.get port_cmp (point a) m ≡ some d)
  unfolding BTreeMap.get BTreeMap.contains_key port_cmp
  contains_key-true lo [] r o q h = cc
  contains_key-true lo ((s, e) ∷ m) r o q h = elim (meets_cases r s) [
    | inl c ↦ (max r.start s.start, e, omega arith, ground arith)
    | inr c ↦
        let rest = contains_key-true (s.end + 1) m r o.2 q (ground arith) in
        (
          rest.0,
          rest.1,
          rest.2,
          ground (
            arith,
            rest.3,
            Serves-above (s.end + 1) m rest.0 rest.1 o.2,
            (get_iff-Serves (s.end + 1) m rest.0 rest.1 o.2).0,
          ),
        )
  ]
