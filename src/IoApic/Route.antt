-- ===== src/IoApic/Route.antt =====
-- `map_gsi_vector`: which entry of which I/O APIC a global interrupt is routed through.
use mythril.Prelude.{
  ℕ, zero, suc, ◌+◌, ◌-◌, ◌≤◌, ◌<◌, ◌≡◌, ◌≢◌, refl, ◌∙◌, ap, arith, true, false, if◌then◌else◌,
  ◌==◌, ◌⊎◌, inl, inr, Bool-cases, ==_iff, List, [], ◌∷◌, none, some, get_elem?, set,
}
use mythril.Prelude.Word.{u8}
use mythril.Error.{ok, err, not_found}
use mythril.IoApic.{
  IoApic, in_ivec_range, max_redirection_entry, ioapic_for_gsi, map_gsi_vector, write_at,
  read_ioredtbl,
}
use mythril.IoApic.RedTbl
use mythril.IoApic.RedTbl.{
  IoRedTblEntry, fixed, physical, active_high, edge, idle, delivery_status_code, validate,
}
use mythril.IoApic.Table.{write_ioredtbl_lem}

-- The entry that a global interrupt is routed by.
abbrev pub routed : ℕ → ℕ → IoRedTblEntry
routed vector apic_id = record {
  vector = vector;
  delivery_mode = fixed;
  destination_mode = physical;
  delivery_status = idle;
  pin_polarity = active_high;
  remote_irr = false;
  trigger_mode = edge;
  interrupt_mask = false;
  destination = apic_id;
}

-- No I/O APIC of the list has the interrupt in its range.
abbrev pub NoneInRange : List IoApic → ℕ → Type 0
NoneInRange [] gsi = Unit {0}
NoneInRange (a ∷ rest) gsi = (in_ivec_range a gsi ≡ false) × NoneInRange rest gsi

-- The search ends at the I/O APIC that has the interrupt in its range.
search_cases :
    (l : List IoApic) (from gsi : ℕ)
    → ((k : ℕ) × (a : IoApic) × (get_elem? l k ≡ some a)
        × (in_ivec_range a gsi ≡ true)
        × (ioapic_for_gsi l from gsi ≡ some (from + k, u8 (gsi - a.gsi_base))))
      ⊎ (NoneInRange l gsi × (ioapic_for_gsi l from gsi ≡ none))
unfolding ioapic_for_gsi
search_cases [] from gsi = inr (tt, refl)
search_cases (a ∷ rest) from gsi = elim (Bool-cases (in_ivec_range a gsi)) [
  | inl e ↦ inl (0, a, refl, e, rw (e, ioapic_for_gsi) (ground arith))
  | inr e ↦ elim (search_cases rest (suc from) gsi) [
    | inl (k, b, at, inside, found) ↦
        inl (suc k, b, at, inside, rw (e, ioapic_for_gsi) (found ∙ ground arith))
    | inr (outside, found) ↦ inr ((e, outside), rw (e, ioapic_for_gsi) found)
  ]
]

get_elem?-set_self :
    (l : List IoApic) (k : ℕ) (a b : IoApic)
    → get_elem? l k ≡ some a
    → get_elem? (set l k b) k ≡ some b
get_elem?-set_self [] k a b h = cc
get_elem?-set_self (x ∷ l) zero a b h = refl
get_elem?-set_self (x ∷ l) (suc k) a b h = get_elem?-set_self l k a b h

get_elem?-set_ne :
    (l : List IoApic) (k j : ℕ) (b : IoApic) → j ≢ k → get_elem? (set l k b) j ≡ get_elem? l j
get_elem?-set_ne [] k j b h = refl
get_elem?-set_ne (x ∷ l) zero zero b h = absurd (h refl)
get_elem?-set_ne (x ∷ l) zero (suc j) b h = refl
get_elem?-set_ne (x ∷ l) (suc k) zero b h = refl
get_elem?-set_ne (x ∷ l) (suc k) (suc j) b h = get_elem?-set_ne l k j b (λ e. h (ap suc e))

get_elem?-set :
    (l : List IoApic) (k j : ℕ) (a b : IoApic)
    → get_elem? l k ≡ some a
    → get_elem? (set l k b) j ≡ (if j == k then some b else get_elem? l j)
get_elem?-set l k j a b h = elim (Bool-cases (j == k)) [
  | inl same ↦ rw (same, (==_iff j k).0 same) (get_elem?-set_self l k a b h)
  | inr apart ↦ rw apart (get_elem?-set_ne l k j b (ground arith))
]

new-routed :
    (vector apic_id : ℕ)
    → apic_id ≤ 15
    → (RedTbl.new vector fixed physical active_high edge false apic_id ≡ ok (routed vector apic_id))
      × (validate (routed vector apic_id) ≡ ok tt)
unfolding RedTbl.new RedTbl.validate
new-routed vector apic_id h = (ground arith, ground arith)

in_range :
    (a : IoApic) (gsi : ℕ)
    → in_ivec_range a gsi ≡ true
    → (a.gsi_base ≤ gsi) × (gsi < a.gsi_base + max_redirection_entry a)
unfolding in_ivec_range
in_range a gsi h = ground arith

-- For a vector of eight bits, a core up to 15, and I/O APICs that give 24 or less as their maximum entry: a
-- global interrupt in the range of an I/O APIC is routed, so that the entry at its distance from the
-- base reads as fixed delivery of the vector to the core, and every other entry and every other I/O
-- APIC are as before. Where no range has the interrupt, it is not found and nothing changes.
pub map_gsi_vector_lem :
    (ioapics : List IoApic) (gsi vector apic_id : ℕ)
    → vector < 256
    → apic_id ≤ 15
    → ((k : ℕ) (a : IoApic) → get_elem? ioapics k ≡ some a → max_redirection_entry a ≤ 24)
    → ((k : ℕ) × (a a' : IoApic) × (ioapics' : List IoApic) × (in_ivec_range a gsi ≡ true)
        × (map_gsi_vector ioapics gsi vector apic_id ≡ (ioapics', ok tt))
        × (get_elem? ioapics k ≡ some a)
        × ((other : ℕ)
            → read_ioredtbl a' other ≡ (
                if other == gsi - a.gsi_base
                then ok (routed vector apic_id)
                else read_ioredtbl a other))
        × ((j : ℕ) → get_elem? ioapics' j ≡ (if j == k then some a' else get_elem? ioapics j)))
      ⊎ (NoneInRange ioapics gsi
          × (map_gsi_vector ioapics gsi vector apic_id ≡ (ioapics, err not_found)))
unfolding map_gsi_vector
map_gsi_vector_lem ioapics gsi vector apic_id hv hd sizes = elim (search_cases ioapics 0 gsi) [
  | inr (outside, e) ↦ inr (outside, rw (e, map_gsi_vector))
  | inl (k, a, at, inside, e) ↦
      inl (write k a at inside (e ∙ ground (arith, in_range a gsi inside, sizes k a at)))
]
  where
    write :
        (k : ℕ) (a : IoApic)
        → get_elem? ioapics k ≡ some a
        → in_ivec_range a gsi ≡ true
        → ioapic_for_gsi ioapics 0 gsi ≡ some (k, gsi - a.gsi_base)
        → (k : ℕ) × (a a' : IoApic) × (ioapics' : List IoApic) × (in_ivec_range a gsi ≡ true)
          × (map_gsi_vector ioapics gsi vector apic_id ≡ (ioapics', ok tt))
          × (get_elem? ioapics k ≡ some a)
          × ((other : ℕ)
              → read_ioredtbl a' other ≡ (
                  if other == gsi - a.gsi_base
                  then ok (routed vector apic_id)
                  else read_ioredtbl a other))
          × ((j : ℕ) → get_elem? ioapics' j ≡ (if j == k then some a' else get_elem? ioapics j))
    write k a at inside e =
        let made = new-routed vector apic_id hd in
        elim (write_ioredtbl_lem a (gsi - a.gsi_base) (routed vector apic_id) hv (omega arith)
          made.1) [
            | inr (refused, _) ↦ absurd (
                refused (
                  omega (arith, in_range a gsi inside, sizes k a at),
                  (unfold delivery_status_code in refl, refl),
                ))
            | inl (_, (a', done, others)) ↦ (
              k,
              a,
              a',
              set ioapics k a',
              inside,
              rw (e, map_gsi_vector)
                  (rw (made.0, map_gsi_vector) (rw (at, write_at) (rw (done, write_at)))),
              at,
              others,
              λ j. get_elem?-set ioapics k j a a' at,
            )
          ]

-- The range of an I/O APIC ends before its last entry: the interrupt at the entry that
-- `max_redirection_entry` names is not found, on a machine with this one I/O APIC.
pub last_entry_not_found :
    (a : IoApic) (vector apic_id : ℕ)
    → map_gsi_vector (a ∷ []) (a.gsi_base + max_redirection_entry a) vector apic_id
      ≡ (a ∷ [], err not_found)
unfolding map_gsi_vector ioapic_for_gsi
last_entry_not_found a vector apic_id = rw (outside, ioapic_for_gsi, map_gsi_vector)
  where
    outside : in_ivec_range a (a.gsi_base + max_redirection_entry a) ≡ false
    outside = unfold in_ivec_range in ground arith
