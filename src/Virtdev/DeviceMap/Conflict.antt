-- ===== src/Virtdev/DeviceMap/Conflict.antt =====
-- Registering a device that is refused.
use mythril.Prelude.{
  ℕ, ◌≡◌, refl, ◌⊎◌, inl, inr, arith, Bool-cases, true, ◌||◌, none, some, List, [], ◌∷◌,
  if◌then◌else◌, Option-cases,
}
use mythril.Error.{ok, err, invalid_device}
use mythril.Virtdev.DeviceMap.{
  DeviceRegion, port_io, mem_io, DeviceMap, find_port, find_addr, register_region, register_device,
}
use mythril.Virtdev.DeviceMap.Lookup.{contains_key-true, contains_key-false}
use mythril.Virtdev.DeviceMap.Register.{
  IsInhabited, AllInhabited, serves_port, serves_addr, IsOrdered, region-IsOrdered,
  region-find_port, region-find_addr, mem-eq-port_cmp,
}

-- Two of the services hold the same port, or the same address.
abbrev pub Overlap : List DeviceRegion → Type 0
Overlap [] = ⊥
Overlap (s ∷ ss) =
    ((a : ℕ) × (((serves_port (s ∷ []) a ≡ true) × (serves_port ss a ≡ true))
        ⊎ ((serves_addr (s ∷ []) a ≡ true) × (serves_addr ss a ≡ true))))
    ⊎ Overlap ss

serves_port-cons :
    (s : DeviceRegion) (ss : List DeviceRegion) (a : ℕ)
    → serves_port (s ∷ ss) a ≡ (serves_port (s ∷ []) a || serves_port ss a)
serves_port-cons (port_io r) ss a = ground arith
serves_port-cons (mem_io r) ss a = refl

serves_addr-cons :
    (s : DeviceRegion) (ss : List DeviceRegion) (a : ℕ)
    → serves_addr (s ∷ ss) a ≡ (serves_addr (s ∷ []) a || serves_addr ss a)
serves_addr-cons (port_io r) ss a = refl
serves_addr-cons (mem_io r) ss a = ground arith

module _ {D : Type 0} where
  -- Some port or address of the services is served in the map.
  abbrev pub Conflicts : DeviceMap D → List DeviceRegion → Type 0
  Conflicts map services =
      (a : ℕ) × (owner : D) × (((serves_port services a ≡ true) × (find_port map a ≡ some owner))
        ⊎ ((serves_addr services a ≡ true) × (find_addr map a ≡ some owner)))

  Conflicts-head :
      (map : DeviceMap D) (s : DeviceRegion) (ss : List DeviceRegion)
      → Conflicts map (s ∷ [])
      → Conflicts map (s ∷ ss)
  Conflicts-head map (port_io r) ss c = (c.0, c.1, ground arith)
  Conflicts-head map (mem_io r) ss c = (c.0, c.1, ground arith)

  region_free_port :
      (map map' : DeviceMap D) (dev : D) (s : DeviceRegion) (a : ℕ)
      → IsOrdered map
      → register_region map dev s ≡ some map'
      → serves_port (s ∷ []) a ≡ true
      → find_port map a ≡ none
  unfolding register_region find_port
  region_free_port map map' dev (port_io r) a o h p =
      ground (arith, contains_key-false 0 map.portio_map r a o.ports)
  region_free_port map map' dev (mem_io r) a o h p = cc

  region_free_addr :
      (map map' : DeviceMap D) (dev : D) (s : DeviceRegion) (a : ℕ)
      → IsOrdered map
      → register_region map dev s ≡ some map'
      → serves_addr (s ∷ []) a ≡ true
      → find_addr map a ≡ none
  unfolding register_region find_addr
  region_free_addr map map' dev (port_io r) a o h p = cc
  region_free_addr map map' dev (mem_io r) a o h p =
      ground (arith, mem-eq-port_cmp, contains_key-false 0 map.memio_map r a o.addrs)

  region_conflict :
      (map : DeviceMap D) (dev : D) (s : DeviceRegion)
      → IsOrdered map
      → IsInhabited s
      → register_region map dev s ≡ none
      → Conflicts map (s ∷ [])
  unfolding register_region find_port find_addr
  region_conflict map dev (port_io r) o q h =
      let c = contains_key-true 0 map.portio_map r o.ports q (ground arith) in
      (c.0, c.1, inl (ground arith, c.3))
  region_conflict map dev (mem_io r) o q h =
      let c = contains_key-true 0 map.memio_map r o.addrs q (ground (arith, mem-eq-port_cmp)) in
      (c.0, c.1, inr (ground arith, rw mem-eq-port_cmp c.3))

  -- The numbers of a region that was registered are the device's, and were not served before.
  Takes : DeviceMap D → DeviceMap D → D → DeviceRegion → Type 0
  Takes map map' dev s =
      (a : ℕ)
      → (find_port map' a ≡ (if serves_port (s ∷ []) a then some dev else find_port map a))
        × (find_addr map' a ≡ (if serves_addr (s ∷ []) a then some dev else find_addr map a))
        × (serves_port (s ∷ []) a ≡ true → find_port map a ≡ none)
        × (serves_addr (s ∷ []) a ≡ true → find_addr map a ≡ none)

  region-Takes :
      (map map' : DeviceMap D) (dev : D) (s : DeviceRegion)
      → IsOrdered map
      → IsInhabited s
      → register_region map dev s ≡ some map'
      → Takes map map' dev s
  unfolding Takes
  region-Takes map map' dev s o q h a = (
    region-find_port map map' dev s a o q h,
    region-find_addr map map' dev s a o q h,
    region_free_port map map' dev s a o h,
    region_free_addr map map' dev s a o h,
  )

  -- A conflict after a region was registered was one before, or the region overlaps with a later one.
  conflict_before :
      (map map' : DeviceMap D) (dev : D) (s : DeviceRegion) (ss : List DeviceRegion)
      → Takes map map' dev s
      → Conflicts map' ss ⊎ Overlap ss
      → Conflicts map (s ∷ ss) ⊎ Overlap (s ∷ ss)
  unfolding Takes
  conflict_before map map' dev s ss t (inl (a, owner, inl (p, f))) =
      elim (Bool-cases (serves_port (s ∷ []) a)) [
        | inl here ↦ inr (inl (a, inl (here, p)))
        | inr elsewhere ↦
            inl (a, owner, inl (ground (arith, serves_port-cons s ss a), ground (arith, (t a).0)))
      ]
  conflict_before map map' dev s ss t (inl (a, owner, inr (p, f))) =
      elim (Bool-cases (serves_addr (s ∷ []) a)) [
        | inl here ↦ inr (inl (a, inr (here, p)))
        | inr elsewhere ↦
            inl (a, owner, inr (ground (arith, serves_addr-cons s ss a), ground (arith, (t a).1)))
      ]
  conflict_before map map' dev s ss t (inr c) = inr (inr c)

  conflict_after :
      (map map' : DeviceMap D) (dev : D) (s : DeviceRegion) (ss : List DeviceRegion)
      → Takes map map' dev s
      → Conflicts map (s ∷ ss) ⊎ Overlap (s ∷ ss)
      → Conflicts map' ss ⊎ Overlap ss
  unfolding Takes
  conflict_after map map' dev s ss t (inl (a, owner, inl (p, f))) =
      inl (a, owner, inl (ground (arith, serves_port-cons s ss a, t a), ground (arith, t a)))
  conflict_after map map' dev s ss t (inl (a, owner, inr (p, f))) =
      inl (a, owner, inr (ground (arith, serves_addr-cons s ss a, t a), ground (arith, t a)))
  conflict_after map map' dev s ss t (inr (inl (a, inl (here, p)))) =
      inl (a, dev, inl (p, ground (arith, t a)))
  conflict_after map map' dev s ss t (inr (inl (a, inr (here, p)))) =
      inl (a, dev, inr (p, ground (arith, t a)))
  conflict_after map map' dev s ss t (inr (inr c)) = inr c

  -- In maps in order, a registration of inhabited regions succeeds where no port and no address of the
  -- services was served before and no two of the services overlap; it fails with an invalid device where
  -- one was served before or two overlap.
  pub register_device_conflict :
      (map : DeviceMap D) (dev : D) (services : List DeviceRegion)
      → IsOrdered map
      → AllInhabited services
      → (((register_device map dev services).1 ≡ ok tt)
          × ¬ (Conflicts map services ⊎ Overlap services))
        ⊎ (((register_device map dev services).1 ≡ err invalid_device)
            × (Conflicts map services ⊎ Overlap services))
  unfolding register_device
  register_device_conflict map dev [] o q = inl (
    refl,
    λ c. elim c [ inl (a, owner, inl (p, f)) ↦ cc | inl (a, owner, inr (p, f)) ↦ cc | inr c ↦ c ],
  )
  register_device_conflict map dev (s ∷ ss) o q = elim (Option-cases (register_region map dev s)) [
    | inl e ↦
        rw (e, register_device)
          (inr (refl, inl (Conflicts-head map s ss (region_conflict map dev s o q.0 e))))
    | inr (map₁, e) ↦
        let t = region-Takes map map₁ dev s o q.0 e in
        rw (e, register_device)
          (elim (register_device_conflict map₁ dev ss (region-IsOrdered map map₁ dev s o q.0 e)
            q.1) [
              | inl (done, free) ↦ inl (done, λ c. free (conflict_after map map₁ dev s ss t c))
              | inr (refused, c) ↦ inr (refused, conflict_before map map₁ dev s ss t c)
            ])
  ]
