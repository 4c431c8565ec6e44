-- ===== src/Virtdev/DeviceMap/Register.antt =====
-- Registering a device: the order of the maps, and what is found before and after.
use mythril.Prelude.{
  ℕ, ◌≤◌, ◌≡◌, refl, sym, ◌∙◌, ◌⊎◌, inl, inr, arith, Bool, false, none, some, List, [], ◌∷◌, ◌||◌,
  if◌then◌else◌, within, Option-cases,
}
use mythril.Error.{ok}
use mythril.Virtdev.DeviceMap.{
  DeviceRegion, port_io, mem_io, DeviceMap, port_cmp, mem_cmp, find_port, find_addr,
  register_region, register_device,
}
use mythril.Virtdev.DeviceMap.Lookup.{
  OrderedFrom, insert-OrderedFrom, get-insert, contains_key-false,
}

pub mem-eq-port_cmp : mem_cmp ≡ port_cmp
unfolding mem_cmp port_cmp
mem-eq-port_cmp = refl

-- The region holds a number at least.
abbrev pub IsInhabited : DeviceRegion → Type 0
IsInhabited (port_io r) = r.start ≤ r.end
IsInhabited (mem_io r) = r.start ≤ r.end

abbrev pub AllInhabited : List DeviceRegion → Type 0
AllInhabited [] = Unit {0}
AllInhabited (s ∷ ss) = IsInhabited s × AllInhabited ss

-- Does one of the regions hold this port, or this address?
abbrev pub serves_port : List DeviceRegion → ℕ → Bool
serves_port [] a = false
serves_port (port_io r ∷ ss) a = within r.start r.end a || serves_port ss a
serves_port (mem_io r ∷ ss) a = serves_port ss a

abbrev pub serves_addr : List DeviceRegion → ℕ → Bool
serves_addr [] a = false
serves_addr (port_io r ∷ ss) a = serves_addr ss a
serves_addr (mem_io r ∷ ss) a = within r.start r.end a || serves_addr ss a

module _ {D : Type 0} where
  -- Both maps are in order: their regions are inhabited and do not overlap.
  pub record IsOrdered (map : DeviceMap D) : Type 0 where
    pub ports : OrderedFrom 0 map.portio_map
    pub addrs : OrderedFrom 0 map.memio_map

  pub region-IsOrdered :
      (map map' : DeviceMap D) (dev : D) (s : DeviceRegion)
      → IsOrdered map
      → IsInhabited s
      → register_region map dev s ≡ some map'
      → IsOrdered map'
  unfolding register_region
  region-IsOrdered map map' dev (port_io r) o q h =
      ground (arith, insert-OrderedFrom 0 map.portio_map r dev o.ports)
  region-IsOrdered map map' dev (mem_io r) o q h =
      ground (arith, mem-eq-port_cmp, insert-OrderedFrom 0 map.memio_map r dev o.addrs)

  pub region-find_port :
      (map map' : DeviceMap D) (dev : D) (s : DeviceRegion) (a : ℕ)
      → IsOrdered map
      → IsInhabited s
      → register_region map dev s ≡ some map'
      → find_port map' a ≡ (if serves_port (s ∷ []) a then some dev else find_port map a)
  unfolding register_region find_port
  region-find_port map map' dev (port_io r) a o q h =
      ground (arith, get-insert 0 map.portio_map r dev a o.ports)
  region-find_port map map' dev (mem_io r) a o q h = ground arith

  pub region-find_addr :
      (map map' : DeviceMap D) (dev : D) (s : DeviceRegion) (a : ℕ)
      → IsOrdered map
      → IsInhabited s
      → register_region map dev s ≡ some map'
      → find_addr map' a ≡ (if serves_addr (s ∷ []) a then some dev else find_addr map a)
  unfolding register_region find_addr
  region-find_addr map map' dev (port_io r) a o q h = ground arith
  region-find_addr map map' dev (mem_io r) a o q h =
      ground (arith, mem-eq-port_cmp, get-insert 0 map.memio_map r dev a o.addrs)

  -- Registering a device, with success or not, leaves the maps in order.
  pub register_device-IsOrdered :
      (map : DeviceMap D) (dev : D) (services : List DeviceRegion)
      → IsOrdered map
      → AllInhabited services
      → IsOrdered (register_device map dev services).0
  unfolding register_device
  register_device-IsOrdered map dev [] o q = o
  register_device-IsOrdered map dev (s ∷ ss) o q = elim (Option-cases (register_region map dev s)) [
    | inl e ↦ rw (e, register_device) o
    | inr (map', e) ↦
        rw (e, register_device)
          (register_device-IsOrdered map' dev ss (region-IsOrdered map map' dev s o q.0 e) q.1)
  ]

  -- After a registration that succeeds, a port or an address of the device's services is found to
  -- be the device's, and any other one is found as before.
  pub register_device-find :
      (map : DeviceMap D) (dev : D) (services : List DeviceRegion) (map' : DeviceMap D) (a : ℕ)
      → IsOrdered map
      → AllInhabited services
      → register_device map dev services ≡ (map', ok tt)
      → (find_port map' a ≡ (if serves_port services a then some dev else find_port map a))
        × (find_addr map' a ≡ (if serves_addr services a then some dev else find_addr map a))
  unfolding register_device
  register_device-find map dev [] map' a o q h = ground arith
  register_device-find map dev (s ∷ ss) map' a o q h =
      elim (Option-cases (register_region map dev s)) [
        | inl e ↦ cc (rw (e, register_device) at h)
        | inr (map₁, e) ↦
            split s map₁
              (register_device-find map₁ dev ss map' a (region-IsOrdered map map₁ dev s o q.0 e) q.1
                (rw (e, register_device) at h))
              (region-find_port map map₁ dev s a o q.0 e)
              (region-find_addr map map₁ dev s a o q.0 e)
      ]
    where
      split :
          (s : DeviceRegion) (map₁ : DeviceMap D)
          → (find_port map' a ≡ (if serves_port ss a then some dev else find_port map₁ a))
            × (find_addr map' a ≡ (if serves_addr ss a then some dev else find_addr map₁ a))
          → find_port map₁ a ≡ (if serves_port (s ∷ []) a then some dev else find_port map a)
          → find_addr map₁ a ≡ (if serves_addr (s ∷ []) a then some dev else find_addr map a)
          → (find_port map' a ≡ (if serves_port (s ∷ ss) a then some dev else find_port map a))
            × (find_addr map' a ≡ (if serves_addr (s ∷ ss) a then some dev else find_addr map a))
      split (port_io r) map₁ rest p d = ground arith
      split (mem_io r) map₁ rest p d = ground arith

  region_keeps :
      (map map' : DeviceMap D) (dev owner : D) (s : DeviceRegion) (a : ℕ)
      → IsOrdered map
      → IsInhabited s
      → register_region map dev s ≡ some map'
      → (find_port map a ≡ some owner → find_port map' a ≡ some owner)
        × (find_addr map a ≡ some owner → find_addr map' a ≡ some owner)
  unfolding register_region find_port find_addr
  region_keeps map map' dev owner (port_io r) a o q h = (
    λ f. ground (
      arith,
      get-insert 0 map.portio_map r dev a o.ports,
      contains_key-false 0 map.portio_map r a o.ports,
    ),
    λ f. ground arith,
  )
  region_keeps map map' dev owner (mem_io r) a o q h = (
    λ f. ground arith,
    λ f. ground (
      arith,
      mem-eq-port_cmp,
      get-insert 0 map.memio_map r dev a o.addrs,
      contains_key-false 0 map.memio_map r a o.addrs,
    ),
  )

  pub register_device_keeps :
      (map : DeviceMap D) (dev owner : D) (services : List DeviceRegion) (a : ℕ)
      → IsOrdered map
      → AllInhabited services
      → (find_port map a ≡ some owner
          → find_port (register_device map dev services).0 a ≡ some owner)
        × (find_addr map a ≡ some owner
            → find_addr (register_device map dev services).0 a ≡ some owner)
  unfolding register_device
  register_device_keeps map dev owner [] a o q = (λ h. h, λ h. h)
  register_device_keeps map dev owner (s ∷ ss) a o q =
      elim (Option-cases (register_region map dev s)) [
        | inl e ↦ rw (e, register_device) (λ h. h, λ h. h)
        | inr (map₁, e) ↦
            let kept = region_keeps map map₁ dev owner s a o q.0 e in
            let rest =
              register_device_keeps map₁ dev owner ss a (region-IsOrdered map map₁ dev s o q.0 e)
                q.1 in
            rw (e, register_device) (λ h. rest.0 (kept.0 h), λ h. rest.1 (kept.1 h))
      ]

  -- No registration, whether it succeeds or not, takes a port or an address from the device that
  -- serves it: it is found as before, or it was not served before.
  pub find-register_device :
      (map : DeviceMap D) (dev : D) (services : List DeviceRegion) (a : ℕ)
      → IsOrdered map
      → AllInhabited services
      → let after = (register_device map dev services).0 in
        ((find_port after a ≡ find_port map a) ⊎ (find_port map a ≡ none))
        × ((find_addr after a ≡ find_addr map a) ⊎ (find_addr map a ≡ none))
  find-register_device map dev services a o q = (
    elim (Option-cases (find_port map a)) [
      | inl e ↦ inr e
      | inr (owner, e) ↦ inl ((register_device_keeps map dev owner services a o q).0 e ∙ sym e)
    ],
    elim (Option-cases (find_addr map a)) [
      | inl e ↦ inr e
      | inr (owner, e) ↦ inl ((register_device_keeps map dev owner services a o q).1 e ∙ sym e)
    ],
  )
