-- ===== src/Virtdev/DeviceMap.antt =====
-- `DeviceMap` of mythril/src/virtdev/mod.rs: the ranges of ports and of guest addresses that devices
-- serve. `D` stands for the reference to a device; `services` is what the device answers.
pub mod Lookup
pub mod Register
pub mod Conflict
use mythril.Prelude.{
  ℕ, ◌≡◌, Bool, true, false, Option, none, some, List, [], ◌∷◌, Ordering, ltb, if◌then◌else◌,
}
use mythril.Prelude.BTreeMap
use mythril.Error.{Result, ok, err, invalid_device}

-- `RangeInclusive<Port>` and `RangeInclusive<GuestPhysAddr>`.
pub record RangeInclusive : Type 0 where
  pub start : ℕ
  pub end : ℕ

-- The `Ord` of `PortIoRegion` and of `MemIoRegion`: regions that share a number compare as equal.
unfoldable pub port_cmp : RangeInclusive → RangeInclusive → Ordering
port_cmp self other =
    if ltb self.end other.start
    then Ordering.lt
    else if ltb other.end self.start
    then Ordering.gt
    else Ordering.eq

unfoldable pub mem_cmp : RangeInclusive → RangeInclusive → Ordering
mem_cmp self other =
    if ltb self.end other.start
    then Ordering.lt
    else if ltb other.end self.start
    then Ordering.gt
    else Ordering.eq

pub data DeviceRegion : Type 0 where
  port_io mem_io : RangeInclusive → DeviceRegion

abbrev pub RegionMap : Type 0 → Type 0
RegionMap D = List (RangeInclusive × D)

pub record DeviceMap (D : Type 0) : Type 0 where
  pub portio_map : RegionMap D
  pub memio_map : RegionMap D

abbrev pub point : ℕ → RangeInclusive
point a = record { start = a; end = a }

module _ {D : Type 0} where
  unfoldable pub find_port : DeviceMap D → ℕ → Option D
  unfolding BTreeMap.get
  find_port map port = BTreeMap.get port_cmp (point port) map.portio_map

  unfoldable pub find_addr : DeviceMap D → ℕ → Option D
  unfolding BTreeMap.get
  find_addr map addr = BTreeMap.get mem_cmp (point addr) map.memio_map

  -- One round of the loop over the services; `none` is the early return.
  unfoldable pub register_region : DeviceMap D → D → DeviceRegion → Option (DeviceMap D)
  register_region map dev (port_io key) =
      if BTreeMap.contains_key port_cmp key map.portio_map
      then none
      else some (record map { portio_map = BTreeMap.insert port_cmp key dev map.portio_map })
  register_region map dev (mem_io key) =
      if BTreeMap.contains_key mem_cmp key map.memio_map
      then none
      else some (record map { memio_map = BTreeMap.insert mem_cmp key dev map.memio_map })

  -- The regions before a conflict stay registered.
  unfoldable pub register_device :
      DeviceMap D → D → List DeviceRegion → DeviceMap D × Result (Unit {0})
  register_device map dev [] = (map, ok tt)
  register_device map dev (region ∷ services) = elim (register_region map dev region) [
    | none ↦ (map, err invalid_device)
    | some map' ↦ register_device map' dev services
  ]
