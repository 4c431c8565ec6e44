-- ===== src/Vm/Insert/Devices.antt =====
-- The devices of a machine that was inserted (mythril/src/vm.rs): each standard device serves its ports and
-- addresses, whatever dynamic devices come after.
use mythril.Prelude.{
  ℕ, ◌+◌, ◌≡◌, refl, sym, subst, ◌∙◌, ap, arith, List, [], ◌∷◌, length, true, some, inl, inr,
}
use mythril.Error.{err-ne-ok, panic-ne-ok, Result, ok, err, panic, Result-cases}
use mythril.Error.Run.{continue-ok, continue-err, continue-panic}
use mythril.Virtdev.DeviceMap.{
  DeviceMap, find_port, find_addr, register_device, register_region, port_cmp, mem_cmp,
}
use mythril.Virtdev.DeviceMap.Register.{
  IsOrdered, AllInhabited, serves_port, serves_addr, register_device-IsOrdered,
  register_device-find, register_device_keeps,
}
use mythril.Prelude.BTreeMap
use mythril.Virtdev.Acpi as Acpi
use mythril.Virtdev.Vga as Vga
use mythril.Virtdev.Pci as Pci
use mythril.Virtdev.Pic as Pic
use mythril.Virtdev.Keyboard as Keyboard
use mythril.Virtdev.Pit as Pit
use mythril.Virtdev.Rtc as Rtc
use mythril.Virtdev.VirtualIoApic as VirtualIoApic
use mythril.Virtdev.Device.{Device, services}
use mythril.Vm.Insert.{register_devices, static_devices, empty_map}

abbrev pub AllServices : List Device → Type 0
AllServices [] = Unit {0}
AllServices (d ∷ devices) = AllInhabited (services d) × AllServices devices

-- From number `n` on, each device is found at its ports and addresses.
abbrev pub Found : ℕ → List Device → DeviceMap ℕ → Type 0
Found n [] map = Unit {0}
Found n (d ∷ devices) map =
    ((a : ℕ) → serves_port (services d) a ≡ true → find_port map a ≡ some n)
    × ((a : ℕ) → serves_addr (services d) a ≡ true → find_addr map a ≡ some n)
    × Found (n + 1) devices map

-- What is served stays served.
abbrev Keeps : DeviceMap ℕ → DeviceMap ℕ → Type 0
Keeps map map' =
    (a owner : ℕ)
    → (find_port map a ≡ some owner → find_port map' a ≡ some owner)
      × (find_addr map a ≡ some owner → find_addr map' a ≡ some owner)

register_devices-Keeps :
    (n : ℕ) (devices : List Device) (map : DeviceMap ℕ)
    → IsOrdered map
    → AllServices devices
    → Keeps map ((register_devices n devices map).0)
unfolding register_devices
register_devices-Keeps n [] map o q a owner = (λ h. h, λ h. h)
register_devices-Keeps n (d ∷ devices) map o q a owner =
    let here = register_device_keeps map n owner (services d) a o q.0 in
    let ordered = register_device-IsOrdered map n (services d) o q.0 in
    elim (Result-cases ((register_device map n (services d)).1)) [
      | inl (done, e) ↦
          let rest =
            register_devices-Keeps (n + 1) devices ((register_device map n (services d)).0) ordered
              q.1 a owner in
          rw (continue-ok _ (register_device map n (services d)) done e)
            (λ h. rest.0 (here.0 h), λ h. rest.1 (here.1 h))
      | inr (inl (e', e)) ↦ rw (continue-err _ (register_device map n (services d)) e' e) here
      | inr (inr e) ↦ rw (continue-panic _ (register_device map n (services d)) e) here
    ]

Found-Keeps :
    (n : ℕ) (devices : List Device) (map map' : DeviceMap ℕ)
    → Keeps map map'
    → Found n devices map
    → Found n devices map'
Found-Keeps n [] map map' k f = tt
Found-Keeps n (d ∷ devices) map map' k f = (
  λ a h. (k a n).0 (f.0 a h),
  λ a h. (k a n).1 (f.1 a h),
  Found-Keeps (n + 1) devices map map' k f.2,
)

register_devices-Found :
    (n : ℕ) (devices : List Device) (map : DeviceMap ℕ)
    → IsOrdered map
    → AllServices devices
    → (register_devices n devices map).1 ≡ ok tt
    → IsOrdered ((register_devices n devices map).0)
      × Found n devices ((register_devices n devices map).0)
unfolding register_devices
register_devices-Found n [] map o q h = (o, tt)
register_devices-Found n (d ∷ devices) map o q h = elim (Result-cases (first.1)) [
  | inl (done, e) ↦
      let same = continue-ok (λ done. register_devices (n + 1) devices) first done e in
      let ordered = register_device-IsOrdered map n (services d) o q.0 in
      let at = register_device-find map n (services d) (first.0) in
      let later = register_devices-Keeps (n + 1) devices (first.0) ordered q.1 in
      let rest = register_devices-Found (n + 1) devices (first.0) ordered q.1 (rw same at h) in
      rw same (
        rest.0,
        (
          λ a s. (later a n).0 ((at a o q.0 (pair e)).0 ∙ rw s refl),
          λ a s. (later a n).1 ((at a o q.0 (pair e)).1 ∙ rw s refl),
          rest.1,
        ),
      )
  | inr (inl (e', e)) ↦ absurd (
      err-ne-ok (
        sym (ap (λ r. r.1) (continue-err (λ done. register_devices (n + 1) devices) first e' e))
        ∙ h))
  | inr (inr e) ↦ absurd (
      panic-ne-ok (
        sym (ap (λ r. r.1) (continue-panic (λ done. register_devices (n + 1) devices) first e))
        ∙ h))
]
  where
    first : DeviceMap ℕ × Result (Unit {0})
    first = register_device map n (services d)

    pair : first.1 ≡ ok tt → first ≡ (first.0, ok tt)
    pair e = ap (λ r. (first.0, r)) e

abbrev or_nil : Result (List Device) → List Device
or_nil (ok devices) = devices
or_nil (err e) = []
or_nil panic = []

registered :
    (memory : ℕ) (devices : List Device)
    → static_devices memory ≡ ok devices
    → (register_devices 0 devices empty_map).1 ≡ ok tt
unfolding static_devices register_devices services register_device register_region
    BTreeMap.contains_key BTreeMap.insert port_cmp mem_cmp Acpi.new Acpi.services Acpi.pm1a_cnt
    Acpi.pmtimer Vga.new Vga.services Pci.new Pci.services Pic.new Pic.services Keyboard.services
    Pit.new Pit.services Rtc.new Rtc.services VirtualIoApic.services
registered memory devices e =
    subst (λ ds. (register_devices 0 ds empty_map).1 ≡ ok tt) (ap or_nil e) refl

empty-IsOrdered : IsOrdered empty_map
empty-IsOrdered = record { ports = tt; addrs = tt }

standard-AllServices :
    (memory : ℕ) (devices : List Device) → static_devices memory ≡ ok devices → AllServices devices
unfolding static_devices services Acpi.new Acpi.services Acpi.pm1a_cnt Acpi.pmtimer Vga.new
    Vga.services Pci.new Pci.services Pic.new Pic.services Keyboard.services Pit.new Pit.services
    Rtc.new Rtc.services VirtualIoApic.services
standard-AllServices memory devices e = subst AllServices (ap or_nil e) (ground arith)

-- The standard devices of a machine of any size are registered without a conflict, and after that
-- registering dynamic devices, of inhabited regions, with success or not, leaves every port and every
-- address of a standard device to it.
pub standard_devices_served :
    (memory : ℕ) (devices dynamic : List Device)
    → static_devices memory ≡ ok devices
    → AllServices dynamic
    → let first = register_devices 0 devices empty_map in
      (first.1 ≡ ok tt) × Found 0 devices ((register_devices (length devices) dynamic (first.0)).0)
standard_devices_served memory devices dynamic e q =
    let done = registered memory devices e in
    let found =
      register_devices-Found 0 devices empty_map empty-IsOrdered
        (standard-AllServices memory devices e) done in
    let first = register_devices 0 devices empty_map in
    (
      done,
      Found-Keeps 0 devices (first.0) ((register_devices (length devices) dynamic (first.0)).0)
          (register_devices-Keeps (length devices) dynamic (first.0) found.0 q) found.1,
    )
