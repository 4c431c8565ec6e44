-- ===== src/Virtdev/Pci/Config.antt =====
-- What the guest reads of configuration space once it has written an address.
use mythril.Prelude.{
  ℕ, ◌+◌, ◌-◌, ◌*◌, ◌/◌, ◌%◌, ◌^◌, ◌<◌, ◌≡◌, refl, arith, bit_and, bit_or, ◌==◌, within, Option,
  none, some, get_or, get_elem-get_or, compare, length, true, false,
}
use mythril.Prelude.Bits.{bit_and-field, bit_and-ones, bit_or-fields}
use mythril.Prelude.BTreeMap
use mythril.Prelude.Word.{u8, u16}
use mythril.Error.{Result, ok, err, panic}
use mythril.Virtdev.PortRead.{PortReadRequest}
use mythril.Virtdev.PortRead.Codec.{filled, copy_from_u32-filled}
use mythril.Virtdev.PortWrite.{PortWriteRequest, try_into_u32}
use mythril.Virtdev.Event.{answered, port_read, port_write}
use mythril.Virtdev.Pci.{
  PciRootComplex, PciDevice, pci_config_address, pci_config_data, pci_config_data_max,
  read_register, read_config, on_event, on_port_read, on_port_write,
}

-- The number of the function that an address names, and what a register of a device reads as.
abbrev pub bdf_of : ℕ → ℕ
bdf_of addr = addr / 2 ^ 8 % 2 ^ 16

address_fields :
    (addr : ℕ)
    → addr < 2 ^ 32
    → let current = bit_and addr 0x7fffffff in
      (current ≡ addr % 2 ^ 31)
      × (u16 (bit_and current 0xffff00 / 2 ^ 8) ≡ bdf_of addr)
      × (u8 (bit_and current (0xff / 2 ^ 2)) ≡ addr % 2 ^ 6)
      × (bit_or 0x80000000 current ≡ 2 ^ 31 + addr % 2 ^ 31)
address_fields addr h =
    let low = bit_and-ones 31 addr in
    let current = bit_and addr 0x7fffffff in
    (
      low,
      omega (arith, low, bit_and-field 16 8 current),
      omega (arith, low, bit_and-ones 6 current),
      omega (arith, low, bit_or-fields 31 1 current (omega (arith, low))),
    )

read_register-get :
    (device : PciDevice) (register : ℕ)
    → register < length device.config_space
    → read_register device register ≡ ok (get_or device.config_space register 0)
unfolding read_register
read_register-get device register h = rw (get_elem-get_or device.config_space register 0 h) refl

-- The state that an address leaves.
abbrev addressed : PciRootComplex → ℕ → PciRootComplex
addressed self addr = record self { current_address = bit_and addr 0x7fffffff }

write-addressed :
    (self : PciRootComplex) (w : PortWriteRequest) (addr : ℕ)
    → try_into_u32 w ≡ ok addr
    → (on_event self (port_write pci_config_address w)).device ≡ addressed self addr
unfolding on_event on_port_write
write-addressed self w addr h = rw h refl

read_config-absent :
    (self : PciRootComplex) (addr port : ℕ)
    → addr < 2 ^ 32
    → BTreeMap.get compare (bdf_of addr) self.devices ≡ none
    → read_config (addressed self addr) port ≡ ok 0xffffffff
unfolding read_config
read_config-absent self addr port h g = rw ((address_fields addr h).1, g) refl

read_config-present :
    (self : PciRootComplex) (addr k : ℕ) (device : PciDevice)
    → addr < 2 ^ 32
    → k < 4
    → BTreeMap.get compare (bdf_of addr) self.devices ≡ some device
    → addr % 2 ^ 6 < length device.config_space
    → read_config (addressed self addr) (pci_config_data + k)
      ≡ ok (get_or device.config_space (addr % 2 ^ 6) 0 / 2 ^ (8 * k))
unfolding read_config
read_config-present self addr k device h hk g hl =
    let e : u8 (pci_config_data + k - pci_config_data) * 8 ≡ 8 * k = omega arith in
    rw
      (
        (address_fields addr h).1,
        g,
        (address_fields addr h).2,
        read_register-get device (addr % 2 ^ 6) hl,
        e,
      )
      refl

on_event-config :
    (self : PciRootComplex) (k v : ℕ) (val : PortReadRequest)
    → k < 4
    → read_config self (pci_config_data + k) ≡ ok v
    → (on_event self (port_read (pci_config_data + k) val)).kind
      ≡ port_read (pci_config_data + k) (filled val v)
unfolding on_event on_port_read
on_event-config self k v val hk h =
    let a : ((pci_config_data + k) == pci_config_address) ≡ false = ground arith in
    let b : within pci_config_data pci_config_data_max (pci_config_data + k) ≡ true =
      ground arith in
    rw (a, b, h, copy_from_u32-filled val v) refl

on_event-address :
    (self : PciRootComplex) (addr : ℕ) (val : PortReadRequest)
    → addr < 2 ^ 32
    → (on_event (addressed self addr) (port_read pci_config_address val)).kind
      ≡ port_read pci_config_address (filled val (2 ^ 31 + addr % 2 ^ 31))
unfolding on_event on_port_read
on_event-address self addr val h =
    rw ((address_fields addr h).3, copy_from_u32-filled val (2 ^ 31 + addr % 2 ^ 31)) refl

on_event-read_device :
    (self : PciRootComplex) (port : ℕ) (val : PortReadRequest)
    → (on_event self (port_read port val)).device ≡ self
unfolding on_event
on_event-read_device self port val = answered-device (on_port_read self port val)
  where
    answered-device : (r : Result PortReadRequest) → (answered port val (self, r)).device ≡ self
    answered-device (ok v) = refl
    answered-device (err e) = refl
    answered-device panic = refl

-- All ones, or the register whose number is the low six bits of the address, shifted to the port.
abbrev pub shown : Option PciDevice → ℕ → ℕ → ℕ
shown none addr k = 0xffffffff
shown (some device) addr k = get_or device.config_space (addr % 2 ^ 6) 0 / 2 ^ (8 * k)

read_config-shown :
    (self : PciRootComplex) (addr k : ℕ) (found : Option PciDevice)
    → addr < 2 ^ 32
    → k < 4
    → BTreeMap.get compare (bdf_of addr) self.devices ≡ found
    → ((device : PciDevice) → found ≡ some device → length device.config_space ≡ 64)
    → read_config (addressed self addr) (pci_config_data + k) ≡ ok (shown found addr k)
read_config-shown self addr k none ha hk e sizes =
    read_config-absent self addr (pci_config_data + k) ha e
read_config-shown self addr k (some device) ha hk e sizes =
    read_config-present self addr k device ha hk e (omega (arith, sizes device refl))

-- Once the guest has written an address of 32 bits, the address port reads as that address with
-- its top bit set. A read at the data port and its three neighbours gives all ones where no device has
-- the bus, device and function of bits 8 to 23, and otherwise the register of the device's space
-- whose number is the low SIX bits of the address, shifted to the port, if that space has its 64
-- registers. The write keeps the devices, and the read of the data changes nothing.
pub config_read_lem :
    (self : PciRootComplex) (w : PortWriteRequest) (addr k : ℕ) (val : PortReadRequest)
    → try_into_u32 w ≡ ok addr
    → addr < 2 ^ 32
    → k < 4
    → ((device : PciDevice)
        → BTreeMap.get compare (bdf_of addr) self.devices ≡ some device
        → length device.config_space ≡ 64)
    → let after = (on_event self (port_write pci_config_address w)).device in
      let data_port = pci_config_data + k in
      let answer = on_event after (port_read data_port val) in
      (after.devices ≡ self.devices)
      × ((on_event after (port_read pci_config_address val)).kind
          ≡ port_read pci_config_address (filled val (2 ^ 31 + addr % 2 ^ 31)))
      × (answer.device ≡ after)
      × (answer.kind
          ≡ port_read data_port
              (filled val (shown (BTreeMap.get compare (bdf_of addr) self.devices) addr k)))
config_read_lem self w addr k val hw ha hk sizes =
    let found = BTreeMap.get compare (bdf_of addr) self.devices in
    rw (write-addressed self w addr hw) (
      refl,
      on_event-address self addr val ha,
      on_event-read_device (addressed self addr) (pci_config_data + k) val,
      on_event-config (addressed self addr) k (shown found addr k) val hk
          (read_config-shown self addr k found ha hk refl sizes),
    )
