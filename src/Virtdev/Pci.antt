-- ===== src/Virtdev/Pci.antt =====
-- mythril/src/virtdev/pci.rs: the root complex, its two configuration ports and the devices on it. A
-- configuration space is its sixty-four registers; the headers that the source builds are zero but
-- for the first one, whose low half is the vendor and whose high half is the device.
pub mod Bdf
pub mod Config
use mythril.Prelude.{
  ℕ, zero, suc, ◌+◌, ◌-◌, ◌*◌, ◌/◌, ◌%◌, ◌^◌, bit_and, bit_or, ◌==◌, within, if◌then◌else◌, List,
  [], ◌∷◌, Option, none, some, get_elem?, Ordering, compare,
}
use mythril.Prelude.Word.{u8, u16, u32, ◌<<<◌, ◌>>>◌}
use mythril.Prelude.BTreeMap
use mythril.Error.{Result, ok, err, panic, ◌>>=◌, invalid_value}
use mythril.Virtdev.PortRead.{PortReadRequest, copy_from_u32}
use mythril.Virtdev.PortWrite.{PortWriteRequest, try_into_u32}
use mythril.Virtdev.DeviceMap.{DeviceRegion, port_io}
use mythril.Virtdev.Event.{
  DeviceEvent, port_read, port_write, Outcome, ignored, answered, accepted, with_value,
}

-- `VendorId` and `DeviceId`.
abbrev pub intel : ℕ
intel = 0x8086

abbrev pub p35_mch : ℕ
p35_mch = 0x29c0

abbrev pub ich9 : ℕ
ich9 = 0x2918

-- `PciNonBridgeHeader` with these two fields and the defaults, as the registers of
-- `PciNonBridgeSpace::new`.
abbrev pub zeros : ℕ → List ℕ
zeros zero = []
zeros (suc n) = 0 ∷ zeros n

unfoldable pub type0 : ℕ → ℕ → List ℕ
type0 vendor_id device_id = (vendor_id + device_id * 2 ^ 16) ∷ zeros 63

pub record PciBdf : Type 0 where
  pub bus : ℕ
  pub device : ℕ
  pub function : ℕ

unfoldable pub from : ℕ → PciBdf
from bytes = record {
  bus = u8 (bit_and bytes 0xff00 >>> 8);
  device = u8 (bit_and bytes 0b11111000 >>> 3) % 2 ^ 5;
  function = u8 (bit_and bytes 0b111) % 2 ^ 3;
}

unfoldable pub into : PciBdf → ℕ
into self = bit_or (bit_or (u16 (self.bus <<< 8)) (u16 (self.device <<< 3))) self.function

pub record PciDevice : Type 0 where
  pub config_space : List ℕ
  pub bdf : PciBdf

pub record PciRootComplex : Type 0 where
  pub current_address : ℕ
  pub devices : List (ℕ × PciDevice)

-- `PciConfigSpace::read_register`, which panics past the last register.
unfoldable pub read_register : PciDevice → ℕ → Result ℕ
read_register device register = or_panic (get_elem? device.config_space register)
  where
    or_panic : Option ℕ → Result ℕ
    or_panic none = panic
    or_panic (some v) = ok v

abbrev pub pci_config_address : ℕ
pci_config_address = 0xcf8

abbrev pub pci_config_type : ℕ
pci_config_type = 0xcfb

abbrev pub pci_config_data : ℕ
pci_config_data = 0xcfc

abbrev pub pci_config_data_max : ℕ
pci_config_data_max = 0xcff

unfoldable pub new : Result PciRootComplex
unfolding from into type0
new =
    let host_bridge : PciDevice = record { config_space = type0 intel p35_mch; bdf = from 0 } in
    let bridge : PciDevice = record { config_space = type0 intel ich9; bdf = from 0b1000 } in
    ok (record {
      current_address = 0;
      devices =
          BTreeMap.insert compare (into bridge.bdf) bridge
            (BTreeMap.insert compare (into host_bridge.bdf) host_bridge []);
    })

unfoldable pub services : List DeviceRegion
services =
    port_io (record { start = pci_config_address; end = pci_config_address })
    ∷ port_io (record { start = pci_config_data; end = pci_config_data_max })
    ∷ port_io (record { start = pci_config_type; end = pci_config_type })
    ∷ []

abbrev pub config_value : Option PciDevice → ℕ → ℕ → Result ℕ
config_value none register offset = ok 0xffffffff
config_value (some device) register offset =
    read_register device register >>= λ value. ok (value >>> (offset * 8))

-- What a read of the data port finds: the device that the address names, and its register shifted
-- to the port; all ones where there is no device.
unfoldable pub read_config : PciRootComplex → ℕ → Result ℕ
read_config self port =
    let bdf = u16 (bit_and self.current_address 0xffff00 >>> 8) in
    let register = u8 (bit_and self.current_address (0xff >>> 2)) in
    let offset = u8 (port - pci_config_data) in
    config_value (BTreeMap.get compare bdf self.devices) register offset

unfoldable pub on_port_read : PciRootComplex → ℕ → PortReadRequest → Result PortReadRequest
on_port_read self port val =
    if port == pci_config_address
    then copy_from_u32 val (bit_or 0x80000000 self.current_address)
    else if within pci_config_data pci_config_data_max port
    then read_config self port >>= copy_from_u32 val
    else err invalid_value

abbrev set_address : PciRootComplex → ℕ → PciRootComplex × Result (Unit {0})
set_address self addr = (record self { current_address = bit_and addr 0x7fffffff }, ok tt)

unfoldable pub on_port_write :
    PciRootComplex → ℕ → PortWriteRequest → PciRootComplex × Result (Unit {0})
on_port_write self port val =
    if port == pci_config_address
    then with_value self (try_into_u32 val) (set_address self)
    else (self, ok tt)

unfoldable pub on_event : PciRootComplex → DeviceEvent → Outcome PciRootComplex
on_event self (port_read port val) = answered port val (self, on_port_read self port val)
on_event self (port_write port val) = accepted port val (on_port_write self port val)
on_event self kind = ignored self kind
