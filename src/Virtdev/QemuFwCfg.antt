-- ===== src/Virtdev/QemuFwCfg.antt =====
-- mythril/src/virtdev/qemu_fw_cfg.rs: the builder of the firmware configuration, the reads of its items and
-- the port reads. A name is its bytes.
pub mod Builder
pub mod Reads
pub mod Dma
use mythril.Prelude.{
  ℕ, ◌+◌, ◌-◌, ◌*◌, ◌/◌, ◌%◌, ◌^◌, max, Bool, true, false, ◌&&◌, ◌==◌, ltb, leb, if◌then◌else◌,
  List, [], ◌∷◌, ◌++◌, Option, none, some, compare, length, take, drop, replicate,
}
use mythril.Prelude.BTreeMap
use mythril.Prelude.Word.{u8, u16, u32, ◌>>>◌, to_be_bytes}
use mythril.Error.{Result, ok, err, panic, ◌>>=◌, invalid_value}
use mythril.Virtdev.PortRead.{PortReadRequest, len, copy_from_slice, copy_from_u32}

-- `FwCfgSelector`.
abbrev pub signature : ℕ
signature = 0x00

abbrev pub id : ℕ
id = 0x01

abbrev pub file_dir : ℕ
file_dir = 0x19

abbrev pub file_first : ℕ
file_first = 0x20

abbrev pub file_last : ℕ
file_last = 0x7fff

abbrev pub fw_cfg_max_file_name : ℕ
fw_cfg_max_file_name = 55

pub record FwCfgFile : Type 0 where
  pub size : ℕ
  pub select : ℕ
  pub name : List ℕ

abbrev pub Items : Type 0
Items = List (ℕ × List ℕ)

pub record QemuFwCfgBuilder : Type 0 where
  pub file_info : List FwCfgFile
  pub items : Items

pub record QemuFwCfg : Type 0 where
  pub selector : ℕ
  pub items : Items
  pub data_idx : ℕ
  pub dma_addr : ℕ

-- `i32::to_le_bytes`, of the number's 32 bits.
abbrev pub to_le_bytes : ℕ → List ℕ
to_le_bytes v = u8 v ∷ u8 (v >>> 8) ∷ u8 (v >>> 16) ∷ u8 (v >>> 24) ∷ []

unfoldable pub add_bytes : QemuFwCfgBuilder → ℕ → List ℕ → QemuFwCfgBuilder
add_bytes self selector bytes = record self {
  items = BTreeMap.insert compare selector bytes self.items;
}

unfoldable pub add_i32 : QemuFwCfgBuilder → ℕ → ℕ → QemuFwCfgBuilder
unfolding add_bytes
add_i32 self selector value = add_bytes self selector (to_le_bytes value)

unfoldable pub new : QemuFwCfgBuilder
new = add_i32 (add_i32 (record { file_info = []; items = [] }) signature 0x554d4551) id 0b11

-- The largest selector of a file, or the one before the first.
unfoldable pub last_file_selector : Items → ℕ
last_file_selector [] = file_first - 1
last_file_selector ((s, bytes) ∷ items) =
    let rest = last_file_selector items in
    if leb file_first s && leb s file_last then max s rest else rest

unfoldable pub next_file_selector : QemuFwCfgBuilder → ℕ
next_file_selector self = u16 (last_file_selector self.items + 1)

-- The name is padded with zeros to its field.
unfoldable pub file_entry : ℕ → List ℕ → List ℕ → FwCfgFile
file_entry selector name bytes = record {
  size = u32 (length bytes);
  select = selector;
  name = name ++ replicate (fw_cfg_max_file_name + 1 - length name) 0;
}

unfoldable pub add_file : QemuFwCfgBuilder → List ℕ → List ℕ → QemuFwCfgBuilder × Result (Unit {0})
add_file self name bytes =
    let selector = next_file_selector self in
    if ltb fw_cfg_max_file_name (length name)
    then (self, err invalid_value)
    else if ltb file_last selector
    then (self, err invalid_value)
    else (
      record {
        file_info = self.file_info ++ (file_entry selector name bytes ∷ []);
        items = BTreeMap.insert compare selector bytes self.items;
      },
      ok tt,
    )

-- The bytes of an entry in memory: the size and the selector were stored in big-endian order.
unfoldable pub entry_bytes : FwCfgFile → List ℕ
entry_bytes file =
    to_be_bytes file.size ++ (u8 (file.select >>> 8) ∷ u8 file.select ∷ 0 ∷ 0 ∷ file.name)

unfoldable pub directory : List FwCfgFile → List ℕ
directory [] = []
directory (file ∷ files) = entry_bytes file ++ directory files

unfoldable pub build : QemuFwCfgBuilder → Result QemuFwCfg
build self =
    let buffer = to_be_bytes (u32 (length self.file_info)) ++ directory self.file_info in
    ok (record {
      selector = signature;
      items = BTreeMap.insert compare file_dir buffer self.items;
      data_idx = 0;
      dma_addr = 0;
    })

abbrev pub fw_cfg_port_sel : ℕ
fw_cfg_port_sel = 0x510

abbrev pub fw_cfg_port_data : ℕ
fw_cfg_port_data = 0x511

abbrev pub fw_cfg_port_dma_high : ℕ
fw_cfg_port_dma_high = 0x514

abbrev pub fw_cfg_port_dma_low : ℕ
fw_cfg_port_dma_low = 0x518

-- `&data[idx..idx + length]`, which panics past the end.
abbrev pub slice : QemuFwCfg → ℕ → Option (List ℕ) → QemuFwCfg × Result (Option (List ℕ))
slice self length_ none = (self, ok none)
slice self length_ (some bytes) =
    if ltb (length bytes) (self.data_idx + length_) then (self, panic) else (
      record self { data_idx = self.data_idx + length_ },
      ok (some (take length_ (drop self.data_idx bytes))),
    )

unfoldable pub read_selector : QemuFwCfg → ℕ → QemuFwCfg × Result (Option (List ℕ))
read_selector self length_ = slice self length_ (BTreeMap.get compare self.selector self.items)

-- What a read of the data port fills in.
abbrev pub fill : PortReadRequest → Option (List ℕ) → Result PortReadRequest
fill val (some bytes) = copy_from_slice val bytes
fill val none = copy_from_u32 val 0

unfoldable pub on_port_read : QemuFwCfg → ℕ → PortReadRequest → QemuFwCfg × Result PortReadRequest
on_port_read self port val =
    if port == fw_cfg_port_sel
    then (self, copy_from_u32 val self.selector)
    else if port == fw_cfg_port_data
    then (let (self', found) = read_selector self (len val) in (self', found >>= fill val))
    else if port == fw_cfg_port_dma_low
    then (self, copy_from_u32 val 0x20434647)
    else if port == fw_cfg_port_dma_high
    then (self, copy_from_u32 val 0x51454d55)
    else (self, panic)
