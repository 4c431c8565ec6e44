-- ===== src/Tests/FwCfg.antt =====
-- mythril/src/virtdev/qemu_fw_cfg.rs at concrete inputs.
use mythril.Prelude.{
  ℕ, ◌+◌, ◌*◌, ◌<◌, ◌≤◌, ◌≡◌, refl, ◌⊎◌, ◌==◌, if◌then◌else◌, List, [], ◌∷◌, ◌++◌, none, some,
  compare, length, take, drop,
}
use mythril.Prelude.BTreeMap
use mythril.Error.{ok, err, panic, invalid_value}
use mythril.Virtdev.PortRead.{PortReadRequest, two_bytes, as_slice, len}
use mythril.Virtdev.PortRead.Codec.{filled}
use mythril.Virtdev.QemuFwCfg.{
  QemuFwCfg, QemuFwCfgBuilder, file_dir, file_first, file_last, fw_cfg_max_file_name,
  fw_cfg_port_data, next_file_selector, file_entry, add_file, build, on_port_read,
  last_file_selector,
}
use mythril.Virtdev.QemuFwCfg.Builder.{AllPadded, add_file_lem, build_lem}
use mythril.Virtdev.QemuFwCfg.Reads.{data_read_lem}

-- A builder with an item that is no file and one that is.
abbrev builder : QemuFwCfgBuilder
builder = record { file_info = []; items = (1, 3 ∷ []) ∷ (0x20, 9 ∷ 8 ∷ 7 ∷ []) ∷ [] }

-- The next file has the selector after the last.
builder-next : next_file_selector builder ≡ 0x21
unfolding next_file_selector last_file_selector
builder-next = refl

abbrev name : List ℕ
name = 0x61 ∷ 0x62 ∷ []

add_file_lem_example :
    let selector = next_file_selector builder in
    let after = add_file builder name (5 ∷ []) in
    ((length name ≤ fw_cfg_max_file_name)
      × (selector ≤ file_last)
      × (file_first ≤ selector)
      × (after.1 ≡ ok tt)
      × (BTreeMap.get compare selector builder.items ≡ none)
      × ((s : ℕ)
          → BTreeMap.get compare s after.0.items
            ≡ (if s == selector then some (5 ∷ []) else BTreeMap.get compare s builder.items))
      × (after.0.file_info ≡ builder.file_info ++ (file_entry selector name (5 ∷ []) ∷ [])))
    ⊎ (((fw_cfg_max_file_name < length name) ⊎ (file_last < selector))
        × (after ≡ (builder, err invalid_value)))
add_file_lem_example = add_file_lem builder name (5 ∷ [])

build_lem_example :
    AllPadded (add_file builder name (5 ∷ [])).0.file_info
    × ((cfg : QemuFwCfg) × (build builder ≡ ok cfg)
        × ((cfg.selector ≡ 0) × (cfg.data_idx ≡ 0))
        × ((buffer : List ℕ) × (BTreeMap.get compare file_dir cfg.items ≡ some buffer)
            × (length buffer ≡ 4 + 64 * length builder.file_info)
            × ((s : ℕ)
                → BTreeMap.get compare s cfg.items
                  ≡ (if s == file_dir then some buffer else BTreeMap.get compare s builder.items))))
build_lem_example = build_lem builder name (5 ∷ []) tt

-- The file is selected, and its first byte was read.
abbrev config : QemuFwCfg
config = record { selector = 0x20; items = builder.items; data_idx = 1; dma_addr = 0 }

data_read_lem_example :
    let val = two_bytes 0 0 in
    let found = BTreeMap.get compare 0x20 config.items in
    let after = on_port_read config fw_cfg_port_data val in
    ((bytes : List ℕ) × (found ≡ some bytes)
      × (1 + len val ≤ length bytes)
      × (after.0 ≡ record config { data_idx = 1 + len val })
      × ((r : PortReadRequest) × (after.1 ≡ ok r) × (as_slice r ≡ take (len val) (drop 1 bytes))))
    ⊎ (((bytes : List ℕ) × (found ≡ some bytes) × (length bytes < 1 + len val) × (after.1 ≡ panic))
        ⊎ ((found ≡ none) × (after ≡ (config, ok (filled val 0)))))
data_read_lem_example = data_read_lem config (two_bytes 0 0)
