-- ===== src/Virtdev/QemuFwCfg/Builder.antt =====
-- Adding files, and the directory that is built of them.
use mythril.Prelude.{
  ℕ, ◌+◌, ◌-◌, ◌*◌, ◌<◌, ◌≤◌, ◌≡◌, refl, arith, ◌⊎◌, inl, inr, ◌==◌, ltb, if◌then◌else◌, Bool-cases,
  List, [], ◌∷◌, ◌++◌, none, some, compare, length, length-append, length-replicate, replicate,
}
use mythril.Prelude.BTreeMap
use mythril.Prelude.Word.{u16, u32, to_be_bytes}
use mythril.Error.{ok, err, invalid_value}
use mythril.Virtdev.QemuFwCfg.{
  Items, FwCfgFile, QemuFwCfgBuilder, QemuFwCfg, last_file_selector, next_file_selector, file_entry,
  add_file, entry_bytes, directory, build, file_first, file_last, file_dir, fw_cfg_max_file_name,
}

last-bounds :
    (items : Items)
    → (file_first ≤ last_file_selector items + 1) × (last_file_selector items ≤ file_last)
unfolding last_file_selector
last-bounds [] = ground arith
last-bounds ((s, b) ∷ items) = ground (arith, last-bounds items)

above-none :
    (n : ℕ) (items : Items)
    → file_first ≤ n
    → n ≤ file_last
    → last_file_selector items < n
    → BTreeMap.get compare n items ≡ none
unfolding last_file_selector BTreeMap.get
above-none n [] hf hl h = refl
above-none n ((s, b) ∷ items) hf hl h = ground (arith, above-none n items hf hl)

-- A file whose name fits in its field, while a selector of files is left, is added: its selector is
-- one of files and was of no item, its bytes are found there, every other item is as before, and the
-- directory has one entry more, with the selector and the size. Else the file is refused as an
-- invalid value and nothing changes.
pub add_file_lem :
    (self : QemuFwCfgBuilder) (name bytes : List ℕ)
    → let selector = next_file_selector self in
      let after = add_file self name bytes in
      ((length name ≤ fw_cfg_max_file_name)
        × (selector ≤ file_last)
        × (file_first ≤ selector)
        × (after.1 ≡ ok tt)
        × (BTreeMap.get compare selector self.items ≡ none)
        × ((s : ℕ)
            → BTreeMap.get compare s after.0.items
              ≡ (if s == selector then some bytes else BTreeMap.get compare s self.items))
        × (after.0.file_info ≡ self.file_info ++ (file_entry selector name bytes ∷ [])))
      ⊎ (((fw_cfg_max_file_name < length name) ⊎ (file_last < selector))
          × (after ≡ (self, err invalid_value)))
unfolding add_file next_file_selector
add_file_lem self name bytes =
    let selector = u16 (last_file_selector self.items + 1) in
    let bounds = last-bounds self.items in
    elim (Bool-cases (ltb fw_cfg_max_file_name (length name))) [
      | inl long ↦ inr (inl (ground arith), rw long refl)
      | inr short ↦ elim (Bool-cases (ltb file_last selector)) [
        | inl full ↦ inr (inr (ground arith), rw (short, full) refl)
        | inr free ↦ inl (
          ground arith,
          ground arith,
          omega (arith, bounds),
          rw (short, free) refl,
          above-none selector self.items (omega (arith, bounds)) (ground arith)
              (omega (arith, bounds)),
          rw (short, free) (λ s. BTreeMap.get-insert s selector bytes self.items),
          rw (short, free) refl,
        )
      ]
    ]

-- Every name fills its field.
abbrev pub AllPadded : List FwCfgFile → Type 0
AllPadded [] = Unit {0}
AllPadded (file ∷ files) = (length file.name ≡ 56) × AllPadded files

file_entry-padded :
    (selector : ℕ) (name bytes : List ℕ)
    → length name ≤ fw_cfg_max_file_name
    → length ((file_entry selector name bytes).name) ≡ 56
unfolding file_entry
file_entry-padded selector name bytes h = omega (
  arith,
  length-append name (replicate (56 - length name) 0),
  length-replicate (56 - length name) (the_zero),
)
  where
    the_zero : ℕ
    the_zero = 0

AllPadded-append :
    (files : List FwCfgFile) (file : FwCfgFile)
    → AllPadded files
    → length file.name ≡ 56
    → AllPadded (files ++ (file ∷ []))
AllPadded-append [] file h p = (p, tt)
AllPadded-append (f ∷ files) file h p = (h.0, AllPadded-append files file h.1 p)

length-directory :
    (files : List FwCfgFile) → AllPadded files → length (directory files) ≡ 64 * length files
unfolding directory entry_bytes
length-directory [] h = refl
length-directory (file ∷ files) h =
    omega
      (arith, length-append (entry_bytes file) (directory files), length-directory files h.1, h.0)

-- Where every name fills its field, which adding a file keeps, the device that is built starts at the
-- signature, has in the directory item four bytes and 64 for each file, and every other item as it
-- was added.
pub build_lem :
    (self : QemuFwCfgBuilder) (name bytes : List ℕ)
    → AllPadded self.file_info
    → AllPadded (add_file self name bytes).0.file_info
      × ((cfg : QemuFwCfg) × (build self ≡ ok cfg)
          × ((cfg.selector ≡ 0) × (cfg.data_idx ≡ 0))
          × ((buffer : List ℕ) × (BTreeMap.get compare file_dir cfg.items ≡ some buffer)
              × (length buffer ≡ 4 + 64 * length self.file_info)
              × ((s : ℕ)
                  → BTreeMap.get compare s cfg.items
                    ≡ (if s == file_dir then some buffer else BTreeMap.get compare s self.items))))
unfolding build add_file
build_lem self name bytes h = (
  elim (Bool-cases (ltb fw_cfg_max_file_name (length name))) [
    | inl long ↦ rw long h
    | inr short ↦ elim (Bool-cases (ltb file_last (next_file_selector self))) [
      | inl full ↦ rw (short, full) h
      | inr free ↦
          rw (short, free)
            (AllPadded-append self.file_info (file_entry (next_file_selector self) name bytes) h
              (file_entry-padded (next_file_selector self) name bytes (ground arith)))
    ]
  ],
  (
    _,
    refl,
    (refl, refl),
    (
      buffer,
      BTreeMap.get-insert file_dir file_dir buffer self.items,
      omega (arith, length-directory self.file_info h),
      λ s. BTreeMap.get-insert s file_dir buffer self.items,
    ),
  ),
)
  where
    buffer : List ℕ
    buffer = to_be_bytes (u32 (length self.file_info)) ++ directory self.file_info
