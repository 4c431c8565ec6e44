-- ===== src/Memory/Entry.antt =====
-- The entries of the extended page tables (mythril/src/memory.rs): the three upper levels and the
-- page table. A set of flags is its bits.
pub mod Laws
use mythril.Prelude.{
  ℕ, ◌+◌, ◌-◌, ◌*◌, ◌/◌, ◌%◌, ◌^◌, ◌<◌, ◌≡◌, refl, arith, bit_and, bit_or, Bool, true, false,
  Option, none, some, ◌==◌, if◌then◌else◌,
}
use mythril.Prelude.Word.{◌>>>◌, ◌<<<◌, not64}
use mythril.Prelude.Bits.{bit_and_cut, bit_or_cut, bit_or-fields, bit_and-ones, bit_and-field}
use mythril.Error.{Result, ok, err, panic, ◌>>=◌}
use mythril.Memory.Address.{is_frame_aligned}
use mythril.Prelude.Primitive.{TryFromPrimitive}

-- `EptTableFlags`.
abbrev pub read_access : ℕ
read_access = 0x1

abbrev pub write_access : ℕ
write_access = 0x2

abbrev pub priv_exec_access : ℕ
priv_exec_access = 0x4

abbrev pub ignore_pat : ℕ
ignore_pat = 0x40

abbrev pub usermode_exec_access : ℕ
usermode_exec_access = 0x400

pub data EptMemoryType : Type 0 where
  uncacheable write_cache write_through write_p write_back : EptMemoryType

unfoldable pub mem_type_code : EptMemoryType → ℕ
mem_type_code uncacheable = 0
mem_type_code write_cache = 1
mem_type_code write_through = 4
mem_type_code write_p = 5
mem_type_code write_back = 6

-- `EptTableEntry` and `EptPageTableEntry` hold one word; these are their common operations.
unfoldable pub is_unused : ℕ → Bool
is_unused entry = entry == 0

unfoldable pub addr : ℕ → ℕ
addr entry = bit_and entry 0x000f_ffff_ffff_f000

-- `EptTableEntry::set_addr`.
unfoldable pub set_addr : ℕ → ℕ → ℕ
set_addr host flags = bit_or host flags

-- `EptTableEntry::set_flags`.
unfoldable pub set_flags : ℕ → ℕ → ℕ
unfolding addr
set_flags entry flags = bit_or (addr entry) flags

-- `EptPageTableEntry::set_mem_type`.
unfoldable pub set_mem_type : ℕ → EptMemoryType → ℕ
unfolding mem_type_code
set_mem_type entry t = bit_or (bit_and entry (not64 (0b111 <<< 5))) (mem_type_code t <<< 5)

-- `EptPageTableEntry`, whose memory type is read back as an enum.
module _ (types : TryFromPrimitive mem_type_code) where
  unfoldable pub mem_type : ℕ → Result EptMemoryType
  mem_type entry = elim (types.try_from (bit_and entry (0b111 <<< 5) >>> 5)) [
    | none ↦ panic
    | some t ↦ ok t
  ]

  unfoldable pub pte_set_addr : ℕ → ℕ → ℕ → Result ℕ
  unfolding mem_type mem_type_code is_frame_aligned
  pte_set_addr entry host flags =
      if is_frame_aligned host
      then (do t ← mem_type entry; ok (bit_or (bit_or host flags) (mem_type_code t <<< 5)))
      else panic

  unfoldable pub pte_set_flags : ℕ → ℕ → Result ℕ
  unfolding mem_type mem_type_code addr
  pte_set_flags entry flags = do
    t ← mem_type entry
    ok (bit_or (bit_or (addr entry) flags) (mem_type_code t <<< 5))

-- The flags that `map_guest_memory` gives to a table and to a page.
abbrev pub default_flags : ℕ
default_flags =
    bit_or (bit_or (bit_or read_access write_access) priv_exec_access) usermode_exec_access

unfoldable pub page_flags : Bool → ℕ
page_flags readonly =
    let flags =
      bit_or (bit_or (bit_or read_access priv_exec_access) usermode_exec_access) ignore_pat in
    if readonly then flags else bit_or flags write_access
