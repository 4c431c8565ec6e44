-- ===== src/Memory/Entry/Laws.antt =====
-- What the entries that `map_guest_memory` writes hold.
use mythril.Prelude.{
  ℕ, ◌+◌, ◌-◌, ◌*◌, ◌/◌, ◌%◌, ◌^◌, ◌<◌, ◌≡◌, ◌≢◌, refl, arith, bit_and, Bool, true, false,
  if◌then◌else◌, Option-cases, inl, inr, ◌∙◌,
}
use mythril.Prelude.Word.{◌>>>◌, ◌<<<◌}
use mythril.Prelude.Bits.{
  bit_and_cut, bit_or_cut, bit_or-fields, bit_and-ones, bit_and-field, bit_or-zero, bit_and-zero,
}
use mythril.Prelude.Primitive.{TryFromPrimitive}
use mythril.Error.{ok, panic}
use mythril.Memory.Address.{is_frame_aligned}
use mythril.Memory.Entry.{
  EptMemoryType, uncacheable, write_back, mem_type_code, addr, set_addr, set_mem_type, mem_type,
  pte_set_addr, default_flags, page_flags,
}

-- An entry with a frame and bits below 12 has that frame.
pub addr-frame : (q low : ℕ) → q < 2 ^ 40 → low < 4096 → addr (q * 4096 + low) ≡ q * 4096
unfolding addr
addr-frame q low h p =
    ground (arith, bit_and_cut 12 q low (2 ^ 40 - 1) 0, bit_and-ones 40 q, bit_and-zero low)

pub set_addr-table : (q : ℕ) → set_addr (q * 4096) default_flags ≡ q * 4096 + 0x407
unfolding set_addr
set_addr-table q = bit_or-fields 12 q 0x407 (omega arith)

is_frame_aligned-frame : (q : ℕ) → is_frame_aligned (q * 4096) ≡ true
unfolding is_frame_aligned
is_frame_aligned-frame q = ground (arith, bit_and-ones 12 (q * 4096))

module _ (types : TryFromPrimitive mem_type_code) where
  mem_type_zero : mem_type types 0 ≡ ok uncacheable
  unfolding mem_type mem_type_code
  mem_type_zero = ground (arith, types.try_from-code uncacheable)

  pub pte_set_addr_fresh :
      (q : ℕ) (readonly : Bool)
      → pte_set_addr types 0 (q * 4096) (page_flags readonly)
        ≡ ok (q * 4096 + (if readonly then 0x445 else 0x447))
  unfolding pte_set_addr page_flags
  pte_set_addr_fresh q true = ground (
    arith,
    mem_type_zero,
    is_frame_aligned-frame q,
    bit_or-fields 12 q 0x445,
    bit_or-zero (q * 4096 + 0x445),
  )
  pte_set_addr_fresh q false = ground (
    arith,
    mem_type_zero,
    is_frame_aligned-frame q,
    bit_or-fields 12 q 0x447,
    bit_or-zero (q * 4096 + 0x447),
  )

pub set_mem_type_page :
    (q : ℕ) (readonly : Bool)
    → q < 2 ^ 52
    → set_mem_type (q * 4096 + (if readonly then 0x445 else 0x447)) write_back
      ≡ q * 4096 + (if readonly then 0x4c5 else 0x4c7)
unfolding set_mem_type
set_mem_type_page q true h = ground (
  arith,
  bit_and_cut 12 q 0x445 (2 ^ 52 - 1) 0xf1f,
  bit_and-ones 52 q,
  bit_or_cut 12 q 0x405 0 0xc0,
  bit_or-zero q,
)
set_mem_type_page q false h = ground (
  arith,
  bit_and_cut 12 q 0x447 (2 ^ 52 - 1) 0xf1f,
  bit_and-ones 52 q,
  bit_or_cut 12 q 0x407 0 0xc0,
  bit_or-zero q,
)

-- The memory type of a page's entry, before and after it is set. Bit 6 is `IGNORE_PAT` and in its field.
module _ (types : TryFromPrimitive mem_type_code) where
  two-not-code : (t : EptMemoryType) → mem_type_code t ≢ 2
  unfolding mem_type_code
  two-not-code t = ground arith

  field-low : (q low : ℕ) → low < 4096 → bit_and (q * 4096 + low) (0b111 <<< 5) >>> 5 ≡ low / 32 % 8
  field-low q low h = omega (arith, bit_and-field 3 5 (q * 4096 + low))

  mem_type_two :
      (q low : ℕ) → low < 4096 → low / 32 % 8 ≡ 2 → mem_type types (q * 4096 + low) ≡ panic
  unfolding mem_type
  mem_type_two q low h e =
      rw (field-low q low h ∙ e, mem_type)
        (elim (Option-cases (types.try_from 2)) [
          | inl n ↦ rw n
          | inr (t, n) ↦ absurd (two-not-code t (types.code-try_from 2 t n))
        ])

  mem_type_six :
      (q low : ℕ) → low < 4096 → low / 32 % 8 ≡ 6 → mem_type types (q * 4096 + low) ≡ ok write_back
  unfolding mem_type mem_type_code
  mem_type_six q low h e =
      rw (field-low q low h ∙ e, mem_type) (rw (types.try_from-code write_back))

  before_type :
      (q : ℕ) (readonly : Bool)
      → mem_type types (q * 4096 + (if readonly then 0x445 else 0x447)) ≡ panic
  before_type q true = mem_type_two q 0x445 (omega arith) refl
  before_type q false = mem_type_two q 0x447 (omega arith) refl

  after_type :
      (q : ℕ) (readonly : Bool)
      → mem_type types (q * 4096 + (if readonly then 0x4c5 else 0x4c7)) ≡ ok write_back
  after_type q true = mem_type_six q 0x4c5 (omega arith) refl
  after_type q false = mem_type_six q 0x4c7 (omega arith) refl

  -- Setting the address of an unused entry, with the flags of a mapped page, gives an entry whose
  -- memory type cannot be read: the reading of it panics. Once the type is set to write-back it reads
  -- as write-back.
  pub page_mem_type :
      (q : ℕ) (readonly : Bool)
      → q < 2 ^ 40
      → (entry : ℕ) × (pte_set_addr types 0 (q * 4096) (page_flags readonly) ≡ ok entry)
        × (mem_type types entry ≡ panic)
        × (mem_type types (set_mem_type entry write_back) ≡ ok write_back)
  page_mem_type q readonly h = (
    q * 4096 + (if readonly then 0x445 else 0x447),
    pte_set_addr_fresh types q readonly,
    before_type q readonly,
    rw (set_mem_type_page q readonly (omega arith)) (after_type q readonly),
  )

-- Every entry holds the address of a frame.
pub addr-multiple : (entry : ℕ) → addr entry ≡ entry / 2 ^ 12 % 2 ^ 40 * 4096
unfolding addr
addr-multiple entry = bit_and-field 40 12 entry
