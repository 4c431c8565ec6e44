-- ===== src/Memory/Address.antt =====
-- The indices of an address in the four levels of tables, and the offsets in a page
-- (mythril/src/memory.rs). An address is its number; `GuestPhysAddr`, `Guest4LevelPagingAddr` and
-- `HostPhysAddr` wrap the same number.
use mythril.Prelude.{
  ℕ, ◌+◌, ◌*◌, ◌/◌, ◌%◌, ◌^◌, ◌<◌, ◌≡◌, arith, bit_and, Bool, ◌==◌, if◌then◌else◌,
}
use mythril.Prelude.Word.{◌>>>◌, u64}
use mythril.Prelude.Bits.{bit_and-ones}
use mythril.Error.{Result, ok, err, invalid_value}

abbrev pub base_page_size : ℕ
base_page_size = 4096

unfoldable pub pml4_index : ℕ → ℕ
pml4_index addr = bit_and (addr >>> 39) 0b111111111

unfoldable pub pdpt_index : ℕ → ℕ
pdpt_index addr = bit_and (addr >>> 30) 0b111111111

unfoldable pub pd_index : ℕ → ℕ
pd_index addr = bit_and (addr >>> 21) 0b111111111

unfoldable pub pt_index : ℕ → ℕ
pt_index addr = bit_and (addr >>> 12) 0b111111111

unfoldable pub page_offset : ℕ → ℕ
page_offset addr = bit_and addr 0b111111111111

unfoldable pub large_page_offset : ℕ → ℕ
large_page_offset addr = bit_and addr 0x1fffff

unfoldable pub huge_page_offset : ℕ → ℕ
huge_page_offset addr = bit_and addr 0x3fffffff

-- `HostPhysAddr::is_frame_aligned` and `HostPhysFrame::from_start_address`.
unfoldable pub is_frame_aligned : ℕ → Bool
is_frame_aligned addr = bit_and addr 0b111111111111 == 0

unfoldable pub from_start_address : ℕ → Result ℕ
unfolding is_frame_aligned
from_start_address addr = if is_frame_aligned addr then ok addr else err invalid_value

pub data GuestVirtAddr : Type 0 where
  no_paging paging_4_level : ℕ → GuestVirtAddr

unfoldable pub as_u64 : GuestVirtAddr → ℕ
as_u64 (no_paging addr) = addr
as_u64 (paging_4_level addr) = addr

-- `Add<usize>`, in the release build.
unfoldable pub add_usize : GuestVirtAddr → ℕ → GuestVirtAddr
add_usize (no_paging addr) rhs = no_paging (u64 (addr + rhs))
add_usize (paging_4_level addr) rhs = paging_4_level (u64 (addr + rhs))

-- The indices as digits.
pub pml4_index-digit : (a : ℕ) → pml4_index a ≡ a / 2 ^ 39 % 512
unfolding pml4_index
pml4_index-digit a = bit_and-ones 9 (a / 2 ^ 39)

pub pdpt_index-digit : (a : ℕ) → pdpt_index a ≡ a / 2 ^ 30 % 512
unfolding pdpt_index
pdpt_index-digit a = bit_and-ones 9 (a / 2 ^ 30)

pub pd_index-digit : (a : ℕ) → pd_index a ≡ a / 2 ^ 21 % 512
unfolding pd_index
pd_index-digit a = bit_and-ones 9 (a / 2 ^ 21)

pub pt_index-digit : (a : ℕ) → pt_index a ≡ a / 2 ^ 12 % 512
unfolding pt_index
pt_index-digit a = bit_and-ones 9 (a / 2 ^ 12)

pub page_offset-digit : (a : ℕ) → page_offset a ≡ a % 4096
unfolding page_offset
page_offset-digit a = bit_and-ones 12 a

pub from_start_address-frame : (q : ℕ) → from_start_address (q * 4096) ≡ ok (q * 4096)
unfolding from_start_address
from_start_address-frame q = ground (arith, bit_and-ones 12 (q * 4096))

-- An address of 48 bits is the sum of its four indices and its offset in the page, each at its place;
-- and the offset in a large or in a huge page is made of the lower indices.
address_digits :
    (a : ℕ)
    → a < 2 ^ 48
    → (a
        ≡ pml4_index a * 2 ^ 39
          + pdpt_index a * 2 ^ 30
          + pd_index a * 2 ^ 21
          + pt_index a * 2 ^ 12
          + page_offset a)
      × (large_page_offset a ≡ pt_index a * 2 ^ 12 + page_offset a)
      × (huge_page_offset a ≡ pd_index a * 2 ^ 21 + large_page_offset a)
unfolding large_page_offset huge_page_offset
address_digits a h = omega (
  arith,
  pml4_index-digit a,
  pdpt_index-digit a,
  pd_index-digit a,
  pt_index-digit a,
  page_offset-digit a,
  bit_and-ones 21 a,
  bit_and-ones 30 a,
)
