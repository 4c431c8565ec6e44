-- ===== src/Virtdev/PortWrite/Codec.antt =====
-- The number that a write request carries, and the conversions that read it.
use mythril.Prelude.{ℕ, ◌*◌, ◌%◌, ◌^◌, ◌≡◌, refl, ◌⊎◌, inl, inr, arith, length}
use mythril.Error.{Result, ok, err, invalid_value}
use mythril.Virtdev.PortRead
use mythril.Virtdev.PortRead.{copy_from_u32}
use mythril.Virtdev.PortRead.Codec.{copy_from_u32-filled}
use mythril.Virtdev.PortWrite.{
  PortWriteRequest, one_byte, two_bytes, four_bytes, as_slice, as_u32, try_from, try_into_u8,
  try_into_u16, try_into_u32,
}

-- A conversion at the width of the request gives the number that `as_u32` reads, and a conversion
-- at any other width is refused.
abbrev pub Converts : ℕ → PortWriteRequest → Result ℕ → Type 0
Converts width r c =
    ((length (as_slice r) ≡ width) × (c ≡ ok (as_u32 r)))
    ⊎ ((length (as_slice r) ≡ width → ⊥) × (c ≡ err invalid_value))

-- The conversions to u8, u16 and u32 succeed at a request of 1, 2 and 4 bytes only, and then they
-- agree with `as_u32`; at another width they are refused as an invalid value.
try_into_widths :
    (r : PortWriteRequest)
    → Converts 1 r (try_into_u8 r) × Converts 2 r (try_into_u16 r) × Converts 4 r (try_into_u32 r)
unfolding as_slice as_u32 try_into_u8 try_into_u16 try_into_u32
try_into_widths (one_byte a) =
    (inl (refl, ground arith), inr (omega arith, refl), inr (omega arith, refl))
try_into_widths (two_bytes a b) =
    (inr (omega arith, refl), inl (refl, ground arith), inr (omega arith, refl))
try_into_widths (four_bytes a b c d) =
    (inr (omega arith, refl), inr (omega arith, refl), inl (refl, ground arith))

-- What a device fills in, a write of the same bytes gives back: the number cut to the width.
pub as_u32-copy_from_u32 :
    (r s : PortRead.PortReadRequest) (v : ℕ) (w : PortWriteRequest)
    → copy_from_u32 r v ≡ ok s
    → try_from (PortRead.as_slice s) ≡ ok w
    → as_u32 w ≡ v % 2 ^ (8 * PortRead.len r)
unfolding as_u32 try_from PortRead.as_slice PortRead.len
as_u32-copy_from_u32 (PortRead.PortReadRequest.one_byte a) s v w filling writing =
    ground (arith, copy_from_u32-filled (PortRead.PortReadRequest.one_byte a) v)
as_u32-copy_from_u32 (PortRead.PortReadRequest.two_bytes a b) s v w filling writing =
    ground (arith, copy_from_u32-filled (PortRead.PortReadRequest.two_bytes a b) v)
as_u32-copy_from_u32 (PortRead.PortReadRequest.four_bytes a b c d) s v w filling writing =
    ground (arith, copy_from_u32-filled (PortRead.PortReadRequest.four_bytes a b c d) v)
