-- ===== src/Tests/Requests.antt =====
-- The requests of mythril/src/virtdev/mod.rs at concrete inputs.
use mythril.Prelude.{◌*◌, ◌^◌, ◌%◌, ◌≡◌, refl}
use mythril.Prelude.Word.{from_be_bytes}
use mythril.Error.{ok}
use mythril.Virtdev.PortRead
use mythril.Virtdev.PortRead.{copy_from_u32, len}
use mythril.Virtdev.PortRead.Codec.{copy_from_u32_value, copy_from_u32-filled}
use mythril.Virtdev.PortWrite
use mythril.Virtdev.PortWrite.{as_u32, try_into_u8, try_into_u16, try_into_u32}
use mythril.Virtdev.PortWrite.Codec.{as_u32-copy_from_u32}

abbrev half : PortRead.PortReadRequest
half = PortRead.PortReadRequest.two_bytes 0 0

copy_from_u32_value_example :
    (s : PortRead.PortReadRequest) × (copy_from_u32 half 0x12345678 ≡ ok s)
    × (len s ≡ len half)
    × (from_be_bytes (PortRead.as_slice s) ≡ 0x12345678 % 2 ^ (8 * len half))
copy_from_u32_value_example = copy_from_u32_value half 0x12345678

abbrev word : PortWrite.PortWriteRequest
word = PortWrite.PortWriteRequest.four_bytes 1 2 3 4

as_u32-copy_from_u32_example :
    as_u32 (PortWrite.PortWriteRequest.two_bytes 0x56 0x78) ≡ 0x12345678 % 2 ^ (8 * len half)
as_u32-copy_from_u32_example =
    as_u32-copy_from_u32 half (PortRead.PortReadRequest.two_bytes 0x56 0x78) 0x12345678
      (PortWrite.PortWriteRequest.two_bytes 0x56 0x78) (copy_from_u32-filled half 0x12345678)
      (unfold PortWrite.try_from PortRead.as_slice in refl)
