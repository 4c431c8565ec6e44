-- ===== src/Virtdev/Vga.antt =====
-- mythril/src/virtdev/vga.rs: the index and the sixteen registers of the display controller. The
-- conversion that num_enum derives for `VgaRegister` is a parameter.
pub mod Registers
use mythril.Prelude.{ℕ, ◌==◌, if◌then◌else◌, List, [], ◌∷◌, Option, none, some, get_elem?, set}
use mythril.Prelude.Primitive.{TryFromPrimitive}
use mythril.Error.{Result, ok, err, panic, ◌>>=◌, ok_or, invalid_value, not_implemented}
use mythril.Virtdev.PortRead.{PortReadRequest, copy_from_u32}
use mythril.Virtdev.PortWrite.{PortWriteRequest, one_byte, two_bytes, four_bytes, try_into_u8}
use mythril.Virtdev.DeviceMap.{DeviceRegion, port_io}
use mythril.Virtdev.Event.{
  DeviceEvent, port_read, port_write, Outcome, ignored, answered, accepted, with_value,
}

pub data VgaRegister : Type 0 where
  horizontal_total_chars horizontal_chars_per_line horizontal_sync_position : VgaRegister
  horizontal_sync_width_in_chars vertical_total_lines vertical_total_adjust : VgaRegister
  vertical_displayed_rows vertical_sync_position interlace_mode max_scan_line_addr : VgaRegister
  cursor_start cursor_end start_addr_msb start_addr_lsb : VgaRegister
  cursor_addr_msb cursor_addr_lsb : VgaRegister

-- `register as u8`.
unfoldable pub vga_code : VgaRegister → ℕ
vga_code horizontal_total_chars = 0x00
vga_code horizontal_chars_per_line = 0x01
vga_code horizontal_sync_position = 0x02
vga_code horizontal_sync_width_in_chars = 0x03
vga_code vertical_total_lines = 0x04
vga_code vertical_total_adjust = 0x05
vga_code vertical_displayed_rows = 0x06
vga_code vertical_sync_position = 0x07
vga_code interlace_mode = 0x08
vga_code max_scan_line_addr = 0x09
vga_code cursor_start = 0x0a
vga_code cursor_end = 0x0b
vga_code start_addr_msb = 0x0c
vga_code start_addr_lsb = 0x0d
vga_code cursor_addr_msb = 0x0e
vga_code cursor_addr_lsb = 0x0f

pub record VgaController : Type 0 where
  pub index : VgaRegister
  pub registers : List ℕ

abbrev pub vga_index : ℕ
vga_index = 0x03d4

abbrev pub vga_data : ℕ
vga_data = 0x03d5

unfoldable pub new : Result VgaController
new = ok (record {
  index = horizontal_total_chars;
  registers =
      0x61 ∷ 0x50 ∷ 0x52 ∷ 0x0f ∷ 0x19 ∷ 0x06 ∷ 0x19 ∷ 0x19 ∷ 0x02 ∷ 0x0d ∷ 0x0b ∷ 0x0c ∷ 0x00
      ∷ 0x00 ∷ 0x00 ∷ 0x00 ∷ [];
})

unfoldable pub services : List DeviceRegion
services = port_io (record { start = vga_index; end = vga_data }) ∷ []

-- An index into an array, which panics out of range.
abbrev pub read_or_panic : Option ℕ → (ℕ → Result PortReadRequest) → Result PortReadRequest
read_or_panic none f = panic
read_or_panic (some v) f = f v

unfoldable pub on_port_read : VgaController → ℕ → PortReadRequest → Result PortReadRequest
on_port_read self port val =
    if port == vga_data
    then read_or_panic (get_elem? self.registers (vga_code self.index)) (copy_from_u32 val)
    else err not_implemented

-- `self.registers[self.index as usize] = v`.
abbrev pub store_at : VgaController → ℕ → Option ℕ → VgaController × Result (Unit {0})
store_at self v none = (self, panic)
store_at self v (some _) =
    (record self { registers = set self.registers (vga_code self.index) v }, ok tt)

abbrev pub store_data : VgaController → ℕ → VgaController × Result (Unit {0})
store_data self v = store_at self v (get_elem? self.registers (vga_code self.index))

module _ (codes : TryFromPrimitive vga_code) where
  -- `VgaRegister::try_from(b)?`, whose failure becomes an invalid value.
  abbrev pub register_from : ℕ → Result VgaRegister
  register_from b = ok_or (codes.try_from b) invalid_value

  abbrev set_index : VgaController → VgaRegister → VgaController × Result (Unit {0})
  set_index self r = (record self { index = r }, ok tt)

  abbrev set_both : VgaController → ℕ → VgaRegister → VgaController × Result (Unit {0})
  set_both self v r = store_data (record self { index = r }) v

  unfoldable pub write_index : VgaController → PortWriteRequest → VgaController × Result (Unit {0})
  write_index self (one_byte b) = with_value self (register_from b) (set_index self)
  write_index self (two_bytes b0 b1) = with_value self (register_from b1) (set_both self b0)
  write_index self (four_bytes _ _ _ _) = (self, err invalid_value)

  unfoldable pub on_port_write :
      VgaController → ℕ → PortWriteRequest → VgaController × Result (Unit {0})
  on_port_write self port val =
      if port == vga_index
      then write_index self val
      else if port == vga_data
      then with_value self (try_into_u8 val) (store_data self)
      else (self, err not_implemented)

  unfoldable pub on_event : VgaController → DeviceEvent → Outcome VgaController
  on_event self (port_read port val) = answered port val (self, on_port_read self port val)
  on_event self (port_write port val) = accepted port val (on_port_write self port val)
  on_event self kind = ignored self kind
