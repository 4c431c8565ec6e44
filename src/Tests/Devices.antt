-- ===== src/Tests/Devices.antt =====
-- The devices of mythril/src/virtdev at concrete inputs.
use mythril.Prelude.{
  ℕ, ◌+◌, ◌%◌, ◌^◌, ◌≡◌, refl, arith, inl, List, [], ◌∷◌, not, ◌&&◌, ◌==◌, if◌then◌else◌, some,
  compare, length,
}
use mythril.Prelude.BTreeMap
use mythril.Prelude.Primitive.{TryFromPrimitive, search_code, code-search_code}
use mythril.Error.{ok}
use mythril.Virtdev.PortRead
use mythril.Virtdev.PortRead.{PortReadRequest}
use mythril.Virtdev.PortRead.Codec.{filled}
use mythril.Virtdev.PortWrite.{PortWriteRequest, one_byte, two_bytes, four_bytes, try_into_u32}
use mythril.Virtdev.Event.{DeviceEvent, port_read, port_write}
use mythril.Virtdev.Pic
use mythril.Virtdev.Pic.Mask.{on_event_shared_mask, run as run_pic}
use mythril.Virtdev.Pci
use mythril.Virtdev.Pci.{PciBdf, PciDevice, PciRootComplex, pci_config_address, pci_config_data}
use mythril.Virtdev.Pci.Config.{bdf_of, shown, config_read_lem}
use mythril.Virtdev.Rtc
use mythril.Virtdev.Rtc.{
  CmosRegister, CmosRtc, cmos_code, rtc_address, rtc_data, seconds, seconds_alarm, minutes,
  minutes_alarm, hours, hours_alarm, day_of_week, day_of_month, month, year, status_register_a,
  status_register_b, status_register_c, status_register_d, diagnostic_status, shutdown_status,
  diskette_drive_type, fixed_disk_drive_type, equipment, base_system_memory_lsb,
  base_system_memory_msb, total_extended_memory_lsb, total_extended_memory_msb, drive_c_extension,
  drive_d_extension, cmos_checksum_msb, cmos_checksum_lsb, extended_post_mem_lsb,
  extended_post_mem_msb, bcd_century_date, info_flags, qemu_mem_above_16mb_lsb,
  qemu_mem_above_16mb_msb, qemu_mem_above_4gb_lsb, qemu_mem_above_4gb_mmsb, qemu_mem_above_4gb_msb,
  unknown,
}
use mythril.Virtdev.Rtc.Access.{write_ignored, select_write_read}
use mythril.Virtdev.Vga
use mythril.Virtdev.Vga.{
  VgaRegister, VgaController, vga_code, vga_index, vga_data, horizontal_total_chars,
  horizontal_chars_per_line, horizontal_sync_position, horizontal_sync_width_in_chars,
  vertical_total_lines, vertical_total_adjust, vertical_displayed_rows, vertical_sync_position,
  interlace_mode, max_scan_line_addr, cursor_start, cursor_end, start_addr_msb, start_addr_lsb,
  cursor_addr_msb, cursor_addr_lsb,
}
use mythril.Virtdev.Vga.Registers.{IsComplete, value_of, index_and_data_write}

abbrev byte : PortReadRequest
byte = PortRead.PortReadRequest.one_byte 0

abbrev pic : Pic.Pic8259
pic = record { master_state = record { imr = 0 }; slave_state = record { imr = 0 } }

-- A write to the slave's data port, one of two bytes, which is refused, and one to its command port.
abbrev mask_writes : List DeviceEvent
mask_writes =
    port_write 0xa1 (one_byte 0xfb)
    ∷ port_write 0x21 (two_bytes 1 2)
    ∷ port_write 0xa0 (one_byte 0x11)
    ∷ []

on_event_shared_mask_example :
    let after = run_pic pic mask_writes in
    let answer = Pic.on_event after (port_read 0x21 byte) in
    ((after.slave_state).imr ≡ 0)
    × (answer.result ≡ ok tt)
    × (answer.kind ≡ port_read 0x21 (filled byte 0xfb))
    × ((answer.device.slave_state).imr ≡ 0)
on_event_shared_mask_example = on_event_shared_mask pic mask_writes 0x21 byte (inl refl)

abbrev ich9_bdf : PciBdf
ich9_bdf = record { bus = 3; device = 31; function = 2 }

-- One device, the number 8, and the address of its register 0 with the enable bit.
abbrev bridge : PciDevice
bridge = record { config_space = Pci.zeros 64; bdf = record { bus = 0; device = 1; function = 0 } }

abbrev complex : PciRootComplex
complex = record { current_address = 0; devices = (8, bridge) ∷ [] }

abbrev address : PortWriteRequest
address = four_bytes 0x80 0x00 0x08 0x00

only_bridge :
    (device : PciDevice)
    → BTreeMap.get compare (bdf_of 0x80000800) complex.devices ≡ some device
    → length device.config_space ≡ 64
unfolding BTreeMap.get
only_bridge device h = ground arith

config_read_lem_example :
    let after = (Pci.on_event complex (port_write pci_config_address address)).device in
    let answer = Pci.on_event after (port_read (pci_config_data + 2) byte) in
    (after.devices ≡ complex.devices)
    × ((Pci.on_event after (port_read pci_config_address byte)).kind
        ≡ port_read pci_config_address (filled byte (2 ^ 31 + 0x80000800 % 2 ^ 31)))
    × (answer.device ≡ after)
    × (answer.kind
        ≡ port_read (pci_config_data + 2) (
            filled byte
              (shown (BTreeMap.get compare (bdf_of 0x80000800) complex.devices) 0x80000800 2)))
config_read_lem_example =
    config_read_lem complex address 0x80000800 2 byte (unfold try_into_u32 in refl) (omega arith)
      (omega arith) only_bridge

abbrev cmos_registers : List CmosRegister
cmos_registers =
    seconds ∷ seconds_alarm ∷ minutes ∷ minutes_alarm ∷ hours ∷ hours_alarm ∷ day_of_week
    ∷ day_of_month ∷ month ∷ year ∷ status_register_a ∷ status_register_b ∷ status_register_c
    ∷ status_register_d ∷ diagnostic_status ∷ shutdown_status ∷ diskette_drive_type
    ∷ fixed_disk_drive_type ∷ equipment ∷ base_system_memory_lsb ∷ base_system_memory_msb
    ∷ total_extended_memory_lsb ∷ total_extended_memory_msb ∷ drive_c_extension ∷ drive_d_extension
    ∷ cmos_checksum_msb ∷ cmos_checksum_lsb ∷ extended_post_mem_lsb ∷ extended_post_mem_msb
    ∷ bcd_century_date ∷ info_flags ∷ qemu_mem_above_16mb_lsb ∷ qemu_mem_above_16mb_msb
    ∷ qemu_mem_above_4gb_lsb ∷ qemu_mem_above_4gb_mmsb ∷ qemu_mem_above_4gb_msb ∷ unknown ∷ []

pub cmos_registers-found :
    (r : CmosRegister) → search_code cmos_code cmos_registers (cmos_code r) ≡ some r
unfolding cmos_code
cmos_registers-found seconds = refl
cmos_registers-found seconds_alarm = refl
cmos_registers-found minutes = refl
cmos_registers-found minutes_alarm = refl
cmos_registers-found hours = refl
cmos_registers-found hours_alarm = refl
cmos_registers-found day_of_week = refl
cmos_registers-found day_of_month = refl
cmos_registers-found month = refl
cmos_registers-found year = refl
cmos_registers-found status_register_a = refl
cmos_registers-found status_register_b = refl
cmos_registers-found status_register_c = refl
cmos_registers-found status_register_d = refl
cmos_registers-found diagnostic_status = refl
cmos_registers-found shutdown_status = refl
cmos_registers-found diskette_drive_type = refl
cmos_registers-found fixed_disk_drive_type = refl
cmos_registers-found equipment = refl
cmos_registers-found base_system_memory_lsb = refl
cmos_registers-found base_system_memory_msb = refl
cmos_registers-found total_extended_memory_lsb = refl
cmos_registers-found total_extended_memory_msb = refl
cmos_registers-found drive_c_extension = refl
cmos_registers-found drive_d_extension = refl
cmos_registers-found cmos_checksum_msb = refl
cmos_registers-found cmos_checksum_lsb = refl
cmos_registers-found extended_post_mem_lsb = refl
cmos_registers-found extended_post_mem_msb = refl
cmos_registers-found bcd_century_date = refl
cmos_registers-found info_flags = refl
cmos_registers-found qemu_mem_above_16mb_lsb = refl
cmos_registers-found qemu_mem_above_16mb_msb = refl
cmos_registers-found qemu_mem_above_4gb_lsb = refl
cmos_registers-found qemu_mem_above_4gb_mmsb = refl
cmos_registers-found qemu_mem_above_4gb_msb = refl
cmos_registers-found unknown = refl

abbrev vga_registers : List VgaRegister
vga_registers =
    horizontal_total_chars ∷ horizontal_chars_per_line ∷ horizontal_sync_position
    ∷ horizontal_sync_width_in_chars ∷ vertical_total_lines ∷ vertical_total_adjust
    ∷ vertical_displayed_rows ∷ vertical_sync_position ∷ interlace_mode ∷ max_scan_line_addr
    ∷ cursor_start ∷ cursor_end ∷ start_addr_msb ∷ start_addr_lsb ∷ cursor_addr_msb
    ∷ cursor_addr_lsb ∷ []

pub vga_registers-found :
    (r : VgaRegister) → search_code vga_code vga_registers (vga_code r) ≡ some r
unfolding vga_code
vga_registers-found horizontal_total_chars = refl
vga_registers-found horizontal_chars_per_line = refl
vga_registers-found horizontal_sync_position = refl
vga_registers-found horizontal_sync_width_in_chars = refl
vga_registers-found vertical_total_lines = refl
vga_registers-found vertical_total_adjust = refl
vga_registers-found vertical_displayed_rows = refl
vga_registers-found vertical_sync_position = refl
vga_registers-found interlace_mode = refl
vga_registers-found max_scan_line_addr = refl
vga_registers-found cursor_start = refl
vga_registers-found cursor_end = refl
vga_registers-found start_addr_msb = refl
vga_registers-found start_addr_lsb = refl
vga_registers-found cursor_addr_msb = refl
vga_registers-found cursor_addr_lsb = refl

abbrev pub cmos_codes : TryFromPrimitive cmos_code
cmos_codes = record {
  try_from = search_code cmos_code cmos_registers;
  try_from-code = cmos_registers-found;
  code-try_from = code-search_code cmos_code cmos_registers;
}

abbrev clock : CmosRtc
clock = record { addr = seconds; bytes = λ _. 0 }

select_write_read_example :
    let selected =
      (Rtc.on_event cmos_codes clock (port_write rtc_address (one_byte 0x8e))).device in
    let written = (Rtc.on_event cmos_codes selected (port_write rtc_data (one_byte 0xff))).device in
    ((Rtc.on_event cmos_codes selected (port_read rtc_address byte)).kind
      ≡ port_read rtc_address (filled byte (cmos_code diagnostic_status)))
    × ((Rtc.on_event cmos_codes written (port_read rtc_data byte)).kind
        ≡ port_read rtc_data (
            filled byte (
              if write_ignored diagnostic_status
              then clock.bytes (cmos_code diagnostic_status)
              else 0xff % 2 ^ 7)))
    × ((j : ℕ)
        → written.bytes j ≡ (
            if j == cmos_code diagnostic_status && not (write_ignored diagnostic_status)
            then 0xff % 2 ^ 7
            else clock.bytes j))
select_write_read_example =
    select_write_read cmos_codes clock diagnostic_status 0x8e 0xff byte (unfold cmos_code in refl)

abbrev pub vga_codes : TryFromPrimitive vga_code
vga_codes = record {
  try_from = search_code vga_code vga_registers;
  try_from-code = vga_registers-found;
  code-try_from = code-search_code vga_code vga_registers;
}

abbrev display : VgaController
display = record {
  index = horizontal_total_chars;
  registers = 0 ∷ 1 ∷ 2 ∷ 3 ∷ 4 ∷ 5 ∷ 6 ∷ 7 ∷ 8 ∷ 9 ∷ 10 ∷ 11 ∷ 12 ∷ 13 ∷ 14 ∷ 15 ∷ [];
}

index_and_data_write_example :
    let code = vga_code cursor_addr_lsb in
    let pair = Vga.on_event vga_codes display (port_write vga_index (two_bytes 0x50 code)) in
    let selected = Vga.on_event vga_codes display (port_write vga_index (one_byte code)) in
    let written = Vga.on_event vga_codes selected.device (port_write vga_data (one_byte 0x50)) in
    (pair.device ≡ written.device)
    × (pair.result ≡ ok tt)
    × IsComplete pair.device
    × ((Vga.on_event vga_codes pair.device (port_read vga_data byte)).kind
        ≡ port_read vga_data (filled byte 0x50))
    × ((s : VgaRegister)
        → value_of pair.device s ≡ (if vga_code s == code then 0x50 else value_of display s))
index_and_data_write_example = index_and_data_write vga_codes display cursor_addr_lsb 0x50 byte refl
