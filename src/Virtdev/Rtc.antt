-- ===== src/Virtdev/Rtc.antt =====
-- mythril/src/virtdev/rtc.rs: the CMOS clock's address and its 256 bytes, the array as a function of
-- its index. The conversion that num_enum derives for `CmosRegister` is a parameter.
pub mod Memory
pub mod Access
use mythril.Prelude.{
  ℕ, ◌+◌, ◌-◌, ◌*◌, ◌/◌, ◌%◌, ◌^◌, bit_and, ◌==◌, if◌then◌else◌, List, [], ◌∷◌, Option, none, some,
}
use mythril.Prelude.Word.{u8, u16, u64, ◌<<<◌, ◌>>>◌}
use mythril.Prelude.Primitive.{TryFromPrimitive}
use mythril.Error.{Result, ok, err, panic}
use mythril.Virtdev.PortRead.{PortReadRequest, copy_from_u32}
use mythril.Virtdev.PortWrite.{PortWriteRequest, try_into_u8}
use mythril.Virtdev.DeviceMap.{DeviceRegion, port_io}
use mythril.Virtdev.Event.{
  DeviceEvent, port_read, port_write, Outcome, ignored, answered, accepted, with_value,
}

pub data CmosRegister : Type 0 where
  seconds seconds_alarm minutes minutes_alarm hours hours_alarm : CmosRegister
  day_of_week day_of_month month year : CmosRegister
  status_register_a status_register_b status_register_c status_register_d : CmosRegister
  diagnostic_status shutdown_status diskette_drive_type fixed_disk_drive_type equipment :
      CmosRegister
  base_system_memory_lsb base_system_memory_msb : CmosRegister
  total_extended_memory_lsb total_extended_memory_msb : CmosRegister
  drive_c_extension drive_d_extension cmos_checksum_msb cmos_checksum_lsb : CmosRegister
  extended_post_mem_lsb extended_post_mem_msb bcd_century_date info_flags : CmosRegister
  qemu_mem_above_16mb_lsb qemu_mem_above_16mb_msb : CmosRegister
  qemu_mem_above_4gb_lsb qemu_mem_above_4gb_mmsb qemu_mem_above_4gb_msb unknown : CmosRegister

-- `register as u8`.
unfoldable pub cmos_code : CmosRegister → ℕ
cmos_code seconds = 0x00
cmos_code seconds_alarm = 0x01
cmos_code minutes = 0x02
cmos_code minutes_alarm = 0x03
cmos_code hours = 0x04
cmos_code hours_alarm = 0x05
cmos_code day_of_week = 0x06
cmos_code day_of_month = 0x07
cmos_code month = 0x08
cmos_code year = 0x09
cmos_code status_register_a = 0x0a
cmos_code status_register_b = 0x0b
cmos_code status_register_c = 0x0c
cmos_code status_register_d = 0x0d
cmos_code diagnostic_status = 0x0e
cmos_code shutdown_status = 0x0f
cmos_code diskette_drive_type = 0x10
cmos_code fixed_disk_drive_type = 0x12
cmos_code equipment = 0x14
cmos_code base_system_memory_lsb = 0x15
cmos_code base_system_memory_msb = 0x16
cmos_code total_extended_memory_lsb = 0x17
cmos_code total_extended_memory_msb = 0x18
cmos_code drive_c_extension = 0x19
cmos_code drive_d_extension = 0x1a
cmos_code cmos_checksum_msb = 0x2e
cmos_code cmos_checksum_lsb = 0x2f
cmos_code extended_post_mem_lsb = 0x30
cmos_code extended_post_mem_msb = 0x31
cmos_code bcd_century_date = 0x32
cmos_code info_flags = 0x33
cmos_code qemu_mem_above_16mb_lsb = 0x34
cmos_code qemu_mem_above_16mb_msb = 0x35
cmos_code qemu_mem_above_4gb_lsb = 0x5b
cmos_code qemu_mem_above_4gb_mmsb = 0x5c
cmos_code qemu_mem_above_4gb_msb = 0x5d
cmos_code unknown = 0xff

pub record CmosRtc : Type 0 where
  pub addr : CmosRegister
  pub bytes : ℕ → ℕ

abbrev pub rtc_address : ℕ
rtc_address = 0x0070

abbrev pub rtc_data : ℕ
rtc_data = 0x0071

-- `data[i] = v`.
abbrev pub store : (ℕ → ℕ) → ℕ → ℕ → ℕ → ℕ
store array i v j = if j == i then v else array j

-- The size in the memory registers: 64 KiB blocks above 16 MiB, with the subtraction at 64 bits.
unfoldable pub blocks_under_4gb : ℕ → ℕ
blocks_under_4gb mem =
    let megs_under_4gb = bit_and mem 0xfff in u16 (u64 (u64 (megs_under_4gb + 2 ^ 64 - 16) <<< 4))

unfoldable pub default_register_values : ℕ → ℕ → ℕ
unfolding cmos_code
default_register_values mem =
    let blocks = blocks_under_4gb mem in
    store
      (store (store (λ _. 0) (cmos_code status_register_d) 0b10000000)
        (cmos_code qemu_mem_above_16mb_lsb) (u8 blocks))
      (cmos_code qemu_mem_above_16mb_msb) (u8 (blocks >>> 8))

unfoldable pub new : ℕ → Result CmosRtc
new mem = ok (record { addr = seconds; bytes = default_register_values mem })

unfoldable pub services : List DeviceRegion
services = port_io (record { start = rtc_address; end = rtc_data }) ∷ []

unfoldable pub on_port_read : CmosRtc → ℕ → PortReadRequest → Result PortReadRequest
on_port_read self port val =
    if port == rtc_address
    then copy_from_u32 val (cmos_code self.addr)
    else if port == rtc_data
    then copy_from_u32 val (self.bytes (cmos_code self.addr))
    else panic

-- The write to the data port, by the register that the address selects.
unfoldable pub write_register : CmosRtc → CmosRegister → ℕ → CmosRtc
write_register self shutdown_status val = self
write_register self status_register_d val = self
write_register self status_register_c val = self
write_register self addr val = record self { bytes = store self.bytes (cmos_code addr) val }

abbrev pub or_unknown : Option CmosRegister → CmosRegister
or_unknown none = unknown
or_unknown (some register) = register

module _ (registers : TryFromPrimitive cmos_code) where
  abbrev write_byte : CmosRtc → ℕ → ℕ → CmosRtc × Result (Unit {0})
  write_byte self port byte =
      let val = bit_and byte 0x7f in
      if port == rtc_address
      then (record self { addr = or_unknown (registers.try_from val) }, ok tt)
      else if port == rtc_data
      then (write_register self self.addr val, ok tt)
      else (self, panic)

  unfoldable pub on_port_write : CmosRtc → ℕ → PortWriteRequest → CmosRtc × Result (Unit {0})
  on_port_write self port val = with_value self (try_into_u8 val) (write_byte self port)

  unfoldable pub on_event : CmosRtc → DeviceEvent → Outcome CmosRtc
  on_event self (port_read port val) = answered port val (self, on_port_read self port val)
  on_event self (port_write port val) = accepted port val (on_port_write self port val)
  on_event self kind = ignored self kind
