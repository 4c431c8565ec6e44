-- ===== src/Virtdev/Rtc/Memory.antt =====
-- The size of memory that a new clock reports in the registers 0x34 and 0x35.
use mythril.Prelude.{ℕ, ◌+◌, ◌-◌, ◌*◌, ◌^◌, ◌<◌, ◌≤◌, ◌≡◌, refl, arith}
use mythril.Prelude.Bits.{bit_and-ones}
use mythril.Error.{ok}
use mythril.Virtdev.Rtc.{
  CmosRtc, new, default_register_values, blocks_under_4gb, cmos_code, qemu_mem_above_16mb_lsb,
  qemu_mem_above_16mb_msb, status_register_d,
}

-- A new clock for a machine of 16 MiB up to less than 4 GiB holds, in its two registers for the memory
-- above 16 MiB, low byte and high byte, the number of blocks of 64 KiB that are there; the top bit of
-- status register D says that the battery works.
new_memory_size :
    (mem : ℕ)
    → 16 ≤ mem
    → mem < 2 ^ 12
    → (rtc : CmosRtc) × (new mem ≡ ok rtc)
      × ((rtc.bytes (cmos_code qemu_mem_above_16mb_lsb)
              + 2 ^ 8 * rtc.bytes (cmos_code qemu_mem_above_16mb_msb))
            * 64
          ≡ (mem - 16) * 1024)
      × (rtc.bytes (cmos_code qemu_mem_above_16mb_lsb) < 2 ^ 8)
      × (rtc.bytes (cmos_code qemu_mem_above_16mb_msb) < 2 ^ 8)
      × (rtc.bytes (cmos_code status_register_d) ≡ 2 ^ 7)
unfolding new default_register_values blocks_under_4gb cmos_code
new_memory_size mem low high =
    (_, refl, omega (arith, bit_and-ones 12 mem), omega arith, omega arith, refl)
