-- ===== src/Virtdev/Acpi.antt =====
-- mythril/src/virtdev/acpi.rs: the ports that the ACPI tables name, and the power management timer. The
-- time source is a clock as in mythril/src/time.rs; `start` is what `system_start_time` answers.
pub mod Timer
use mythril.Prelude.{ℕ, ◌+◌, ◌*◌, ◌/◌, ◌==◌, if◌then◌else◌, List, [], ◌∷◌}
use mythril.Prelude.Word.{u16, u32}
use mythril.Error.{Result, ok}
use mythril.Virtdev.PortRead.{PortReadRequest, copy_from_u32}
use mythril.Virtdev.DeviceMap.{DeviceRegion, port_io}
use mythril.Virtdev.Event.{DeviceEvent, port_read, Outcome, ignored, answered}
use mythril.Time.{Clock, now, sub_instant}

abbrev pub pmtimer_hz : ℕ
pmtimer_hz = 3579545

pub record AcpiRuntime : Type 0 where
  pub pm_base : ℕ

unfoldable pub new : ℕ → Result AcpiRuntime
new pm_base = ok (record { pm_base = pm_base })

unfoldable pub pm1a_cnt : AcpiRuntime → ℕ
pm1a_cnt self = u16 (self.pm_base + 0x04)

unfoldable pub pmtimer : AcpiRuntime → ℕ
pmtimer self = u16 (self.pm_base + 0x08)

unfoldable pub services : AcpiRuntime → List DeviceRegion
services self =
    port_io (record { start = 0xb2; end = 0xb2 })
    ∷ port_io (record { start = pm1a_cnt self; end = pm1a_cnt self })
    ∷ port_io (record { start = pmtimer self; end = pmtimer self })
    ∷ port_io (record { start = 0xafe0; end = 0xafe3 })
    ∷ port_io (record { start = 0xae00; end = 0xae03 })
    ∷ port_io (record { start = 0xae04; end = 0xae07 })
    ∷ port_io (record { start = 0xae08; end = 0xae0b })
    ∷ port_io (record { start = 0xae0c; end = 0xae0f })
    ∷ []

module _ (frequency start : ℕ) where
  -- The value of the timer at a reading of the clock.
  unfoldable pub pm_time : ℕ → ℕ
  pm_time reading = sub_instant frequency reading start * pmtimer_hz / 1_000_000_000

  unfoldable pub on_event : Clock → AcpiRuntime → DeviceEvent → Outcome AcpiRuntime × Clock
  on_event clock self (port_read port val) =
      if port == pmtimer self
      then (let (reading, clock') = now clock in
          (answered port val (self, copy_from_u32 val (u32 (pm_time reading))), clock'))
      else (ignored self (port_read port val), clock)
  on_event clock self kind = (ignored self kind, clock)
