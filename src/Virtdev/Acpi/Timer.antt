-- ===== src/Virtdev/Acpi/Timer.antt =====
-- The power management timer over time.
use mythril.Prelude.{
  ℕ, ◌+◌, ◌-◌, ◌*◌, ◌/◌, ◌%◌, ◌^◌, ◌<◌, ◌≤◌, ◌≡◌, refl, ◌∙◌, ap, arith, min, max, ◌==◌, true,
}
use native.Mathlib.Nat.{div-mul-le_self, le-div_iff_mul-le}
use mythril.Prelude.Word.{u32}
use mythril.Virtdev.PortRead.{PortReadRequest}
use mythril.Virtdev.PortRead.Codec.{filled, copy_from_u32-filled}
use mythril.Virtdev.Event.{port_read}
use mythril.Virtdev.Acpi.{AcpiRuntime, pmtimer, pm_time, on_event, pmtimer_hz}
use mythril.Time.{Clock, sub_instant}

div-monotone : (k a b : ℕ) → 0 < k → a ≤ b → a / k ≤ b / k
div-monotone k a b pos h = (le-div_iff_mul-le pos).1 (omega (arith, div-mul-le_self a k))

word_kept : (x : ℕ) → x < 2 ^ 64 → x % 2 ^ 64 ≡ x
word_kept x h = omega arith

module _ (frequency start : ℕ) where
  -- The nanoseconds between the start and a reading.
  abbrev pub since_start : ℕ → ℕ
  since_start reading = (reading - start) * 1_000_000_000 / frequency

  -- The count of the timer, before it is cut to 32 bits.
  abbrev pub count_at : ℕ → ℕ
  count_at reading = since_start reading * pmtimer_hz / 1_000_000_000

  pm_time-since :
      (reading : ℕ)
      → start ≤ reading
      → since_start reading < 2 ^ 64
      → pm_time frequency start reading ≡ since_start reading * pmtimer_hz / 1_000_000_000
  unfolding pm_time sub_instant
  pm_time-since reading h fits =
      let ticks : max reading start - min reading start ≡ reading - start = omega arith in
      rw (ticks, word_kept (since_start reading) fits) refl

  on_event-timer :
      (clock : Clock) (self : AcpiRuntime) (val : PortReadRequest)
      → let v = u32 (pm_time frequency start (clock.readings clock.taken)) in
        ((on_event frequency start clock self (port_read (pmtimer self) val)).0.kind
          ≡ port_read (pmtimer self) (filled val v))
        × ((on_event frequency start clock self (port_read (pmtimer self) val)).1
            ≡ record clock { taken = clock.taken + 1 })
        × ((on_event frequency start clock self (port_read (pmtimer self) val)).0.device ≡ self)
  unfolding on_event
  on_event-timer clock self val =
      let v = u32 (pm_time frequency start (clock.readings clock.taken)) in
      let e : (pmtimer self == pmtimer self) ≡ true = ground arith in
      rw (e, copy_from_u32-filled val v) (refl, refl, refl)

  -- Two reads of the timer's port, one after the other: each fills in the count of the timer at its
  -- reading of the clock, 3579545 a second since the start, cut to 32 bits. Where the readings do not
  -- go back, from the start on, and the nanoseconds since then fit 64 bits, the count does not go
  -- back either.
  pub timer_reads_monotone :
      (clock : Clock) (self : AcpiRuntime) (val : PortReadRequest)
      → start ≤ clock.readings clock.taken
      → clock.readings clock.taken ≤ clock.readings (clock.taken + 1)
      → 0 < frequency
      → since_start (clock.readings clock.taken) < 2 ^ 64
      → since_start (clock.readings (clock.taken + 1)) < 2 ^ 64
      → let first = on_event frequency start clock self (port_read (pmtimer self) val) in
        let second =
          on_event frequency start first.1 first.0.device (port_read (pmtimer self) val) in
        (first.0.kind
          ≡ port_read (pmtimer self) (filled val (u32 (count_at (clock.readings clock.taken)))))
        × (second.0.kind
            ≡ port_read
                (pmtimer self)
                (filled val (u32 (count_at (clock.readings (clock.taken + 1))))))
        × (count_at (clock.readings clock.taken) ≤ count_at (clock.readings (clock.taken + 1)))
  timer_reads_monotone clock self val h0 h1 pos fit0 fit1 =
      let r0 = clock.readings clock.taken in
      let r1 = clock.readings (clock.taken + 1) in
      let next : Clock = record clock { taken = clock.taken + 1 } in
      let one = on_event-timer clock self val in
      let two = on_event-timer next self val in
      let ns : since_start r0 ≤ since_start r1 =
        div-monotone frequency ((r0 - start) * 1_000_000_000) ((r1 - start) * 1_000_000_000) pos
          (omega arith) in
      (
        one.0 ∙ ap (λ v. port_read (pmtimer self) (filled val (u32 v))) (pm_time-since r0 h0 fit0),
        rw (one.1, one.2)
            (two.0
              ∙ ap (λ v. port_read (pmtimer self) (filled val (u32 v)))
                  (pm_time-since r1 (omega arith) fit1)),
        div-monotone 1_000_000_000 (since_start r0 * pmtimer_hz) (since_start r1 * pmtimer_hz)
            (omega arith) (omega (arith, ns)),
      )
