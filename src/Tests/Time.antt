-- ===== src/Tests/Time.antt =====
-- mythril/src/time.rs at concrete inputs.
use mythril.Prelude.{
  ℕ, ◌+◌, ◌*◌, ◌≤◌, ◌≡◌, refl, arith, [], ◌∷◌, ◌++◌, some, none, if◌then◌else◌, length,
}
use mythril.Prelude.BTreeMap
use mythril.Error.{ok}
use mythril.Time.{
  gsi, TimerId, TimerWheel, ReadyTimer, Clock, one_shot, periodic, start, get_timer, register_timer,
  remove_timer, expire_elapsed_timers, elapsed_oneshots, remove_elapsed, reset_periodic,
  expire_periodic, elapsed_at, sub_instant, is_periodic, cmp, expire_rest, reset,
}
use mythril.Prelude.Word.{u32}
use mythril.Virtdev.PortRead.{four_bytes}
use mythril.Virtdev.PortRead.Codec.{filled}
use mythril.Virtdev.Event.{port_read}
use mythril.Virtdev.Acpi
use mythril.Virtdev.Acpi.{AcpiRuntime, pmtimer}
use mythril.Virtdev.Acpi.Timer.{count_at, timer_reads_monotone}
use mythril.Time.Register.{IsIssued, same, register_remove_timer}
use mythril.Time.Fire.{once_kinds, once_rest, again_kinds, again_rest}
use mythril.Time.Expire.{expire_elapsed_timers_lem}
use mythril.Time.Schedule.{Scheduled, calls_schedule_soonest}

-- A source of one tick a nanosecond, and a clock that reads a hundred ticks more each time.
abbrev frequency : ℕ
frequency = 1_000_000_000

abbrev clock : Clock
clock = record { readings = λ n. 1000 + n * 100; taken = 0 }

-- A one-shot timer of 500 ticks, a periodic one of 300, and a one-shot that is not due.
abbrev wheel : TimerWheel
wheel = record {
  counter = 3;
  timers =
      (
        record { timer_id = 0; core_id = 0 },
        record { duration = 500; mode = one_shot; started = 200; kind = gsi 0 },
      )
      ∷ (
        record { timer_id = 1; core_id = 0 },
        record { duration = 300; mode = periodic; started = 400; kind = gsi 8 },
      )
      ∷ (
        record { timer_id = 2; core_id = 0 },
        record { duration = 5000; mode = one_shot; started = 900; kind = gsi 4 },
      )
      ∷ [];
}

wheel-IsIssued : IsIssued wheel
wheel-IsIssued = record {
  below = (omega arith, (omega arith, (omega arith, tt)));
  distinct = ground arith;
}

abbrev ready : ReadyTimer
ready = record { duration = 10; mode = one_shot; kind = gsi 1 }

register_remove_timer_example :
    let id : TimerId = record { timer_id = 1; core_id = 0 } in
    let registered = register_timer frequency 0 wheel clock ready in
    let removed = remove_timer frequency wheel clock id in
    ((j : TimerId)
      → get_timer registered.wheel j
        ≡ (if same j registered.result then some (start clock ready).0 else get_timer wheel j))
    × IsIssued registered.wheel
    × ((j : TimerId) → get_timer removed.wheel j ≡ (if same j id then none else get_timer wheel j))
    × IsIssued removed.wheel
register_remove_timer_example =
    register_remove_timer frequency 0 wheel clock ready (record { timer_id = 1; core_id = 0 })
      wheel-IsIssued (omega arith)

expire_elapsed_timers_lem_example :
    let kept = once_rest frequency clock.readings 0 wheel.timers in
    let after = expire_elapsed_timers frequency wheel clock in
    (after.result
      ≡ ok (
          once_kinds frequency clock.readings 0 wheel.timers
          ++ again_kinds frequency clock.readings 3 kept))
    × (after.wheel ≡ record wheel { timers = again_rest frequency clock.readings 3 kept })
    × (after.clock ≡ record clock { taken = 3 + length kept })
    × IsIssued after.wheel
expire_elapsed_timers_lem_example = expire_elapsed_timers_lem frequency wheel clock wheel-IsIssued

-- The first timer fires and the second fires again; the third stays.
wheel-fires : (expire_elapsed_timers frequency wheel clock).result ≡ ok (gsi 0 ∷ gsi 8 ∷ [])
unfolding expire_elapsed_timers elapsed_oneshots remove_elapsed expire_rest reset_periodic
    expire_periodic reset elapsed_at sub_instant is_periodic cmp BTreeMap.get BTreeMap.remove
wheel-fires = refl

calls_schedule_soonest_example :
    let id : TimerId = record { timer_id = 1; core_id = 0 } in
    let registered = register_timer frequency 0 wheel clock ready in
    let removed = remove_timer frequency wheel clock id in
    let expired = expire_elapsed_timers frequency wheel clock in
    Scheduled frequency registered.wheel registered.scheduled
    × Scheduled frequency removed.wheel removed.scheduled
    × Scheduled frequency expired.wheel expired.scheduled
calls_schedule_soonest_example =
    calls_schedule_soonest frequency 0 wheel clock ready (record { timer_id = 1; core_id = 0 })
      (gsi 0 ∷ gsi 8 ∷ []) wheel-fires

-- The ports of the ACPI tables, at the base that the machine gives them.
abbrev acpi : AcpiRuntime
acpi = record { pm_base = 0x600 }

timer_reads_monotone_example :
    let val = four_bytes 0 0 0 0 in
    let first = Acpi.on_event frequency 200 clock acpi (port_read (pmtimer acpi) val) in
    let second =
      Acpi.on_event frequency 200 first.1 first.0.device (port_read (pmtimer acpi) val) in
    (first.0.kind ≡ port_read (pmtimer acpi) (filled val (u32 (count_at frequency 200 1000))))
    × (second.0.kind ≡ port_read (pmtimer acpi) (filled val (u32 (count_at frequency 200 1100))))
    × (count_at frequency 200 1000 ≤ count_at frequency 200 1100)
timer_reads_monotone_example =
    timer_reads_monotone frequency 200 clock acpi (four_bytes 0 0 0 0) (omega arith) (omega arith)
      (omega arith) (omega arith) (omega arith)
