-- ===== src/Virtdev/Pit/Counter.antt =====
-- Counters that a guest writes to the first channel of the interval timer byte by byte
-- (mythril/src/virtdev/pit.rs).
use mythril.Prelude.{ℕ, ◌*◌, Bool, true, false, Option, some}
use mythril.Error.Run.{Run}
use mythril.Time.{
  TimerId, TimerMode, one_shot, periodic, ReadyTimer, Stepped, gsi, now, register_timer,
}
use mythril.Time.Core.{Timing}
use mythril.Virtdev.PortWrite.{one_byte}
use mythril.Virtdev.Pit.{
  Pit, stop, idle, Counting, ChannelState, OperatingModeState, mode_0, mode_2, word,
  pit_ns_per_tick, gsi_pit, on_port_write,
}

-- A control byte for words on channel 0, with the mode that repeats or with the other one.
abbrev pub word_control : Bool → ℕ
word_control true = 0b00110100
word_control false = 0b00110000

abbrev pub mode_of : Bool → Counting → OperatingModeState
mode_of true = mode_2
mode_of false = mode_0

abbrev timer_mode : Bool → TimerMode
timer_mode true = periodic
timer_mode false = one_shot

module _ (frequency core_id : ℕ) where
  -- The core's timers without the one that the channel had.
  abbrev pub stopped : Option TimerId → Timing → Timing
  stopped timer timing = (stop frequency core_id timer timing).0

  abbrev pub tick_timer : Bool → ℕ → ReadyTimer
  tick_timer repeats count = record {
    duration = pit_ns_per_tick * count;
    mode = timer_mode repeats;
    kind = gsi gsi_pit;
  }

  -- A timer for so many ticks is registered, after a reading of the clock.
  abbrev pub registered : Bool → ℕ → Timing → Stepped TimerId
  registered repeats count timing =
      register_timer frequency core_id timing.wheel (now timing.clock).1 (tick_timer repeats count)

  abbrev pub write : ℕ → ℕ → Run Pit (Unit {0})
  write port byte = on_port_write frequency core_id port (one_byte byte)

  -- The channel after a counter was written to it.
  abbrev pub counted : Bool → ℕ → ℕ → Timing → ChannelState
  counted repeats value lo timing = record {
    mode = mode_of repeats (record {
      start_counter = some value;
      timer = some (registered repeats value timing).result;
      start_time = some (now timing.clock).0;
    });
    access = word (some lo);
  }

  abbrev waiting_for : Bool → Option ℕ → ChannelState
  waiting_for repeats byte = record { mode = mode_of repeats idle; access = word byte }
