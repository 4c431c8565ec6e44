-- ===== src/Virtdev/Pit.antt =====
-- mythril/src/virtdev/pit.rs: the interval timer, with the constants of mythril/src/physdev/pit.rs. The device
-- sets timers of the core that runs, so its methods change the timers too (`Timing`).
pub mod Counter
use mythril.Prelude.{
  ℕ, ◌+◌, ◌*◌, ◌/◌, ◌%◌, ◌^◌, Bool, true, false, ◌==◌, ◌/=◌, ltb, within, if◌then◌else◌, List, [],
  ◌∷◌, Option, none, some, bit_and, bit_or,
}
use mythril.Prelude.Word.{u16, ◌<<<◌, ◌>>>◌}
use mythril.Error.{Result, ok, err, panic, invalid_value}
use mythril.Error.Run.{Run, continue, ◌>>=◌, ◌>>◌, lift, modify, gets, done, zoom}
use mythril.Time.{TimerId, gsi, sub_instant}
use mythril.Time.Core.{Timing, cancel_timer, set_oneshot_timer, set_periodic_timer, read_clock}
use mythril.Virtdev.PortRead.{PortReadRequest, copy_from_u32}
use mythril.Virtdev.PortWrite.{PortWriteRequest, try_into_u8}
use mythril.Virtdev.DeviceMap.{DeviceRegion, port_io}
use mythril.Virtdev.Event.{
  DeviceEvent, port_read, port_write, mem_read, mem_write, host_uart_received, Outcome, ignored,
  answered, accepted,
}

abbrev pub pit_ns_per_tick : ℕ
pit_ns_per_tick = 838

abbrev pub pit_counter_0 : ℕ
pit_counter_0 = 0x0040

abbrev pub pit_counter_1 : ℕ
pit_counter_1 = 0x0041

abbrev pub pit_counter_2 : ℕ
pit_counter_2 = 0x0042

abbrev pub pit_mode_control : ℕ
pit_mode_control = 0x0043

abbrev pub pit_ps2_ctrl_b : ℕ
pit_ps2_ctrl_b = 0x0061

-- `interrupt::gsi::PIT` of mythril/src/interrupt/mod.rs.
abbrev pub gsi_pit : ℕ
gsi_pit = 0

-- The fields that both modes have.
pub record Counting : Type 0 where
  pub start_counter : Option ℕ
  pub timer : Option TimerId
  pub start_time : Option ℕ

abbrev pub idle : Counting
idle = record { start_counter = none; timer = none; start_time = none }

pub data OperatingModeState : Type 0 where
  mode_0 mode_2 : Counting → OperatingModeState

pub data AccessModeState : Type 0 where
  latch_count lo_byte hi_byte : AccessModeState
  word : Option ℕ → AccessModeState

pub record ChannelState : Type 0 where
  pub mode : OperatingModeState
  pub access : AccessModeState

pub record Pit8254 : Type 0 where
  pub channel0 : ChannelState
  pub channel2 : ChannelState

abbrev pub default_channel : ChannelState
default_channel = record { mode = mode_0 idle; access = lo_byte }

unfoldable pub new : Pit8254
new = record { channel0 = default_channel; channel2 = default_channel }

abbrev pub timer_of : OperatingModeState → Option TimerId
timer_of (mode_0 c) = c.timer
timer_of (mode_2 c) = c.timer

-- The channels that are supported.
pub data Channel : Type 0 where
  channel_0 channel_2 : Channel

abbrev pub channel_of : Channel → Pit8254 → ChannelState
channel_of channel_0 self = self.channel0
channel_of channel_2 self = self.channel2

abbrev pub with_channel : Channel → ChannelState → Pit8254 → Pit8254
with_channel channel_0 c self = record self { channel0 = c }
with_channel channel_2 c self = record self { channel2 = c }

abbrev pub Pit : Type 0
Pit = Pit8254 × Timing

abbrev pub on_timing : {A : Type 0} → Run Timing A → Run Pit A
on_timing = zoom (λ s. s.1) (λ t s. (s.0, t))

-- The parts of a control byte: the mode, the access and the channel, in the order of their checks.
unfoldable pub operating_state : ℕ → Result OperatingModeState
operating_state val =
    let operating = bit_and 0b00001110 val >>> 1 in
    if bit_and val 0b00000001 /= 0
    then err invalid_value
    else if operating == 0b000
    then ok (mode_0 idle)
    else if operating == 0b010
    then ok (mode_2 idle)
    else err invalid_value

unfoldable pub access_state : ℕ → Result AccessModeState
access_state val =
    let access = bit_and 0b00110000 val >>> 4 in
    if access == 0b00
    then ok latch_count
    else if access == 0b01
    then ok lo_byte
    else if access == 0b10
    then ok hi_byte
    else if access == 0b11
    then ok (word none)
    else err invalid_value

unfoldable pub channel : ℕ → Result Channel
channel val =
    let channel = bit_and 0b11000000 val >>> 6 in
    if channel == 0b00
    then ok channel_0
    else if channel == 0b10
    then ok channel_2
    else err invalid_value

-- The counter that a byte completes, or the state that waits for the next byte.
pub data Loaded : Type 0 where
  counter : ℕ → Loaded
  waiting : AccessModeState → Loaded

unfoldable pub load : AccessModeState → ℕ → Result Loaded
load lo_byte val = ok (counter val)
load hi_byte val = ok (counter (val <<< 8))
load (word none) val = ok (waiting (word (some val)))
load (word (some lo)) val = ok (counter (bit_or (val <<< 8) lo))
load latch_count val = panic

unfoldable pub counter_channel : ℕ → Result Channel
counter_channel port =
    if port == pit_counter_0
    then ok channel_0
    else if port == pit_counter_1
    then err invalid_value
    else ok channel_2

module _ (frequency core_id : ℕ) where
  -- A timer that runs is stopped; whether that failed is not looked at.
  abbrev pub stop : Option TimerId → Run Timing (Unit {0})
  stop none self = (self, ok tt)
  stop (some id) self = ((cancel_timer frequency core_id id self).0, ok tt)

  set_channel : Channel → ChannelState → Run Pit (Unit {0})
  set_channel c state = modify (λ s. (with_channel c state (s.0), s.1))

  unfoldable pub write_control : ℕ → Run Pit (Unit {0})
  unfolding operating_state access_state channel set_channel
  write_control val = do
    mode ← lift (operating_state val)
    access ← lift (access_state val)
    c ← lift (channel val)
    current ← gets (λ s. channel_of c (s.0))
    on_timing (stop (timer_of current.mode))
    set_channel c (record { mode = mode; access = access })

  -- Only channel 0 has a timer; the one that it had is not stopped.
  arm : Channel → Option TimerId → Run Timing TimerId → Run Pit (Option TimerId)
  arm channel_0 old set = on_timing set >>= λ id. done (some id)
  arm channel_2 old set = done old

  restart : Channel → ℕ → Counting → Run Timing TimerId → Run Pit Counting
  unfolding arm
  restart c value old set = do
    start ← on_timing read_clock
    timer ← arm c old.timer set
    done (record { start_counter = some value; timer = timer; start_time = some start })

  start_mode : Channel → ℕ → OperatingModeState → Run Pit OperatingModeState
  unfolding restart
  start_mode c value (mode_0 old) =
      restart c value old
        (set_oneshot_timer frequency core_id (pit_ns_per_tick * value) (gsi gsi_pit))
      >>= λ now. done (mode_0 now)
  start_mode c value (mode_2 old) =
      restart c value old
        (set_periodic_timer frequency core_id (pit_ns_per_tick * value) (gsi gsi_pit))
      >>= λ now. done (mode_2 now)

  start_counting : Channel → ChannelState → Loaded → Run Pit (Unit {0})
  unfolding set_channel start_mode
  start_counting c state (waiting access) = set_channel c (record state { access = access })
  start_counting c state (counter value) =
      if value == 0
      then done tt
      else (start_mode c value state.mode >>= λ mode. set_channel c (record state { mode = mode }))

  unfoldable pub write_counter : ℕ → ℕ → Run Pit (Unit {0})
  unfolding load counter_channel start_counting
  write_counter port val = do
    c ← lift (counter_channel port)
    state ← gets (λ s. channel_of c (s.0))
    loaded ← lift (load state.access val)
    start_counting c state loaded

  unfoldable pub on_port_write : ℕ → PortWriteRequest → Run Pit (Unit {0})
  unfolding write_control write_counter
  on_port_write port val =
      if port == pit_mode_control
      then lift (try_into_u8 val) >>= write_control
      else if within pit_counter_0 pit_counter_2 port
      then lift (try_into_u8 val) >>= write_counter port
      else done tt

  -- The output of channel 2 is high once more ticks have passed than it counts.
  expired : PortReadRequest → Option ℕ → Option ℕ → Run Timing PortReadRequest
  expired val none start_counter = done val
  expired val (some start) none = done val
  expired val (some start) (some value) = read_clock >>= λ reading.
      if ltb value (u16 (sub_instant frequency reading start / pit_ns_per_tick))
      then lift (copy_from_u32 val (1 <<< 5))
      else done val

  read_output : PortReadRequest → OperatingModeState → Run Timing PortReadRequest
  unfolding expired
  read_output val (mode_0 c) = expired val c.start_time c.start_counter
  read_output val (mode_2 c) = done val

  unfoldable pub on_port_read : ℕ → PortReadRequest → Run Pit PortReadRequest
  unfolding read_output
  on_port_read port val s =
      if port == pit_ps2_ctrl_b
      then on_timing (read_output val (s.0).channel2.mode) s
      else (s, ok val)

  unfoldable pub on_event : Timing → Pit8254 → DeviceEvent → Timing × Outcome Pit8254
  unfolding on_port_read on_port_write
  on_event timing self (port_read port val) =
      let ((self', timing'), r) = on_port_read port val (self, timing) in
      (timing', answered port val (self', r))
  on_event timing self (port_write port val) =
      let ((self', timing'), r) = on_port_write port val (self, timing) in
      (timing', accepted port val (self', r))
  on_event timing self (mem_read addr request) = (timing, ignored self (mem_read addr request))
  on_event timing self (mem_write addr request) = (timing, ignored self (mem_write addr request))
  on_event timing self (host_uart_received key) = (timing, ignored self (host_uart_received key))

unfoldable pub services : List DeviceRegion
services =
    port_io (record { start = pit_counter_0; end = pit_mode_control })
    ∷ port_io (record { start = pit_ps2_ctrl_b; end = pit_ps2_ctrl_b })
    ∷ []
