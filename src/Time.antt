-- ===== src/Time.antt =====
-- mythril/src/time.rs: instants, timers and the timer wheel of a core. The time source is not asked twice
-- for one reading: a clock holds the readings that its calls of `now` give, in order, and how many were
-- taken. A duration is its nanoseconds. The APIC is outside: what `schedule_interrupt` is called with is
-- a result.
pub mod Fire
pub mod Expire
pub mod Register
pub mod Schedule
pub mod Core
use mythril.Prelude.{
  ℕ, ◌+◌, ◌-◌, ◌*◌, ◌/◌, ◌%◌, ◌^◌, min, max, Bool, true, false, not, ◌&&◌, ltb, if◌then◌else◌, List,
  [], ◌∷◌, ◌++◌, Option, none, some, map, Ordering, compare,
}
use mythril.Prelude.BTreeMap
use mythril.Prelude.Word.{u64}
use mythril.Error.{Result, ok, err, panic, ◌>>=◌}

pub record Clock : Type 0 where
  pub readings : ℕ → ℕ
  pub taken : ℕ

abbrev pub now : Clock → ℕ × Clock
now clock = (clock.readings clock.taken, record clock { taken = clock.taken + 1 })

-- `InjectedInterruptType` of mythril/src/vcpu.rs.
pub data InjectedInterruptType : Type 0 where
  external_interrupt non_maskable_interrupt hardware_exception : InjectedInterruptType
  software_interrupt privileged_software_exception : InjectedInterruptType
  software_exception other_event : InjectedInterruptType

pub data TimerInterruptType : Type 0 where
  direct : ℕ → InjectedInterruptType → TimerInterruptType
  gsi : ℕ → TimerInterruptType

pub data TimerMode : Type 0 where
  one_shot periodic : TimerMode

pub record ReadyTimer : Type 0 where
  pub duration : ℕ
  pub mode : TimerMode
  pub kind : TimerInterruptType

pub record RunningTimer : Type 0 where
  pub duration : ℕ
  pub mode : TimerMode
  pub started : ℕ
  pub kind : TimerInterruptType

abbrev pub mode_is_periodic : TimerMode → Bool
mode_is_periodic periodic = true
mode_is_periodic one_shot = false

unfoldable pub is_periodic : RunningTimer → Bool
is_periodic self = mode_is_periodic self.mode

unfoldable pub start : Clock → ReadyTimer → RunningTimer × Clock
start clock self =
    let (reading, clock') = now clock in
    (
      record { duration = self.duration; mode = self.mode; started = reading; kind = self.kind },
      clock',
    )

unfoldable pub stop : RunningTimer → ReadyTimer
stop self = record { duration = self.duration; mode = self.mode; kind = self.kind }

pub record TimerId : Type 0 where
  pub timer_id : ℕ
  pub core_id : ℕ

-- The derived `Ord`.
unfoldable pub cmp : TimerId → TimerId → Ordering
cmp self other = elim (compare self.timer_id other.timer_id) [
  | Ordering.eq ↦ compare self.core_id other.core_id
  | Ordering.lt ↦ Ordering.lt
  | Ordering.gt ↦ Ordering.gt
]

abbrev pub Timers : Type 0
Timers = List (TimerId × RunningTimer)

pub record TimerWheel : Type 0 where
  pub counter : ℕ
  pub timers : Timers

unfoldable pub new : TimerWheel
new = record { counter = 0; timers = [] }

-- `self.timers[&id]`, which panics where there is none, and the loop that removes timers.
abbrev pub push_kind :
    Option RunningTimer → List TimerInterruptType → Result (List TimerInterruptType)
push_kind none interrupts = panic
push_kind (some timer) interrupts = ok (interrupts ++ (timer.kind ∷ []))

unfoldable pub remove_elapsed :
    List TimerId → Timers → List TimerInterruptType → Result (Timers × List TimerInterruptType)
remove_elapsed [] timers interrupts = ok (timers, interrupts)
remove_elapsed (id ∷ ids) timers interrupts =
    push_kind (BTreeMap.get cmp id timers) interrupts
    >>= remove_elapsed ids (BTreeMap.remove cmp id timers)

-- What a call leaves: the wheel, the clock, the instant that it schedules, and its result.
pub record Stepped (A : Type 0) : Type 0 where
  pub wheel : TimerWheel
  pub clock : Clock
  pub scheduled : Option ℕ
  pub result : A

unfoldable pub get_timer : TimerWheel → TimerId → Option RunningTimer
get_timer self id = BTreeMap.get cmp id self.timers

-- The ticks of a duration and the nanoseconds of ticks depend on the frequency of the time source.
module _ (frequency : ℕ) where
  -- `Instant + Duration` and `Instant - Instant`.
  unfoldable pub add_duration : ℕ → ℕ → ℕ
  add_duration self other = u64 (self + u64 (frequency * other / 1_000_000_000))

  unfoldable pub sub_instant : ℕ → ℕ → ℕ
  sub_instant self other = u64 ((max self other - min self other) * 1_000_000_000 / frequency)

  unfoldable pub elapsed_at : ℕ → RunningTimer → Bool
  elapsed_at reading self = ltb self.duration (sub_instant reading self.started)

  unfoldable pub elapses_at : RunningTimer → ℕ
  elapses_at self = add_duration self.started self.duration

  unfoldable pub reset : Clock → RunningTimer → RunningTimer × Clock
  reset clock self =
      if is_periodic self
      then (record self { started = elapses_at self }, clock)
      else let (reading, clock') = now clock in (record self { started = reading }, clock')

  -- `elapsed_oneshots`: the clock is read for each timer.
  unfoldable pub elapsed_oneshots : Clock → Timers → List TimerId × Clock
  elapsed_oneshots clock [] = ([], clock)
  elapsed_oneshots clock ((id, timer) ∷ timers) =
      let (reading, clock') = now clock in
      let (ids, clock'') = elapsed_oneshots clock' timers in
      ((if elapsed_at reading timer && not (is_periodic timer) then id ∷ ids else ids), clock'')

  -- One timer of the loop that resets periodic timers.
  unfoldable pub expire_periodic :
      Clock
      → RunningTimer
      → List TimerInterruptType
      → RunningTimer × List TimerInterruptType × Clock
  expire_periodic clock timer interrupts =
      let (reading, clock') = now clock in
      if elapsed_at reading timer && is_periodic timer
      then (let (again, clock'') = reset clock' timer in
          (again, interrupts ++ (timer.kind ∷ []), clock''))
      else (timer, interrupts, clock')

  unfoldable pub reset_periodic :
      Clock → Timers → List TimerInterruptType → Timers × List TimerInterruptType × Clock
  reset_periodic clock [] interrupts = ([], interrupts, clock)
  reset_periodic clock ((id, timer) ∷ timers) interrupts =
      let (timer', interrupts', clock') = expire_periodic clock timer interrupts in
      let (timers', interrupts'', clock'') = reset_periodic clock' timers interrupts' in
      ((id, timer') ∷ timers', interrupts'', clock'')

  -- `min_by` keeps the first of equal instants.
  unfoldable pub soonest : Timers → Option ℕ
  soonest [] = none
  soonest ((id, timer) ∷ timers) = earlier (elapses_at timer) (soonest timers)
    where
      earlier : ℕ → Option ℕ → Option ℕ
      earlier when none = some when
      earlier when (some other) = some (if ltb other when then other else when)

  -- What `update_interrupt_timer` schedules.
  unfoldable pub update_interrupt_timer : TimerWheel → Option ℕ
  update_interrupt_timer self = soonest self.timers

  -- After the one-shot timers that elapsed are gone.
  unfoldable pub expire_rest :
      TimerWheel
      → Clock
      → Result (Timers × List TimerInterruptType)
      → Stepped (Result (List TimerInterruptType))
  expire_rest self clock (ok (timers, interrupts)) =
      let (timers', interrupts', clock') = reset_periodic clock timers interrupts in
      let wheel : TimerWheel = record self { timers = timers' } in
      record {
        wheel = wheel;
        clock = clock';
        scheduled = update_interrupt_timer wheel;
        result = ok interrupts';
      }
  expire_rest self clock (err e) = record {
    wheel = self;
    clock = clock;
    scheduled = none;
    result = err e;
  }
  expire_rest self clock panic = record {
    wheel = self;
    clock = clock;
    scheduled = none;
    result = panic;
  }

  unfoldable pub expire_elapsed_timers :
      TimerWheel → Clock → Stepped (Result (List TimerInterruptType))
  expire_elapsed_timers self clock =
      let (ids, clock') = elapsed_oneshots clock self.timers in
      expire_rest self clock' (remove_elapsed ids self.timers [])

  -- `core_id` is what `read_core_id` answers.
  unfoldable pub register_timer : ℕ → TimerWheel → Clock → ReadyTimer → Stepped TimerId
  register_timer core_id self clock timer =
      let id : TimerId = record { timer_id = self.counter; core_id = core_id } in
      let (running, clock') = start clock timer in
      let wheel : TimerWheel = record {
        counter = u64 (self.counter + 1);
        timers = BTreeMap.insert cmp id running self.timers;
      } in
      record {
        wheel = wheel;
        clock = clock';
        scheduled = update_interrupt_timer wheel;
        result = id;
      }

  unfoldable pub remove_timer : TimerWheel → Clock → TimerId → Stepped (Unit {0})
  remove_timer self clock id =
      let wheel : TimerWheel = record self { timers = BTreeMap.remove cmp id self.timers } in
      record { wheel = wheel; clock = clock; scheduled = update_interrupt_timer wheel; result = tt }
