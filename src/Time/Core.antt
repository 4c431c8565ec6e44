-- ===== src/Time/Core.antt =====
-- The timers of a core (mythril/src/time.rs): the wheel of the core that runs, its clock, what its local APIC was
-- last asked to schedule, and the queues through which a timer of another core is cancelled.
use mythril.Prelude.{ℕ, Bool, true, ◌==◌, if◌then◌else◌, Option, none, some}
use mythril.Error.{ok}
use mythril.Error.Run.{Run, zoom}
use mythril.Time.{
  Clock, TimerWheel, TimerId, ReadyTimer, TimerInterruptType, one_shot, periodic, Stepped,
  register_timer, remove_timer, now,
}
use mythril.Vm.Messages.{VirtualMachineSet, cancel_timer as cancel_msg, send_msg_core}

pub record Timing : Type 0 where
  pub wheel : TimerWheel
  pub clock : Clock
  pub scheduled : Option ℕ
  pub machines : VirtualMachineSet

-- A call that was not asked to schedule leaves what was scheduled.
abbrev pub rescheduled : Option ℕ → Option ℕ → Option ℕ
rescheduled old none = old
rescheduled old (some when) = some when

abbrev pub after : {A : Type 0} → Timing → Stepped A → Timing
after self stepped = record self {
  wheel = stepped.wheel;
  clock = stepped.clock;
  scheduled = rescheduled self.scheduled stepped.scheduled;
}

module _ (frequency core_id : ℕ) where
  unfoldable pub is_local_timer : TimerId → Bool
  is_local_timer id = id.core_id == core_id

  unfoldable pub cancel_timer : TimerId → Run Timing (Unit {0})
  unfolding is_local_timer
  cancel_timer id self =
      if is_local_timer id
      then (after self (remove_timer frequency self.wheel self.clock id), ok tt)
      else zoom (λ s. s.machines) (λ m s. record s { machines = m })
          (send_msg_core (cancel_msg id) id.core_id true) self

  set_timer : ReadyTimer → Run Timing TimerId
  set_timer timer self =
      let stepped = register_timer frequency core_id self.wheel self.clock timer in
      (after self stepped, ok stepped.result)

  unfoldable pub set_oneshot_timer : ℕ → TimerInterruptType → Run Timing TimerId
  unfolding set_timer
  set_oneshot_timer duration kind =
      set_timer (record { duration = duration; mode = one_shot; kind = kind })

  unfoldable pub set_periodic_timer : ℕ → TimerInterruptType → Run Timing TimerId
  unfolding set_timer
  set_periodic_timer interval kind =
      set_timer (record { duration = interval; mode = periodic; kind = kind })

-- `time::now()`.
abbrev pub read_clock : Run Timing ℕ
read_clock self =
    let (reading, clock) = now self.clock in (record self { clock = clock }, ok reading)
