-- ===== src/Time/Schedule.antt =====
-- The instant that the APIC is given: the first at which a timer elapses.
use mythril.Prelude.{
  ℕ, ◌≤◌, ◌≡◌, refl, arith, ◌⊎◌, inl, inr, ltb, List, [], ◌∷◌, Option, none, some, Bool-cases,
}
use mythril.Time.{
  TimerId, TimerWheel, Timers, elapses_at, soonest, update_interrupt_timer, ReadyTimer, Clock,
  TimerInterruptType, expire_rest, expire_elapsed_timers, register_timer, remove_timer,
  elapsed_oneshots, remove_elapsed, reset_periodic,
}
use mythril.Error.{Result, ok, err, panic}

module _ (frequency : ℕ) where
  abbrev pub AllLater : ℕ → Timers → Type 0
  AllLater when [] = Unit {0}
  AllLater when ((id, t) ∷ timers) = (when ≤ elapses_at frequency t) × AllLater when timers

  abbrev pub SomeAt : ℕ → Timers → Type 0
  SomeAt when [] = ⊥
  SomeAt when ((id, t) ∷ timers) = (when ≡ elapses_at frequency t) ⊎ SomeAt when timers

  AllLater-le : (a b : ℕ) (timers : Timers) → a ≤ b → AllLater b timers → AllLater a timers
  AllLater-le a b [] h l = tt
  AllLater-le a b ((id, t) ∷ timers) h l = (omega arith, AllLater-le a b timers h l.1)

  soonest_cases :
      (timers : Timers)
      → ((timers ≡ []) × (soonest frequency timers ≡ none))
        ⊎ ((when : ℕ) × (soonest frequency timers ≡ some when)
            × AllLater when timers
            × SomeAt when timers)
  unfolding soonest
  soonest_cases [] = inl (refl, refl)
  soonest_cases ((id, t) ∷ timers) = inr (elim (soonest_cases timers) [
    | inl (e, n) ↦ (elapses_at frequency t, rw n refl, (omega arith, rw e tt), inl refl)
    | inr (when, e, later, at) ↦ elim (Bool-cases (ltb when (elapses_at frequency t))) [
      | inl first ↦ (when, rw (e, first) refl, (ground arith, later), inr at)
      | inr second ↦ (
        elapses_at frequency t,
        rw (e, second) refl,
        (omega arith, AllLater-le (elapses_at frequency t) when timers (ground arith) later),
        inl refl,
      )
    ]
  ])

  -- The instant for a wheel: none for no timer, else one at which a timer elapses and before which
  -- none does.
  abbrev pub Scheduled : TimerWheel → Option ℕ → Type 0
  Scheduled wheel scheduled =
      ((wheel.timers ≡ []) × (scheduled ≡ none))
      ⊎ ((when : ℕ) × (scheduled ≡ some when)
          × AllLater when wheel.timers
          × SomeAt when wheel.timers)

  update_interrupt_timer-Scheduled :
      (wheel : TimerWheel) → Scheduled wheel (update_interrupt_timer frequency wheel)
  unfolding update_interrupt_timer
  update_interrupt_timer-Scheduled wheel = soonest_cases wheel.timers

  expire_rest-Scheduled :
      (self : TimerWheel) (clock : Clock) (r : Result (Timers × List TimerInterruptType))
      (kinds : List TimerInterruptType)
      → let after = expire_rest frequency self clock r in
        after.result ≡ ok kinds → Scheduled after.wheel after.scheduled
  unfolding expire_rest
  expire_rest-Scheduled self clock (ok p) kinds h =
      update_interrupt_timer-Scheduled
        (record self { timers = (reset_periodic frequency clock p.0 p.1).0 })
  expire_rest-Scheduled self clock (err e) kinds h = cc
  expire_rest-Scheduled self clock panic kinds h = cc

  -- Registering a timer, removing one, and expiring timers without a panic each give the APIC an
  -- instant for the wheel that they leave: one at which some timer of it elapses, and at or after
  -- which all of them do; they give it none only where no timer is left.
  pub calls_schedule_soonest :
      (core_id : ℕ) (self : TimerWheel) (clock : Clock) (timer : ReadyTimer) (id : TimerId)
      (kinds : List TimerInterruptType)
      → (expire_elapsed_timers frequency self clock).result ≡ ok kinds
      → let registered = register_timer frequency core_id self clock timer in
        let removed = remove_timer frequency self clock id in
        let expired = expire_elapsed_timers frequency self clock in
        Scheduled registered.wheel registered.scheduled
        × Scheduled removed.wheel removed.scheduled
        × Scheduled expired.wheel expired.scheduled
  unfolding register_timer remove_timer expire_elapsed_timers
  calls_schedule_soonest core_id self clock timer id kinds h = (
    update_interrupt_timer-Scheduled (register_timer frequency core_id self clock timer).wheel,
    update_interrupt_timer-Scheduled (remove_timer frequency self clock id).wheel,
    expire_rest-Scheduled self (elapsed_oneshots frequency clock self.timers).1
        (remove_elapsed (elapsed_oneshots frequency clock self.timers).0 self.timers []) kinds h,
  )
