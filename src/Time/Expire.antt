-- ===== src/Time/Expire.antt =====
-- Which timers expire, and what they leave in the wheel.
use mythril.Prelude.{
  ℕ, ◌+◌, ◌≡◌, refl, sym, subst, ap, inl, inr, List, [], ◌∷◌, ◌++◌, length, Bool-cases,
}
use mythril.Error.{ok}
use mythril.Time.{TimerInterruptType, TimerWheel, Timers, Clock, expire_rest, expire_elapsed_timers}
use mythril.Time.Register.{Below, Differs, Distinct, IsIssued}
use mythril.Time.Fire.{
  once_kinds, once_rest, again_kinds, again_rest, fires_once, elapsed_oneshots-ids, remove_once,
  reset_periodic-again,
}

module _ (frequency : ℕ) where
  expire_result :
      (self : TimerWheel) (clock : Clock)
      → Distinct self.timers
      → let kept = once_rest frequency clock.readings clock.taken self.timers in
        let middle : Clock = record clock { taken = clock.taken + length self.timers } in
        expire_elapsed_timers frequency self clock
        ≡ expire_rest frequency self middle
            (ok (kept, once_kinds frequency clock.readings clock.taken self.timers))
  unfolding expire_elapsed_timers
  expire_result self clock d =
      let ids = elapsed_oneshots-ids frequency clock self.timers in
      rw (ids.0, ids.1, remove_once frequency clock.readings clock.taken self.timers [] d) refl

  expire_rest_result :
      (self : TimerWheel) (clock : Clock) (timers : Timers) (kinds : List TimerInterruptType)
      → let after = expire_rest frequency self clock (ok (timers, kinds)) in
        (after.result ≡ ok (kinds ++ again_kinds frequency clock.readings clock.taken timers))
        × (after.wheel
            ≡ record self { timers = again_rest frequency clock.readings clock.taken timers })
        × (after.clock ≡ record clock { taken = clock.taken + length timers })
  unfolding expire_rest
  expire_rest_result self clock timers kinds =
      let e = reset_periodic-again frequency clock timers kinds in
      (ap ok e.1, ap (λ l. record self { timers = l }) e.0, e.2)

  once_rest-Below :
      (readings : ℕ → ℕ) (n hi : ℕ) (timers : Timers)
      → Below hi timers
      → Below hi (once_rest frequency readings n timers)
  once_rest-Below readings n hi [] h = tt
  once_rest-Below readings n hi ((id, t) ∷ timers) h =
      let rest = once_rest-Below readings (n + 1) hi timers h.1 in
      elim (Bool-cases (fires_once frequency (readings n) t)) [
        | inl fires ↦ rw fires rest
        | inr stays ↦ rw stays (h.0, rest)
      ]

  once_rest-Differs :
      (readings : ℕ → ℕ) (n k : ℕ) (timers : Timers)
      → Differs k timers
      → Differs k (once_rest frequency readings n timers)
  once_rest-Differs readings n k [] h = tt
  once_rest-Differs readings n k ((id, t) ∷ timers) h =
      let rest = once_rest-Differs readings (n + 1) k timers h.1 in
      elim (Bool-cases (fires_once frequency (readings n) t)) [
        | inl fires ↦ rw fires rest
        | inr stays ↦ rw stays (h.0, rest)
      ]

  once_rest-Distinct :
      (readings : ℕ → ℕ) (n : ℕ) (timers : Timers)
      → Distinct timers
      → Distinct (once_rest frequency readings n timers)
  once_rest-Distinct readings n [] h = tt
  once_rest-Distinct readings n ((id, t) ∷ timers) h =
      let rest = once_rest-Distinct readings (n + 1) timers h.1 in
      elim (Bool-cases (fires_once frequency (readings n) t)) [
        | inl fires ↦ rw fires rest
        | inr stays ↦ rw stays (once_rest-Differs readings (n + 1) id.timer_id timers h.0, rest)
      ]

  again_rest-Below :
      (readings : ℕ → ℕ) (n hi : ℕ) (timers : Timers)
      → Below hi timers
      → Below hi (again_rest frequency readings n timers)
  again_rest-Below readings n hi [] h = tt
  again_rest-Below readings n hi ((id, t) ∷ timers) h =
      (h.0, again_rest-Below readings (n + 1) hi timers h.1)

  again_rest-Differs :
      (readings : ℕ → ℕ) (n k : ℕ) (timers : Timers)
      → Differs k timers
      → Differs k (again_rest frequency readings n timers)
  again_rest-Differs readings n k [] h = tt
  again_rest-Differs readings n k ((id, t) ∷ timers) h =
      (h.0, again_rest-Differs readings (n + 1) k timers h.1)

  again_rest-Distinct :
      (readings : ℕ → ℕ) (n : ℕ) (timers : Timers)
      → Distinct timers
      → Distinct (again_rest frequency readings n timers)
  again_rest-Distinct readings n [] h = tt
  again_rest-Distinct readings n ((id, t) ∷ timers) h = (
    again_rest-Differs readings (n + 1) id.timer_id timers h.0,
    again_rest-Distinct readings (n + 1) timers h.1,
  )

  -- Where the timers of a wheel have distinct numbers below its counter, expiring never panics. The
  -- clock is read once for each timer, and once more for each that stays. The interrupts are those of
  -- the one-shot timers that elapsed at their readings, in the order of the wheel, and then those of
  -- the periodic timers that did. The former timers are gone, the latter are started again one period
  -- after their last start, whatever the reading, and all others stay as they were. The numbers are
  -- still distinct and below the counter.
  pub expire_elapsed_timers_lem :
      (self : TimerWheel) (clock : Clock)
      → IsIssued self
      → let kept = once_rest frequency clock.readings clock.taken self.timers in
        let middle = clock.taken + length self.timers in
        let after = expire_elapsed_timers frequency self clock in
        (after.result
          ≡ ok (
              once_kinds frequency clock.readings clock.taken self.timers
              ++ again_kinds frequency clock.readings middle kept))
        × (after.wheel ≡ record self { timers = again_rest frequency clock.readings middle kept })
        × (after.clock ≡ record clock { taken = middle + length kept })
        × IsIssued after.wheel
  expire_elapsed_timers_lem self clock h =
      let readings = clock.readings in
      let kept = once_rest frequency readings clock.taken self.timers in
      let middle = clock.taken + length self.timers in
      let rest =
        expire_rest_result self (record clock { taken = middle }) kept
          (once_kinds frequency readings clock.taken self.timers) in
      let issued : IsIssued (record self { timers = again_rest frequency readings middle kept }) =
        record {
          below =
              again_rest-Below readings middle self.counter kept
                (once_rest-Below readings clock.taken self.counter self.timers h.below);
          distinct =
              again_rest-Distinct readings middle kept
                (once_rest-Distinct readings clock.taken self.timers h.distinct);
        } in
      rw (expire_result self clock h.distinct)
        (rest.0, rest.1, rest.2, subst IsIssued (sym rest.1) issued)
