-- ===== src/Time/Fire.antt =====
-- The two passes over the timers: the one-shot timers that fire are collected and removed, and the
-- periodic ones that fire are started again.
use mythril.Prelude.{
  ℕ, suc, ◌+◌, ◌≡◌, ◌≢◌, refl, sym, ◌∙◌, ap, arith, inl, inr, Bool, true, false, not, ◌&&◌,
  if◌then◌else◌, List, [], ◌∷◌, ◌++◌, some, length, Bool-cases, Option-cases,
}
use mathlib.Core.List.{append-nil, append_assoc}
use mythril.Prelude.BTreeMap
use mythril.Error.{Result, ok, err, panic}
use mythril.Time.{
  TimerInterruptType, TimerId, Timers, RunningTimer, Clock, cmp, is_periodic, elapsed_at,
  elapses_at, remove_elapsed, elapsed_oneshots, expire_periodic, reset, reset_periodic,
}
use mythril.Time.Register.{Differs, Distinct, cmp_differs, cmp_same}

pub at_reading :
    (clock : Clock) (m n : ℕ) → m ≡ n → (record clock { taken = m }) ≡ (record clock { taken = n })
at_reading clock m n e = ap (λ k. record clock { taken = k }) e

get-other :
    (id k : TimerId) (u : RunningTimer) (timers : Timers)
    → id.timer_id ≢ k.timer_id
    → BTreeMap.get cmp id ((k, u) ∷ timers) ≡ BTreeMap.get cmp id timers
unfolding BTreeMap.get
get-other id k u timers h = ground (arith, cmp_differs id k h)

remove-other :
    (id k : TimerId) (u : RunningTimer) (timers : Timers)
    → id.timer_id ≢ k.timer_id
    → BTreeMap.remove cmp id ((k, u) ∷ timers) ≡ (k, u) ∷ BTreeMap.remove cmp id timers
unfolding BTreeMap.remove
remove-other id k u timers h = ground (arith, cmp_differs id k h)

one_more :
    (fired : Bool) (k : TimerInterruptType) (l : List TimerInterruptType)
    → (if fired then k ∷ [] else []) ++ l ≡ (if fired then k ∷ l else l)
one_more true k l = refl
one_more false k l = refl

get-same :
    (k : TimerId) (u : RunningTimer) (timers : Timers)
    → BTreeMap.get cmp k ((k, u) ∷ timers) ≡ some u
unfolding BTreeMap.get
get-same k u timers = ground (arith, cmp_same k)

remove-same :
    (k : TimerId) (u : RunningTimer) (timers : Timers)
    → BTreeMap.remove cmp k ((k, u) ∷ timers) ≡ timers
unfolding BTreeMap.remove
remove-same k u timers = ground (arith, cmp_same k)

module _ (frequency : ℕ) where
  -- Does a timer fire as a one-shot, or as a periodic one, at a reading?
  abbrev pub fires_once : ℕ → RunningTimer → Bool
  fires_once reading t = elapsed_at frequency reading t && not (is_periodic t)

  abbrev pub fires_again : ℕ → RunningTimer → Bool
  fires_again reading t = elapsed_at frequency reading t && is_periodic t

  -- The one-shot timers that fire, and the timers that stay, where the clock reads `readings n`,
  -- `readings (n + 1)`, ... for one timer after the other.
  abbrev pub once_kinds : (ℕ → ℕ) → ℕ → Timers → List TimerInterruptType
  once_kinds readings n [] = []
  once_kinds readings n ((id, t) ∷ timers) =
      if fires_once (readings n) t
      then t.kind ∷ once_kinds readings (n + 1) timers
      else once_kinds readings (n + 1) timers

  abbrev pub once_rest : (ℕ → ℕ) → ℕ → Timers → Timers
  once_rest readings n [] = []
  once_rest readings n ((id, t) ∷ timers) =
      if fires_once (readings n) t
      then once_rest readings (n + 1) timers
      else (id, t) ∷ once_rest readings (n + 1) timers

  -- The periodic timers that fire, and the timers with those started again one period later.
  abbrev pub again_kinds : (ℕ → ℕ) → ℕ → Timers → List TimerInterruptType
  again_kinds readings n [] = []
  again_kinds readings n ((id, t) ∷ timers) =
      if fires_again (readings n) t
      then t.kind ∷ again_kinds readings (n + 1) timers
      else again_kinds readings (n + 1) timers

  abbrev pub again_rest : (ℕ → ℕ) → ℕ → Timers → Timers
  again_rest readings n [] = []
  again_rest readings n ((id, t) ∷ timers) =
      (
        id,
        (if fires_again (readings n) t then record t { started = elapses_at frequency t } else t),
      )
      ∷ again_rest readings (n + 1) timers

  -- The identifiers that are collected, and the clock after it.
  abbrev pub once_ids : (ℕ → ℕ) → ℕ → Timers → List TimerId
  once_ids readings n [] = []
  once_ids readings n ((id, t) ∷ timers) =
      if fires_once (readings n) t
      then id ∷ once_ids readings (n + 1) timers
      else once_ids readings (n + 1) timers

  pub elapsed_oneshots-ids :
      (clock : Clock) (timers : Timers)
      → ((elapsed_oneshots frequency clock timers).0 ≡ once_ids clock.readings clock.taken timers)
        × ((elapsed_oneshots frequency clock timers).1
            ≡ record clock { taken = clock.taken + length timers })
  unfolding elapsed_oneshots
  elapsed_oneshots-ids clock [] =
      (refl, at_reading clock clock.taken (clock.taken + 0) (omega arith))
  elapsed_oneshots-ids clock ((id, t) ∷ timers) =
      let rest = elapsed_oneshots-ids (record clock { taken = clock.taken + 1 }) timers in
      (
        rw rest.0 refl,
        rest.1
            ∙ at_reading clock (clock.taken + 1 + length timers) (clock.taken + suc (length timers))
                (omega arith),
      )

  abbrev AllDiffer : ℕ → List TimerId → Type 0
  AllDiffer n [] = Unit {0}
  AllDiffer n (id ∷ ids) = (id.timer_id ≢ n) × AllDiffer n ids

  once_ids-AllDiffer :
      (readings : ℕ → ℕ) (n k : ℕ) (timers : Timers)
      → Differs k timers
      → AllDiffer k (once_ids readings n timers)
  once_ids-AllDiffer readings n k [] h = tt
  once_ids-AllDiffer readings n k ((id, t) ∷ timers) h =
      let rest = once_ids-AllDiffer readings (n + 1) k timers h.1 in
      elim (Bool-cases (fires_once (readings n) t)) [
        | inl fires ↦ rw fires (h.0, rest)
        | inr stays ↦ rw stays rest
      ]

  abbrev with_head :
      TimerId × RunningTimer
      → Result (Timers × List TimerInterruptType)
      → Result (Timers × List TimerInterruptType)
  with_head e (ok (timers, kinds)) = ok (e ∷ timers, kinds)
  with_head e (err er) = err er
  with_head e panic = panic

  remove_elapsed-head :
      (ids : List TimerId) (k : TimerId) (u : RunningTimer) (timers : Timers)
      (kinds : List TimerInterruptType)
      → AllDiffer k.timer_id ids
      → remove_elapsed ids ((k, u) ∷ timers) kinds
        ≡ with_head (k, u) (remove_elapsed ids timers kinds)
  unfolding remove_elapsed
  remove_elapsed-head [] k u timers kinds h = refl
  remove_elapsed-head (id ∷ ids) k u timers kinds h =
      rw (get-other id k u timers h.0, remove-other id k u timers h.0)
        (elim (Option-cases (BTreeMap.get cmp id timers)) [
          | inl e ↦ rw e refl
          | inr (t, e) ↦ rw e (
              remove_elapsed-head ids k u (BTreeMap.remove cmp id timers) (kinds ++ (t.kind ∷ []))
                h.1)
        ])

  pub remove_once :
      (readings : ℕ → ℕ) (n : ℕ) (timers : Timers) (kinds : List TimerInterruptType)
      → Distinct timers
      → remove_elapsed (once_ids readings n timers) timers kinds
        ≡ ok (once_rest readings n timers, kinds ++ once_kinds readings n timers)
  unfolding remove_elapsed
  remove_once readings n [] kinds d = ap (λ l. ok ([], l)) (sym (append-nil kinds))
  remove_once readings n ((id, t) ∷ timers) kinds d =
      elim (Bool-cases (fires_once (readings n) t)) [
        | inl fires ↦
            rw (fires, get-same id t timers, remove-same id t timers)
              (remove_once readings (n + 1) timers (kinds ++ (t.kind ∷ [])) d.1
                ∙ ap (λ l. ok (once_rest readings (n + 1) timers, l))
                    (append_assoc kinds (t.kind ∷ []) (once_kinds readings (n + 1) timers)))
        | inr stays ↦ rw stays (
            remove_elapsed-head (once_ids readings (n + 1) timers) id t timers kinds
              (once_ids-AllDiffer readings (n + 1) id.timer_id timers d.0)
            ∙ ap (with_head (id, t)) (remove_once readings (n + 1) timers kinds d.1))
      ]

  expire_periodic-again :
      (clock : Clock) (t : RunningTimer) (kinds : List TimerInterruptType)
      → expire_periodic frequency clock t kinds ≡ (
        (if fires_again (clock.readings clock.taken) t
            then record t { started = elapses_at frequency t }
            else t),
        kinds ++ (if fires_again (clock.readings clock.taken) t then t.kind ∷ [] else []),
        record clock { taken = clock.taken + 1 },
      )
  unfolding expire_periodic reset
  expire_periodic-again clock t kinds =
      elim (Bool-cases (elapsed_at frequency (clock.readings clock.taken) t)) [
        | inr early ↦ rw early (stays (append-nil kinds))
        | inl late ↦ elim (Bool-cases (is_periodic t)) [
          | inr once ↦ rw (late, once) (stays (append-nil kinds))
          | inl again ↦ rw (late, again) refl
        ]
      ]
    where
      stays :
          {l : List TimerInterruptType}
          → l ≡ kinds
          → ◌≡◌ {A = RunningTimer × List TimerInterruptType × Clock}
              (t, kinds, record clock { taken = clock.taken + 1 })
              (t, l, record clock { taken = clock.taken + 1 })
      stays e = ap (λ l. (t, l, record clock { taken = clock.taken + 1 })) (sym e)

  pub reset_periodic-again :
      (clock : Clock) (timers : Timers) (kinds : List TimerInterruptType)
      → let after = reset_periodic frequency clock timers kinds in
        (after.0 ≡ again_rest clock.readings clock.taken timers)
        × (after.1 ≡ kinds ++ again_kinds clock.readings clock.taken timers)
        × (after.2 ≡ record clock { taken = clock.taken + length timers })
  unfolding reset_periodic
  reset_periodic-again clock [] kinds =
      (refl, sym (append-nil kinds), at_reading clock clock.taken (clock.taken + 0) (omega arith))
  reset_periodic-again clock ((id, t) ∷ timers) kinds =
      let fired = fires_again (clock.readings clock.taken) t in
      let more = if fired then t.kind ∷ [] else [] in
      let next : Clock = record clock { taken = clock.taken + 1 } in
      let rest = reset_periodic-again next timers (kinds ++ more) in
      rw (expire_periodic-again clock t kinds) (
        ap (◌∷◌ (id, (if fired then record t { started = elapses_at frequency t } else t))) rest.0,
        rest.1
            ∙ append_assoc kinds more (again_kinds clock.readings (clock.taken + 1) timers)
            ∙ ap (λ l. kinds ++ l)
                (one_more fired t.kind (again_kinds clock.readings (clock.taken + 1) timers)),
        rest.2
            ∙ at_reading clock (clock.taken + 1 + length timers) (clock.taken + suc (length timers))
                (omega arith),
      )
