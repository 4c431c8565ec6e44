-- ===== src/Time/Register.antt =====
-- Which timers a wheel holds after one is registered or removed.
use mythril.Prelude.{
  ℕ, ◌+◌, ◌^◌, ◌<◌, ◌≡◌, ◌≢◌, refl, arith, Bool, ◌==◌, ◌&&◌, if◌then◌else◌, [], ◌∷◌, ◌++◌, none,
  some, Ordering,
}
use mythril.Prelude.BTreeMap
use mythril.Prelude.Word.{u64}
use mythril.Time.{
  TimerId, TimerWheel, Timers, RunningTimer, ReadyTimer, Clock, cmp, get_timer, start,
  register_timer, remove_timer,
}

-- The timers' numbers are below the counter, and no number occurs twice.
abbrev pub Below : ℕ → Timers → Type 0
Below hi [] = Unit {0}
Below hi ((id, t) ∷ timers) = (id.timer_id < hi) × Below hi timers

abbrev pub Differs : ℕ → Timers → Type 0
Differs n [] = Unit {0}
Differs n ((id, t) ∷ timers) = (id.timer_id ≢ n) × Differs n timers

abbrev pub Distinct : Timers → Type 0
Distinct [] = Unit {0}
Distinct ((id, t) ∷ timers) = Differs id.timer_id timers × Distinct timers

pub record IsIssued (wheel : TimerWheel) : Type 0 where
  pub below : Below wheel.counter wheel.timers
  pub distinct : Distinct wheel.timers

pub cmp_differs : (a b : TimerId) → a.timer_id ≢ b.timer_id → cmp a b ≢ Ordering.eq
unfolding cmp
cmp_differs a b h = ground arith

pub cmp_same : (a : TimerId) → cmp a a ≡ Ordering.eq
unfolding cmp
cmp_same a = ground arith

-- A number at the counter goes to the end.
insert_last :
    (id : TimerId) (t : RunningTimer) (timers : Timers)
    → Below id.timer_id timers
    → BTreeMap.insert cmp id t timers ≡ timers ++ ((id, t) ∷ [])
unfolding BTreeMap.insert cmp
insert_last id t [] h = refl
insert_last id t ((j, u) ∷ timers) h = ground (arith, insert_last id t timers h.1)

-- Equal numbers.
abbrev pub same : TimerId → TimerId → Bool
same a b = (a.timer_id == b.timer_id) && (a.core_id == b.core_id)

get-insert_last :
    (j id : TimerId) (t : RunningTimer) (timers : Timers)
    → Below id.timer_id timers
    → BTreeMap.get cmp j (timers ++ ((id, t) ∷ []))
      ≡ (if same j id then some t else BTreeMap.get cmp j timers)
unfolding BTreeMap.get cmp
get-insert_last j id t [] h = ground arith
get-insert_last j id t ((k, u) ∷ timers) h = ground (arith, get-insert_last j id t timers h.1)

Below-insert_last :
    (id : TimerId) (t : RunningTimer) (timers : Timers)
    → Below id.timer_id timers
    → Below (id.timer_id + 1) (timers ++ ((id, t) ∷ []))
Below-insert_last id t [] h = ground arith
Below-insert_last id t ((k, u) ∷ timers) h = (omega arith, Below-insert_last id t timers h.1)

Differs-insert_last :
    (n : ℕ) (id : TimerId) (t : RunningTimer) (timers : Timers)
    → Differs n timers
    → id.timer_id ≢ n
    → Differs n (timers ++ ((id, t) ∷ []))
Differs-insert_last n id t [] h d = (d, tt)
Differs-insert_last n id t ((k, u) ∷ timers) h d = (h.0, Differs-insert_last n id t timers h.1 d)

Distinct-insert_last :
    (id : TimerId) (t : RunningTimer) (timers : Timers)
    → Below id.timer_id timers
    → Distinct timers
    → Distinct (timers ++ ((id, t) ∷ []))
Distinct-insert_last id t [] b d = (tt, tt)
Distinct-insert_last id t ((k, u) ∷ timers) b d = (
  Differs-insert_last k.timer_id id t timers d.0 (λ e. omega (arith, b.0)),
  Distinct-insert_last id t timers b.1 d.1,
)

get-Differs :
    (j : TimerId) (timers : Timers) → Differs j.timer_id timers → BTreeMap.get cmp j timers ≡ none
unfolding BTreeMap.get cmp
get-Differs j [] h = refl
get-Differs j ((k, u) ∷ timers) h = ground (arith, get-Differs j timers h.1)

get-remove :
    (j id : TimerId) (timers : Timers)
    → Distinct timers
    → BTreeMap.get cmp j (BTreeMap.remove cmp id timers)
      ≡ (if same j id then none else BTreeMap.get cmp j timers)
unfolding BTreeMap.get BTreeMap.remove cmp
get-remove j id [] d = ground arith
get-remove j id ((k, u) ∷ timers) d =
    ground (arith, get-remove j id timers d.1, get-Differs j timers)

Below-remove :
    (hi : ℕ) (id : TimerId) (timers : Timers)
    → Below hi timers
    → Below hi (BTreeMap.remove cmp id timers)
unfolding BTreeMap.remove cmp
Below-remove hi id [] h = tt
Below-remove hi id ((k, u) ∷ timers) h = ground (arith, Below-remove hi id timers h.1)

Differs-remove :
    (n : ℕ) (id : TimerId) (timers : Timers)
    → Differs n timers
    → Differs n (BTreeMap.remove cmp id timers)
unfolding BTreeMap.remove cmp
Differs-remove n id [] h = tt
Differs-remove n id ((k, u) ∷ timers) h = ground (arith, Differs-remove n id timers h.1)

Distinct-remove :
    (id : TimerId) (timers : Timers) → Distinct timers → Distinct (BTreeMap.remove cmp id timers)
unfolding BTreeMap.remove cmp
Distinct-remove id [] h = tt
Distinct-remove id ((k, u) ∷ timers) h =
    ground (arith, Distinct-remove id timers h.1, Differs-remove k.timer_id id timers h.0)

module _ (frequency : ℕ) where
  -- A timer that is registered, while the counter has not reached its last value, is found under the
  -- identifier that is answered, started at the reading of the clock; every other identifier finds
  -- what it found before. Removing a timer takes away just that one. Both keep the numbers of the
  -- timers below the counter and distinct.
  pub register_remove_timer :
      (core_id : ℕ) (self : TimerWheel) (clock : Clock) (timer : ReadyTimer) (id : TimerId)
      → IsIssued self
      → self.counter + 1 < 2 ^ 64
      → let registered = register_timer frequency core_id self clock timer in
        let removed = remove_timer frequency self clock id in
        ((j : TimerId)
          → get_timer registered.wheel j
            ≡ (if same j registered.result then some (start clock timer).0 else get_timer self j))
        × IsIssued registered.wheel
        × ((j : TimerId)
            → get_timer removed.wheel j ≡ (if same j id then none else get_timer self j))
        × IsIssued removed.wheel
  unfolding register_timer remove_timer get_timer
  register_remove_timer core_id self clock timer id h small =
      let new_id : TimerId = record { timer_id = self.counter; core_id = core_id } in
      let running = (start clock timer).0 in
      let fits : u64 (self.counter + 1) ≡ self.counter + 1 = omega arith in
      (
        λ j.
            rw (insert_last new_id running self.timers h.below)
              (get-insert_last j new_id running self.timers h.below),
        record {
          below =
              rw (fits, insert_last new_id running self.timers h.below)
                (Below-insert_last new_id running self.timers h.below);
          distinct =
              rw (insert_last new_id running self.timers h.below)
                (Distinct-insert_last new_id running self.timers h.below h.distinct);
        },
        λ j. get-remove j id self.timers h.distinct,
        record {
          below = Below-remove self.counter id self.timers h.below;
          distinct = Distinct-remove id self.timers h.distinct;
        },
      )
