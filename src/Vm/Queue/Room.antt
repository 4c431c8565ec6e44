-- ===== src/Vm/Queue/Room.antt =====
-- Queues with room: sends that succeed (mythril/src/vm.rs).
use mythril.Prelude.{
  ℕ, suc, ◌+◌, ◌<◌, ◌≤◌, ◌≡◌, ◌∙◌, arith, List, [], ◌∷◌, ◌++◌, length, length-append, Bool, true,
  ◌==◌, ltb, lt→ltb, Bool-cases, some, none, Option, inl, inr,
}
use mythril.Error.{ok}
use mythril.Vm.Messages.{
  VirtualMachineMsg, VirtualMachineSet, VirtualMachineContext, max_pending_msg, context_by_core_id,
  enqueue, send_msg_core,
}
use mythril.Vm.Queue.{queue, queue_of, Sending, send_one}

-- Each of the cores has a queue with room for so many messages.
abbrev pub HaveRoom : ℕ → List ℕ → VirtualMachineSet → Type 0
HaveRoom n [] self = Unit {0}
HaveRoom n (core ∷ cores) self =
    ((q : List VirtualMachineMsg) × (queue_of self core ≡ some q)
      × (length q + n ≤ max_pending_msg))
    × HaveRoom n cores self

enqueue_done :
    (msg : VirtualMachineMsg) (to : ℕ) (notify : Bool) (o : Option VirtualMachineContext)
    (self : VirtualMachineSet) (q : List VirtualMachineMsg)
    → queue o ≡ some q
    → length q < max_pending_msg
    → (enqueue msg to notify o self).1 ≡ ok tt
enqueue_done msg to notify none self q h l = cc
enqueue_done msg to notify (some x) self q h l = ground arith

pub send_done :
    (msg : VirtualMachineMsg) (to : ℕ) (notify : Bool) (self : VirtualMachineSet)
    (q : List VirtualMachineMsg)
    → queue_of self to ≡ some q
    → length q < max_pending_msg
    → (send_msg_core msg to notify self).1 ≡ ok tt
unfolding send_msg_core queue_of
send_done msg to notify self q h l =
    enqueue_done msg to notify (context_by_core_id self to) self q h l

pub HaveRoom-less :
    (n : ℕ) (cores : List ℕ) (self : VirtualMachineSet)
    → HaveRoom (suc n) cores self
    → HaveRoom n cores self
HaveRoom-less n [] self h = tt
HaveRoom-less n (core ∷ cores) self ((q, e, l), rest) =
    ((q, e, omega (arith, l)), HaveRoom-less n cores self rest)

pub HaveRoom-send :
    (n : ℕ) (cores : List ℕ) (self : VirtualMachineSet) (s : Sending)
    → HaveRoom (suc n) cores self
    → HaveRoom n cores ((send_msg_core s.msg s.to s.notify self).0)
HaveRoom-send n [] self s h = tt
HaveRoom-send n (core ∷ cores) self s ((q, e, l), rest) =
    let sent = send_one self s core q e in
    let fits : ltb (length q) max_pending_msg ≡ true =
      lt→ltb (length q) max_pending_msg (omega (arith, l)) in
    (
      elim (Bool-cases (s.to == core)) [
        | inr other ↦ (q, sent ∙ rw other, omega (arith, l))
        | inl here ↦ (
          q ++ (s.msg ∷ []),
          sent ∙ rw (here, fits),
          omega (arith, l, length-append q (s.msg ∷ [])),
        )
      ],
      HaveRoom-send n cores self s rest,
    )
