-- ===== src/Vm/Queue.antt =====
-- The messages of a core: a queue with a bound, whatever the cores send to one another.
pub mod Room
use mythril.Prelude.{
  ℕ, ◌≤◌, ◌≡◌, ◌≢◌, refl, sym, ◌∙◌, ap, inl, inr, arith, Bool, true, false, ◌==◌, ltb,
  if◌then◌else◌, List, [], ◌∷◌, ◌++◌, Option, none, some, length, length-append, take, zero, suc,
  Bool-cases,
}
use mathlib.Core.List.{append_assoc}
use mythril.Error.{ok}
use mythril.Vm.Messages.{
  VirtualMachineMsg, VirtualMachineContext, VirtualMachineSet, max_pending_msg, find_context,
  context_by_core_id, set_queue, take_all, with_queue, notify_core, enqueue, send_msg_core,
  recv_all_msgs,
}

abbrev queue : Option VirtualMachineContext → Option (List VirtualMachineMsg)
queue none = none
queue (some context) = some context.msgqueue

-- The messages that wait for a core, if some machine has it.
unfoldable pub queue_of : VirtualMachineSet → ℕ → Option (List VirtualMachineMsg)
unfolding context_by_core_id
queue_of self core_id = queue (context_by_core_id self core_id)

abbrev replaced :
    List VirtualMachineMsg → Option (List VirtualMachineMsg) → Option (List VirtualMachineMsg)
replaced q none = none
replaced q (some old) = some q

queue-set_queue :
    (c d : ℕ) (q : List VirtualMachineMsg) (contexts : List VirtualMachineContext)
    → queue (find_context (λ x. x.core_id == d) (set_queue c q contexts)) ≡ (
        if c == d
        then replaced q (queue (find_context (λ x. x.core_id == d) contexts))
        else queue (find_context (λ x. x.core_id == d) contexts))
unfolding find_context set_queue
queue-set_queue c d q [] = ground arith
queue-set_queue c d q (x ∷ contexts) = ground (arith, queue-set_queue c d q contexts)

queue_of-with_queue :
    (self : VirtualMachineSet) (c d : ℕ) (q : List VirtualMachineMsg)
    → queue_of (with_queue self c q) d
      ≡ (if c == d then replaced q (queue_of self d) else queue_of self d)
unfolding queue_of
queue_of-with_queue self c d q = queue-set_queue c d q self.contexts

-- A message on its way.
pub record Sending : Type 0 where
  pub msg : VirtualMachineMsg
  pub to : ℕ
  pub notify : Bool

-- The sends of all cores, in their order; one that fails is given up.
unfoldable pub send_all : List Sending → VirtualMachineSet → VirtualMachineSet
unfolding send_msg_core
send_all [] self = self
send_all (s ∷ sends) self = send_all sends (send_msg_core s.msg s.to s.notify self).0

abbrev pub addressed : ℕ → List Sending → List VirtualMachineMsg
addressed d [] = []
addressed d (s ∷ sends) = let rest = addressed d sends in if s.to == d then s.msg ∷ rest else rest

queue_of-notify_core :
    (c : ℕ) (notify : Bool) (self : VirtualMachineSet) (d : ℕ)
    → queue_of (notify_core c notify self) d ≡ queue_of self d
unfolding queue_of
queue_of-notify_core c true self d = refl
queue_of-notify_core c false self d = refl

queue_of-enqueue :
    (msg : VirtualMachineMsg) (to : ℕ) (notify : Bool) (o : Option VirtualMachineContext)
    (self : VirtualMachineSet) (d : ℕ) (q : List VirtualMachineMsg)
    → queue o ≡ queue_of self to
    → queue_of self d ≡ some q
    → queue_of ((enqueue msg to notify o self).0) d
      ≡ some
          (if to == d then (if ltb (length q) max_pending_msg then q ++ (msg ∷ []) else q) else q)
queue_of-enqueue msg to notify none self d q e h =
    ground (arith, ap (queue_of self) {x = to} {y = d})
queue_of-enqueue msg to notify (some x) self d q e h =
    let q' = x.msgqueue ++ (msg ∷ []) in
    ground (
      arith,
      queue_of-notify_core to notify (with_queue self to q') d,
      queue_of-with_queue self to d q',
    )

send_one :
    (self : VirtualMachineSet) (s : Sending) (d : ℕ) (q : List VirtualMachineMsg)
    → queue_of self d ≡ some q
    → queue_of ((send_msg_core s.msg s.to s.notify self).0) d
      ≡ some (
          if s.to == d
          then (if ltb (length q) max_pending_msg then q ++ (s.msg ∷ []) else q)
          else q)
unfolding send_msg_core queue_of
send_one self s d q h =
    queue_of-enqueue s.msg s.to s.notify (context_by_core_id self s.to) self d q refl h

take-append_full : {A : Type 0} (n : ℕ) (xs ys : List A) → length xs ≡ n → take n (xs ++ ys) ≡ xs
take-append_full zero [] ys h = refl
take-append_full zero (x ∷ xs) ys h = absurd (omega arith)
take-append_full (suc n) [] ys h = absurd (omega arith)
take-append_full (suc n) (x ∷ xs) ys h = ap (◌∷◌ x) (take-append_full n xs ys (omega arith))

take-append_nil : {A : Type 0} (n : ℕ) (xs : List A) → length xs ≤ n → take n (xs ++ []) ≡ xs
take-append_nil zero [] h = refl
take-append_nil zero (x ∷ xs) h = absurd (omega arith)
take-append_nil (suc n) [] h = refl
take-append_nil (suc n) (x ∷ xs) h = ap (◌∷◌ x) (take-append_nil n xs (omega arith))

queue_of-send_all :
    (sends : List Sending) (self : VirtualMachineSet) (d : ℕ) (q : List VirtualMachineMsg)
    → queue_of self d ≡ some q
    → length q ≤ max_pending_msg
    → queue_of (send_all sends self) d ≡ some (take max_pending_msg (q ++ addressed d sends))
unfolding send_all
queue_of-send_all [] self d q h b = h ∙ ap some (sym (take-append_nil max_pending_msg q b))
queue_of-send_all (s ∷ sends) self d q h b =
    let next = (send_msg_core s.msg s.to s.notify self).0 in
    let sent = send_one self s d q h in
    elim (Bool-cases (s.to == d)) [
      | inr other ↦ rw other (queue_of-send_all sends next d q (sent ∙ (rw other)) b)
      | inl here ↦ elim (Bool-cases (ltb (length q) max_pending_msg)) [
        | inl room ↦ rw here (
            queue_of-send_all sends next d (q ++ (s.msg ∷ [])) (sent ∙ (rw (here, room)))
              (ground (arith, length-append q (s.msg ∷ [])))
            ∙ ap (λ l. some (take max_pending_msg l))
                (append_assoc q (s.msg ∷ []) (addressed d sends)))
        | inr full ↦
            let filled : length q ≡ max_pending_msg = ground arith in
            rw here (
              queue_of-send_all sends next d q (sent ∙ (rw (here, full))) b
              ∙ ap some (
                  take-append_full max_pending_msg q (addressed d sends) filled
                  ∙ sym (take-append_full max_pending_msg q (s.msg ∷ addressed d sends) filled)))
      ]
    ]

take_all_lem :
    (o : Option VirtualMachineContext) (self : VirtualMachineSet) (d : ℕ)
    (q : List VirtualMachineMsg)
    → queue o ≡ queue_of self d
    → queue_of self d ≡ some q
    → ((take_all d o self).1 ≡ ok q)
      × (queue_of ((take_all d o self).0) d ≡ some [])
      × ((c : ℕ) → c ≢ d → queue_of ((take_all d o self).0) c ≡ queue_of self c)
take_all_lem none self d q e h = cc
take_all_lem (some x) self d q e h = (
  cc,
  ground (arith, queue_of-with_queue self d d []),
  λ c ne. ground (arith, queue_of-with_queue self d c []),
)

-- Whatever the cores send, in whatever order, a core whose queue holds at most 100 messages then
-- receives the first 100 of the messages that waited and those that were addressed to it, in the
-- order of their sends; its queue is empty after that, and the queue of any other core is as the
-- sends left it.
pub recv_all_msgs-send_all :
    (sends : List Sending) (self : VirtualMachineSet) (d : ℕ) (q : List VirtualMachineMsg)
    → queue_of self d ≡ some q
    → length q ≤ max_pending_msg
    → let sent = send_all sends self in
      let received = recv_all_msgs d sent in
      (received.1 ≡ ok (take max_pending_msg (q ++ addressed d sends)))
      × (queue_of received.0 d ≡ some [])
      × ((c : ℕ) → c ≢ d → queue_of received.0 c ≡ queue_of sent c)
unfolding recv_all_msgs queue_of
recv_all_msgs-send_all sends self d q h b =
    take_all_lem (context_by_core_id (send_all sends self) d) (send_all sends self) d
      (take max_pending_msg (q ++ addressed d sends)) refl (queue_of-send_all sends self d q h b)
