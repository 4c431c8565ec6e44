-- ===== src/Vm/Messages.antt =====
-- `VirtualMachineSet` of mythril/src/vm.rs: the cores of all machines, each with a queue of messages. A context
-- refers to its machine, of which the set reads the number and the cores, which never change
-- (`VmRef`). The interrupts that wake a recipient are sent by the local APIC; the cores that were sent
-- one are listed in order.
use mythril.Prelude.{
  ℕ, Bool, true, false, ◌==◌, ltb, if◌then◌else◌, List, [], ◌∷◌, ◌++◌, Option, none, some, length,
}
use mythril.Prelude.Word.{u32}
use mythril.Error.{Result, ok, err, panic, not_found, invalid_value}
use mythril.Error.Run.{Run, ◌>>=◌, lift}
use mythril.Time.{TimerId, InjectedInterruptType}

abbrev pub max_vm_count : ℕ
max_vm_count = 64

abbrev pub max_per_vm_core_count : ℕ
max_per_vm_core_count = 32

abbrev pub max_vcpu_count : ℕ
max_vcpu_count = 2048

abbrev pub max_pending_msg : ℕ
max_pending_msg = 100

-- The serial port that is handed on is its base port.
pub data VirtualMachineMsg : Type 0 where
  grant_console : ℕ → VirtualMachineMsg
  cancel_timer : TimerId → VirtualMachineMsg
  start_vcpu : ℕ → VirtualMachineMsg
  guest_interrupt : InjectedInterruptType → ℕ → VirtualMachineMsg

pub record VmRef : Type 0 where
  pub id : ℕ
  pub cpus : List ℕ

pub record VirtualMachineContext : Type 0 where
  pub core_id : ℕ
  pub vm : VmRef
  pub msgqueue : List VirtualMachineMsg

pub record VirtualMachineSet : Type 0 where
  pub contexts : List VirtualMachineContext
  pub vms : List VmRef
  pub notified : List ℕ

unfoldable pub new : VirtualMachineSet
new = record { contexts = []; vms = []; notified = [] }

-- `ArrayVec::push`, which panics where the array is full.
abbrev pub push : {A : Type 0} → ℕ → List A → A → Result (List A)
push capacity xs x = if ltb (length xs) capacity then ok (xs ++ (x ∷ [])) else panic

-- The queues of a machine's cores. What `insert` does before, registering devices and mapping the
-- page of the local APIC, is in the components that it calls.
unfoldable pub create_queues :
    VmRef → List ℕ → List VirtualMachineContext → Result (List VirtualMachineContext)
create_queues vm [] contexts = ok contexts
create_queues vm (cpu ∷ cpus) contexts =
    elim (push max_vcpu_count contexts (record { core_id = cpu; vm = vm; msgqueue = [] })) [
      | ok contexts' ↦ create_queues vm cpus contexts'
      | err e ↦ err e
      | panic ↦ panic
    ]

-- The first context that a test holds for.
unfoldable pub find_context :
    (VirtualMachineContext → Bool) → List VirtualMachineContext → Option VirtualMachineContext
find_context test [] = none
find_context test (context ∷ contexts) =
    if test context then some context else find_context test contexts

unfoldable pub context_by_core_id : VirtualMachineSet → ℕ → Option VirtualMachineContext
unfolding find_context
context_by_core_id self core_id = find_context (λ c. c.core_id == core_id) self.contexts

unfoldable pub context_by_vm_id : VirtualMachineSet → ℕ → Option VirtualMachineContext
unfolding find_context
context_by_vm_id self id = find_context (λ c. c.vm.id == id) self.contexts

unfoldable pub count : VirtualMachineSet → ℕ
count self = u32 (length self.vms)

abbrev is_some : {A : Type 0} → Option A → Bool
is_some none = false
is_some (some a) = true

unfoldable pub is_assigned_core_id : VirtualMachineSet → ℕ → Bool
unfolding context_by_core_id
is_assigned_core_id self core_id = is_some (context_by_core_id self core_id)

-- `cpus[0]`, which panics where there is none.
unfoldable pub bsp_id : VmRef → Result ℕ
bsp_id vm = first vm.cpus
  where
    first : List ℕ → Result ℕ
    first [] = panic
    first (core ∷ cores) = ok core

-- A write through the lock of the queue of the first context of the core.
unfoldable pub set_queue :
    ℕ → List VirtualMachineMsg → List VirtualMachineContext → List VirtualMachineContext
set_queue core_id queue [] = []
set_queue core_id queue (context ∷ contexts) =
    if context.core_id == core_id
    then record context { msgqueue = queue } ∷ contexts
    else context ∷ set_queue core_id queue contexts

abbrev pub with_queue : VirtualMachineSet → ℕ → List VirtualMachineMsg → VirtualMachineSet
with_queue self core_id queue = record self { contexts = set_queue core_id queue self.contexts }

abbrev pub notify_core : ℕ → Bool → VirtualMachineSet → VirtualMachineSet
notify_core core_id true self = record self { notified = self.notified ++ (core_id ∷ []) }
notify_core core_id false self = self

-- `push_back` fails where the queue is full, and nothing is sent.
abbrev pub enqueue :
    VirtualMachineMsg → ℕ → Bool → Option VirtualMachineContext → Run VirtualMachineSet (Unit {0})
enqueue msg core_id notify none self = (self, err not_found)
enqueue msg core_id notify (some context) self =
    if ltb (length context.msgqueue) max_pending_msg
    then (
      notify_core core_id notify (with_queue self core_id (context.msgqueue ++ (msg ∷ []))),
      ok tt,
    )
    else (self, err invalid_value)

unfoldable pub send_msg_core : VirtualMachineMsg → ℕ → Bool → Run VirtualMachineSet (Unit {0})
unfolding context_by_core_id set_queue
send_msg_core msg core_id notify self =
    enqueue msg core_id notify (context_by_core_id self core_id) self

abbrev pub bsp_of : Option VirtualMachineContext → Result ℕ
bsp_of none = err invalid_value
bsp_of (some context) = bsp_id context.vm

unfoldable pub send_msg : VirtualMachineMsg → ℕ → Bool → Run VirtualMachineSet (Unit {0})
unfolding context_by_vm_id bsp_id send_msg_core
send_msg msg vm_id notify self =
    (lift (bsp_of (context_by_vm_id self vm_id)) >>= λ vm_bsp. send_msg_core msg vm_bsp notify) self

abbrev pub pop :
    ℕ
    → Option VirtualMachineContext
    → VirtualMachineSet
    → VirtualMachineSet × Result (Option VirtualMachineMsg)
pop core_id none self = (self, panic)
pop core_id (some context) self = pop_front context.msgqueue
  where
    pop_front : List VirtualMachineMsg → VirtualMachineSet × Result (Option VirtualMachineMsg)
    pop_front [] = (self, ok none)
    pop_front (msg ∷ queue) = (with_queue self core_id queue, ok (some msg))

-- `core_id` is what `read_core_id` answers.
unfoldable pub recv_msg : ℕ → Run VirtualMachineSet (Option VirtualMachineMsg)
unfolding context_by_core_id set_queue
recv_msg core_id self = pop core_id (context_by_core_id self core_id) self

abbrev pub take_all :
    ℕ → Option VirtualMachineContext → Run VirtualMachineSet (List VirtualMachineMsg)
take_all core_id none self = (self, panic)
take_all core_id (some context) self = (with_queue self core_id [], ok context.msgqueue)

unfoldable pub recv_all_msgs : ℕ → Run VirtualMachineSet (List VirtualMachineMsg)
unfolding context_by_core_id set_queue
recv_all_msgs core_id self = take_all core_id (context_by_core_id self core_id) self
