-- ===== src/Tests/Messages.antt =====
-- Messages between cores, and the interrupts that a guest sends, at concrete inputs: mythril/src/vm.rs and
-- mythril/src/virtdev/lapic.rs.
use mythril.Prelude.{
  ℕ, ◌≡◌, ◌≢◌, refl, arith, List, [], ◌∷◌, ◌++◌, true, false, some, none, take, map,
}
use mythril.Prelude.BTreeMap
use mythril.Prelude.Primitive.{TryFromPrimitive, search_code, code-search_code}
use mythril.Error.{ok}
use mythril.Time.{external_interrupt}
use mythril.Vm.Messages.{
  grant_console, start_vcpu, guest_interrupt, VmRef, VirtualMachineContext, VirtualMachineSet,
  max_pending_msg, recv_all_msgs, context_by_core_id, find_context,
}
use mythril.Vm.Queue.Room.{HaveRoom}
use mythril.Vm.Queue.{Sending, queue_of, send_all, addressed, recv_all_msgs-send_all}
use mythril.Virtdev.Lapic.{
  ApicEnums, ApicState, ApicRegisterSimpleOffset, simple_offset_code, DeliveryMode,
  delivery_mode_code, DstMode, dst_mode_code, DstShorthand, dst_shorthand_code, register_write,
  apic_id, apic_version, task_priority, arbitration_priority, processor_priority, end_of_interrupt,
  remote_read, logical_destination, destination_format, spurious_interrupt_vector, error_status,
  lvt_correct_machine_check_interrupt, lvt_timer, lvt_thermal_sensor,
  lvt_performance_monitoring_counter, lvt_lint0, lvt_lint1, lvt_error, timer_initial_count,
  timer_current_count, timer_divide_config, fixed, reserved_0, smi, reserved_1, nmi, init, start_up,
  reserved_2, physical, logical, no_shorthand, my_self, all_including_self, all_excluding_self,
}
use mythril.Virtdev.Lapic.Icr.{AllKnown, targets, ipi, logical_ipi}

abbrev pub simple_offsets_all : List ApicRegisterSimpleOffset
simple_offsets_all =
    apic_id ∷ apic_version ∷ task_priority ∷ arbitration_priority ∷ processor_priority
    ∷ end_of_interrupt ∷ remote_read ∷ logical_destination ∷ destination_format
    ∷ spurious_interrupt_vector ∷ error_status ∷ lvt_correct_machine_check_interrupt ∷ lvt_timer
    ∷ lvt_thermal_sensor ∷ lvt_performance_monitoring_counter ∷ lvt_lint0 ∷ lvt_lint1 ∷ lvt_error
    ∷ timer_initial_count ∷ timer_current_count ∷ timer_divide_config ∷ []

pub simple_offsets-found :
    (a : ApicRegisterSimpleOffset)
    → search_code simple_offset_code simple_offsets_all (simple_offset_code a) ≡ some a
unfolding simple_offset_code
simple_offsets-found apic_id = refl
simple_offsets-found apic_version = refl
simple_offsets-found task_priority = refl
simple_offsets-found arbitration_priority = refl
simple_offsets-found processor_priority = refl
simple_offsets-found end_of_interrupt = refl
simple_offsets-found remote_read = refl
simple_offsets-found logical_destination = refl
simple_offsets-found destination_format = refl
simple_offsets-found spurious_interrupt_vector = refl
simple_offsets-found error_status = refl
simple_offsets-found lvt_correct_machine_check_interrupt = refl
simple_offsets-found lvt_timer = refl
simple_offsets-found lvt_thermal_sensor = refl
simple_offsets-found lvt_performance_monitoring_counter = refl
simple_offsets-found lvt_lint0 = refl
simple_offsets-found lvt_lint1 = refl
simple_offsets-found lvt_error = refl
simple_offsets-found timer_initial_count = refl
simple_offsets-found timer_current_count = refl
simple_offsets-found timer_divide_config = refl

abbrev pub simple_offsets : TryFromPrimitive simple_offset_code
simple_offsets = record {
  try_from = search_code simple_offset_code simple_offsets_all;
  try_from-code = simple_offsets-found;
  code-try_from = code-search_code simple_offset_code simple_offsets_all;
}

abbrev pub delivery_modes_all : List DeliveryMode
delivery_modes_all = fixed ∷ reserved_0 ∷ smi ∷ reserved_1 ∷ nmi ∷ init ∷ start_up ∷ reserved_2 ∷ []

pub delivery_modes-found :
    (a : DeliveryMode)
    → search_code delivery_mode_code delivery_modes_all (delivery_mode_code a) ≡ some a
unfolding delivery_mode_code
delivery_modes-found fixed = refl
delivery_modes-found reserved_0 = refl
delivery_modes-found smi = refl
delivery_modes-found reserved_1 = refl
delivery_modes-found nmi = refl
delivery_modes-found init = refl
delivery_modes-found start_up = refl
delivery_modes-found reserved_2 = refl

abbrev pub delivery_modes : TryFromPrimitive delivery_mode_code
delivery_modes = record {
  try_from = search_code delivery_mode_code delivery_modes_all;
  try_from-code = delivery_modes-found;
  code-try_from = code-search_code delivery_mode_code delivery_modes_all;
}

abbrev pub dst_modes_all : List DstMode
dst_modes_all = physical ∷ logical ∷ []

pub dst_modes-found :
    (a : DstMode) → search_code dst_mode_code dst_modes_all (dst_mode_code a) ≡ some a
unfolding dst_mode_code
dst_modes-found physical = refl
dst_modes-found logical = refl

abbrev pub dst_modes : TryFromPrimitive dst_mode_code
dst_modes = record {
  try_from = search_code dst_mode_code dst_modes_all;
  try_from-code = dst_modes-found;
  code-try_from = code-search_code dst_mode_code dst_modes_all;
}

abbrev pub dst_shorthands_all : List DstShorthand
dst_shorthands_all = no_shorthand ∷ my_self ∷ all_including_self ∷ all_excluding_self ∷ []

pub dst_shorthands-found :
    (a : DstShorthand)
    → search_code dst_shorthand_code dst_shorthands_all (dst_shorthand_code a) ≡ some a
unfolding dst_shorthand_code
dst_shorthands-found no_shorthand = refl
dst_shorthands-found my_self = refl
dst_shorthands-found all_including_self = refl
dst_shorthands-found all_excluding_self = refl

abbrev pub dst_shorthands : TryFromPrimitive dst_shorthand_code
dst_shorthands = record {
  try_from = search_code dst_shorthand_code dst_shorthands_all;
  try_from-code = dst_shorthands-found;
  code-try_from = code-search_code dst_shorthand_code dst_shorthands_all;
}

abbrev pub enums : ApicEnums
enums = record {
  simple_offsets = simple_offsets;
  delivery_modes = delivery_modes;
  dst_modes = dst_modes;
  dst_shorthands = dst_shorthands;
}

-- A machine of three cores.
abbrev pub vm : VmRef
vm = record { id = 0; cpus = 0 ∷ 1 ∷ 2 ∷ [] }

abbrev pub empty_queue : ℕ → VirtualMachineContext
empty_queue core_id = record { core_id = core_id; vm = vm; msgqueue = [] }

abbrev pub machines : VirtualMachineSet
machines = record {
  contexts = empty_queue 0 ∷ empty_queue 1 ∷ empty_queue 2 ∷ [];
  vms = vm ∷ [];
  notified = [];
}

abbrev sends : List Sending
sends =
    record { msg = start_vcpu 0x8000; to = 1; notify = false }
    ∷ record { msg = guest_interrupt external_interrupt 0x30; to = 2; notify = true }
    ∷ record { msg = grant_console 0x3f8; to = 1; notify = true }
    ∷ record { msg = grant_console 0x3f8; to = 7; notify = true }
    ∷ []

pub machines-queue : queue_of machines 1 ≡ some []
unfolding queue_of context_by_core_id find_context
machines-queue = refl

recv_all_msgs-send_all_example :
    let sent = send_all sends machines in
    let received = recv_all_msgs 1 sent in
    (received.1 ≡ ok (take max_pending_msg ([] ++ addressed 1 sends)))
    × (queue_of received.0 1 ≡ some [])
    × ((c : ℕ) → c ≢ 1 → queue_of received.0 c ≡ queue_of sent c)
recv_all_msgs-send_all_example =
    recv_all_msgs-send_all sends machines 1 [] machines-queue (omega arith)

-- Core 0 sends an interrupt to the cores whose destination meets 6.
abbrev local : ApicState
local = record {
  apic = record { icr_destination = none };
  destinations = (0, 1) ∷ (1, 2) ∷ (2, 4) ∷ [];
  machines = machines;
}

local-AllKnown : AllKnown local.destinations (0 ∷ 1 ∷ 2 ∷ [])
unfolding BTreeMap.get
local-AllKnown = ((1, refl), ((2, refl), ((4, refl), tt)))

local-HaveRoom : HaveRoom 3 (0 ∷ 1 ∷ 2 ∷ []) machines
unfolding queue_of context_by_core_id find_context
local-HaveRoom = (([], refl, omega arith), (([], refl, omega arith), (([], refl, omega arith), tt)))

logical_ipi_example :
    let sent =
      send_all (map (ipi 0x41) (targets 0 6 local.destinations (0 ∷ 1 ∷ 2 ∷ []))) machines in
    let first = register_write enums (0 ∷ 1 ∷ 2 ∷ []) 0 0x310 6 local in
    let second = register_write enums (0 ∷ 1 ∷ 2 ∷ []) 0 0x300 0x841 (first.0) in
    (first.1 ≡ ok tt)
    × (second ≡ (record local { apic = record { icr_destination = none }; machines = sent }, ok tt))
logical_ipi_example =
    logical_ipi enums (0 ∷ 1 ∷ 2 ∷ []) 0 local 0x41 6 (omega arith) local-AllKnown local-HaveRoom
