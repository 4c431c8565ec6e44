-- ===== src/Virtdev/Lapic.antt =====
-- mythril/src/virtdev/lapic.rs: the local APIC that a guest sees, with the parts of mythril/src/vm.rs that
-- keep the logical destinations of a machine's cores. The modes that num_enum decodes are those of
-- mythril/src/apic.rs; the conversions are a parameter (`ApicEnums`).
pub mod Icr
use mythril.Prelude.{
  ℕ, ◌+◌, ◌-◌, ◌/◌, ◌%◌, ◌^◌, Bool, true, false, ◌==◌, ◌/=◌, ltb, within, if◌then◌else◌, List, [],
  ◌∷◌, Option, none, some, bit_and, compare,
}
use mythril.Prelude.Word.{u8, ◌<<<◌, ◌>>>◌}
use mythril.Prelude.BTreeMap
use mythril.Prelude.Primitive.{TryFromPrimitive}
use mythril.Error.{Result, ok, err, panic, ok_or, invalid_value}
use mythril.Error.Run.{Run, continue, ◌>>=◌, ◌>>◌, lift, modify, gets, done, zoom}
use mythril.Time.{external_interrupt}
use mythril.Vm.Messages.{VirtualMachineSet, send_msg_core, start_vcpu, guest_interrupt}

pub data ApicRegisterSimpleOffset : Type 0 where
  apic_id apic_version task_priority arbitration_priority : ApicRegisterSimpleOffset
  processor_priority end_of_interrupt remote_read logical_destination : ApicRegisterSimpleOffset
  destination_format spurious_interrupt_vector error_status : ApicRegisterSimpleOffset
  lvt_correct_machine_check_interrupt lvt_timer lvt_thermal_sensor : ApicRegisterSimpleOffset
  lvt_performance_monitoring_counter lvt_lint0 lvt_lint1 lvt_error : ApicRegisterSimpleOffset
  timer_initial_count timer_current_count timer_divide_config : ApicRegisterSimpleOffset

unfoldable pub simple_offset_code : ApicRegisterSimpleOffset → ℕ
simple_offset_code apic_id = 0x20
simple_offset_code apic_version = 0x30
simple_offset_code task_priority = 0x80
simple_offset_code arbitration_priority = 0x90
simple_offset_code processor_priority = 0xa0
simple_offset_code end_of_interrupt = 0xb0
simple_offset_code remote_read = 0xc0
simple_offset_code logical_destination = 0xd0
simple_offset_code destination_format = 0xe0
simple_offset_code spurious_interrupt_vector = 0xf0
simple_offset_code error_status = 0x280
simple_offset_code lvt_correct_machine_check_interrupt = 0x2f0
simple_offset_code lvt_timer = 0x320
simple_offset_code lvt_thermal_sensor = 0x330
simple_offset_code lvt_performance_monitoring_counter = 0x340
simple_offset_code lvt_lint0 = 0x350
simple_offset_code lvt_lint1 = 0x360
simple_offset_code lvt_error = 0x370
simple_offset_code timer_initial_count = 0x380
simple_offset_code timer_current_count = 0x390
simple_offset_code timer_divide_config = 0x3e0

pub data ApicRegisterOffset : Type 0 where
  simple : ApicRegisterSimpleOffset → ApicRegisterOffset
  interrupt_request interrupt_command trigger_mode in_service : ℕ → ApicRegisterOffset

pub data DeliveryMode : Type 0 where
  fixed reserved_0 smi reserved_1 nmi init start_up reserved_2 : DeliveryMode

unfoldable pub delivery_mode_code : DeliveryMode → ℕ
delivery_mode_code fixed = 0x00
delivery_mode_code reserved_0 = 0x01
delivery_mode_code smi = 0x02
delivery_mode_code reserved_1 = 0x03
delivery_mode_code nmi = 0x04
delivery_mode_code init = 0x05
delivery_mode_code start_up = 0x06
delivery_mode_code reserved_2 = 0x07

pub data DstMode : Type 0 where
  physical logical : DstMode

unfoldable pub dst_mode_code : DstMode → ℕ
dst_mode_code physical = 0x00
dst_mode_code logical = 0x01

pub data DstShorthand : Type 0 where
  no_shorthand my_self all_including_self all_excluding_self : DstShorthand

unfoldable pub dst_shorthand_code : DstShorthand → ℕ
dst_shorthand_code no_shorthand = 0x00
dst_shorthand_code my_self = 0x01
dst_shorthand_code all_including_self = 0x02
dst_shorthand_code all_excluding_self = 0x03

pub record ApicEnums : Type 0 where
  pub simple_offsets : TryFromPrimitive simple_offset_code
  pub delivery_modes : TryFromPrimitive delivery_mode_code
  pub dst_modes : TryFromPrimitive dst_mode_code
  pub dst_shorthands : TryFromPrimitive dst_shorthand_code

-- The logical destination of each core of the machine (`LogicalApicState`; nothing reads its format).
abbrev pub LogicalDestinations : Type 0
LogicalDestinations = List (ℕ × ℕ)

pub record LocalApic : Type 0 where
  pub icr_destination : Option ℕ

-- What an access works on: the APIC, the state that it shares with the other cores of its machine, and
-- the queues of all cores.
pub record ApicState : Type 0 where
  pub apic : LocalApic
  pub destinations : LogicalDestinations
  pub machines : VirtualMachineSet

unfoldable pub new : LocalApic
new = record { icr_destination = none }

abbrev pub sending : {A : Type 0} → Run VirtualMachineSet A → Run ApicState A
sending = zoom (λ s. s.machines) (λ m s. record s { machines = m })

-- `ApicRegisterOffset::try_from` past its search among the simple registers.
unfoldable pub ranged : ℕ → Result ApicRegisterOffset
ranged value =
    if within 0x100 0x170 value
    then ok (in_service ((value - 0x100) >>> 4))
    else if within 0x180 0x1f0 value
    then ok (trigger_mode ((value - 0x180) >>> 4))
    else if within 0x200 0x270 value
    then ok (interrupt_request ((value - 0x200) >>> 4))
    else if within 0x300 0x310 value
    then ok (interrupt_command ((value - 0x300) >>> 4))
    else err invalid_value

module _ (enums : ApicEnums) where
  simple_or_ranged : Option ApicRegisterSimpleOffset → ℕ → Result ApicRegisterOffset
  unfolding ranged
  simple_or_ranged (some register) value = ok (simple register)
  simple_or_ranged none value = ranged value

  unfoldable pub try_from : ℕ → Result ApicRegisterOffset
  unfolding simple_or_ranged
  try_from value =
      if bit_and value 0b1111 /= 0
      then err invalid_value
      else simple_or_ranged (enums.simple_offsets.try_from value) value

  module _ (cpus : List ℕ) (core_id : ℕ) where
    -- `logical_apic_destination` and the loop over it: the cores whose destination the mask meets.
    addresses : ℕ → Option ℕ → Result Bool
    addresses mask none = panic
    addresses mask (some destination) = ok (bit_and destination mask /= 0)

    send_vector : ℕ → ℕ → Run ApicState (Unit {0})
    send_vector vector core =
        sending (send_msg_core (guest_interrupt external_interrupt vector) core true)

    unfoldable pub send_logical : ℕ → ℕ → List ℕ → Run ApicState (Unit {0})
    unfolding addresses send_vector
    send_logical vector mask [] s = (s, ok tt)
    send_logical vector mask (core ∷ cores) s =
        let rest = send_logical vector mask cores in
        (lift (addresses mask (BTreeMap.get compare core s.destinations)) >>= λ meets.
        if meets
        then (if core == core_id then rest else (send_vector vector core >> rest))
        else rest)
          s

    unfoldable pub send_others : ℕ → List ℕ → Run ApicState (Unit {0})
    unfolding send_vector
    send_others vector [] s = (s, ok tt)
    send_others vector (core ∷ cores) s =
        let rest = send_others vector cores in
        (if core == core_id then rest else (send_vector vector core >> rest)) s

    -- A start-up message, for the core in the high byte of the destination.
    startup : ℕ → Option ℕ → Run ApicState (Unit {0})
    startup value none = done tt
    startup value (some dest) =
        sending (send_msg_core (start_vcpu (bit_and value 0xff <<< 12)) (dest >>> 24) false)

    unfoldable pub process_sipi_request : ℕ → Run ApicState (Unit {0})
    unfolding startup
    process_sipi_request value s = startup value s.apic.icr_destination s

    by_mode : ℕ → DstMode → Option ℕ → Run ApicState (Unit {0})
    unfolding send_logical
    by_mode vector mode none = done tt
    by_mode vector logical (some dest) = send_logical vector dest cpus
    by_mode vector physical (some dest) = done tt

    by_shorthand : ℕ → DstMode → DstShorthand → Run ApicState (Unit {0})
    unfolding send_others by_mode
    by_shorthand vector mode all_including_self s = (s, ok tt)
    by_shorthand vector mode my_self s = (s, ok tt)
    by_shorthand vector mode all_excluding_self s = send_others vector cpus s
    by_shorthand vector mode no_shorthand s = by_mode vector mode s.apic.icr_destination s

    interrupt : ℕ → Run ApicState (Unit {0})
    unfolding by_shorthand
    interrupt value = do
      mode ← lift (ok_or (enums.dst_modes.try_from (bit_and (value >>> 11) 0b1)) invalid_value)
      shorthand ←
          lift (ok_or (enums.dst_shorthands.try_from (bit_and (value >>> 18) 0b11)) invalid_value)
      by_shorthand (bit_and value 0xff) mode shorthand

    by_delivery : ℕ → DeliveryMode → Run ApicState (Unit {0})
    unfolding process_sipi_request interrupt
    by_delivery value init = done tt
    by_delivery value start_up = process_sipi_request value
    by_delivery value fixed = interrupt value
    by_delivery value reserved_0 = interrupt value
    by_delivery value smi = interrupt value
    by_delivery value reserved_1 = interrupt value
    by_delivery value nmi = interrupt value
    by_delivery value reserved_2 = interrupt value

    unfoldable pub process_interrupt_command : ℕ → Run ApicState (Unit {0})
    unfolding by_delivery
    process_interrupt_command value =
        lift
          (ok_or (enums.delivery_modes.try_from (bit_and (u8 (value >>> 8)) 0b111)) invalid_value)
        >>= by_delivery value

    read_register : ApicRegisterOffset → Result ℕ
    read_register (simple apic_id) = ok core_id
    read_register _ = ok 0

    unfoldable pub register_read : ℕ → Run ApicState ℕ
    unfolding try_from read_register
    register_read offset = lift (try_from offset) >>= λ register. lift (read_register register)

    -- `update_core_logical_destination`.
    update_destination : ℕ → Option ℕ → Run ApicState (Unit {0})
    update_destination dest none = lift panic
    update_destination dest (some old) =
        modify λ s. record s { destinations = BTreeMap.insert compare core_id dest s.destinations }

    abbrev pub set_icr_destination : Option ℕ → Run ApicState (Unit {0})
    set_icr_destination dest = modify (λ s. record s { apic = record { icr_destination = dest } })

    write_register : ApicRegisterOffset → ℕ → Run ApicState (Unit {0})
    unfolding update_destination process_interrupt_command
    write_register (simple logical_destination) value s =
        update_destination value (BTreeMap.get compare core_id s.destinations) s
    write_register (interrupt_command offset) value s =
        (if offset == 0
            then process_interrupt_command value >> set_icr_destination none
            else if offset == 1
            then set_icr_destination (some value)
            else lift panic)
          s
    write_register _ value s = (s, ok tt)

    unfoldable pub register_write : ℕ → ℕ → Run ApicState (Unit {0})
    unfolding try_from write_register
    register_write offset value =
        lift (try_from offset) >>= λ register. write_register register value
