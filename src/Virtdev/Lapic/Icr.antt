-- ===== src/Virtdev/Lapic/Icr.antt =====
-- Interrupts that a guest sends between its cores through the interrupt command register.
use mythril.Prelude.{
  ℕ, ◌+◌, ◌/◌, ◌^◌, ◌<◌, ◌≡◌, ◌≢◌, refl, ap, arith, inl, inr, ◌⊎◌, Bool, true, false, ◌==◌, ◌/=◌,
  if◌then◌else◌, Bool-cases, Option-cases, Option, none, some, List, [], ◌∷◌, map, length, bit_and,
  compare,
}
use mythril.Prelude.BTreeMap
use mythril.Prelude.Word.{u8}
use mythril.Prelude.Bits.{bit_and-ones}
use mythril.Error.Run.{continue, continue-ok, modify}
use mythril.Error.{err-ne-ok, panic-ne-ok, Result, ok, Result-cases}
use mythril.Time.{external_interrupt}
use mythril.Vm.Messages.{VirtualMachineSet, guest_interrupt, send_msg_core}
use mythril.Vm.Queue.{Sending, send_all}
use mythril.Vm.Queue.Room.{HaveRoom, HaveRoom-less, HaveRoom-send, send_done}
use mythril.Virtdev.Lapic.{
  ApicEnums, ApicState, LogicalDestinations, ApicRegisterSimpleOffset, simple_offset_code,
  delivery_mode_code, dst_mode_code, dst_shorthand_code, interrupt_command, fixed, logical,
  no_shorthand, send_logical, try_from, register_write, process_interrupt_command,
}

-- The cores that a mask addresses, without the sender.
abbrev met : ℕ → Option ℕ → Bool
met mask none = false
met mask (some destination) = bit_and destination mask /= 0

abbrev pub targets : ℕ → ℕ → LogicalDestinations → List ℕ → List ℕ
targets core_id mask destinations [] = []
targets core_id mask destinations (core ∷ cores) =
    let rest = targets core_id mask destinations cores in
    if met mask (BTreeMap.get compare core destinations)
    then (if core == core_id then rest else core ∷ rest)
    else rest

abbrev pub ipi : ℕ → ℕ → Sending
ipi vector core = record {
  msg = guest_interrupt external_interrupt vector;
  to = core;
  notify = true;
}

abbrev used_up : ApicState → ApicState
used_up s = record s { apic = record { icr_destination = none } }

module _ {S : Type 0} (g : S → S) where
  then_modify :
      (r : S × Result (Unit {0})) → r.1 ≡ ok tt → continue (λ done. modify g) r ≡ (g (r.0), ok tt)
  then_modify r e = continue-ok (λ done. modify g) r tt e

module _ (core_id vector mask : ℕ) (cpus : List ℕ) (enums : ApicEnums) where
  sent : ApicState → ℕ → VirtualMachineSet × Result (Unit {0})
  sent s core = send_msg_core (guest_interrupt external_interrupt vector) core true s.machines

  send_logical-send_all :
      (cores : List ℕ) (s : ApicState)
      → (send_logical enums cpus core_id vector mask cores s).1 ≡ ok tt
      → (send_logical enums cpus core_id vector mask cores s).0 ≡ record s {
        machines =
            send_all (map (ipi vector) (targets core_id mask s.destinations cores)) s.machines;
      }
  unfolding send_logical send_all sent
  send_logical-send_all [] s h = refl
  send_logical-send_all (core ∷ cores) s h =
      elim (Option-cases (BTreeMap.get compare core s.destinations)) [
        | inl e ↦ absurd (panic-ne-ok (rw e at h))
        | inr (d, e) ↦ elim (Bool-cases (bit_and d mask /= 0)) [
          | inr apart ↦ rw (e, apart) (send_logical-send_all cores s (rw (e, apart) at h))
          | inl meets ↦ elim (Bool-cases (core == core_id)) [
            | inl self ↦
                rw (e, meets, self) (send_logical-send_all cores s (rw (e, meets, self) at h))
            | inr other ↦ elim (Result-cases (sent s core).1) [
              | inl (done, o) ↦
                  rw (e, meets, other, o)
                    (send_logical-send_all cores (record s { machines = (sent s core).0 })
                      (rw (e, meets, other, o) at h))
              | inr (inl (e', o)) ↦ absurd (err-ne-ok (rw (e, meets, other, o) at h))
              | inr (inr o) ↦ absurd (panic-ne-ok (rw (e, meets, other, o) at h))
            ]
          ]
        ]
      ]

-- Each core has a logical destination.
abbrev pub AllKnown : LogicalDestinations → List ℕ → Type 0
AllKnown destinations [] = Unit {0}
AllKnown destinations (core ∷ cores) =
    ((d : ℕ) × (BTreeMap.get compare core destinations ≡ some d)) × AllKnown destinations cores

module _ (core_id vector mask : ℕ) (cpus : List ℕ) (enums : ApicEnums) where
  send_logical_done :
      (cores : List ℕ) (s : ApicState)
      → AllKnown s.destinations cores
      → HaveRoom (length cores) cores s.machines
      → (send_logical enums cpus core_id vector mask cores s).1 ≡ ok tt
  unfolding send_logical sent
  send_logical_done [] s k r = refl
  send_logical_done (core ∷ cores) s ((d, e), known) ((q, at, l), room) =
      let rest =
        send_logical_done cores s known (HaveRoom-less (length cores) cores s.machines room) in
      let o =
        send_done (guest_interrupt external_interrupt vector) core true s.machines q at
          (omega (arith, l)) in
      let after = HaveRoom-send (length cores) cores s.machines (ipi vector core) room in
      elim (Bool-cases (bit_and d mask /= 0)) [
        | inr apart ↦ rw (e, apart) rest
        | inl meets ↦ elim (Bool-cases (core == core_id)) [
          | inl self ↦ rw (e, meets, self) rest
          | inr other ↦
              rw (e, meets, other, o)
                (send_logical_done cores
                  (record s { machines = (sent core_id vector mask cpus enums s core).0 }) known
                  after)
        ]
      ]

not_simple :
    (r : ApicRegisterSimpleOffset) (n : ℕ) → (n ≡ 0x300) ⊎ (n ≡ 0x310) → simple_offset_code r ≢ n
unfolding simple_offset_code
not_simple r n h e = ground arith

module _ (enums : ApicEnums) where
  decodes :
      (enums.delivery_modes.try_from 0 ≡ some fixed)
      × (enums.dst_modes.try_from 1 ≡ some logical)
      × (enums.dst_shorthands.try_from 0 ≡ some no_shorthand)
  unfolding delivery_mode_code dst_mode_code dst_shorthand_code
  decodes = (
    enums.delivery_modes.try_from-code fixed,
    enums.dst_modes.try_from-code logical,
    enums.dst_shorthands.try_from-code no_shorthand,
  )

  command_offset : try_from enums 0x300 ≡ ok (interrupt_command 0)
  unfolding try_from
  command_offset = elim (Option-cases (enums.simple_offsets.try_from 0x300)) [
    | inl e ↦ rw e refl
    | inr (r, e) ↦
        absurd (not_simple r 0x300 (inl refl) (enums.simple_offsets.code-try_from 0x300 r e))
  ]

  destination_offset : try_from enums 0x310 ≡ ok (interrupt_command 1)
  unfolding try_from
  destination_offset = elim (Option-cases (enums.simple_offsets.try_from 0x310)) [
    | inl e ↦ rw e refl
    | inr (r, e) ↦
        absurd (not_simple r 0x310 (inr refl) (enums.simple_offsets.code-try_from 0x310 r e))
  ]

  module _ (cpus : List ℕ) (core_id : ℕ) where
    -- A command for the vector, of fixed delivery to a logical destination, with no shorthand.
    command_lem :
        (s : ApicState) (vector dest : ℕ)
        → vector < 256
        → s.apic.icr_destination ≡ some dest
        → process_interrupt_command enums cpus core_id (vector + 0x800) s
          ≡ send_logical enums cpus core_id vector dest cpus s
    unfolding process_interrupt_command
    command_lem s vector dest h e =
        let command : ℕ = vector + 0x800 in
        let delivery : bit_and (u8 (command / 2 ^ 8)) 0b111 ≡ 0 =
          omega (arith, bit_and-ones 3 (u8 (command / 2 ^ 8))) in
        let mode : bit_and (command / 2 ^ 11) 0b1 ≡ 1 =
          omega (arith, bit_and-ones 1 (command / 2 ^ 11)) in
        let shorthand : bit_and (command / 2 ^ 18) 0b11 ≡ 0 =
          omega (arith, bit_and-ones 2 (command / 2 ^ 18)) in
        let low : bit_and command 0xff ≡ vector = omega (arith, bit_and-ones 8 command) in
        rw (delivery, decodes.0, mode, decodes.1, shorthand, decodes.2, low, e) refl

    -- A guest writes the destination and then the command, to send a vector of eight bits by a logical
    -- destination, where each core of its machine has a logical destination and a queue with room for as
    -- many messages as there are cores. Both writes succeed, and the messages are just those that carry
    -- the vector to each core of the machine, but the sender, whose logical destination meets the one
    -- written, in the order of the cores; the destination is used up, and nothing else changes.
    pub logical_ipi :
        (s : ApicState) (vector dest : ℕ)
        → vector < 256
        → AllKnown s.destinations cpus
        → HaveRoom (length cpus) cpus s.machines
        → let sends = map (ipi vector) (targets core_id dest s.destinations cpus) in
          let first = register_write enums cpus core_id 0x310 dest s in
          let second = register_write enums cpus core_id 0x300 (vector + 0x800) (first.0) in
          (first.1 ≡ ok tt)
          × (second ≡ (
            record s {
              apic = record { icr_destination = none };
              machines = send_all sends s.machines;
            },
            ok tt,
          ))
    unfolding register_write
    logical_ipi s vector dest h known room =
        let written : ApicState = record s { apic = record { icr_destination = some dest } } in
        let e = command_lem written vector dest h refl in
        let sending = send_logical enums cpus core_id vector dest cpus written in
        let done = send_logical_done core_id vector dest cpus enums cpus written known room in
        rw (destination_offset, command_offset, e, then_modify used_up sending done)
          (
            refl,
            ap (λ a. (used_up a, ok tt))
                (send_logical-send_all core_id vector dest cpus enums cpus written done),
          )
