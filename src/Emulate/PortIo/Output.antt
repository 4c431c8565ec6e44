-- ===== src/Emulate/PortIo/Output.antt =====
-- OUTS to the debug port: each byte is a response, and the responses of an exit are kept in an array.
use mythril.Prelude.{
  ℕ, ◌+◌, ◌*◌, ◌/◌, ◌<◌, ◌≤◌, ◌≡◌, refl, ◌∙◌, ap, sym, arith, inl, inr, ◌⊎◌, ◌==◌, ltb,
  if◌then◌else◌, true, false, Bool-cases, some, List, [], ◌∷◌, ◌++◌, map, length, length-append,
}
use mathlib.Core.List.{append_assoc, append-nil}
use mythril.Prelude.Word.{u64}
use mythril.Error.{Result, ok, panic, ◌>>=◌}
use mythril.Error.Run.{Run, continue-ok, continue-panic}
use mythril.Vmcs.{vmcs_read}
use mythril.Vmcs.Field.{VmcsField}
use mythril.VmExit.Cpu.{GuestCpuState}
use mythril.VmExit.Info.{IoInstructionInformation}
use mythril.Memory.Address.{GuestVirtAddr}
use mythril.Virtdev.PortWrite
use mythril.Virtdev.DebugPort
use mythril.Virtdev.DebugPort.{DebugPort}
use mythril.Virtdev.Event.{guest_uart_transmitted, max_event_responses, port_write}
use mythril.Virtdev.Device.{Platform, Device, debug_port, emulated, on_event}
use mythril.Vm.Dispatch.{Bus, handled, dispatch_event, find_device, port}
use mythril.Vcpu.State.{VCpu}
use mythril.Emulate.Guest.{virt_addr, read_guest}
use mythril.Emulate.PortIo.{chunks, write_port, write_chunks, set_cpu, emulate_outs, emulate_portio}

-- The debug port serves the port.
pub record Serves (bus : Bus Device) (p dev : ℕ) (d : DebugPort) : Type 0 where
  pub found : find_device bus.map (port p) ≡ some dev
  pub device : bus.devices dev ≡ debug_port d

abbrev pub singles : List ℕ → List (List ℕ)
singles [] = []
singles (b ∷ bytes) = (b ∷ []) ∷ singles bytes

chunks_of_one : (bytes : List ℕ) → chunks 1 (length bytes) bytes ≡ singles bytes
unfolding chunks
chunks_of_one [] = refl
chunks_of_one (b ∷ bytes) = ap (λ l. (b ∷ []) ∷ l) (chunks_of_one bytes)

chunks_by_one :
    (size : ℕ) (bytes : List ℕ) → size ≡ 1 → chunks size (length bytes / size) bytes ≡ singles bytes
chunks_by_one size bytes e = rw e (ap (λ n. chunks 1 n bytes) (omega arith) ∙ chunks_of_one bytes)

module _ (platform : Platform) (address : ℕ → ℕ) (p dev : ℕ) (d : DebugPort) where
  -- The core after a byte.
  after_byte : VCpu Device → ℕ → VCpu Device
  after_byte s b = record s {
    bus = record (s.bus) {
      devices = λ e. if e == dev then debug_port d else s.bus.devices e;
      responses = s.bus.responses ++ (guest_uart_transmitted b ∷ []);
    };
  }

  dispatch_byte :
      (bus : Bus Device) (b : ℕ)
      → Serves bus p dev d
      → dispatch_event (emulated platform) (port p) (port_write p (PortWrite.one_byte b)) bus ≡ (
        record bus {
          devices = λ e. if e == dev then debug_port d else bus.devices e;
          responses = bus.responses ++ (guest_uart_transmitted b ∷ []);
        },
        if ltb max_event_responses (length (bus.responses ++ (guest_uart_transmitted b ∷ [])))
            then panic
            else ok (port_write p (PortWrite.one_byte b)),
      )
  unfolding dispatch_event emulated on_event DebugPort.on_event PortWrite.try_into_u8
  dispatch_byte bus b h =
      rw (h.found, dispatch_event)
        (ap
          (λ device.
            handled dev (on_event platform bus.env device (port_write p (PortWrite.one_byte b)))
              bus)
          h.device)

  write_byte :
      (s : VCpu Device) (b : ℕ)
      → Serves s.bus p dev d
      → write_port (emulated platform) address p (b ∷ []) s ≡ (
        after_byte s b,
        if ltb max_event_responses (length s.bus.responses + 1) then panic else ok tt,
      )
  unfolding write_port PortWrite.try_from after_byte
  write_byte s b h =
      let all = length-append s.bus.responses (guest_uart_transmitted b ∷ []) in
      elim (Bool-cases (ltb max_event_responses (length s.bus.responses + 1))) [
        | inl full ↦ rw (dispatch_byte s.bus b h, all, full) refl
        | inr room ↦ rw (dispatch_byte s.bus b h, all, room) refl
      ]

  after_byte-Serves :
      (s : VCpu Device) (b : ℕ) → Serves s.bus p dev d → Serves ((after_byte s b).bus) p dev d
  unfolding after_byte
  after_byte-Serves s b h = record { found = h.found; device = ground arith }

  -- The bytes, one after the other, in an array that has room for what it holds.
  abbrev pub Written : VCpu Device → List ℕ → VCpu Device × Result (Unit {0}) → Type 0
  Written s bytes r =
      ((length s.bus.responses + length bytes ≤ max_event_responses)
        × (r.1 ≡ ok tt)
        × ((r.0).bus.responses ≡ s.bus.responses ++ map guest_uart_transmitted bytes)
        × ((r.0).guest_cpu ≡ s.guest_cpu))
      ⊎ ((max_event_responses < length s.bus.responses + length bytes) × (r.1 ≡ panic))

  write_chunks-Written :
      (bytes : List ℕ) (s : VCpu Device)
      → Serves s.bus p dev d
      → length s.bus.responses ≤ max_event_responses
      → Written s bytes (write_chunks (emulated platform) address p (singles bytes) s)
  unfolding write_chunks after_byte
  write_chunks-Written [] s h fits = inl (omega arith, refl, sym (append-nil s.bus.responses), refl)
  write_chunks-Written (b ∷ bytes) s h fits =
      let all = length-append s.bus.responses (guest_uart_transmitted b ∷ []) in
      let step = write_byte s b h in
      elim (Bool-cases (ltb max_event_responses (length s.bus.responses + 1))) [
        | inl full ↦ rw (step, full) (inr (ground arith, refl))
        | inr room ↦
            rw (step, room)
              (elim (write_chunks-Written bytes (after_byte s b) (after_byte-Serves s b h)
                (ground arith)) [
                  | inl w ↦ inl (
                    ground arith,
                    w.1,
                    w.2
                        ∙ append_assoc s.bus.responses (guest_uart_transmitted b ∷ [])
                            (map guest_uart_transmitted bytes),
                    w.3,
                  )
                  | inr o ↦ inr (ground arith, o.1)
                ])
      ]

-- OUTS of bytes to a debug port, at an exit that has no response yet. Where the guest's memory gives at
-- most eight bytes, each is a response, in their order, and the instruction ends with the count at
-- zero and the source index past the bytes; where it gives more, the hypervisor panics.
pub outs_lem :
    (platform : Platform) (address : ℕ → ℕ) (dev : ℕ) (d : DebugPort)
    (exit : IoInstructionInformation) (s : VCpu Device) (addr : GuestVirtAddr) (bytes : List ℕ)
    → exit.string ≡ true
    → exit.input ≡ false
    → exit.size ≡ 1
    → Serves s.bus exit.port dev d
    → s.bus.responses ≡ []
    → (vmcs_read s.vmcs VmcsField.guest_linear_address >>= virt_addr s.vmcs) ≡ ok addr
    → read_guest address addr (u64 (s.guest_cpu.rcx * exit.size)) s ≡ (s, ok bytes)
    → let r = emulate_portio (emulated platform) address exit s in
      ((length bytes ≤ max_event_responses)
        × (r.1 ≡ ok tt)
        × ((r.0).bus.responses ≡ map guest_uart_transmitted bytes)
        × ((r.0).guest_cpu
            ≡ record (s.guest_cpu) { rsi = u64 (s.guest_cpu.rsi + length bytes); rcx = 0 }))
      ⊎ ((max_event_responses < length bytes) × (r.1 ≡ panic))
unfolding emulate_portio emulate_outs
outs_lem platform address dev d exit s addr bytes es ei one serves empty at read =
    let none : length s.bus.responses ≡ 0 = ap length empty in
    let r = write_chunks (emulated platform) address exit.port (singles bytes) s in
    let f : Unit {0} → Run (VCpu Device) (Unit {0}) = λ done.
      set_cpu (emulated platform) address
        (λ g. record g { rsi = u64 (g.rsi + length bytes); rcx = 0 }) in
    let written : Written platform address exit.port dev d s bytes r =
      write_chunks-Written platform address exit.port dev d bytes s serves (omega arith) in
    rw (es, ei, at, read, chunks_by_one exit.size bytes one)
      (elim written [
        | inl w ↦ rw (continue-ok f r tt (w.1)) (
            inl (
              omega arith,
              refl,
              w.2 ∙ ap (λ l. l ++ map guest_uart_transmitted bytes) empty,
              ap (λ (g : GuestCpuState). record g { rsi = u64 (g.rsi + length bytes); rcx = 0 })
                  w.3,
            ))
        | inr o ↦ rw (continue-panic f r (o.1)) (inr (omega arith, refl))
      ])
