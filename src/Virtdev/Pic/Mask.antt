-- ===== src/Virtdev/Pic/Mask.antt =====
-- The mask that the ports of the two controllers read and write.
use mythril.Prelude.{ℕ, ◌≡◌, refl, ◌∙◌, ap, ◌⊎◌, arith, List, [], ◌∷◌, ◌==◌, ◌||◌, if◌then◌else◌}
use mythril.Error.{ok}
use mythril.Virtdev.PortRead.{PortReadRequest}
use mythril.Virtdev.PortRead.Codec.{filled, copy_from_u32-filled}
use mythril.Virtdev.PortWrite
use mythril.Virtdev.Event.{
  DeviceEvent, host_uart_received, mem_read, mem_write, port_read, port_write,
}
use mythril.Virtdev.Pic.{
  Pic8259, pic_master_data, pic_slave_data, on_event, on_port_read, on_port_write,
}

-- A run of the device over a sequence of events.
abbrev pub run : Pic8259 → List DeviceEvent → Pic8259
run self [] = self
run self (event ∷ events) = run (on_event self event).device events

-- The byte that an event writes to a data port, or else the mask before it.
abbrev pub written_mask : DeviceEvent → ℕ → ℕ
written_mask (port_write port (PortWrite.PortWriteRequest.one_byte byte)) mask =
    if port == pic_master_data || port == pic_slave_data then byte else mask
written_mask _ mask = mask

-- The last byte written to a data port, or else the mask before the events.
abbrev pub last_mask : List DeviceEvent → ℕ → ℕ
last_mask [] mask = mask
last_mask (event ∷ events) mask = last_mask events (written_mask event mask)

abbrev with_master : Pic8259 → ℕ → Pic8259
with_master self mask = record self { master_state = record { imr = mask } }

on_event-device :
    (self : Pic8259) (event : DeviceEvent)
    → (on_event self event).device ≡ with_master self (written_mask event self.master_state.imr)
unfolding on_event on_port_read on_port_write PortWrite.try_into_u8
on_event-device self (host_uart_received key) = refl
on_event-device self (mem_read a r) = refl
on_event-device self (mem_write a r) = refl
on_event-device self (port_read port val) =
    ground (arith, copy_from_u32-filled val self.master_state.imr)
on_event-device self (port_write port (PortWrite.PortWriteRequest.one_byte b)) = ground arith
on_event-device self (port_write port (PortWrite.PortWriteRequest.two_bytes a b)) = ground arith
on_event-device self (port_write port (PortWrite.PortWriteRequest.four_bytes a b c d)) =
    ground arith

run-device :
    (self : Pic8259) (events : List DeviceEvent)
    → run self events ≡ with_master self (last_mask events self.master_state.imr)
run-device self [] = refl
run-device self (event ∷ events) =
    let mask = written_mask event self.master_state.imr in
    ap (λ s. run s events) (on_event-device self event) ∙ run-device (with_master self mask) events

-- The controllers share one mask, whatever events they take: the data ports of both read the byte that
-- was last written, as a write of one byte, to the data port of either, or the mask of the master where
-- none was; no event changes the mask of the slave.
pub on_event_shared_mask :
    (self : Pic8259) (events : List DeviceEvent) (read : ℕ) (val : PortReadRequest)
    → (read ≡ pic_master_data) ⊎ (read ≡ pic_slave_data)
    → let after = run self events in
      let answer = on_event after (port_read read val) in
      ((after.slave_state).imr ≡ (self.slave_state).imr)
      × (answer.result ≡ ok tt)
      × (answer.kind ≡ port_read read (filled val (last_mask events self.master_state.imr)))
      × ((answer.device.slave_state).imr ≡ (self.slave_state).imr)
unfolding on_event on_port_read
on_event_shared_mask self events read val r =
    let mask = last_mask events self.master_state.imr in
    rw (run-device self events) (
      refl,
      ground (arith, copy_from_u32-filled val mask),
      ground (arith, copy_from_u32-filled val mask),
      ground (arith, copy_from_u32-filled val mask),
    )
