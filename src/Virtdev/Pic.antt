-- ===== src/Virtdev/Pic.antt =====
-- mythril/src/virtdev/pic.rs: the interrupt masks of the 8259 pair.
pub mod Mask
use mythril.Prelude.{ℕ, List, [], ◌∷◌, ◌==◌, if◌then◌else◌}
use mythril.Error.{Result, ok}
use mythril.Virtdev.PortRead.{PortReadRequest, copy_from_u32}
use mythril.Virtdev.PortWrite.{PortWriteRequest, try_into_u8}
use mythril.Virtdev.DeviceMap.{DeviceRegion, port_io}
use mythril.Virtdev.Event.{
  DeviceEvent, port_read, port_write, Outcome, ignored, answered, accepted, with_value,
}

pub record PicState : Type 0 where
  pub imr : ℕ

pub record Pic8259 : Type 0 where
  pub master_state : PicState
  pub slave_state : PicState

abbrev pub pic_master_command : ℕ
pic_master_command = 0x0020

abbrev pub pic_master_data : ℕ
pic_master_data = 0x0021

abbrev pub pic_slave_command : ℕ
pic_slave_command = 0x00a0

abbrev pub pic_slave_data : ℕ
pic_slave_data = 0x00a1

abbrev pub pic_eclr_command : ℕ
pic_eclr_command = 0x4d0

abbrev pub pic_eclr_data : ℕ
pic_eclr_data = 0x4d1

unfoldable pub new : Result Pic8259
new = ok (record { master_state = record { imr = 0 }; slave_state = record { imr = 0 } })

unfoldable pub services : List DeviceRegion
services =
    port_io (record { start = pic_master_command; end = pic_master_data })
    ∷ port_io (record { start = pic_slave_command; end = pic_slave_data })
    ∷ port_io (record { start = pic_eclr_command; end = pic_eclr_data })
    ∷ []

unfoldable pub on_port_read : Pic8259 → ℕ → PortReadRequest → Pic8259 × Result PortReadRequest
on_port_read self port val =
    if port == pic_master_data
    then (self, copy_from_u32 val self.master_state.imr)
    else if port == pic_slave_data
    then (self, copy_from_u32 val self.master_state.imr)
    else (self, ok val)

abbrev set_master_imr : Pic8259 → ℕ → Pic8259 × Result (Unit {0})
set_master_imr self b = (record self { master_state = record { imr = b } }, ok tt)

unfoldable pub on_port_write : Pic8259 → ℕ → PortWriteRequest → Pic8259 × Result (Unit {0})
on_port_write self port val =
    if port == pic_master_data
    then with_value self (try_into_u8 val) (set_master_imr self)
    else if port == pic_slave_data
    then with_value self (try_into_u8 val) (set_master_imr self)
    else (self, ok tt)

unfoldable pub on_event : Pic8259 → DeviceEvent → Outcome Pic8259
unfolding on_port_read on_port_write
on_event self (port_read port val) = answered port val (on_port_read self port val)
on_event self (port_write port val) = accepted port val (on_port_write self port val)
on_event self kind = ignored self kind
