-- ===== src/Virtdev/Vga/Registers.antt =====
-- Writes of one and of two bytes to the index port, and the values that the data port reads.
use mythril.Prelude.{
  ℕ, ◌<◌, ◌≡◌, refl, ◌∙◌, arith, ◌==◌, if◌then◌else◌, none, set, length, get_or, get_elem-get_or,
  length-set, get_or-set_self, get_or-set_ne,
}
use mythril.Prelude.Primitive.{TryFromPrimitive}
use mythril.Error.{ok, err, invalid_value}
use mythril.Virtdev.PortRead.{PortReadRequest}
use mythril.Virtdev.PortRead.Codec.{filled, copy_from_u32-filled}
use mythril.Virtdev.PortWrite.{one_byte, two_bytes, try_into_u8}
use mythril.Virtdev.Event.{port_read, port_write}
use mythril.Virtdev.Vga.{
  VgaRegister, vga_code, VgaController, vga_index, vga_data, store_data, on_port_read, write_index,
  on_port_write, on_event,
}

-- A controller with its sixteen registers.
abbrev pub IsComplete : VgaController → Type 0
IsComplete self = length self.registers ≡ 16

vga_code-lt : (r : VgaRegister) → vga_code r < 16
unfolding vga_code
vga_code-lt r = ground arith

-- The value of a register, and the controller with a value stored in one.
abbrev pub value_of : VgaController → VgaRegister → ℕ
value_of self r = get_or self.registers (vga_code r) 0

abbrev pub stored : VgaController → VgaRegister → ℕ → VgaController
stored self r v = record { index = r; registers = set self.registers (vga_code r) v }

store_data-stored :
    (self : VgaController) (v : ℕ)
    → IsComplete self
    → store_data self v ≡ (stored self self.index v, ok tt)
store_data-stored self v h =
    rw
      (get_elem-get_or self.registers (vga_code self.index) 0
        (omega (arith, vga_code-lt self.index)))
      refl

on_port_read-value :
    (self : VgaController) (val : PortReadRequest)
    → IsComplete self
    → on_port_read self vga_data val ≡ ok (filled val (value_of self self.index))
unfolding on_port_read
on_port_read-value self val h =
    rw
      (
        get_elem-get_or self.registers (vga_code self.index) 0
            (omega (arith, vga_code-lt self.index)),
        copy_from_u32-filled val (value_of self self.index),
      )
      refl

stored-IsComplete :
    (self : VgaController) (r : VgaRegister) (v : ℕ)
    → IsComplete self
    → IsComplete (stored self r v)
stored-IsComplete self r v h = length-set self.registers (vga_code r) v ∙ h

value-stored :
    (self : VgaController) (r : VgaRegister) (v : ℕ)
    → IsComplete self
    → value_of (stored self r v) r ≡ v
value-stored self r v h =
    get_or-set_self self.registers (vga_code r) v 0 (omega (arith, vga_code-lt r))

module _ (codes : TryFromPrimitive vga_code) where
  two_writes :
      (self : VgaController) (r : VgaRegister) (i v : ℕ)
      → IsComplete self
      → i ≡ vga_code r
      → let pair = on_event codes self (port_write vga_index (two_bytes v i)) in
        let selected = on_event codes self (port_write vga_index (one_byte i)) in
        let written = on_event codes selected.device (port_write vga_data (one_byte v)) in
        (pair.device ≡ stored self r v)
        × (pair.result ≡ ok tt)
        × (selected.result ≡ ok tt)
        × (written.device ≡ stored self r v)
        × (written.result ≡ ok tt)
  unfolding on_event on_port_write write_index try_into_u8
  two_writes self r i v h e =
      rw (e, codes.try_from-code r, store_data-stored (record self { index = r }) v h)
        (refl, refl, refl, refl, refl)

  read_back :
      (self : VgaController) (r : VgaRegister) (v : ℕ) (val : PortReadRequest)
      → IsComplete self
      → (on_event codes (stored self r v) (port_read vga_data val)).kind
        ≡ port_read vga_data (filled val v)
  unfolding on_event
  read_back self r v val h =
      rw
        (
          on_port_read-value (stored self r v) val (stored-IsComplete self r v h),
          value-stored self r v h,
        )
        refl

  -- The other values: `set` at the place of one register.
  value-other :
      (self : VgaController) (r s : VgaRegister) (v : ℕ)
      → IsComplete self
      → value_of (stored self r v) s ≡ (if vga_code s == vga_code r then v else value_of self s)
  value-other self r s v h = ground (
    arith,
    get_or-set_ne self.registers (vga_code r) (vga_code s) v 0,
    get_or-set_self self.registers (vga_code r) v 0,
    vga_code-lt r,
  )

  -- A write of two bytes to the index port, the value and then the number of a register, leaves a
  -- complete controller as a write of the number to the index port and of the value to the data
  -- port do. The data port then reads as that value, and the other registers keep theirs.
  pub index_and_data_write :
      (self : VgaController) (r : VgaRegister) (v : ℕ) (val : PortReadRequest)
      → IsComplete self
      → let pair = on_event codes self (port_write vga_index (two_bytes v (vga_code r))) in
        let selected = on_event codes self (port_write vga_index (one_byte (vga_code r))) in
        let written = on_event codes selected.device (port_write vga_data (one_byte v)) in
        (pair.device ≡ written.device)
        × (pair.result ≡ ok tt)
        × IsComplete pair.device
        × ((on_event codes pair.device (port_read vga_data val)).kind
            ≡ port_read vga_data (filled val v))
        × ((s : VgaRegister)
            → value_of pair.device s ≡ (if vga_code s == vga_code r then v else value_of self s))
  index_and_data_write self r v val h =
      let w = two_writes self r (vga_code r) v h refl in
      rw (w.0, w.3)
        (
          refl,
          w.1,
          stored-IsComplete self r v h,
          read_back self r v val h,
          λ s. value-other self r s v h,
        )

  -- A number of no register, in a write of one byte or of two to the index port, is refused as an
  -- invalid value, and the controller is as before.
  unknown_index_refused :
      (self : VgaController) (i v : ℕ)
      → codes.try_from i ≡ none
      → let pair = on_event codes self (port_write vga_index (two_bytes v i)) in
        let selected = on_event codes self (port_write vga_index (one_byte i)) in
        (pair.device ≡ self)
        × (pair.result ≡ err invalid_value)
        × (selected.device ≡ self)
        × (selected.result ≡ err invalid_value)
  unfolding on_event on_port_write write_index
  unknown_index_refused self i v h = rw h (refl, refl, refl, refl)
