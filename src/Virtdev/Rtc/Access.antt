-- ===== src/Virtdev/Rtc/Access.antt =====
-- Selecting a register through the address port, and what the data port then stores and reads.
use mythril.Prelude.{
  ℕ, ◌%◌, ◌^◌, ◌≡◌, refl, ◌∙◌, ap, ◌≢◌, arith, bit_and, Bool, true, false, not, ◌&&◌, ◌==◌,
  if◌then◌else◌, Bool-cases, inl, inr,
}
use mythril.Prelude.Bits.{bit_and-ones}
use mythril.Prelude.Primitive.{TryFromPrimitive}
use mythril.Error.{ok}
use mythril.Virtdev.PortRead.{PortReadRequest}
use mythril.Virtdev.PortRead.Codec.{filled, copy_from_u32-filled}
use mythril.Virtdev.PortWrite.{one_byte, try_into_u8}
use mythril.Virtdev.Event.{port_read, port_write}
use mythril.Virtdev.Rtc.{
  CmosRegister, shutdown_status, status_register_c, status_register_d, cmos_code, CmosRtc,
  rtc_address, rtc_data, store, on_port_read, write_register, on_port_write, on_event,
}

-- The registers whose writes are dropped.
abbrev pub write_ignored : CmosRegister → Bool
write_ignored shutdown_status = true
write_ignored status_register_c = true
write_ignored status_register_d = true
write_ignored _ = false

store_self : (array : ℕ → ℕ) (i v : ℕ) → store array i v i ≡ v
store_self array i v = ground arith

store_other : (array : ℕ → ℕ) (i v j : ℕ) → j ≢ i → store array i v j ≡ array j
store_other array i v j h = ground arith

write_register_dropped :
    (self : CmosRtc) (r : CmosRegister) (v : ℕ)
    → write_ignored r ≡ true
    → write_register self r v ≡ self
unfolding write_register
write_register_dropped self shutdown_status v h = refl
write_register_dropped self status_register_c v h = refl
write_register_dropped self status_register_d v h = refl
write_register_dropped self _ v h = cc

write_register_kept :
    (self : CmosRtc) (r : CmosRegister) (v : ℕ)
    → write_ignored r ≡ false
    → write_register self r v ≡ record self { bytes = store self.bytes (cmos_code r) v }
unfolding write_register
write_register_kept self shutdown_status v h = cc
write_register_kept self status_register_c v h = cc
write_register_kept self status_register_d v h = cc
write_register_kept self _ v h = refl

write_register_stores :
    (self : CmosRtc) (r : CmosRegister) (v : ℕ)
    → let after = write_register self r v in
      (after.addr ≡ self.addr)
      × (after.bytes (cmos_code r) ≡ (if write_ignored r then self.bytes (cmos_code r) else v))
      × ((j : ℕ) → j ≢ cmos_code r → after.bytes j ≡ self.bytes j)
write_register_stores self r v = elim (Bool-cases (write_ignored r)) [
  | inl h ↦ rw (write_register_dropped self r v h, h) (refl, refl, λ j n. refl)
  | inr h ↦
      rw (write_register_kept self r v h, h)
        (
          refl,
          store_self self.bytes (cmos_code r) v,
          λ j n. store_other self.bytes (cmos_code r) v j n,
        )
]

reads :
    (self : CmosRtc) (val : PortReadRequest)
    → (on_port_read self rtc_address val ≡ ok (filled val (cmos_code self.addr)))
      × (on_port_read self rtc_data val ≡ ok (filled val (self.bytes (cmos_code self.addr))))
unfolding on_port_read
reads self val = (
  copy_from_u32-filled val (cmos_code self.addr),
  copy_from_u32-filled val (self.bytes (cmos_code self.addr)),
)

module _ (registers : TryFromPrimitive cmos_code) where
  select :
      (self : CmosRtc) (r : CmosRegister) (b : ℕ)
      → b % 2 ^ 7 ≡ cmos_code r
      → (on_event registers self (port_write rtc_address (one_byte b))).device
        ≡ record self { addr = r }
  unfolding on_event on_port_write try_into_u8
  select self r b h =
      let e : bit_and b 0x7f ≡ cmos_code r = bit_and-ones 7 b ∙ h in
      rw (e, registers.try_from-code r) refl

  stored :
      (self : CmosRtc) (b : ℕ)
      → (on_event registers self (port_write rtc_data (one_byte b))).device
        ≡ write_register self self.addr (b % 2 ^ 7)
  unfolding on_event on_port_write try_into_u8
  stored self b = rw (bit_and-ones 7 b) refl

  read_back :
      (self : CmosRtc) (val : PortReadRequest)
      → ((on_event registers self (port_read rtc_address val)).kind
          ≡ port_read rtc_address (filled val (cmos_code self.addr)))
        × ((on_event registers self (port_read rtc_data val)).kind
            ≡ port_read rtc_data (filled val (self.bytes (cmos_code self.addr))))
  unfolding on_event
  read_back self val = rw ((reads self val).0, (reads self val).1) (refl, refl)

  -- A byte whose low seven bits are the code of a register selects it, whatever its top bit: the
  -- address port then reads as the code. A byte written to the data port after that is read there
  -- without its top bit, except at the shutdown status and the status registers C and D, where the
  -- write is dropped; the bytes at all other indices stay.
  pub select_write_read :
      (self : CmosRtc) (r : CmosRegister) (a b : ℕ) (val : PortReadRequest)
      → a % 2 ^ 7 ≡ cmos_code r
      → let selected = (on_event registers self (port_write rtc_address (one_byte a))).device in
        let written = (on_event registers selected (port_write rtc_data (one_byte b))).device in
        ((on_event registers selected (port_read rtc_address val)).kind
          ≡ port_read rtc_address (filled val (cmos_code r)))
        × ((on_event registers written (port_read rtc_data val)).kind
            ≡ port_read rtc_data
                (filled val (if write_ignored r then self.bytes (cmos_code r) else b % 2 ^ 7)))
        × ((j : ℕ)
            → written.bytes j
              ≡ (if j == cmos_code r && not (write_ignored r) then b % 2 ^ 7 else self.bytes j))
  select_write_read self r a b val h =
      let chosen : CmosRtc = record self { addr = r } in
      let after = write_register chosen r (b % 2 ^ 7) in
      let effect = write_register_stores chosen r (b % 2 ^ 7) in
      rw (select self r a h, stored chosen b)
        (
          (read_back chosen val).0,
          (read_back after val).1
              ∙ ap (λ n. port_read rtc_data (filled val n))
                  (ap (λ x. after.bytes (cmos_code x)) effect.0 ∙ effect.1),
          λ j. ground (arith, effect.1, effect.2 j),
        )
