-- ===== src/IoApic.antt =====
-- mythril/src/ioapic.rs: the I/O APIC. Its registers are hardware: the data window shows the register
-- that the select register names, and a write through the window is stored there. A redirection entry
-- is `IoApic/RedTbl.antt`.
pub mod RedTbl
pub mod Table
pub mod Route
use mythril.Prelude.{
  ℕ, zero, suc, ◌+◌, ◌-◌, ◌*◌, ◌/◌, ◌%◌, ◌^◌, bit_and, bit_or, Bool, true, false, not, ◌&&◌, ◌==◌,
  ◌/=◌, ltb, leb, if◌then◌else◌, List, [], ◌∷◌, Option, none, some, get_elem?, set,
}
use mythril.Prelude.Word.{u8, u32, ◌>>>◌, ◌<<<◌, not64}
use mythril.Error.{Result, ok, err, panic, ◌>>=◌, not_supported, not_found, invalid_value}
use RedTbl.{IoRedTblEntry, ioredtbl_rw_mask, fixed, physical, active_high, edge, try_from, into_u64}

pub record IoApic : Type 0 where
  pub registers : ℕ → ℕ
  pub gsi_base : ℕ

abbrev pub ioapic_version : ℕ
ioapic_version = 0x11

abbrev pub ioapicid : ℕ
ioapicid = 0x00

abbrev pub ioapicver : ℕ
ioapicver = 0x01

abbrev pub ioapicarb : ℕ
ioapicarb = 0x02

abbrev pub ioredtbl_offset : ℕ
ioredtbl_offset = 0x10

unfoldable pub read_raw : IoApic → ℕ → ℕ
read_raw self reg = self.registers reg

unfoldable pub write_raw : IoApic → ℕ → ℕ → IoApic
write_raw self reg val = record self { registers = λ r. if r == reg then val else self.registers r }

unfoldable pub id : IoApic → ℕ
unfolding read_raw
id self = bit_and (read_raw self ioapicid >>> 24) 0x0f

unfoldable pub set_id : IoApic → ℕ → IoApic × Result (Unit {0})
unfolding write_raw
set_id self id =
    if ltb 0x0f id then (self, err invalid_value) else (write_raw self ioapicid (id <<< 24), ok tt)

unfoldable pub version : IoApic → ℕ
unfolding read_raw
version self = bit_and (read_raw self ioapicver) 0xff

unfoldable pub max_redirection_entry : IoApic → ℕ
unfolding read_raw
max_redirection_entry self = bit_and (read_raw self ioapicver >>> 16) 0xff

unfoldable pub arbitration_id : IoApic → ℕ
unfolding read_raw
arbitration_id self = bit_and (read_raw self ioapicarb >>> 24) 0x0f

unfoldable pub set_arbitration_id : IoApic → ℕ → IoApic × Result (Unit {0})
unfolding write_raw
set_arbitration_id self id =
    if ltb 15 id then (self, err invalid_value) else (write_raw self ioapicarb (id <<< 24), ok tt)

unfoldable pub new : (ℕ → ℕ) → ℕ → Result IoApic
unfolding version
new registers gsi_base =
    let ioapic : IoApic = record { registers = registers; gsi_base = gsi_base } in
    if version ioapic /= ioapic_version then err not_supported else ok ioapic

unfoldable pub read_ioredtbl_raw : IoApic → ℕ → ℕ
unfolding read_raw
read_ioredtbl_raw self id =
    let base_reg = ioredtbl_offset + id * 2 in
    let low_order = read_raw self base_reg in
    let high_order = read_raw self (base_reg + 1) in bit_or low_order (high_order <<< 32)

unfoldable pub read_ioredtbl : IoApic → ℕ → Result IoRedTblEntry
read_ioredtbl self id =
    if ltb 23 id then err invalid_value else try_from (read_ioredtbl_raw self id)

unfoldable pub write_ioredtbl_raw : IoApic → ℕ → ℕ → IoApic
unfolding write_raw
write_ioredtbl_raw self id val =
    let base_reg = ioredtbl_offset + id * 2 in
    let low_order = bit_and val 0xffffffff in
    let high_order = val >>> 32 in
    write_raw (write_raw self base_reg low_order) (base_reg + 1) high_order

unfoldable pub write_ioredtbl : IoApic → ℕ → IoRedTblEntry → IoApic × Result (Unit {0})
write_ioredtbl self id entry =
    let val = into_u64 entry in
    if ltb 23 id
    then (self, err invalid_value)
    else if bit_and val (not64 ioredtbl_rw_mask) /= 0
    then (self, err invalid_value)
    else (write_ioredtbl_raw self id val, ok tt)

-- `get_ivec_range().contains(&gsi)`.
unfoldable pub in_ivec_range : IoApic → ℕ → Bool
in_ivec_range self gsi =
    leb self.gsi_base gsi && ltb gsi (u32 (self.gsi_base + max_redirection_entry self))

-- The position of the I/O APIC among the registered ones, and the entry in its table; `from` is the
-- position of the head of the list.
unfoldable pub ioapic_for_gsi : List IoApic → ℕ → ℕ → Option (ℕ × ℕ)
ioapic_for_gsi [] from gsi = none
ioapic_for_gsi (ioapic ∷ rest) from gsi = elim (in_ivec_range ioapic gsi) [
  | true ↦ some (from, u8 (gsi - ioapic.gsi_base))
  | false ↦ ioapic_for_gsi rest (suc from) gsi
]

unfoldable pub write_at :
    List IoApic → ℕ → ℕ → Result IoRedTblEntry → List IoApic × Result (Unit {0})
write_at ioapics at entry (ok e) = elim (get_elem? ioapics at) [
  | none ↦ (ioapics, panic)
  | some ioapic ↦
      let (written, result) = write_ioredtbl ioapic entry e in (set ioapics at written, result)
]
write_at ioapics at entry (err e) = (ioapics, err e)
write_at ioapics at entry panic = (ioapics, panic)

unfoldable pub map_gsi_vector : List IoApic → ℕ → ℕ → ℕ → List IoApic × Result (Unit {0})
unfolding write_at
map_gsi_vector ioapics gsi vector apic_id = elim (ioapic_for_gsi ioapics 0 gsi) [
  | none ↦ (ioapics, err not_found)
  | some (at, entry) ↦
      write_at ioapics at entry (RedTbl.new vector fixed physical active_high edge false apic_id)
]
