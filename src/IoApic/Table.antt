-- ===== src/IoApic/Table.antt =====
-- The redirection table: writes of an entry, and reads after them.
use mythril.Prelude.{
  ℕ, ◌+◌, ◌-◌, ◌*◌, ◌/◌, ◌%◌, ◌^◌, ◌≤◌, ◌<◌, ◌≡◌, ◌≢◌, refl, arith, bit_and, false, ◌/=◌, ltb,
  if◌then◌else◌, ◌==◌, ◌↔◌, ◌⊎◌, inl, inr, Bool-cases, ==_iff,
}
use mythril.Prelude.Word.{not64}
use mythril.Prelude.Bits.{bit_and-ones, bit_and-field, bit_and_cut, bit_or-fields_low}
use mythril.Error.{ok, err, invalid_value}
use mythril.IoApic.{IoApic, read_ioredtbl_raw, write_ioredtbl_raw, read_ioredtbl, write_ioredtbl}
use mythril.IoApic.RedTbl.{
  IoRedTblEntry, delivery_status_code, validate, into_u64, ioredtbl_rw_mask,
}
use mythril.IoApic.RedTbl.Sum.{into_u64-lt}
use mythril.IoApic.RedTbl.Codec.{try_from-into_u64, into_u64_digits}

read-write_raw :
    (self : IoApic) (id val : ℕ)
    → val < 2 ^ 64
    → read_ioredtbl_raw (write_ioredtbl_raw self id val) id ≡ val
unfolding read_ioredtbl_raw write_ioredtbl_raw
read-write_raw self id val h =
    ground (arith, bit_and-ones 32 val, bit_or-fields_low 32 (val / 2 ^ 32) (val % 2 ^ 32))

read-write_raw_ne :
    (self : IoApic) (id other val : ℕ)
    → other ≢ id
    → read_ioredtbl_raw (write_ioredtbl_raw self id val) other ≡ read_ioredtbl_raw self other
unfolding read_ioredtbl_raw write_ioredtbl_raw
read-write_raw_ne self id other val h = ground arith

-- The read-only bits are 12, 14 and 17 to 55.
read_only_bits :
    (val : ℕ)
    → bit_and val (not64 ioredtbl_rw_mask)
      ≡ val / 2 ^ 17 % 2 ^ 39 * 2 ^ 17 + (val / 2 ^ 14 % 2 * 2 ^ 14 + val / 2 ^ 12 % 2 * 2 ^ 12)
read_only_bits val = ground (
  arith,
  bit_and_cut 17 (val / 2 ^ 17) (val % 2 ^ 17) (2 ^ 39 - 1) 0x5000,
  bit_and-ones 39 (val / 2 ^ 17),
  bit_and_cut 13 (val % 2 ^ 17 / 2 ^ 13) (val % 2 ^ 13) 2 0x1000,
  bit_and-field 1 12 (val % 2 ^ 13),
  bit_and-field 1 1 (val % 2 ^ 17 / 2 ^ 13),
)

-- An entry is in the state that software may write.
abbrev pub IsWritable : IoRedTblEntry → Type 0
IsWritable e = (delivery_status_code e.delivery_status ≡ 0) × (e.remote_irr ≡ false)

read_only_test :
    (e : IoRedTblEntry)
    → e.vector < 256
    → e.destination < 256
    → ((bit_and (into_u64 e) (not64 ioredtbl_rw_mask) /= 0) ≡ false) ↔ IsWritable e
read_only_test e hv hd = (
  λ h. (
    ground (arith, read_only_bits (into_u64 e), into_u64_digits e hv hd),
    ground (arith, read_only_bits (into_u64 e), into_u64_digits e hv hd),
  ),
  λ h. ground (arith, read_only_bits (into_u64 e), into_u64_digits e hv hd),
)

written_entry :
    (self : IoApic) (id other : ℕ) (e : IoRedTblEntry)
    → e.vector < 256
    → e.destination < 256
    → validate e ≡ ok tt
    → ltb 23 id ≡ false
    → read_ioredtbl (write_ioredtbl_raw self id (into_u64 e)) other
      ≡ (if other == id then ok e else read_ioredtbl self other)
unfolding read_ioredtbl
written_entry self id other e hv hd valid small = elim (Bool-cases (other == id)) [
  | inl same ↦
      rw
        (
          same,
          (==_iff other id).0 same,
          small,
          read-write_raw self id (into_u64 e) (into_u64-lt e hv hd),
        )
        (try_from-into_u64 e hv hd valid)
  | inr apart ↦ rw (apart, read-write_raw_ne self id other (into_u64 e) (ground arith)) refl
]

-- A write of a valid entry is accepted for the 24 entries of the table, if neither its delivery status
-- nor its remote IRR is set; then it is read back whole, and any other entry is read as before. Else
-- it is refused as an invalid value, and the registers are as before.
pub write_ioredtbl_lem :
    (self : IoApic) (id : ℕ) (e : IoRedTblEntry)
    → e.vector < 256
    → e.destination < 256
    → validate e ≡ ok tt
    → (((id ≤ 23) × IsWritable e)
        × ((self' : IoApic) × (write_ioredtbl self id e ≡ (self', ok tt))
            × ((other : ℕ)
                → read_ioredtbl self' other
                  ≡ (if other == id then ok e else read_ioredtbl self other))))
      ⊎ (((id ≤ 23) × IsWritable e → ⊥) × (write_ioredtbl self id e ≡ (self, err invalid_value)))
unfolding write_ioredtbl read_ioredtbl
write_ioredtbl_lem self id e hv hd valid = elim (Bool-cases (ltb 23 id)) [
  | inl large ↦ inr (λ h. ground arith, ground arith)
  | inr small ↦ elim (Bool-cases (bit_and (into_u64 e) (not64 ioredtbl_rw_mask) /= 0)) [
    | inl set ↦ inr (λ h. ground (arith, (read_only_test e hv hd).1 h.1), rw (small, set))
    | inr clear ↦ inl (
      (ground arith, (read_only_test e hv hd).0 clear),
      (
        write_ioredtbl_raw self id (into_u64 e),
        rw (small, clear),
        λ other. written_entry self id other e hv hd valid small,
      ),
    )
  ]
]
