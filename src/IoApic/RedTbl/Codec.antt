-- ===== src/IoApic/RedTbl/Codec.antt =====
-- The two conversions of an entry, one after the other.
use mythril.Prelude.{
  ℕ, ◌*◌, ◌/◌, ◌%◌, ◌^◌, ◌<◌, ◌≡◌, sym, ◌∙◌, ◌↔◌, arith, bit_and, Bool, true, not, ◌/=◌,
  if◌then◌else◌,
}
use mythril.Prelude.Word.{◌>>>◌, not64}
use mythril.Prelude.Bits.{bit_and-ones, bit_and-field}
use mythril.Error.{ok}
use mythril.IoApic.RedTbl.{
  IoRedTblEntry, DeliveryMode, DestinationMode, DeliveryStatus, PinPolarity, TriggerMode,
  ioredtbl_known_bits_mask, delivery_mode_code, destination_mode_code, delivery_status_code,
  pin_polarity_code, trigger_mode_code, delivery_mode_from, destination_mode_from,
  delivery_status_from, pin_polarity_from, trigger_mode_from, validate, try_from, into_u64,
}
use mythril.IoApic.RedTbl.Sum.{
  into_u64-sum, delivery_mode_code-lt, destination_mode_code-lt, delivery_status_code-lt,
  pin_polarity_code-lt, trigger_mode_code-lt, flag-lt,
}

-- Each enum's conversion from a number inverts its code.
pub delivery_mode_iff :
    (n : ℕ) (d : DeliveryMode) → (delivery_mode_from n ≡ ok d) ↔ (delivery_mode_code d ≡ n)
unfolding delivery_mode_from delivery_mode_code
delivery_mode_iff n d = ground arith

destination_mode_iff :
    (n : ℕ) (d : DestinationMode) → (destination_mode_from n ≡ ok d) ↔ (destination_mode_code d ≡ n)
unfolding destination_mode_from destination_mode_code
destination_mode_iff n d = ground arith

delivery_status_iff :
    (n : ℕ) (d : DeliveryStatus) → (delivery_status_from n ≡ ok d) ↔ (delivery_status_code d ≡ n)
unfolding delivery_status_from delivery_status_code
delivery_status_iff n d = ground arith

pin_polarity_iff :
    (n : ℕ) (d : PinPolarity) → (pin_polarity_from n ≡ ok d) ↔ (pin_polarity_code d ≡ n)
unfolding pin_polarity_from pin_polarity_code
pin_polarity_iff n d = ground arith

trigger_mode_iff :
    (n : ℕ) (d : TriggerMode) → (trigger_mode_from n ≡ ok d) ↔ (trigger_mode_code d ≡ n)
unfolding trigger_mode_from trigger_mode_code
trigger_mode_iff n d = ground arith

-- The bits that are no field of an entry.
unknown_bits :
    (bits : ℕ) → bit_and bits (not64 ioredtbl_known_bits_mask) ≡ bits / 2 ^ 17 % 2 ^ 39 * 2 ^ 17
unknown_bits bits = bit_and-field 39 17 bits

unknown_test :
    (bits : ℕ)
    → not (bit_and bits (not64 ioredtbl_known_bits_mask) /= 0) ≡ true
    → bits / 2 ^ 17 % 2 ^ 39 ≡ 0
unknown_test bits h = ground (arith, unknown_bits bits)

-- One bit as a flag.
flag_of : (x : ℕ) → (if bit_and x 0x1 /= 0 then 1 else 0) ≡ x % 2
flag_of x = ground (arith, bit_and-ones 1 x)

flag_back : (x : ℕ) (b : Bool) → x % 2 ≡ (if b then 1 else 0) → (bit_and x 0x1 /= 0) ≡ b
flag_back x b h = ground (arith, bit_and-ones 1 x)

-- What a read that succeeds has found in the bits.
try_from_fields :
    (bits : ℕ) (e : IoRedTblEntry)
    → try_from bits ≡ ok e
    → (not (bit_and bits (not64 ioredtbl_known_bits_mask) /= 0) ≡ true)
      × (delivery_mode_from (bit_and (bits >>> 8) 0x7) ≡ ok e.delivery_mode)
      × (destination_mode_from (bit_and (bits >>> 11) 0x1) ≡ ok e.destination_mode)
      × (delivery_status_from (bit_and (bits >>> 12) 0x1) ≡ ok e.delivery_status)
      × (pin_polarity_from (bit_and (bits >>> 13) 0x1) ≡ ok e.pin_polarity)
      × (trigger_mode_from (bit_and (bits >>> 15) 0x1) ≡ ok e.trigger_mode)
      × (e.vector ≡ bit_and bits 0xff)
      × (e.remote_irr ≡ (bit_and (bits >>> 14) 0x1 /= 0))
      × (e.interrupt_mask ≡ (bit_and (bits >>> 16) 0x1 /= 0))
      × (e.destination ≡ bit_and (bits >>> 56) 0xff)
      × (validate e ≡ ok tt)
unfolding try_from
try_from_fields bits e read = ground arith

-- An entry that is read from 64 bits is written back to just those bits.
pub into_u64-try_from :
    (bits : ℕ) (e : IoRedTblEntry) → bits < 2 ^ 64 → try_from bits ≡ ok e → into_u64 e ≡ bits
into_u64-try_from bits e h read =
    let f = try_from_fields bits e read in
    let dm = (delivery_mode_iff _ _).0 f.1 in
    let xm = (destination_mode_iff _ _).0 f.2 in
    let ds = (delivery_status_iff _ _).0 f.3 in
    let pp = (pin_polarity_iff _ _).0 f.4 in
    let tm = (trigger_mode_iff _ _).0 f.5 in
    let irr = flag_is e.remote_irr (bits / 2 ^ 14) f.7 in
    let mask = flag_is e.interrupt_mask (bits / 2 ^ 16) f.8 in
    let zero_part = unknown_test bits f.0 in
    omega (
      arith,
      into_u64-sum e (omega (arith, f.6, bit_and-ones 8 bits)),
      f.6,
      f.9,
      bit_and-ones 8 bits,
      bit_and-ones 8 (bits / 2 ^ 56),
      bit_and-ones 3 (bits / 2 ^ 8),
      bit_and-ones 1 (bits / 2 ^ 11),
      bit_and-ones 1 (bits / 2 ^ 12),
      bit_and-ones 1 (bits / 2 ^ 13),
      bit_and-ones 1 (bits / 2 ^ 15),
    )
  where
    flag_is : (b : Bool) (x : ℕ) → b ≡ (bit_and x 0x1 /= 0) → (if b then 1 else 0) ≡ x % 2
    flag_is b x e = ground (arith, flag_of x)

-- What is needed for a read to succeed.
try_from_of_fields :
    (bits : ℕ) (e : IoRedTblEntry)
    → not (bit_and bits (not64 ioredtbl_known_bits_mask) /= 0) ≡ true
    → delivery_mode_from (bit_and (bits >>> 8) 0x7) ≡ ok e.delivery_mode
    → destination_mode_from (bit_and (bits >>> 11) 0x1) ≡ ok e.destination_mode
    → delivery_status_from (bit_and (bits >>> 12) 0x1) ≡ ok e.delivery_status
    → pin_polarity_from (bit_and (bits >>> 13) 0x1) ≡ ok e.pin_polarity
    → trigger_mode_from (bit_and (bits >>> 15) 0x1) ≡ ok e.trigger_mode
    → bit_and bits 0xff ≡ e.vector
    → (bit_and (bits >>> 14) 0x1 /= 0) ≡ e.remote_irr
    → (bit_and (bits >>> 16) 0x1 /= 0) ≡ e.interrupt_mask
    → bit_and (bits >>> 56) 0xff ≡ e.destination
    → validate e ≡ ok tt
    → try_from bits ≡ ok e
unfolding try_from
try_from_of_fields bits e k dm xm ds pp tm v irr mask d valid = ground arith

-- The fields as digits of the 64 bits.
pub into_u64_digits :
    (e : IoRedTblEntry)
    → e.vector < 256
    → e.destination < 256
    → (into_u64 e / 2 ^ 17 % 2 ^ 39 ≡ 0)
      × (delivery_mode_code e.delivery_mode ≡ into_u64 e / 2 ^ 8 % 2 ^ 3)
      × (destination_mode_code e.destination_mode ≡ into_u64 e / 2 ^ 11 % 2 ^ 1)
      × (delivery_status_code e.delivery_status ≡ into_u64 e / 2 ^ 12 % 2 ^ 1)
      × (pin_polarity_code e.pin_polarity ≡ into_u64 e / 2 ^ 13 % 2 ^ 1)
      × (trigger_mode_code e.trigger_mode ≡ into_u64 e / 2 ^ 15 % 2 ^ 1)
      × (into_u64 e % 2 ^ 8 ≡ e.vector)
      × (into_u64 e / 2 ^ 14 % 2 ≡ (if e.remote_irr then 1 else 0))
      × (into_u64 e / 2 ^ 16 % 2 ≡ (if e.interrupt_mask then 1 else 0))
      × (into_u64 e / 2 ^ 56 % 2 ^ 8 ≡ e.destination)
into_u64_digits e hv hd = omega (
  arith,
  into_u64-sum e hv,
  delivery_mode_code-lt e.delivery_mode,
  destination_mode_code-lt e.destination_mode,
  delivery_status_code-lt e.delivery_status,
  pin_polarity_code-lt e.pin_polarity,
  trigger_mode_code-lt e.trigger_mode,
  flag-lt e.remote_irr,
  flag-lt e.interrupt_mask,
)

-- A valid entry that is written to 64 bits is read back whole.
pub try_from-into_u64 :
    (e : IoRedTblEntry)
    → e.vector < 256
    → e.destination < 256
    → validate e ≡ ok tt
    → try_from (into_u64 e) ≡ ok e
try_from-into_u64 e hv hd valid =
    let bits = into_u64 e in
    let d = into_u64_digits e hv hd in
    try_from_of_fields bits e (ground (arith, unknown_bits bits, d.0))
      ((delivery_mode_iff _ _).1 (d.1 ∙ sym (bit_and-ones 3 (bits / 2 ^ 8))))
      ((destination_mode_iff _ _).1 (d.2 ∙ sym (bit_and-ones 1 (bits / 2 ^ 11))))
      ((delivery_status_iff _ _).1 (d.3 ∙ sym (bit_and-ones 1 (bits / 2 ^ 12))))
      ((pin_polarity_iff _ _).1 (d.4 ∙ sym (bit_and-ones 1 (bits / 2 ^ 13))))
      ((trigger_mode_iff _ _).1 (d.5 ∙ sym (bit_and-ones 1 (bits / 2 ^ 15))))
      (bit_and-ones 8 bits ∙ d.6) (flag_back (bits / 2 ^ 14) e.remote_irr d.7)
      (flag_back (bits / 2 ^ 16) e.interrupt_mask d.8) (bit_and-ones 8 (bits / 2 ^ 56) ∙ d.9) valid
