-- ===== src/IoApic/RedTbl.antt =====
-- `IoRedTblEntry` of mythril/src/ioapic.rs, its fields and its conversions from and to 64 bits.
pub mod Sum
pub mod Codec
use mythril.Prelude.{
  ℕ, ◌+◌, ◌*◌, ◌/◌, ◌%◌, ◌^◌, ◌<◌, ◌≡◌, bit_and, bit_or, Bool, true, false, not, ◌&&◌, ◌||◌, ◌==◌,
  ◌/=◌, ltb, if◌then◌else◌,
}
use mythril.Prelude.Word.{◌>>>◌, ◌<<<◌, not64}
use mythril.Error.{Result, ok, err, guard, ◌>>=◌, ◌>>◌, not_supported, invalid_value}

abbrev pub ioredtbl_known_bits_mask : ℕ
ioredtbl_known_bits_mask = 0xff00_0000_0001_ffff

abbrev pub ioredtbl_rw_mask : ℕ
ioredtbl_rw_mask = 0xff00_0000_0001_afff

pub data DestinationMode : Type 0 where
  physical logical : DestinationMode

pub data TriggerMode : Type 0 where
  edge level : TriggerMode

pub data PinPolarity : Type 0 where
  active_high active_low : PinPolarity

pub data DeliveryMode : Type 0 where
  fixed lowest_priority smi nmi init ext_int : DeliveryMode

pub data DeliveryStatus : Type 0 where
  idle send_pending : DeliveryStatus

-- `as u8`.
unfoldable pub destination_mode_code : DestinationMode → ℕ
destination_mode_code physical = 0
destination_mode_code logical = 1

unfoldable pub trigger_mode_code : TriggerMode → ℕ
trigger_mode_code edge = 0
trigger_mode_code level = 1

unfoldable pub pin_polarity_code : PinPolarity → ℕ
pin_polarity_code active_high = 0
pin_polarity_code active_low = 1

unfoldable pub delivery_mode_code : DeliveryMode → ℕ
delivery_mode_code fixed = 0b000
delivery_mode_code lowest_priority = 0b001
delivery_mode_code smi = 0b010
delivery_mode_code nmi = 0b100
delivery_mode_code init = 0b101
delivery_mode_code ext_int = 0b111

unfoldable pub delivery_status_code : DeliveryStatus → ℕ
delivery_status_code idle = 0
delivery_status_code send_pending = 1

-- `TryFrom<u8>`.
unfoldable pub destination_mode_from : ℕ → Result DestinationMode
destination_mode_from value =
    if value == 0 then ok physical else if value == 1 then ok logical else err invalid_value

unfoldable pub trigger_mode_from : ℕ → Result TriggerMode
trigger_mode_from value =
    if value == 0 then ok edge else if value == 1 then ok level else err invalid_value

unfoldable pub pin_polarity_from : ℕ → Result PinPolarity
pin_polarity_from value =
    if value == 0 then ok active_high else if value == 1 then ok active_low else err invalid_value

unfoldable pub delivery_mode_from : ℕ → Result DeliveryMode
delivery_mode_from value =
    if value == 0b000
    then ok fixed
    else if value == 0b001
    then ok lowest_priority
    else if value == 0b010
    then ok smi
    else if value == 0b100
    then ok nmi
    else if value == 0b101
    then ok init
    else if value == 0b111
    then ok ext_int
    else err invalid_value

unfoldable pub delivery_status_from : ℕ → Result DeliveryStatus
delivery_status_from value =
    if value == 0 then ok idle else if value == 1 then ok send_pending else err invalid_value

unfoldable pub valid_for_level_trigger : DeliveryMode → Bool
valid_for_level_trigger fixed = true
valid_for_level_trigger lowest_priority = true
valid_for_level_trigger _ = false

pub record IoRedTblEntry : Type 0 where
  pub vector : ℕ
  pub delivery_mode : DeliveryMode
  pub destination_mode : DestinationMode
  pub delivery_status : DeliveryStatus
  pub pin_polarity : PinPolarity
  pub remote_irr : Bool
  pub trigger_mode : TriggerMode
  pub interrupt_mask : Bool
  pub destination : ℕ

unfoldable pub is_level : TriggerMode → Bool
is_level level = true
is_level edge = false

unfoldable pub is_physical : DestinationMode → Bool
is_physical physical = true
is_physical logical = false

unfoldable pub is_smi : DeliveryMode → Bool
is_smi smi = true
is_smi _ = false

unfoldable pub validate : IoRedTblEntry → Result (Unit {0})
unfolding is_level is_physical is_smi valid_for_level_trigger
validate e = do
  guard (not (is_level e.trigger_mode && not (valid_for_level_trigger e.delivery_mode)))
      invalid_value
  guard (not (is_physical e.destination_mode && ltb 15 e.destination)) invalid_value
  guard (not (is_smi e.delivery_mode && e.vector /= 0)) invalid_value

unfoldable pub new :
    ℕ → DeliveryMode → DestinationMode → PinPolarity → TriggerMode → Bool → ℕ → Result IoRedTblEntry
new vector delivery_mode destination_mode pin_polarity trigger_mode interrupt_mask destination =
    let entry : IoRedTblEntry = record {
      vector = vector;
      delivery_mode = delivery_mode;
      destination_mode = destination_mode;
      delivery_status = idle;
      pin_polarity = pin_polarity;
      remote_irr = false;
      trigger_mode = trigger_mode;
      interrupt_mask = interrupt_mask;
      destination = destination;
    } in
    validate entry >> ok entry

-- `TryFrom<u64>`.
unfoldable pub try_from : ℕ → Result IoRedTblEntry
try_from bits = do
  guard (not (bit_and bits (not64 ioredtbl_known_bits_mask) /= 0)) not_supported
  delivery_mode ← delivery_mode_from (bit_and (bits >>> 8) 0x7)
  destination_mode ← destination_mode_from (bit_and (bits >>> 11) 0x1)
  delivery_status ← delivery_status_from (bit_and (bits >>> 12) 0x1)
  pin_polarity ← pin_polarity_from (bit_and (bits >>> 13) 0x1)
  trigger_mode ← trigger_mode_from (bit_and (bits >>> 15) 0x1)
  let entry : IoRedTblEntry = record {
    vector = bit_and bits 0xff;
    delivery_mode = delivery_mode;
    destination_mode = destination_mode;
    delivery_status = delivery_status;
    pin_polarity = pin_polarity;
    remote_irr = bit_and (bits >>> 14) 0x1 /= 0;
    trigger_mode = trigger_mode;
    interrupt_mask = bit_and (bits >>> 16) 0x1 /= 0;
    destination = bit_and (bits >>> 56) 0xff;
  }
  validate entry
  ok entry

-- `u64::from`.
unfoldable pub into_u64 : IoRedTblEntry → ℕ
into_u64 e =
    let bits = e.vector in
    let bits = bit_or bits (delivery_mode_code e.delivery_mode <<< 8) in
    let bits = bit_or bits (destination_mode_code e.destination_mode <<< 11) in
    let bits = bit_or bits (delivery_status_code e.delivery_status <<< 12) in
    let bits = bit_or bits (pin_polarity_code e.pin_polarity <<< 13) in
    let bits = if e.remote_irr then bit_or bits (1 <<< 14) else bits in
    let bits = bit_or bits (trigger_mode_code e.trigger_mode <<< 15) in
    let bits = if e.interrupt_mask then bit_or bits (1 <<< 16) else bits in
    bit_or bits (e.destination <<< 56)
