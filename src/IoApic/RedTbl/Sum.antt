-- ===== src/IoApic/RedTbl/Sum.antt =====
-- The 64 bits of an entry as a sum of its fields.
use mythril.Prelude.{ℕ, ◌+◌, ◌*◌, ◌^◌, ◌<◌, ◌≡◌, arith, bit_or, Bool, true, false, if◌then◌else◌}
use mythril.Prelude.Bits.{bit_or-fields_low}
use mythril.IoApic.RedTbl.{
  IoRedTblEntry, DeliveryMode, DestinationMode, DeliveryStatus, PinPolarity, TriggerMode, into_u64,
  delivery_mode_code, destination_mode_code, delivery_status_code, pin_polarity_code,
  trigger_mode_code,
}

pub delivery_mode_code-lt : (d : DeliveryMode) → delivery_mode_code d < 8
unfolding delivery_mode_code
delivery_mode_code-lt d = ground arith

pub destination_mode_code-lt : (d : DestinationMode) → destination_mode_code d < 2
unfolding destination_mode_code
destination_mode_code-lt d = ground arith

pub delivery_status_code-lt : (d : DeliveryStatus) → delivery_status_code d < 2
unfolding delivery_status_code
delivery_status_code-lt d = ground arith

pub pin_polarity_code-lt : (d : PinPolarity) → pin_polarity_code d < 2
unfolding pin_polarity_code
pin_polarity_code-lt d = ground arith

pub trigger_mode_code-lt : (d : TriggerMode) → trigger_mode_code d < 2
unfolding trigger_mode_code
trigger_mode_code-lt d = ground arith

-- `if b { bits |= 1 << k }`.
or_flag :
    (k bits : ℕ) (b : Bool)
    → bits < 2 ^ k
    → (if b then bit_or bits (1 * 2 ^ k) else bits) ≡ (if b then 1 else 0) * 2 ^ k + bits
or_flag k bits true h = bit_or-fields_low k 1 bits h
or_flag k bits false h = omega arith

pub flag-lt : (b : Bool) → (if b then 1 else 0) < 2
flag-lt b = ground arith

pub into_u64-sum :
    (e : IoRedTblEntry)
    → e.vector < 256
    → into_u64 e
      ≡ e.destination * 2 ^ 56
        + ((if e.interrupt_mask then 1 else 0) * 2 ^ 16
            + (trigger_mode_code e.trigger_mode * 2 ^ 15
                + ((if e.remote_irr then 1 else 0) * 2 ^ 14
                    + (pin_polarity_code e.pin_polarity * 2 ^ 13
                        + (delivery_status_code e.delivery_status * 2 ^ 12
                            + (destination_mode_code e.destination_mode * 2 ^ 11
                                + (delivery_mode_code e.delivery_mode * 2 ^ 8 + e.vector)))))))
unfolding into_u64
into_u64-sum e h =
    let dm = delivery_mode_code e.delivery_mode in
    let xm = destination_mode_code e.destination_mode in
    let ds = delivery_status_code e.delivery_status in
    let pp = pin_polarity_code e.pin_polarity in
    let tm = trigger_mode_code e.trigger_mode in
    let b₁ = dm * 2 ^ 8 + e.vector in
    let b₂ = xm * 2 ^ 11 + b₁ in
    let b₃ = ds * 2 ^ 12 + b₂ in
    let b₄ = pp * 2 ^ 13 + b₃ in
    let b₅ = (if e.remote_irr then 1 else 0) * 2 ^ 14 + b₄ in
    let b₆ = tm * 2 ^ 15 + b₅ in
    let b₇ = (if e.interrupt_mask then 1 else 0) * 2 ^ 16 + b₆ in
    let h₁ : b₁ < 2 ^ 11 = omega (arith, delivery_mode_code-lt e.delivery_mode) in
    let h₂ : b₂ < 2 ^ 12 = omega (arith, destination_mode_code-lt e.destination_mode) in
    let h₃ : b₃ < 2 ^ 13 = omega (arith, delivery_status_code-lt e.delivery_status) in
    let h₄ : b₄ < 2 ^ 14 = omega (arith, pin_polarity_code-lt e.pin_polarity) in
    let h₅ : b₅ < 2 ^ 15 = omega (arith, flag-lt e.remote_irr) in
    let h₆ : b₆ < 2 ^ 16 = omega (arith, trigger_mode_code-lt e.trigger_mode) in
    let h₇ : b₇ < 2 ^ 56 = omega (arith, flag-lt e.interrupt_mask) in
    rw (
      bit_or-fields_low 8 dm e.vector h,
      bit_or-fields_low 11 xm b₁ h₁,
      bit_or-fields_low 12 ds b₂ h₂,
      bit_or-fields_low 13 pp b₃ h₃,
      or_flag 14 b₄ e.remote_irr h₄,
      bit_or-fields_low 15 tm b₅ h₅,
      or_flag 16 b₆ e.interrupt_mask h₆,
      bit_or-fields_low 56 e.destination b₇ h₇,
    )

pub into_u64-lt : (e : IoRedTblEntry) → e.vector < 256 → e.destination < 256 → into_u64 e < 2 ^ 64
into_u64-lt e hv hd = omega (
  arith,
  into_u64-sum e hv,
  delivery_mode_code-lt e.delivery_mode,
  destination_mode_code-lt e.destination_mode,
  delivery_status_code-lt e.delivery_status,
  pin_polarity_code-lt e.pin_polarity,
  trigger_mode_code-lt e.trigger_mode,
  flag-lt e.remote_irr,
  flag-lt e.interrupt_mask,
)
