-- ===== src/Virtdev/Pci/Bdf.antt =====
-- The number of a bus, device and function, in both directions.
use mythril.Prelude.{ℕ, ◌+◌, ◌*◌, ◌/◌, ◌%◌, ◌^◌, ◌<◌, ◌≡◌, arith}
use mythril.Prelude.Bits.{bit_and-field, bit_and-ones, bit_or-fields}
use mythril.Virtdev.Pci.{PciBdf, from, into}

abbrev pub number : PciBdf → ℕ
number self = self.bus * 2 ^ 8 + self.device * 2 ^ 3 + self.function

-- A bus, a device and a function within their widths of 8, 5 and 3 bits.
abbrev pub Fits : PciBdf → Type 0
Fits self = (self.bus < 2 ^ 8) × (self.device < 2 ^ 5) × (self.function < 2 ^ 3)

into-number : (self : PciBdf) → Fits self → into self ≡ number self
unfolding into
into-number self h =
    let low = bit_or-fields 8 self.bus (self.device * 2 ^ 3) (omega arith) in
    let high = bit_or-fields 3 (self.bus * 2 ^ 5 + self.device) self.function (h.2) in ground arith

from-fields :
    (n : ℕ)
    → ((from n).bus ≡ n / 2 ^ 8 % 2 ^ 8)
      × ((from n).device ≡ n / 2 ^ 3 % 2 ^ 5)
      × ((from n).function ≡ n % 2 ^ 3)
unfolding from
from-fields n = (
  omega (arith, bit_and-field 8 8 n),
  omega (arith, bit_and-field 5 3 n),
  omega (arith, bit_and-ones 3 n),
)

PciBdf-eq : (a b : PciBdf) → a.bus ≡ b.bus → a.device ≡ b.device → a.function ≡ b.function → a ≡ b
PciBdf-eq a b e f g = cc

from-into_number :
    (n : ℕ)
    → n < 2 ^ 16
    → ((from n).bus ≡ n / 2 ^ 8 % 2 ^ 8)
      × ((from n).device ≡ n / 2 ^ 3 % 2 ^ 5)
      × ((from n).function ≡ n % 2 ^ 3)
    → Fits (from n) × (into (from n) ≡ n)
from-into_number n h e =
    let fits : Fits (from n) = (omega arith, omega arith, omega arith) in
    (fits, omega (arith, into-number (from n) fits))

-- The number of a bus, device and function that fit their widths gives the three back.
from-into : (self : PciBdf) → Fits self → from (into self) ≡ self
from-into self h =
    PciBdf-eq (from (into self)) self (omega (arith, from-fields (into self), into-number self h))
      (omega (arith, from-fields (into self), into-number self h))
      (omega (arith, from-fields (into self), into-number self h))

-- A number of sixteen bits is that of the bus, device and function it gives, which fit their widths.
into-from : (n : ℕ) → n < 2 ^ 16 → Fits (from n) × (into (from n) ≡ n)
into-from n h = from-into_number n h (from-fields n)
