-- ===== src/Prelude/Word.antt =====
-- Casts to the fixed widths (`as u8`, ...), shifts, complement, and bytes in both orders.
use mythril.Prelude.{ℕ, ◌+◌, ◌-◌, ◌*◌, ◌/◌, ◌%◌, ◌^◌, bit_and, Bool, ◌/=◌, List, [], ◌∷◌, length}

abbrev pub u8 : ℕ → ℕ
u8 n = n % 2 ^ 8

abbrev pub u16 : ℕ → ℕ
u16 n = n % 2 ^ 16

abbrev pub u32 : ℕ → ℕ
u32 n = n % 2 ^ 32

abbrev pub u64 : ℕ → ℕ
u64 n = n % 2 ^ 64

infixl 75 ◌<<<◌ ◌>>>◌
abbrev pub ◌<<<◌ : ℕ → ℕ → ℕ
x <<< k = x * 2 ^ k

abbrev pub ◌>>>◌ : ℕ → ℕ → ℕ
x >>> k = x / 2 ^ k

-- `!x` at 64 bits, for `x` of 64 bits.
abbrev pub not64 : ℕ → ℕ
not64 x = 2 ^ 64 - 1 - x

-- `a - b` at a width, in the release build: it wraps.
abbrev pub wrapping_sub16 : ℕ → ℕ → ℕ
wrapping_sub16 a b = (a + 2 ^ 16 - b) % 2 ^ 16

-- `flags.contains(flag)` for a flag of one bit.
abbrev pub has_bit : ℕ → ℕ → Bool
has_bit x k = bit_and x (2 ^ k) /= 0

-- `u32::to_be_bytes`, and `from_be_bytes` at each width.
abbrev pub to_be_bytes : ℕ → List ℕ
to_be_bytes v = u8 (v >>> 24) ∷ u8 (v >>> 16) ∷ u8 (v >>> 8) ∷ u8 v ∷ []

abbrev pub from_be_bytes : List ℕ → ℕ
from_be_bytes [] = 0
from_be_bytes (b ∷ bs) = b * 2 ^ (8 * length bs) + from_be_bytes bs
