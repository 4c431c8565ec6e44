-- ===== src/Prelude/Bits.antt =====
-- `&` and `|` on words, cut at a digit: laws for masks and for fields, at every width.
use Prim.Native.Nat.{
  ℕ, zero, suc, ◌+◌, ◌-◌, ◌*◌, ◌/◌, ◌%◌, ◌^◌, ◌≤◌, ◌<◌, min, max, bit_and, bit_or, digits, bitwise,
  bit_and-bitwise, bit_or-bitwise,
}
use mathlib.Core.Path.{◌≡◌, refl, ap}
use native.Mathlib.Nat.{pow-suc, one-le-pow, div-add-mod', mod-lt}
use native.Mathlib.Omega.{arith}

-- The native operations mean `bitwise`; these equations give the lowest digit, with no fuel.
module _ (z : ℕ → ℕ) (f : ℕ → ℕ → ℕ) where
  digits_enough : (n m a b : ℕ) → a ≤ n → a ≤ m → digits z f n a b ≡ digits z f m a b
  digits_enough (suc n) (suc m) (suc a) b hn hm =
      rw (digits_enough n m (suc a / 2) (b / 2) (omega arith) (omega arith))
  digits_enough (suc n) (suc m) zero b hn hm = refl
  digits_enough (suc n) zero (suc a) b hn hm = absurd (omega arith)
  digits_enough (suc n) zero zero b hn hm = refl
  digits_enough zero (suc m) (suc a) b hn hm = absurd (omega arith)
  digits_enough zero (suc m) zero b hn hm = refl
  digits_enough zero zero a b hn hm = refl

  bitwise_lowest :
      (a b : ℕ)
      → bitwise z f (suc a) b ≡ bitwise z f (suc a / 2) (b / 2) * 2 + f (suc a % 2) (b % 2)
  bitwise_lowest a b =
      omega (arith, digits_enough a (suc a / 2) (suc a / 2) (b / 2) (omega arith) (omega arith))

pub bit_or_lowest : (a b : ℕ) → bit_or a b ≡ bit_or (a / 2) (b / 2) * 2 + max (a % 2) (b % 2)
bit_or_lowest zero b = simp bit_or-bitwise (omega arith)
bit_or_lowest (suc a) b = simp bit_or-bitwise (bitwise_lowest (λ y. y) max a b)

pub bit_and_lowest : (a b : ℕ) → bit_and a b ≡ bit_and (a / 2) (b / 2) * 2 + min (a % 2) (b % 2)
bit_and_lowest zero b = simp bit_and-bitwise (omega arith)
bit_and_lowest (suc a) b = simp bit_and-bitwise (bitwise_lowest (λ y. 0) min a b)

pub zero-bit_or : (b : ℕ) → bit_or 0 b ≡ b
zero-bit_or b = bit_or-bitwise 0 b

pub zero-bit_and : (b : ℕ) → bit_and 0 b ≡ 0
zero-bit_and b = bit_and-bitwise 0 b

bit_or-zero_below : (n a : ℕ) → a ≤ n → bit_or a 0 ≡ a
bit_or-zero_below n zero h = refl
bit_or-zero_below zero (suc a) h = absurd (omega arith)
bit_or-zero_below (suc n) (suc a) h =
    omega (arith, bit_or_lowest (suc a) 0, bit_or-zero_below n (suc a / 2) (omega arith))

pub bit_or-zero : (a : ℕ) → bit_or a 0 ≡ a
bit_or-zero a = bit_or-zero_below a a (omega arith)

bit_and-zero_below : (n a : ℕ) → a ≤ n → bit_and a 0 ≡ 0
bit_and-zero_below n zero h = refl
bit_and-zero_below zero (suc a) h = absurd (omega arith)
bit_and-zero_below (suc n) (suc a) h =
    omega (arith, bit_and_lowest (suc a) 0, bit_and-zero_below n (suc a / 2) (omega arith))

pub bit_and-zero : (a : ℕ) → bit_and a 0 ≡ 0
bit_and-zero a = bit_and-zero_below a a (omega arith)

shift_suc : (q k : ℕ) → q * 2 ^ suc k ≡ 2 * (q * 2 ^ k)
shift_suc q k = omega (arith, ap (λ (t : ℕ). q * t) (pow-suc 2 k))

-- `a` and `b` cut in a high and a low part of k digits.
pub bit_or_cut :
    (k ah al bh bl : ℕ)
    → al < 2 ^ k
    → bl < 2 ^ k
    → bit_or (ah * 2 ^ k + al) (bh * 2 ^ k + bl) ≡ bit_or ah bh * 2 ^ k + bit_or al bl
bit_or_cut zero ah al bh bl p q = ground (arith, bit_or-zero 0)
bit_or_cut (suc k) ah al bh bl p q = ground (
  arith,
  bit_or_lowest (ah * 2 ^ suc k + al) (bh * 2 ^ suc k + bl),
  bit_or_lowest al bl,
  shift_suc ah k,
  shift_suc bh k,
  shift_suc (bit_or ah bh) k,
  pow-suc 2 k,
  bit_or_cut k ah (al / 2) bh (bl / 2),
)

pub bit_and_cut :
    (k ah al bh bl : ℕ)
    → al < 2 ^ k
    → bl < 2 ^ k
    → bit_and (ah * 2 ^ k + al) (bh * 2 ^ k + bl) ≡ bit_and ah bh * 2 ^ k + bit_and al bl
bit_and_cut zero ah al bh bl p q = ground (arith, bit_and-zero 0)
bit_and_cut (suc k) ah al bh bl p q = ground (
  arith,
  bit_and_lowest (ah * 2 ^ suc k + al) (bh * 2 ^ suc k + bl),
  bit_and_lowest al bl,
  shift_suc ah k,
  shift_suc bh k,
  shift_suc (bit_and ah bh) k,
  pow-suc 2 k,
  bit_and_cut k ah (al / 2) bh (bl / 2),
)

ones_pred : (k : ℕ) → 0 < 2 ^ k
ones_pred k = one-le-pow k 2 (omega arith)

bit_and-ones_below : (k r : ℕ) → r < 2 ^ k → bit_and r (2 ^ k - 1) ≡ r
bit_and-ones_below zero zero h = zero-bit_and (2 ^ 0 - 1)
bit_and-ones_below zero (suc r) h = absurd (omega arith)
bit_and-ones_below (suc k) r h = ground (
  arith,
  bit_and_lowest r (2 ^ suc k - 1),
  bit_and-ones_below k (r / 2),
  pow-suc 2 k,
  ones_pred k,
)

halves : (k a : ℕ) → (a / 2 ^ k) * 2 ^ k + a % 2 ^ k ≡ a
halves k a = div-add-mod' a (2 ^ k)

-- `a & (2 ^ k - 1)`.
pub bit_and-ones : (k a : ℕ) → bit_and a (2 ^ k - 1) ≡ a % 2 ^ k
bit_and-ones k a = ground (
  arith,
  halves k a,
  mod-lt a {m = 2 ^ k},
  ones_pred k,
  bit_and_cut k (a / 2 ^ k) (a % 2 ^ k) 0 (2 ^ k - 1),
  bit_and-ones_below k (a % 2 ^ k),
  bit_and-zero (a / 2 ^ k),
)

-- A mask of w ones above k digits picks out a field and leaves it in its place.
pub bit_and-field : (w k a : ℕ) → bit_and a ((2 ^ w - 1) * 2 ^ k) ≡ (a / 2 ^ k) % 2 ^ w * 2 ^ k
bit_and-field w k a = ground (
  arith,
  halves k a,
  mod-lt a {m = 2 ^ k},
  ones_pred k,
  bit_and_cut k (a / 2 ^ k) (a % 2 ^ k) (2 ^ w - 1) 0,
  bit_and-ones w (a / 2 ^ k),
  bit_and-zero (a % 2 ^ k),
)

-- Above k digits a mask meets the high part only.
pub bit_and-high : (k a b : ℕ) → bit_and a (b * 2 ^ k) ≡ bit_and (a / 2 ^ k) b * 2 ^ k
bit_and-high k a b = ground (
  arith,
  halves k a,
  mod-lt a {m = 2 ^ k},
  ones_pred k,
  bit_and_cut k (a / 2 ^ k) (a % 2 ^ k) b 0,
  bit_and-zero (a % 2 ^ k),
)

-- Fields that do not overlap are put together by addition, in either order.
pub bit_or-fields : (k q r : ℕ) → r < 2 ^ k → bit_or (q * 2 ^ k) r ≡ q * 2 ^ k + r
bit_or-fields k q r h =
    ground (arith, ones_pred k, bit_or_cut k q 0 0 r, bit_or-zero q, zero-bit_or r)

pub bit_or-fields_low : (k q r : ℕ) → r < 2 ^ k → bit_or r (q * 2 ^ k) ≡ q * 2 ^ k + r
bit_or-fields_low k q r h =
    ground (arith, ones_pred k, bit_or_cut k 0 r q 0, bit_or-zero r, zero-bit_or q)

-- `|` makes no number longer.
pub bit_or-lt : (k a b : ℕ) → a < 2 ^ k → b < 2 ^ k → bit_or a b < 2 ^ k
bit_or-lt zero zero zero p q = omega (arith, zero-bit_or 0)
bit_or-lt zero zero (suc b) p q = absurd (omega arith)
bit_or-lt zero (suc a) b p q = absurd (omega arith)
bit_or-lt (suc k) a b p q =
    ground (arith, bit_or_lowest a b, pow-suc 2 k, bit_or-lt k (a / 2) (b / 2))

pub bit_and-le : (a b : ℕ) → bit_and a b ≤ a
bit_and-le a b = go a a b (omega arith)
  where
    go : (n a b : ℕ) → a ≤ n → bit_and a b ≤ a
    go n zero b h = omega (arith, zero-bit_and b)
    go zero (suc a) b h = absurd (omega arith)
    go (suc n) (suc a) b h = ground (arith, bit_and_lowest (suc a) b, go n (suc a / 2) (b / 2))
