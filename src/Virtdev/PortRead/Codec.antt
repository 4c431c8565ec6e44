-- ===== src/Virtdev/PortRead/Codec.antt =====
-- What a read request takes in: its width and the number that its bytes stand for.
use mythril.Prelude.{ℕ, ◌*◌, ◌/◌, ◌%◌, ◌^◌, ◌≡◌, refl, ◌⊎◌, inl, inr, arith, List, [], ◌∷◌, length}
use mythril.Prelude.Word.{from_be_bytes}
use mythril.Error.{ok, err, invalid_value}
use mythril.Virtdev.PortRead.{
  PortReadRequest, one_byte, two_bytes, four_bytes, as_slice, len, copy_from_u32, try_from,
}

-- The request that `copy_from_u32` leaves.
abbrev pub filled : PortReadRequest → ℕ → PortReadRequest
filled (one_byte _) v = one_byte (v % 2 ^ 8)
filled (two_bytes _ _) v = two_bytes (v / 2 ^ 8 % 2 ^ 8) (v % 2 ^ 8)
filled (four_bytes _ _ _ _) v =
    four_bytes (v / 2 ^ 24 % 2 ^ 8) (v / 2 ^ 16 % 2 ^ 8) (v / 2 ^ 8 % 2 ^ 8) (v % 2 ^ 8)

pub copy_from_u32-filled : (r : PortReadRequest) (v : ℕ) → copy_from_u32 r v ≡ ok (filled r v)
unfolding copy_from_u32
copy_from_u32-filled (one_byte a) v = ground arith
copy_from_u32-filled (two_bytes a b) v = ground arith
copy_from_u32-filled (four_bytes a b c d) v = ground arith

-- Filling a request from a number never panics, keeps the width of the request, and leaves the
-- number, cut to that width, as the big-endian value of its bytes.
pub copy_from_u32_value :
    (r : PortReadRequest) (v : ℕ)
    → (s : PortReadRequest) × (copy_from_u32 r v ≡ ok s)
      × (len s ≡ len r)
      × (from_be_bytes (as_slice s) ≡ v % 2 ^ (8 * len r))
unfolding len
copy_from_u32_value (one_byte a) v =
    (filled (one_byte a) v, copy_from_u32-filled (one_byte a) v, refl, omega arith)
copy_from_u32_value (two_bytes a b) v =
    (filled (two_bytes a b) v, copy_from_u32-filled (two_bytes a b) v, refl, omega arith)
copy_from_u32_value (four_bytes a b c d) v =
    (filled (four_bytes a b c d) v, copy_from_u32-filled (four_bytes a b c d) v, refl, omega arith)

-- A slice becomes a request that holds just its bytes if its length is 1, 2 or 4, and is refused
-- as an invalid value at any other length.
try_from_lengths :
    (bs : List ℕ)
    → ((r : PortReadRequest) × (try_from bs ≡ ok r)
        × (as_slice r ≡ bs)
        × ((len r ≡ 1) ⊎ (len r ≡ 2) ⊎ (len r ≡ 4)))
      ⊎ ((try_from bs ≡ err invalid_value)
          × (length bs ≡ 1 → ⊥)
          × (length bs ≡ 2 → ⊥)
          × (length bs ≡ 4 → ⊥))
unfolding try_from as_slice len
try_from_lengths [] = inr (refl, omega arith, omega arith, omega arith)
try_from_lengths (a ∷ []) = inl (one_byte a, refl, refl, inl refl)
try_from_lengths (a ∷ b ∷ []) = inl (two_bytes a b, refl, refl, inr (inl refl))
try_from_lengths (a ∷ b ∷ c ∷ []) = inr (refl, omega arith, omega arith, omega arith)
try_from_lengths (a ∷ b ∷ c ∷ d ∷ []) = inl (four_bytes a b c d, refl, refl, inr (inr refl))
try_from_lengths (a ∷ b ∷ c ∷ d ∷ e ∷ bs) = inr (refl, omega arith, omega arith, omega arith)
