-- ===== src/Virtdev/PortRead.antt =====
-- `PortReadRequest` of mythril/src/virtdev/mod.rs. A request borrows the bytes that the device
-- fills; the model holds them, and a write through the borrow returns the request that results.
pub mod Codec
use mythril.Prelude.{ℕ, ◌-◌, List, [], ◌∷◌, length, drop}
use mythril.Prelude.Word.{to_be_bytes}
use mythril.Error.{Result, ok, err, panic, invalid_value}

pub data PortReadRequest : Type 0 where
  one_byte : ℕ → PortReadRequest
  two_bytes : ℕ → ℕ → PortReadRequest
  four_bytes : ℕ → ℕ → ℕ → ℕ → PortReadRequest

unfoldable pub as_slice : PortReadRequest → List ℕ
as_slice (one_byte a) = a ∷ []
as_slice (two_bytes a b) = a ∷ b ∷ []
as_slice (four_bytes a b c d) = a ∷ b ∷ c ∷ d ∷ []

unfoldable pub len : PortReadRequest → ℕ
unfolding as_slice
len r = length (as_slice r)

-- `as_mut_slice().copy_from_slice(..)`, which panics where the lengths differ.
unfoldable pub copy_from_slice : PortReadRequest → List ℕ → Result PortReadRequest
copy_from_slice (one_byte _) (a ∷ []) = ok (one_byte a)
copy_from_slice (two_bytes _ _) (a ∷ b ∷ []) = ok (two_bytes a b)
copy_from_slice (four_bytes _ _ _ _) (a ∷ b ∷ c ∷ d ∷ []) = ok (four_bytes a b c d)
copy_from_slice _ _ = panic

unfoldable pub copy_from_u32 : PortReadRequest → ℕ → Result PortReadRequest
unfolding len copy_from_slice
copy_from_u32 r v = copy_from_slice r (drop (4 - len r) (to_be_bytes v))

unfoldable pub try_from : List ℕ → Result PortReadRequest
try_from (a ∷ []) = ok (one_byte a)
try_from (a ∷ b ∷ []) = ok (two_bytes a b)
try_from (a ∷ b ∷ c ∷ d ∷ []) = ok (four_bytes a b c d)
try_from _ = err invalid_value
