-- ===== src/Virtdev/PortWrite.antt =====
-- `PortWriteRequest` of mythril/src/virtdev/mod.rs, and the two requests on memory.
pub mod Codec
use mythril.Prelude.{ℕ, List, [], ◌∷◌}
use mythril.Prelude.Word.{from_be_bytes}
use mythril.Error.{Result, ok, err, invalid_value}

pub data PortWriteRequest : Type 0 where
  one_byte : ℕ → PortWriteRequest
  two_bytes : ℕ → ℕ → PortWriteRequest
  four_bytes : ℕ → ℕ → ℕ → ℕ → PortWriteRequest

unfoldable pub as_slice : PortWriteRequest → List ℕ
as_slice (one_byte a) = a ∷ []
as_slice (two_bytes a b) = a ∷ b ∷ []
as_slice (four_bytes a b c d) = a ∷ b ∷ c ∷ d ∷ []

unfoldable pub as_u32 : PortWriteRequest → ℕ
as_u32 (one_byte a) = from_be_bytes (0 ∷ 0 ∷ 0 ∷ a ∷ [])
as_u32 (two_bytes a b) = from_be_bytes (0 ∷ 0 ∷ a ∷ b ∷ [])
as_u32 (four_bytes a b c d) = from_be_bytes (a ∷ b ∷ c ∷ d ∷ [])

unfoldable pub try_from : List ℕ → Result PortWriteRequest
try_from (a ∷ []) = ok (one_byte a)
try_from (a ∷ b ∷ []) = ok (two_bytes a b)
try_from (a ∷ b ∷ c ∷ d ∷ []) = ok (four_bytes a b c d)
try_from _ = err invalid_value

unfoldable pub try_into_u8 : PortWriteRequest → Result ℕ
try_into_u8 (one_byte a) = ok a
try_into_u8 _ = err invalid_value

unfoldable pub try_into_u16 : PortWriteRequest → Result ℕ
try_into_u16 (two_bytes a b) = ok (from_be_bytes (a ∷ b ∷ []))
try_into_u16 _ = err invalid_value

unfoldable pub try_into_u32 : PortWriteRequest → Result ℕ
try_into_u32 (four_bytes a b c d) = ok (from_be_bytes (a ∷ b ∷ c ∷ d ∷ []))
try_into_u32 _ = err invalid_value

pub record MemReadRequest : Type 0 where
  pub bytes : List ℕ

pub record MemWriteRequest : Type 0 where
  pub bytes : List ℕ

single_byte : List ℕ → Result ℕ
single_byte (a ∷ []) = ok a
single_byte _ = err invalid_value

unfoldable pub mem_try_into_u8 : MemWriteRequest → Result ℕ
unfolding single_byte
mem_try_into_u8 r = single_byte r.bytes
