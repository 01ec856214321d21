-- ===== src/Common.antt =====
-- src/umsg/common.hpp: error codes, spans and the sizes that the buffers are given.
mod Sizes
unfoldable pub use Sizes.*
use umsg.Base.{Bool, true, false, ℕ, Option, none, some, List, [], take, length, ◌≤◌, ◌≡◌, IsBytes}

-- `enum class Error`.
pub data Error : Type 0 where
  ok : Error
  frame_overflow cobs_invalid crc_invalid frame_too_short : Error
  version_mismatch hash_mismatch length_mismatch handler_not_found : Error
  invalid_argument transport_error : Error

-- The memory behind a pointer, from the pointer on; `none` is the null pointer.
abbrev pub Pointer : Type 0
Pointer = Option (List ℕ)

abbrev pub is_null : Pointer → Bool
is_null none = true
is_null (some bytes) = false

-- `struct ByteSpan`.
pub record ByteSpan : Type 0 where
  pub data_ptr : Pointer
  pub length : ℕ

-- The first `n` bytes behind a pointer, which a loop or a `memcpy` of `n` bytes reads.
abbrev pub region : Pointer → ℕ → List ℕ
region none n = []
region (some bytes) n = take n bytes

abbrev pub contents : ByteSpan → List ℕ
contents s = region s.data_ptr s.length

-- A span that a caller may pass: as many bytes behind the pointer as the length says.
abbrev pub HasRoom : Pointer → ℕ → Type 0
HasRoom none n = n ≡ 0
HasRoom (some bytes) n = n ≤ length bytes
