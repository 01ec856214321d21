-- ===== src/Messages/SetLed.antt =====
-- examples/Common/messages/SetLed.hpp
use umsg.Base.{ℕ, Bool, Option, some}
use umsg.Common.{ByteSpan}
use umsg.Marshalling.Cursor.{Writer, Reader, write_bool, read_bool}
use umsg.Messages.{then_read, encode_fields, decode_fields}

pub record SetLed : Type 0 where
  pub state : Bool

abbrev pub msg_hash : ℕ
msg_hash = 0x18E29F44

abbrev pub payload_size : ℕ
payload_size = 1

unfoldable pub put : SetLed → Writer → Bool × Writer
put m w = write_bool w m.state

unfoldable pub get : Reader → Option SetLed
get r = then_read (read_bool r) (λ state r'. some (record { state = state }))

unfoldable pub encode : SetLed → ByteSpan → Bool × ByteSpan
encode m payload = encode_fields (put m) payload

unfoldable pub decode : ByteSpan → Option SetLed
decode payload = decode_fields payload_size get payload
