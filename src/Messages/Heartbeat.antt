-- ===== src/Messages/Heartbeat.antt =====
-- examples/Common/messages/Heartbeat.hpp
use umsg.Base.{ℕ, Bool, Option, some}
use umsg.Common.{ByteSpan}
use umsg.Marshalling.Cursor.{Writer, Reader, write_u32, read_u32}
use umsg.Messages.{then_read, encode_fields, decode_fields}

pub record Heartbeat : Type 0 where
  pub uptime_ms : ℕ

abbrev pub msg_hash : ℕ
msg_hash = 0xF5BA0031

abbrev pub payload_size : ℕ
payload_size = 4

unfoldable pub put : Heartbeat → Writer → Bool × Writer
put m w = write_u32 w m.uptime_ms

unfoldable pub get : Reader → Option Heartbeat
get r = then_read (read_u32 r) (λ uptime_ms r'. some (record { uptime_ms = uptime_ms }))

unfoldable pub encode : Heartbeat → ByteSpan → Bool × ByteSpan
encode m payload = encode_fields (put m) payload

unfoldable pub decode : ByteSpan → Option Heartbeat
decode payload = decode_fields payload_size get payload
