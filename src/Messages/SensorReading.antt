-- ===== src/Messages/SensorReading.antt =====
-- examples/Common/messages/SensorReading.hpp
use umsg.Base.{ℕ, Bool, Option, some}
use umsg.Common.{ByteSpan}
use umsg.Marshalling.Cursor.{Writer, Reader, write_u32, read_u32}
use umsg.Marshalling.Signed.{Float, write_float, read_float}
use umsg.Messages.{then_write, then_read, encode_fields, decode_fields}

pub record SensorReading : Type 0 where
  pub sensor_id : ℕ
  pub value : Float

abbrev pub msg_hash : ℕ
msg_hash = 0x4DF97BD2

abbrev pub payload_size : ℕ
payload_size = 8

unfoldable pub put : SensorReading → Writer → Bool × Writer
put m w = then_write (write_u32 w m.sensor_id) (λ w'. write_float w' m.value)

unfoldable pub get : Reader → Option SensorReading
get r = then_read (read_u32 r) (λ sensor_id r'.
    then_read (read_float r') (λ value r''. some (record { sensor_id = sensor_id; value = value })))

unfoldable pub encode : SensorReading → ByteSpan → Bool × ByteSpan
encode m payload = encode_fields (put m) payload

unfoldable pub decode : ByteSpan → Option SensorReading
decode payload = decode_fields payload_size get payload
