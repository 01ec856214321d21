-- ===== src/Messages/RobotState.antt =====
-- examples/Common/messages/RobotState.hpp
use umsg.Base.{ℕ, Bool, Option, some}
use umsg.Common.{ByteSpan}
use umsg.Marshalling.Cursor.{Writer, Reader, write_u8, read_u8}
use umsg.Marshalling.Signed.{Float, write_float, read_float}
use umsg.Messages.{then_write, then_read, encode_fields, decode_fields}

pub record RobotState : Type 0 where
  pub mode : ℕ
  pub battery_voltage : Float

abbrev pub msg_hash : ℕ
msg_hash = 0x6F95B45A

abbrev pub payload_size : ℕ
payload_size = 5

unfoldable pub put : RobotState → Writer → Bool × Writer
put m w = then_write (write_u8 w m.mode) (λ w'. write_float w' m.battery_voltage)

unfoldable pub get : Reader → Option RobotState
get r = then_read (read_u8 r) (λ mode r'.
    then_read (read_float r')
      (λ battery_voltage r''. some (record { mode = mode; battery_voltage = battery_voltage })))

unfoldable pub encode : RobotState → ByteSpan → Bool × ByteSpan
encode m payload = encode_fields (put m) payload

unfoldable pub decode : ByteSpan → Option RobotState
decode payload = decode_fields payload_size get payload
