-- ===== src/Arduino.antt =====
-- src/umsg/transports/arduino.hpp and src/umsg/transports/arduino: the transports over objects of the
-- Arduino libraries, which are parameters, their methods acting on a `State`.
pub mod ArduinoStream
pub mod TcpClientTransport
pub mod UdpTransport
pub mod Queues
pub mod Packets
mod Tests
use umsg.Base.{
  ℕ, zero, suc, ◌+◌, ◌==◌, not, if◌then◌else◌, Bool, true, false, Option, none, some, List, length,
}
use umsg.Base.Int.{ℤ, pos, negsuc}
use umsg.Marshalling.Signed.{to_unsigned}
use umsg.Node.{Transport}

-- The methods of `Stream` and of the client and UDP classes that serve bytes.
pub record Stream (State : Type 0) : Type 0 where
  pub available : State → ℤ × State
  pub read : State → ℤ × State
  pub write : List ℕ → State → ℕ × State

-- Those of a client, and of a UDP object. An address is a number, and a host its name.
pub record Client (State : Type 0) : Type 0 where
  pub stream : Stream State
  pub connect_ip : ℕ → ℕ → State → Bool × State
  pub connect_host : List ℕ → ℕ → State → Bool × State
  pub connected : State → Bool × State
  pub stop : State → State

pub record Udp (State : Type 0) : Type 0 where
  pub stream : Stream State
  pub parse_packet : State → ℤ × State
  pub begin_packet : ℕ → ℕ → State → ℤ × State
  pub end_packet : State → ℤ × State

abbrev pub is_positive : ℤ → Bool
is_positive (pos zero) = false
is_positive (pos (suc n)) = true
is_positive (negsuc n) = false

abbrev pub is_one : ℤ → Bool
is_one (pos n) = n == 1
is_one (negsuc n) = false

module _ {State : Type 0} where
  -- The byte, of the result of the `read` of the object.
  abbrev pub byte_of : ℤ × State → Option ℕ × State
  byte_of (n, s) = (some (to_unsigned 256 n), s)

  -- From the result of `available`.
  unfoldable pub read_available : Stream State → ℤ × State → Option ℕ × State
  read_available stream (n, s) = if is_positive n then byte_of (stream.read s) else (none, s)

  -- `StreamTransport::read`, and `read` of `ArduinoStream` and of `TcpClientTransport`.
  unfoldable pub read : Stream State → State → Option ℕ × State
  read stream s = read_available stream (stream.available s)

  -- `StreamTransport::write`
  unfoldable pub write : Stream State → List ℕ → State → Bool × State
  write stream bytes s = let r = stream.write bytes s in (r.0 == length bytes, r.1)

  abbrev pub stream_transport : Stream State → Transport State
  stream_transport stream = record { read = read stream; write = write stream }
