-- ===== src/Arduino/UdpTransport.antt =====
-- src/umsg/transports/arduino/udp.hpp: `UdpTransport`. `dest_ip` and `dest_port` are its state.
use umsg.Base.{ℕ, ◌==◌, not, if◌then◌else◌, Bool, false, Option, none, List, length}
use umsg.Base.Int.{ℤ}
use umsg.Arduino.{Udp, is_positive, is_one, byte_of, read_available}

pub record Destination : Type 0 where
  pub dest_ip : ℕ
  pub dest_port : ℕ

unfoldable pub set_destination : Destination → ℕ → ℕ → Destination
set_destination d ip port = record { dest_ip = ip; dest_port = port }

-- From the result of `parsePacket`.
unfoldable pub read_parsed : {State : Type 0} → Udp State → ℤ × State → Option ℕ × State
read_parsed udp (n, s) =
    if is_positive n then read_available udp.stream (udp.stream.available s) else (none, s)

-- From the result of the first `available`.
unfoldable pub read_current : {State : Type 0} → Udp State → ℤ × State → Option ℕ × State
read_current udp (n, s) =
    if is_positive n then byte_of (udp.stream.read s) else read_parsed udp (udp.parse_packet s)

unfoldable pub read : {State : Type 0} → Udp State → State → Option ℕ × State
read udp s = read_current udp (udp.stream.available s)

-- From the result of `endPacket`, with the number of bytes written.
unfoldable pub write_ended : {State : Type 0} → ℕ → ℕ → ℤ × State → Bool × State
write_ended size written (n, s) = if not (is_one n) then (false, s) else (written == size, s)

-- From the result of `beginPacket`.
unfoldable pub write_begun : {State : Type 0} → Udp State → List ℕ → ℤ × State → Bool × State
write_begun udp bytes (n, s) =
    if not (is_one n)
    then (false, s)
    else (let r = udp.stream.write bytes s in
        write_ended (length bytes) (r.0) (udp.end_packet (r.1)))

unfoldable pub write : {State : Type 0} → Udp State → Destination → List ℕ → State → Bool × State
write udp d bytes s = write_begun udp bytes (udp.begin_packet d.dest_ip d.dest_port s)
