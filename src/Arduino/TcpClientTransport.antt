-- ===== src/Arduino/TcpClientTransport.antt =====
-- src/umsg/transports/arduino/tcp_client.hpp: `TcpClientTransport`.
use umsg.Base.{ℕ, ◌==◌, Bool, true, false, Option, List, length}
use umsg.Arduino.{Client, read_available}

unfoldable pub connect_ip : {State : Type 0} → Client State → ℕ → ℕ → State → Bool × State
connect_ip client ip port s = client.connect_ip ip port s

unfoldable pub connect_host : {State : Type 0} → Client State → List ℕ → ℕ → State → Bool × State
connect_host client host port s = client.connect_host host port s

unfoldable pub disconnect : {State : Type 0} → Client State → State → State
disconnect client s = client.stop s

unfoldable pub is_connected : {State : Type 0} → Client State → State → Bool × State
is_connected client s = client.connected s

unfoldable pub read : {State : Type 0} → Client State → State → Option ℕ × State
read client s = read_available client.stream (client.stream.available s)

-- From the result of `connected`.
unfoldable pub write_connected :
    {State : Type 0} → Client State → List ℕ → Bool × State → Bool × State
write_connected client bytes (false, s) = (false, s)
write_connected client bytes (true, s) =
    let r = client.stream.write bytes s in (r.0 == length bytes, r.1)

unfoldable pub write : {State : Type 0} → Client State → List ℕ → State → Bool × State
write client bytes s = write_connected client bytes (client.connected s)
