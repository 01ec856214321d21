-- ===== src/Arduino/ArduinoStream.antt =====
-- src/umsg/transports/arduino.hpp: `ArduinoStream`.
use umsg.Base.{ℕ, ◌==◌, Bool, Option, List, length}
use umsg.Arduino.{Stream, read_available}

unfoldable pub read : {State : Type 0} → Stream State → State → Option ℕ × State
read stream s = read_available stream (stream.available s)

unfoldable pub write : {State : Type 0} → Stream State → List ℕ → State → Bool × State
write stream bytes s = let r = stream.write bytes s in (r.0 == length bytes, r.1)
