-- ===== src/Messages/RoundTrip.antt =====
-- What `encode` of each message writes, `decode` reads back.
use umsg.Base.{
  ℕ, ◌≤◌, ◌<◌, ◌≡◌, ◌⊎◌, refl, true, false, some, List, [], ◌∷◌, ◌++◌, length, drop, IsByte, IsU32,
  if◌then◌else◌,
}
use umsg.Marshalling.Words.{u32_bytes}
use umsg.Marshalling.Fields.{write_u8-IsField, write_u32-IsField}
use umsg.Marshalling.Casts.{write_bool-IsField, write_float-IsField}
use umsg.Messages.Codec.{IsCodec, one-IsCodec, two-IsCodec, encode-decode}
use umsg.Messages.SetLed.{SetLed}
use umsg.Messages.Heartbeat.{Heartbeat}
use umsg.Messages.RobotState.{RobotState}
use umsg.Messages.SensorReading.{SensorReading}
use umsg.Messages.SetLed
use umsg.Messages.Heartbeat
use umsg.Messages.RobotState
use umsg.Messages.SensorReading

abbrev pub set_led_bytes : SetLed → List ℕ
set_led_bytes m = (if m.state then 1 else 0) ∷ []

set_led-IsCodec : IsCodec SetLed.put SetLed.get set_led_bytes 1 (λ m. Unit {0})
unfolding SetLed.put SetLed.get
set_led-IsCodec =
    one-IsCodec write_bool-IsField (λ m. m.state) (λ b. record { state = b }) (λ m. refl)

-- With room for a byte `SetLed::encode` succeeds on any span, puts the bytes of the
-- message at its start and sets its length to theirs, and `decode` of the span returns the message.
-- Without room `encode` fails.
pub set_led_round_trip :
    (m : SetLed) (memory : List ℕ) (size : ℕ)
    → size ≤ length memory
    → ((1 ≤ size)
        × (SetLed.encode m (record { data_ptr = some memory; length = size })
            ≡ (true, record { data_ptr = some (set_led_bytes m ++ drop 1 memory); length = 1 }))
        × (SetLed.decode (record { data_ptr = some (set_led_bytes m ++ drop 1 memory); length = 1 })
            ≡ some m))
      ⊎ ((size < 1)
          × ((SetLed.encode m (record { data_ptr = some memory; length = size })).0 ≡ false))
unfolding SetLed.encode SetLed.decode
set_led_round_trip m memory size inside = encode-decode set_led-IsCodec m memory size tt inside

abbrev pub heartbeat_bytes : Heartbeat → List ℕ
heartbeat_bytes m = u32_bytes m.uptime_ms

heartbeat-IsCodec : IsCodec Heartbeat.put Heartbeat.get heartbeat_bytes 4 (λ m. IsU32 m.uptime_ms)
unfolding Heartbeat.put Heartbeat.get
heartbeat-IsCodec =
    one-IsCodec write_u32-IsField (λ m. m.uptime_ms) (λ n. record { uptime_ms = n }) (λ m. refl)

-- With room for four bytes and an `uptime_ms` of 32 bits, `Heartbeat::encode` succeeds on any span, puts the bytes of the
-- message at its start and sets its length to theirs, and `decode` of the span returns the message.
-- Without room `encode` fails.
pub heartbeat_round_trip :
    (m : Heartbeat) (memory : List ℕ) (size : ℕ)
    → IsU32 m.uptime_ms
    → size ≤ length memory
    → ((4 ≤ size)
        × (Heartbeat.encode m (record { data_ptr = some memory; length = size })
            ≡ (true, record { data_ptr = some (heartbeat_bytes m ++ drop 4 memory); length = 4 }))
        × (Heartbeat.decode
              (record { data_ptr = some (heartbeat_bytes m ++ drop 4 memory); length = 4 })
            ≡ some m))
      ⊎ ((size < 4)
          × ((Heartbeat.encode m (record { data_ptr = some memory; length = size })).0 ≡ false))
unfolding Heartbeat.encode Heartbeat.decode
heartbeat_round_trip m memory size word inside =
    encode-decode heartbeat-IsCodec m memory size word inside

abbrev pub robot_state_bytes : RobotState → List ℕ
robot_state_bytes m = (m.mode ∷ []) ++ u32_bytes m.battery_voltage.bits

robot_state-IsCodec :
    IsCodec RobotState.put RobotState.get robot_state_bytes 5
      (λ m. IsByte m.mode × IsU32 m.battery_voltage.bits)
unfolding RobotState.put RobotState.get
robot_state-IsCodec =
    two-IsCodec write_u8-IsField write_float-IsField (λ m. m.mode) (λ m. m.battery_voltage)
      (λ a b. record { mode = a; battery_voltage = b }) (λ m. refl)

-- With room for five bytes, a `mode` of a byte and a `battery_voltage` of 32 bits, `RobotState::encode` succeeds on any span, puts the bytes of the
-- message at its start and sets its length to theirs, and `decode` of the span returns the message.
-- Without room `encode` fails.
pub robot_state_round_trip :
    (m : RobotState) (memory : List ℕ) (size : ℕ)
    → IsByte m.mode
    → IsU32 m.battery_voltage.bits
    → size ≤ length memory
    → ((5 ≤ size)
        × (RobotState.encode m (record { data_ptr = some memory; length = size })
            ≡ (true, record { data_ptr = some (robot_state_bytes m ++ drop 5 memory); length = 5 }))
        × (RobotState.decode
              (record { data_ptr = some (robot_state_bytes m ++ drop 5 memory); length = 5 })
            ≡ some m))
      ⊎ ((size < 5)
          × ((RobotState.encode m (record { data_ptr = some memory; length = size })).0 ≡ false))
unfolding RobotState.encode RobotState.decode
robot_state_round_trip m memory size byte word inside =
    encode-decode robot_state-IsCodec m memory size (byte, word) inside

abbrev pub sensor_reading_bytes : SensorReading → List ℕ
sensor_reading_bytes m = u32_bytes m.sensor_id ++ u32_bytes m.value.bits

sensor_reading-IsCodec :
    IsCodec SensorReading.put SensorReading.get sensor_reading_bytes 8
      (λ m. IsU32 m.sensor_id × IsU32 m.value.bits)
unfolding SensorReading.put SensorReading.get
sensor_reading-IsCodec =
    two-IsCodec write_u32-IsField write_float-IsField (λ m. m.sensor_id) (λ m. m.value)
      (λ a b. record { sensor_id = a; value = b }) (λ m. refl)

-- With room for eight bytes, and a `sensor_id` and a `value` of 32 bits, `SensorReading::encode` succeeds on any span, puts the bytes of the
-- message at its start and sets its length to theirs, and `decode` of the span returns the message.
-- Without room `encode` fails.
pub sensor_reading_round_trip :
    (m : SensorReading) (memory : List ℕ) (size : ℕ)
    → IsU32 m.sensor_id
    → IsU32 m.value.bits
    → size ≤ length memory
    → ((8 ≤ size)
        × (SensorReading.encode m (record { data_ptr = some memory; length = size }) ≡ (
          true,
          record { data_ptr = some (sensor_reading_bytes m ++ drop 8 memory); length = 8 },
        ))
        × (SensorReading.decode
              (record { data_ptr = some (sensor_reading_bytes m ++ drop 8 memory); length = 8 })
            ≡ some m))
      ⊎ ((size < 8)
          × ((SensorReading.encode m (record { data_ptr = some memory; length = size })).0 ≡ false))
unfolding SensorReading.encode SensorReading.decode
sensor_reading_round_trip m memory size id value inside =
    encode-decode sensor_reading-IsCodec m memory size (id, value) inside
