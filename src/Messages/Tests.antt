-- ===== src/Messages/Tests.antt =====
-- Messages in buffers that have been used.
use umsg.Base.{ℕ, ◌≤◌, ◌<◌, ◌≡◌, ◌⊎◌, arith, true, false, some, List, ◌++◌, replicate, drop}
use umsg.Messages.SetLed.{SetLed}
use umsg.Messages.SensorReading.{SensorReading}
use umsg.Messages.SetLed
use umsg.Messages.SensorReading
use umsg.Messages.RoundTrip.{
  set_led_round_trip, set_led_bytes, sensor_reading_round_trip, sensor_reading_bytes,
}

abbrev buffer : List ℕ
buffer = replicate 12 9

abbrev set_led : SetLed
set_led = record { state = true }

set_led_round_trip_example :
    ((1 ≤ 12)
      × (SetLed.encode set_led (record { data_ptr = some buffer; length = 12 })
          ≡ (true, record { data_ptr = some (set_led_bytes set_led ++ drop 1 buffer); length = 1 }))
      × (SetLed.decode
            (record { data_ptr = some (set_led_bytes set_led ++ drop 1 buffer); length = 1 })
          ≡ some set_led))
    ⊎ ((12 < 1)
        × ((SetLed.encode set_led (record { data_ptr = some buffer; length = 12 })).0 ≡ false))
set_led_round_trip_example = set_led_round_trip set_led buffer 12 (omega arith)

abbrev sensor_reading : SensorReading
sensor_reading = record { sensor_id = 101; value = record { bits = 0x41C80000 } }

sensor_reading_round_trip_example :
    ((8 ≤ 12)
      × (SensorReading.encode sensor_reading (record { data_ptr = some buffer; length = 12 }) ≡ (
        true,
        record {
          data_ptr = some (sensor_reading_bytes sensor_reading ++ drop 8 buffer);
          length = 8;
        },
      ))
      × (SensorReading.decode (record {
        data_ptr = some (sensor_reading_bytes sensor_reading ++ drop 8 buffer);
        length = 8;
      })
          ≡ some sensor_reading))
    ⊎ ((12 < 8)
        × ((SensorReading.encode sensor_reading (record { data_ptr = some buffer; length = 12 })).0
            ≡ false))
sensor_reading_round_trip_example =
    sensor_reading_round_trip sensor_reading buffer 12 (omega arith) (omega arith) (omega arith)
