-- ===== src/Messages.antt =====
-- The messages of the examples, as the generator of messages writes them
-- (examples/Common/messages): `encode` and `decode` are the same for all but for the fields. Members
-- that a failing `decode` has read are not used by its callers, and are not modelled.
pub mod SetLed
pub mod Heartbeat
pub mod RobotState
pub mod SensorReading
pub mod Codec
pub mod RoundTrip
mod Tests
use umsg.Base.{ℕ, if◌then◌else◌, ltb, not, Bool, true, false, Option, none, some}
use umsg.Common.{ByteSpan, is_null}
use umsg.Marshalling.Cursor.{Writer, Reader}

-- `if (!w.write(a)) return false;`, and what follows.
unfoldable pub then_write : Bool × Writer → (Writer → Bool × Writer) → Bool × Writer
then_write (false, w) next = (false, w)
then_write (true, w) next = next w

-- `if (!r.read(a)) return false;`, and what follows.
unfoldable pub then_read : {A B : Type 0} → Option A × Reader → (A → Reader → Option B) → Option B
then_read (none, r) next = none
then_read (some a, r) next = next a r

-- The rest of `encode`, behind the fields.
unfoldable pub finish : ℕ → Bool × Writer → Bool × ByteSpan
finish cap (false, w) = (false, w.out)
finish cap (true, w) =
    if ltb cap w.index then (false, w.out) else (true, record w.out { length = w.index })

unfoldable pub encode_fields : (Writer → Bool × Writer) → ByteSpan → Bool × ByteSpan
encode_fields put payload =
    if is_null payload.data_ptr
    then (false, payload)
    else finish payload.length (put (record { out = payload; index = 0 }))

unfoldable pub decode_fields : {A : Type 0} → ℕ → (Reader → Option A) → ByteSpan → Option A
decode_fields payload_size get payload =
    if ltb payload.length payload_size then none else get (record { input = payload; index = 0 })
