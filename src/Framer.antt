-- ===== src/Framer.antt =====
-- src/umsg/framer.hpp: `Framer<MaxPacketSize>`, which turns frames into packets
-- `COBS(frame || crc32) || 0x00` and a stream of bytes back into frames.
pub mod Packet
pub mod Stream
pub mod Receive
pub mod Delimiter
pub mod Feed
pub mod Session
pub mod Events
pub mod Delivery
pub mod Capacity
mod Tests
use umsg.Base.{ℕ, ◌+◌, ◌-◌, ◌==◌, leb, ltb, not, ◌||◌, if◌then◌else◌, Bool, true, false}
use umsg.Base.{none, some, List, [], ◌∷◌, set, take}
use umsg.Common.{Error, ok, frame_overflow, cobs_invalid, crc_invalid, frame_too_short}
use umsg.Common.{invalid_argument, ByteSpan, is_null, contents}
use umsg.Marshalling.{read_u32_be, write_u32_be}
use umsg.Crc32.{crc32_iso_hdlc}
use umsg.Cobs.{
  cobs_encode2, EncodeResult, encoded, refused, cobs_decode_in_place, DecodeResult, decoded,
  invalid, stuck,
}

pub record Framer : Type 0 where
  pub rx_buffer : List ℕ
  pub rx_index : ℕ
  pub resyncing : Bool

-- `Framer::Result`.
pub record Result : Type 0 where
  pub status : Error
  pub complete : Bool
  pub frame : ByteSpan

-- The constructor; `memory` is what the receive buffer holds before anything is written to it.
pub start : List ℕ → Framer
start memory = record { rx_buffer = memory; rx_index = 0; resyncing = false }

-- The end of `encode`, on the result of `cobsEncode2`: the delimiter is appended.
terminate : ByteSpan → EncodeResult → Error × ByteSpan
terminate packet (refused left) = (invalid_argument, record packet { data_ptr = left })
terminate packet (encoded out encoded_length) =
    if leb packet.length encoded_length
    then (invalid_argument, record packet { data_ptr = some out })
    else (ok, record { data_ptr = some (set out encoded_length 0); length = encoded_length + 1 })

-- The packet is the span after the call: its memory, and its length where the call succeeds.
unfoldable pub encode : ByteSpan → ByteSpan → Error × ByteSpan
unfolding terminate
encode frame packet =
    if is_null frame.data_ptr || is_null packet.data_ptr
    then (invalid_argument, packet)
    else if ltb packet.length 2
    then (invalid_argument, packet)
    else let crc_bytes = write_u32_be (0 ∷ 0 ∷ 0 ∷ 0 ∷ []) 0 (crc32_iso_hdlc (contents frame)) in
      terminate packet
        (cobs_encode2 frame.data_ptr frame.length (some crc_bytes) 4 packet.data_ptr packet.length)

pub quiet : Result
quiet = record { status = ok; complete = false; frame = record { data_ptr = none; length = 0 } }

pub failed : Error → Result
unfolding quiet
failed e = record quiet { status = e }

-- The checks on a packet that has been decoded into the first bytes of the buffer.
pub check_frame : Framer → List ℕ → ℕ → Result × Framer
unfolding quiet failed
check_frame f buffer decoded_length =
    let after : Framer = record f { rx_buffer = buffer } in
    if ltb decoded_length 4
    then (failed frame_too_short, after)
    else let frame_length = decoded_length - 4 in
      let received_crc = read_u32_be buffer frame_length in
      let computed_crc = crc32_iso_hdlc (take frame_length buffer) in
      if not (received_crc == computed_crc) then (failed crc_invalid, after) else (
        record {
          status = ok;
          complete = true;
          frame = record { data_ptr = some buffer; length = frame_length };
        },
        after,
      )

-- `stuck` does not happen (`cobs_decode_in_place-total`).
pub check_packet : Framer → DecodeResult → Result × Framer
unfolding check_frame
check_packet f (decoded buffer decoded_length) = check_frame f buffer decoded_length
check_packet f (invalid buffer) = (failed cobs_invalid, record f { rx_buffer = buffer })
check_packet f stuck = (failed cobs_invalid, f)

-- The branch of `feed` for the byte 0x00.
pub feed_delimiter : Framer → Result × Framer
unfolding check_packet
feed_delimiter f =
    let was_resyncing = f.resyncing in
    let encoded_len = f.rx_index in
    let reset : Framer = record f { resyncing = false; rx_index = 0 } in
    if encoded_len == 0
    then (quiet, reset)
    else if was_resyncing
    then (quiet, reset)
    else check_packet reset (cobs_decode_in_place reset.rx_buffer encoded_len)

pub feed : ℕ → Framer → ℕ → Result × Framer
unfolding feed_delimiter
feed max_packet_size f byte =
    if byte == 0
    then feed_delimiter f
    else if f.resyncing
    then (quiet, f)
    else if leb max_packet_size f.rx_index
    then (failed frame_overflow, record f { rx_index = 0; resyncing = true })
    else (
      quiet,
      record f { rx_buffer = set f.rx_buffer f.rx_index byte; rx_index = f.rx_index + 1 },
    )
