-- ===== src/Protocol.antt =====
-- src/umsg/protocol.hpp: the stateless codec of the frame
-- `version(1) | msg_id(1) | msg_hash(4) | len(2) | payload(len)`.
-- The outputs of `decodeFrame` are passed in as the caller holds them and returned as it finds them.
pub mod Encode
pub mod Decode
pub mod RoundTrip
mod Tests
use umsg.Base.{ℕ, ◌+◌, ◌==◌, ltb, not, ◌&&◌, if◌then◌else◌, none, some, List, [], get_or, set, drop}
use umsg.Base.{memcpy, u16}
use umsg.Common.{Error, ok, invalid_argument, frame_too_short, length_mismatch, ByteSpan, Pointer}
use umsg.Common.{is_null, contents, frame_header_size}
use umsg.Marshalling.{read_u16_be, read_u32_be, write_u16_be, write_u32_be}

abbrev pub max_payload_length : ℕ
max_payload_length = 0xFFFF

pub record Header : Type 0 where
  pub version : ℕ
  pub msg_id : ℕ
  pub msg_hash : ℕ
  pub payload_length : ℕ

-- The writes to the memory of the output, which has been found large enough.
pub write_frame : ℕ → ℕ → ℕ → ByteSpan → List ℕ → List ℕ
write_frame version msg_id msg_hash payload memory =
    let memory1 = set memory 0 version in
    let memory2 = set memory1 1 msg_id in
    let memory3 = write_u32_be memory2 2 msg_hash in
    let memory4 = write_u16_be memory3 6 (u16 payload.length) in
    if ltb 0 payload.length then memcpy memory4 frame_header_size (contents payload) else memory4

fill : ℕ → ℕ → ℕ → ByteSpan → Pointer → Pointer
fill version msg_id msg_hash payload none = none
fill version msg_id msg_hash payload (some memory) =
    some (write_frame version msg_id msg_hash payload memory)

pub encode_frame : ℕ → ℕ → ℕ → ByteSpan → ByteSpan → Error × ByteSpan
unfolding fill write_frame
encode_frame version msg_id msg_hash payload out_frame =
    if is_null out_frame.data_ptr
    then (invalid_argument, out_frame)
    else if is_null payload.data_ptr && not (payload.length == 0)
    then (invalid_argument, out_frame)
    else if ltb max_payload_length payload.length
    then (invalid_argument, out_frame)
    else let needed = frame_header_size + payload.length in
      if ltb out_frame.length needed then (invalid_argument, out_frame) else (
        ok,
        record {
          data_ptr = fill version msg_id msg_hash payload out_frame.data_ptr;
          length = needed;
        },
      )

-- The part of `decodeFrame` behind the checks for a null pointer and for the size of a header.
pub read_frame : List ℕ → ℕ → ByteSpan → Error × Header × ByteSpan
read_frame bytes frame_length out_payload =
    let header : Header = record {
      version = get_or bytes 0 0;
      msg_id = get_or bytes 1 0;
      msg_hash = read_u32_be bytes 2;
      payload_length = read_u16_be bytes 6;
    } in
    if not (frame_length == frame_header_size + header.payload_length)
    then (length_mismatch, header, out_payload)
    else (
      ok,
      header,
      record { data_ptr = some (drop frame_header_size bytes); length = header.payload_length },
    )

pub decode_frame : ByteSpan → Header → ByteSpan → Error × Header × ByteSpan
unfolding read_frame
decode_frame frame out_header out_payload = elim (frame.data_ptr) [
  | none ↦ (invalid_argument, out_header, out_payload)
  | some bytes ↦
      if ltb frame.length frame_header_size
      then (frame_too_short, out_header, out_payload)
      else read_frame bytes frame.length out_payload
]
