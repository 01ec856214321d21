-- ===== src/Protocol/RoundTrip.antt =====
-- `encodeFrame` and then `decodeFrame`.
use umsg.Base.{
  ℕ, ◌+◌, ◌≤◌, ◌≡◌, sym, ap, ◌∙◌, arith, some, List, ◌++◌, length, drop, take-append-drop, IsU32,
}
use umsg.Common.{ByteSpan, ok, HasRoom, contents}
use umsg.Protocol.{Header, encode_frame, decode_frame}
use umsg.Protocol.Encode.{IsFrame, frame_bytes, encode_frame-IsFrame, length-region}
use umsg.Protocol.Decode.{decode_frame-frame_bytes}

-- With a hash of 32 bits, a payload of at most 65535 bytes and a capacity for the header and the
-- payload, `encodeFrame` succeeds, and `decodeFrame` on the span that it leaves succeeds and returns
-- the header fields, the length of the payload, and a span of that length, the bytes of the payload.
pub decode_frame-encode :
    (version msg_id msg_hash : ℕ) (payload : ByteSpan) (memory : List ℕ) (capacity : ℕ)
    (old_header : Header) (old_payload : ByteSpan)
    → IsU32 msg_hash
    → HasRoom payload.data_ptr payload.length
    → capacity ≤ length memory
    → payload.length ≤ 0xFFFF
    → 8 + payload.length ≤ capacity
    → (frame : ByteSpan) × (behind : List ℕ) × (encode_frame version msg_id msg_hash payload
          (record { data_ptr = some memory; length = capacity })
        ≡ (ok, frame))
      × (decode_frame frame old_header old_payload ≡ (
        ok,
        record {
          version = version;
          msg_id = msg_id;
          msg_hash = msg_hash;
          payload_length = length (contents payload);
        },
        record { data_ptr = some (contents payload ++ behind); length = length (contents payload) },
      ))
decode_frame-encode version msg_id msg_hash payload memory capacity old_header old_payload hash
      valid room small fits =
    let f : IsFrame (frame_bytes version msg_id msg_hash (contents payload)) (length memory) (
        encode_frame version msg_id msg_hash payload
          (record { data_ptr = some memory; length = capacity })) =
      encode_frame-IsFrame version msg_id msg_hash payload memory capacity valid room small fits in
    let size : ℕ = length (frame_bytes version msg_id msg_hash (contents payload)) in
    let behind : List ℕ = drop size f.memory in
    (
      record { data_ptr = some f.memory; length = size },
      behind,
      f.returns,
      ap (λ m. decode_frame (record { data_ptr = some m; length = size }) old_header old_payload)
            (sym (take-append-drop size f.memory) ∙ ap (λ t. t ++ behind) f.written)
          ∙ decode_frame-frame_bytes old_header old_payload version msg_id msg_hash
              (contents payload) behind hash (omega (arith, length-region payload valid)),
    )
