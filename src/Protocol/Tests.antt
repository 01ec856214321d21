-- ===== src/Protocol/Tests.antt =====
-- Frames with a payload of two bytes.
use umsg.Base.{
  ℕ, ◌+◌, ◌≤◌, ◌<◌, ◌≡◌, ◌≢◌, ◌⊎◌, arith, some, List, [], ◌∷◌, ◌++◌, length, take, replicate,
}
use umsg.Common.{ByteSpan, ok, frame_too_short, length_mismatch, contents}
use umsg.Marshalling.{read_u16_be}
use umsg.Protocol.{Header, encode_frame, decode_frame}
use umsg.Protocol.Encode.{IsFrame, frame_bytes, encode_frame-IsFrame}
use umsg.Protocol.Decode.{decode_frame_lem}
use umsg.Protocol.RoundTrip.{decode_frame-encode}

abbrev payload : ByteSpan
payload = record { data_ptr = some (17 ∷ 0 ∷ 99 ∷ []); length = 2 }

abbrev memory : List ℕ
memory = replicate 12 9

abbrev no_header : Header
no_header = record { version = 0; msg_id = 0; msg_hash = 0; payload_length = 0 }

encode_frame-IsFrame_example :
    IsFrame
      (frame_bytes 1 5 0xDEADBEEF (17 ∷ 0 ∷ []))
      12
      (encode_frame 1 5 0xDEADBEEF payload (record { data_ptr = some memory; length = 11 }))
encode_frame-IsFrame_example =
    encode_frame-IsFrame 1 5 0xDEADBEEF payload memory 11 (omega arith) (omega arith) (omega arith)
      (omega arith)

-- A frame whose length field says three.
abbrev received : List ℕ
received = 1 ∷ 5 ∷ 0 ∷ 0 ∷ 0 ∷ 7 ∷ 0 ∷ 3 ∷ 65 ∷ 66 ∷ 67 ∷ []

decode_frame_lem_example :
    let result =
      decode_frame (record { data_ptr = some received; length = 11 }) no_header payload in
    let len = read_u16_be received 6 in
    ((11 < 8) × (result ≡ (frame_too_short, no_header, payload)))
    ⊎ ((8 ≤ 11) × (11 ≢ 8 + len) × (result.0 ≡ length_mismatch) × (result.2 ≡ payload))
    ⊎ ((11 ≡ 8 + len)
        × (result.0 ≡ ok)
        × (result.1.payload_length ≡ length (contents result.2))
        × (frame_bytes result.1.version result.1.msg_id result.1.msg_hash (contents result.2)
            ≡ take 11 received))
decode_frame_lem_example =
    decode_frame_lem no_header payload received 11 (omega arith) (omega arith)

decode_frame-encode_example :
    (frame : ByteSpan) × (behind : List ℕ) × (encode_frame 1 5 0xDEADBEEF payload
        (record { data_ptr = some memory; length = 12 })
      ≡ (ok, frame))
    × (decode_frame frame no_header payload ≡ (
      ok,
      record { version = 1; msg_id = 5; msg_hash = 0xDEADBEEF; payload_length = 2 },
      record { data_ptr = some ((17 ∷ 0 ∷ []) ++ behind); length = 2 },
    ))
decode_frame-encode_example =
    decode_frame-encode 1 5 0xDEADBEEF payload memory 12 no_header payload (omega arith)
      (omega arith) (omega arith) (omega arith) (omega arith)
