-- ===== src/Framer/Capacity.antt =====
-- The packet buffers of `maxPacketSize` bytes (src/umsg/common.hpp), against what `encode` needs.
use umsg.Base.{
  ℕ, ◌+◌, ◌%◌, ◌≤◌, ◌<◌, ◌≡◌, ◌≢◌, ◌⊎◌, inl, inr, arith, some, List, [], length, take, true, false,
  length-append, length-take,
}
use umsg.Common.{invalid_argument, max_frame_size, max_packet_size, cobs_max_overhead}
use umsg.Crc32.{crc32_iso_hdlc}
use umsg.Marshalling.Words.{u32_bytes}
use umsg.Cobs.Length.{
  has_zero, length-encoding_from-le, length-encoding_from-zero, length-encoding-beyond,
}
use umsg.Framer.{encode}
use umsg.Framer.Packet.{
  packet_of, with_crc, IsPacket, encode-IsPacket, encode-refused, length-packet,
}

-- A frame is at most as long as the greatest, and it is shorter, or its length with the checksum is
-- not a multiple of 254, or one of its bytes or of the checksum is zero.
abbrev pub Fits : ℕ → List ℕ → Type 0
Fits max_payload_size frame =
    (length frame ≤ max_frame_size max_payload_size)
    × ((length frame < max_frame_size max_payload_size)
        ⊎ ((length (with_crc frame) % 254 ≢ 0) ⊎ (has_zero (with_crc frame) ≡ true)))

pub length-packet-Fits :
    (max_payload_size : ℕ) (frame : List ℕ)
    → Fits max_payload_size frame
    → length (packet_of frame) ≤ max_packet_size max_payload_size
unfolding max_packet_size max_frame_size cobs_max_overhead
length-packet-Fits max_payload_size frame (small, inl shorter) = omega (
  arith,
  length-packet frame,
  length-append frame (u32_bytes (crc32_iso_hdlc frame)),
  length-encoding_from-le (with_crc frame) [] (omega arith),
)
length-packet-Fits max_payload_size frame (small, inr (inl partial)) = omega (
  arith,
  length-packet frame,
  length-append frame (u32_bytes (crc32_iso_hdlc frame)),
  length-encoding_from-le (with_crc frame) [] (omega arith),
)
length-packet-Fits max_payload_size frame (small, inr (inr z)) = omega (
  arith,
  length-packet frame,
  length-append frame (u32_bytes (crc32_iso_hdlc frame)),
  length-encoding_from-zero (with_crc frame) [] (omega arith) z,
)

length-beyond :
    (max_payload_size n stuffed packet : ℕ)
    → n ≡ max_frame_size max_payload_size + 4
    → stuffed ≡ n + cobs_max_overhead n + 1
    → packet ≡ stuffed + 1
    → max_packet_size max_payload_size < packet
unfolding max_packet_size max_frame_size cobs_max_overhead
length-beyond max_payload_size n stuffed packet h e p = omega arith

module _ (max_payload_size : ℕ) (frame : List ℕ) (n : ℕ) (out : List ℕ)
    (frame_valid : n ≤ length frame) (room : max_packet_size max_payload_size ≤ length out) where
  -- Into a buffer of `maxPacketSize` bytes `encode` succeeds for a frame of at most `maxFrameSize`
  -- bytes, when it is shorter than that, or its length with the checksum is not a multiple of 254, or
  -- one of the bytes stuffed is zero.
  pub encode-Fits :
      Fits max_payload_size (take n frame)
      → IsPacket (take n frame) (length out) (
          encode
            (record { data_ptr = some frame; length = n })
            (record { data_ptr = some out; length = max_packet_size max_payload_size }))
  encode-Fits fits =
      encode-IsPacket frame n out (max_packet_size max_payload_size) frame_valid room
        (length-packet-Fits max_payload_size (take n frame) fits)

  -- A frame of exactly `maxFrameSize` bytes, where its length with the checksum is a multiple of 254
  -- and none of the bytes stuffed is zero, `encode` refuses to put into a buffer of `maxPacketSize`
  -- bytes.
  pub encode-too_small :
      n ≡ max_frame_size max_payload_size
      → length (with_crc (take n frame)) % 254 ≡ 0
      → has_zero (with_crc (take n frame)) ≡ false
      → (encode
          (record { data_ptr = some frame; length = n })
          (record { data_ptr = some out; length = max_packet_size max_payload_size })).0
        ≡ invalid_argument
  encode-too_small full multiple no_zero =
      encode-refused frame n out (max_packet_size max_payload_size) frame_valid room over
    where
      size : length (with_crc (take n frame)) ≡ max_frame_size max_payload_size + 4
      size = omega (
        arith,
        full,
        length-append (take n frame) (u32_bytes (crc32_iso_hdlc (take n frame))),
        length-take n frame,
      )

      over : max_packet_size max_payload_size < length (packet_of (take n frame))
      over =
          length-beyond max_payload_size (length (with_crc (take n frame))) _ _ size
            (length-encoding-beyond (with_crc (take n frame)) multiple no_zero)
            (length-packet (take n frame))
