-- ===== src/Framer/Tests.antt =====
-- The framer on small packets: a frame of three bytes, one of them zero.
use umsg.Base.{ℕ, ◌+◌, ◌≡◌, refl, arith, some, List, [], ◌∷◌, ◌++◌, replicate, length}
use umsg.Base.{◌≢◌, ap, get_or}
use umsg.Common.{ok, invalid_argument, crc_invalid, ByteSpan, contents}
use umsg.Crc32.{crc32_iso_hdlc, byte_loop, bit_loop, bit_step}
use umsg.Marshalling.Words.{u32_bytes}
use umsg.Cobs.Format.{encoding, encoding_from}
use mathlib.Core.List.{map}
use umsg.Framer.{Framer, start, encode}
use umsg.Framer.Packet.{packet_of, with_crc, IsPacket, encode-IsPacket, encode-refused}
use umsg.Cobs.Length.{has_zero}
use umsg.Common.{max_frame_size, max_packet_size, cobs_max_overhead}
use umsg.Base.{false, ◌%◌, inl}
use umsg.Framer.Capacity.{Fits, encode-Fits, encode-too_small}
use umsg.Framer.Stream.{Received, idle, rejected, delivered, collecting, receive_all}
use umsg.Framer.Receive.{IsValid, view, view_result, start-IsValid, view-start}
use umsg.Framer.Session.{feed_all, feed_all_refines}
use umsg.Framer.Delivery.{feed-resyncs, feed-detects_burst, feed-encode}

abbrev frame : List ℕ
frame = 1 ∷ 0 ∷ 3 ∷ []

abbrev fresh : Framer
fresh = start (replicate 16 0)

abbrev memory : List ℕ
memory = replicate 16 0

abbrev noise : List ℕ
noise = 9 ∷ 0 ∷ 200 ∷ []

fresh-IsValid : IsValid 16 fresh
fresh-IsValid = start-IsValid 16 (replicate 16 0) refl

-- The wire form of the frame, in full.
packet_of_frame : length (encoding (with_crc frame)) ≡ 8
unfolding crc32_iso_hdlc byte_loop bit_loop bit_step encoding_from
packet_of_frame = refl

packet_size : length (packet_of frame) ≡ 9
unfolding crc32_iso_hdlc byte_loop bit_loop bit_step encoding_from
packet_size = refl

feed_all_refines_example :
    (map view_result (feed_all 16 fresh (5 ∷ 1 ∷ 0 ∷ 7 ∷ [])).0
      ≡ (receive_all 16 (view fresh) (5 ∷ 1 ∷ 0 ∷ 7 ∷ [])).0)
    × (view (feed_all 16 fresh (5 ∷ 1 ∷ 0 ∷ 7 ∷ [])).1
        ≡ (receive_all 16 (view fresh) (5 ∷ 1 ∷ 0 ∷ 7 ∷ [])).1)
    × IsValid 16 (feed_all 16 fresh (5 ∷ 1 ∷ 0 ∷ 7 ∷ [])).1
feed_all_refines_example =
    feed_all_refines 16 fresh (5 ∷ 1 ∷ 0 ∷ 7 ∷ []) fresh-IsValid (omega arith)

feed-resyncs_example :
    (before : List Received) × (map view_result
        (feed_all 16 fresh ((noise ++ (0 ∷ [])) ++ packet_of frame)).0
      ≡ before ++ (replicate (length (encoding (with_crc frame))) idle ++ (delivered frame ∷ [])))
    × (length before ≡ length noise + 1)
    × (view (feed_all 16 fresh ((noise ++ (0 ∷ [])) ++ packet_of frame)).1 ≡ collecting [])
feed-resyncs_example =
    feed-resyncs 16 fresh fresh-IsValid noise (omega arith) frame (omega arith)
      (omega (arith, packet_of_frame))

encode-IsPacket_example : IsPacket frame 16 (
    encode
      (record { data_ptr = some frame; length = 3 })
      (record { data_ptr = some memory; length = 9 }))
encode-IsPacket_example =
    encode-IsPacket frame 3 memory 9 (omega arith) (omega arith) (omega (arith, packet_size))

encode-refused_example :
    (encode
      (record { data_ptr = some frame; length = 3 })
      (record { data_ptr = some memory; length = 8 })).0
    ≡ invalid_argument
encode-refused_example =
    encode-refused frame 3 memory 8 (omega arith) (omega arith) (omega (arith, packet_size))

-- A frame of which the second byte has been changed on the way.
changed_size :
    length (
      encoding (
        ((1 ∷ []) ++ ((4 ∷ []) ++ (3 ∷ [])))
        ++ u32_bytes (crc32_iso_hdlc ((1 ∷ []) ++ ((0 ∷ []) ++ (3 ∷ []))))))
    ≡ 8
unfolding crc32_iso_hdlc byte_loop bit_loop bit_step encoding_from
changed_size = refl

abbrev zero_byte : List ℕ
zero_byte = 0 ∷ []

abbrev other_byte : List ℕ
other_byte = 4 ∷ []

bytes_differ : zero_byte ≢ other_byte
bytes_differ e = absurd (omega (arith, ap (λ xs. get_or xs 0 0) e))

feed-detects_burst_example :
    let changed =
      ((1 ∷ []) ++ ((4 ∷ []) ++ (3 ∷ [])))
      ++ u32_bytes (crc32_iso_hdlc ((1 ∷ []) ++ ((0 ∷ []) ++ (3 ∷ [])))) in
    let stream = (noise ++ (0 ∷ [])) ++ (encoding changed ++ (0 ∷ [])) in
    (before : List Received) × (map view_result (feed_all 16 fresh stream).0
      ≡ before ++ (replicate (length (encoding changed)) idle ++ (rejected crc_invalid ∷ [])))
    × (length before ≡ length noise + 1)
    × (view (feed_all 16 fresh stream).1 ≡ collecting [])
feed-detects_burst_example =
    feed-detects_burst 16 fresh fresh-IsValid noise (omega arith) (1 ∷ []) (0 ∷ []) (4 ∷ [])
      (3 ∷ []) (omega arith) (omega arith) (omega arith) (omega arith) refl (omega arith)
      bytes_differ (omega (arith, changed_size))

feed-encode_example :
    (packet : ByteSpan) × (encode
        (record { data_ptr = some frame; length = 3 })
        (record { data_ptr = some memory; length = 9 })
      ≡ (ok, packet))
    × (map view_result (feed_all 16 fresh (contents packet)).0
        ≡ replicate (length (encoding (with_crc frame))) idle ++ (delivered frame ∷ []))
    × (view (feed_all 16 fresh (contents packet)).1 ≡ collecting [])
feed-encode_example =
    feed-encode frame 3 memory 9 16 fresh (omega arith) (omega arith) (omega arith)
      (omega (arith, packet_size)) (omega (arith, packet_of_frame)) fresh-IsValid
      (view-start (replicate 16 0))

-- The greatest frame for payloads of at most 242 bytes.
abbrev greatest : List ℕ
greatest = replicate 250 1

greatest_no_zero : has_zero (with_crc greatest) ≡ false
unfolding crc32_iso_hdlc byte_loop bit_loop bit_step
greatest_no_zero = refl

greatest_size : length (with_crc greatest) % 254 ≡ 0
greatest_size = refl

greatest_full : 250 ≡ max_frame_size 242
unfolding max_frame_size
greatest_full = refl

packet_limit : max_packet_size 242 ≡ 256
unfolding max_packet_size max_frame_size cobs_max_overhead
packet_limit = refl

encode-too_small_example :
    (encode
      (record { data_ptr = some greatest; length = 250 })
      (record { data_ptr = some (replicate 300 0); length = max_packet_size 242 })).0
    ≡ invalid_argument
encode-too_small_example =
    encode-too_small 242 greatest 250 (replicate 300 0) (omega arith) (omega (arith, packet_limit))
      greatest_full greatest_size greatest_no_zero

frame_Fits : Fits 242 frame
frame_Fits = (omega (arith, greatest_full), inl (omega (arith, greatest_full)))

encode-Fits_example : IsPacket frame 300 (
    encode
      (record { data_ptr = some frame; length = 3 })
      (record { data_ptr = some (replicate 300 0); length = max_packet_size 242 }))
encode-Fits_example =
    encode-Fits 242 frame 3 (replicate 300 0) (omega arith) (omega (arith, packet_limit)) frame_Fits
