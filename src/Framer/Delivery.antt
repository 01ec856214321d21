-- ===== src/Framer/Delivery.antt =====
-- Packets that `encode` has built, and what became of them on the way, at the receiving end.
use umsg.Base.{ℕ, ◌+◌, ◌≤◌, ◌≡◌, ◌≢◌, refl, ap, ◌∙◌, arith}
use umsg.Base.{List, [], ◌∷◌, ◌++◌, length, take, replicate, IsByte, IsBytes}
use umsg.Base.{All-append, ne→==}
use umsg.Base.{length-append, some}
use umsg.Base.{All-take}
use mathlib.Core.List.{map}
use umsg.Common.{ok, crc_invalid, ByteSpan, contents}
use umsg.Marshalling.Words.{u32_bytes}
use umsg.Crc32.{crc32_iso_hdlc}
use umsg.Crc32.Detection.{crc32-IsU32, crc32_detects_burst}
use umsg.Cobs.Format.{encoding}
use umsg.Cobs.Format.{encoding_from-IsBytes}
use umsg.Framer.{Framer, encode}
use umsg.Framer.Packet.{IsPacket, encode-IsPacket, with_crc, packet_of}
use umsg.Framer.Stream.{Received, idle, rejected, delivered, check_bytes}
use umsg.Framer.Stream.{collecting, receive_all}
use umsg.Framer.Receive.{IsValid, view, view_result}
use umsg.Framer.Session.{feed_all, feed_all_refines}
use umsg.Framer.Events.{receive_all-append, check_bytes-u32, check_bytes-with_crc, packet-received}
use umsg.Framer.Events.{after_delimiter, length-receive_all}

module _ (max_packet_size : ℕ) (f : Framer) (v : IsValid max_packet_size f) (noise : List ℕ)
    (noise_bytes : IsBytes noise) where
  -- What the framer makes of any noise that ends in a delimiter, and then of the encoding of some
  -- bytes and its delimiter.
  encoding-fed :
      (bytes : List ℕ)
      → IsBytes bytes
      → length (encoding bytes) ≤ max_packet_size
      → (before : List Received) × (map view_result
            (feed_all max_packet_size f ((noise ++ (0 ∷ [])) ++ (encoding bytes ++ (0 ∷ [])))).0
          ≡ before ++ (replicate (length (encoding bytes)) idle ++ (check_bytes bytes ∷ [])))
        × (length before ≡ length noise + 1)
        × (view (feed_all max_packet_size f ((noise ++ (0 ∷ [])) ++ (encoding bytes ++ (0 ∷ [])))).1
            ≡ collecting [])
  encoding-fed bytes h room =
      let (events, phase, _) =
        feed_all_refines max_packet_size f ((noise ++ (0 ∷ [])) ++ (encoding bytes ++ (0 ∷ []))) v
          all_bytes in
      (
        (receive_all max_packet_size (view f) (noise ++ (0 ∷ []))).0,
        events ∙ ap (λ r. r.0) whole,
        length-receive_all max_packet_size (view f) (noise ++ (0 ∷ []))
            ∙ length-append noise (0 ∷ []),
        phase ∙ ap (λ r. r.1) whole,
      )
    where
      all_bytes : IsBytes ((noise ++ (0 ∷ [])) ++ (encoding bytes ++ (0 ∷ [])))
      all_bytes =
          All-append IsByte (noise ++ (0 ∷ [])) (encoding bytes ++ (0 ∷ []))
            (All-append IsByte noise (0 ∷ []) noise_bytes (omega arith))
            (All-append IsByte (encoding bytes) (0 ∷ [])
              (encoding_from-IsBytes bytes [] (omega arith) tt h) (omega arith))

      whole :
          receive_all max_packet_size (view f) ((noise ++ (0 ∷ [])) ++ (encoding bytes ++ (0 ∷ [])))
          ≡ (
            (receive_all max_packet_size (view f) (noise ++ (0 ∷ []))).0
                ++ (replicate (length (encoding bytes)) idle ++ (check_bytes bytes ∷ [])),
            collecting [],
          )
      whole =
          receive_all-append max_packet_size (view f) (noise ++ (0 ∷ []))
            (encoding bytes ++ (0 ∷ []))
          ∙ ap (λ r. ((receive_all max_packet_size (view f) (noise ++ (0 ∷ []))).0 ++ r.0, r.1))
              (ap (λ p. receive_all max_packet_size p (encoding bytes ++ (0 ∷ [])))
                  (after_delimiter max_packet_size (view f) noise)
                ∙ packet-received max_packet_size bytes room)

  -- After any noise of bytes that ends in a delimiter, a framer in a valid state receives the
  -- packet of the next frame of bytes whose encoding fits its buffer: all its bytes but the last
  -- are answered by nothing, and the last delivers the frame.
  pub feed-resyncs :
      (frame : List ℕ)
      → IsBytes frame
      → length (encoding (with_crc frame)) ≤ max_packet_size
      → (before : List Received) × (map view_result
            (feed_all max_packet_size f ((noise ++ (0 ∷ [])) ++ packet_of frame)).0
          ≡ before
            ++ (replicate (length (encoding (with_crc frame))) idle ++ (delivered frame ∷ [])))
        × (length before ≡ length noise + 1)
        × (view (feed_all max_packet_size f ((noise ++ (0 ∷ [])) ++ packet_of frame)).1
            ≡ collecting [])
  feed-resyncs frame h room = rw (← check_bytes-with_crc frame h) (
      encoding-fed (with_crc frame)
        (All-append IsByte frame (u32_bytes (crc32_iso_hdlc frame)) h (omega arith)) room)

  -- After any noise of bytes that ends in a delimiter: if on the way to a framer in a valid state
  -- some bytes of a frame, all within four neighbouring ones, have changed, the number of bytes and
  -- the checksum have not, and the encoding of what arrives fits the buffer, then its bytes are
  -- answered by nothing, and its delimiter by `CrcInvalid`.
  pub feed-detects_burst :
      (front sent got back : List ℕ)
      → IsBytes front
      → IsBytes sent
      → IsBytes got
      → IsBytes back
      → length sent ≡ length got
      → length sent ≤ 4
      → sent ≢ got
      → length (
          encoding
            ((front ++ (got ++ back)) ++ u32_bytes (crc32_iso_hdlc (front ++ (sent ++ back)))))
        ≤ max_packet_size
      → (before : List Received) × (map view_result
            (feed_all max_packet_size f (
              (noise ++ (0 ∷ []))
              ++ (encoding (
                    (front ++ (got ++ back))
                    ++ u32_bytes (crc32_iso_hdlc (front ++ (sent ++ back))))
                  ++ (0 ∷ [])))).0
          ≡ before
            ++ (replicate
                  (length (
                    encoding (
                      (front ++ (got ++ back))
                      ++ u32_bytes (crc32_iso_hdlc (front ++ (sent ++ back))))))
                  idle
                ++ (rejected crc_invalid ∷ [])))
        × (length before ≡ length noise + 1)
        × (view
              (feed_all max_packet_size f (
                (noise ++ (0 ∷ []))
                ++ (encoding (
                      (front ++ (got ++ back))
                      ++ u32_bytes (crc32_iso_hdlc (front ++ (sent ++ back))))
                    ++ (0 ∷ [])))).1
            ≡ collecting [])
  feed-detects_burst front sent got back hf hs hg hb same short differ room = rw (← wrong) (
      encoding-fed ((front ++ (got ++ back)) ++ u32_bytes crc)
        (All-append IsByte (front ++ (got ++ back)) (u32_bytes crc)
          (All-append IsByte front (got ++ back) hf (All-append IsByte got back hg hb))
          (omega arith))
        room)
    where
      crc : ℕ
      crc = crc32_iso_hdlc (front ++ (sent ++ back))

      wrong :
          check_bytes
            ((front ++ (got ++ back)) ++ u32_bytes (crc32_iso_hdlc (front ++ (sent ++ back))))
          ≡ rejected crc_invalid
      wrong =
          check_bytes-u32 (front ++ (got ++ back)) crc (
            crc32-IsU32 (front ++ (sent ++ back))
              (All-append IsByte front (sent ++ back) hf (All-append IsByte sent back hs hb)))
          ∙ rw
              (ne→== crc (crc32_iso_hdlc (front ++ (got ++ back)))
                (crc32_detects_burst front sent got back hf hs hg hb same short differ))
              refl

-- What `encode` builds of a frame of bytes, a framer in a valid state that has collected nothing
-- turns back into the frame, where the packet fits the memory given to `encode` and its encoding
-- fits the receiver; only the last byte, the delimiter, is answered, by the frame.
pub feed-encode :
    (frame : List ℕ) (n : ℕ) (out : List ℕ) (capacity max_packet_size : ℕ) (f : Framer)
    → n ≤ length frame
    → IsBytes frame
    → capacity ≤ length out
    → length (packet_of (take n frame)) ≤ capacity
    → length (encoding (with_crc (take n frame))) ≤ max_packet_size
    → IsValid max_packet_size f
    → view f ≡ collecting []
    → (packet : ByteSpan) × (encode
          (record { data_ptr = some frame; length = n })
          (record { data_ptr = some out; length = capacity })
        ≡ (ok, packet))
      × (map view_result (feed_all max_packet_size f (contents packet)).0
          ≡ replicate (length (encoding (with_crc (take n frame)))) idle
            ++ (delivered (take n frame) ∷ []))
      × (view (feed_all max_packet_size f (contents packet)).1 ≡ collecting [])
feed-encode frame n out capacity max_packet_size f n_fits h room fits small v fresh = (
  record { data_ptr = some p.memory; length = length (packet_of (take n frame)) },
  p.returns,
  rw p.packet (events ∙ ap (λ r. r.0) received),
  rw p.packet (phase ∙ ap (λ r. r.1) received),
)
  where
    sent : List ℕ
    sent = take n frame

    sent_bytes : IsBytes (take n frame)
    sent_bytes = All-take IsByte n frame h

    p : IsPacket (take n frame) (length out) (
        encode
          (record { data_ptr = some frame; length = n })
          (record { data_ptr = some out; length = capacity }))
    p = encode-IsPacket frame n out capacity n_fits room fits

    packet_bytes : IsBytes (packet_of (take n frame))
    packet_bytes =
        All-append IsByte (encoding (with_crc (take n frame))) (0 ∷ [])
          (encoding_from-IsBytes (with_crc (take n frame)) [] (omega arith) tt (
            All-append IsByte (take n frame) (u32_bytes (crc32_iso_hdlc (take n frame))) sent_bytes
              (omega arith)))
          (omega arith)

    events :
        map view_result (feed_all max_packet_size f (packet_of (take n frame))).0
        ≡ (receive_all max_packet_size (view f) (packet_of (take n frame))).0
    events = (feed_all_refines max_packet_size f (packet_of (take n frame)) v packet_bytes).0

    phase :
        view (feed_all max_packet_size f (packet_of (take n frame))).1
        ≡ (receive_all max_packet_size (view f) (packet_of (take n frame))).1
    phase = (feed_all_refines max_packet_size f (packet_of (take n frame)) v packet_bytes).1

    received : receive_all max_packet_size (view f) (packet_of (take n frame)) ≡ (
      replicate (length (encoding (with_crc (take n frame)))) idle
          ++ (delivered (take n frame) ∷ []),
      collecting [],
    )
    received =
        rw fresh (packet-received max_packet_size (with_crc (take n frame)) small)
        ∙ ap
            (λ r. (
              replicate (length (encoding (with_crc (take n frame)))) idle ++ (r ∷ []),
              collecting [],
            ))
            (check_bytes-with_crc (take n frame) sent_bytes)
