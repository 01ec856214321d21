-- ===== src/Node/Publish.antt =====
-- `publish` on a node whose buffers have their sizes.
use umsg.Base.{
  ℕ, ◌+◌, ◌≤◌, ◌<◌, ◌≡◌, ◌⊎◌, refl, sym, ap, ◌∙◌, arith, Bool, true, false, not, if◌then◌else◌,
  some, List, length, take,
}
use umsg.Common.{
  Error, ok, invalid_argument, transport_error, ByteSpan, HasRoom, contents, max_frame_size,
  max_packet_size,
}
use umsg.Protocol.{encode_frame}
use umsg.Protocol.Encode.{
  IsFrame, frame_bytes, encode_frame-IsFrame, encode_frame-refused, length-region,
}
use umsg.Framer.{encode}
use umsg.Framer.Packet.{IsPacket, packet_of}
use umsg.Framer.Capacity.{Fits, encode-Fits}
use umsg.Node.{Node, Transport, publish, transmit, is_ok}
use mathlib.Core.Path.{subst}

frame_limit : (n : ℕ) → max_frame_size n ≡ 8 + n
unfolding max_frame_size
frame_limit n = refl

report :
    {State : Type 0} (r : Bool × State)
    → let expected : Error × State = (if r.0 then ok else transport_error, r.1) in
      (if not r.0 then (transport_error, r.1) else (ok, r.1)) ≡ expected
report (true, s) = refl
report (false, s) = refl

module _ {World State : Type 0} (transport : Transport State) (max_payload_size : ℕ)
    (node : Node World) (msg_id msg_hash : ℕ) (payload : ByteSpan) (s : State)
    (valid : HasRoom payload.data_ptr payload.length)
    (frame_size : length node.tx_frame ≡ max_frame_size max_payload_size)
    (packet_size : length node.tx_packet ≡ max_packet_size max_payload_size) where
  abbrev frame_room : ByteSpan
  frame_room = record { data_ptr = some node.tx_frame; length = max_frame_size max_payload_size }

  abbrev packet_room : ByteSpan
  packet_room = record { data_ptr = some node.tx_packet; length = max_packet_size max_payload_size }

  abbrev sent_frame : List ℕ
  sent_frame = frame_bytes node.expected_version msg_id msg_hash (contents payload)

  publish-ok :
      (built : ByteSpan)
      → encode_frame node.expected_version msg_id msg_hash payload frame_room ≡ (ok, built)
      → ((publish transport max_payload_size node msg_id msg_hash payload s).0
          ≡ (transmit transport (encode built packet_room) s).0)
        × ((publish transport max_payload_size node msg_id msg_hash payload s).2
            ≡ (transmit transport (encode built packet_room) s).1)
  unfolding publish is_ok
  publish-ok built e = simp e (refl, refl)

  -- What the transport makes of the packet.
  abbrev written : Bool × State
  written = transport.write (packet_of sent_frame) s

  transmit-packet :
      (memory : List ℕ)
      → take (length (packet_of sent_frame)) memory ≡ packet_of sent_frame
      → transmit transport
          (ok, record { data_ptr = some memory; length = length (packet_of sent_frame) })
          s
        ≡ (if written.0 then ok else transport_error, written.1)
  unfolding transmit is_ok
  transmit-packet memory e = rw e (report (transport.write (packet_of sent_frame) s))

  -- With buffers of their sizes and a payload that its length field and the node allow, of which the
  -- frame fits a packet, `publish` hands exactly the packet of the frame to the transport, in one
  -- write, and answers `OK` where the transport takes it and `TransportError` where not.
  pub publish-writes :
      payload.length ≤ 0xFFFF
      → payload.length ≤ max_payload_size
      → Fits max_payload_size sent_frame
      → ((publish transport max_payload_size node msg_id msg_hash payload s).0
          ≡ (if written.0 then ok else transport_error))
        × ((publish transport max_payload_size node msg_id msg_hash payload s).2 ≡ written.1)
  publish-writes short small fits = (
    sent.0
        ∙ ap (λ r. (transmit transport r s).0) p.returns
        ∙ ap (λ r. r.0) (transmit-packet p.memory p.packet),
    sent.1
        ∙ ap (λ r. (transmit transport r s).1) p.returns
        ∙ ap (λ r. r.1) (transmit-packet p.memory p.packet),
  )
    where
      room : 8 + payload.length ≤ max_frame_size max_payload_size
      room = omega (arith, frame_limit max_payload_size)

      f :
          IsFrame
            (frame_bytes node.expected_version msg_id msg_hash (contents payload))
            (length node.tx_frame)
            (encode_frame node.expected_version msg_id msg_hash payload
              (record { data_ptr = some node.tx_frame; length = max_frame_size max_payload_size }))
      f =
          encode_frame-IsFrame node.expected_version msg_id msg_hash payload node.tx_frame
            (max_frame_size max_payload_size) valid (omega (arith, frame_size)) short room

      size : ℕ
      size = length (frame_bytes node.expected_version msg_id msg_hash (contents payload))

      built : ByteSpan
      built = record { data_ptr = some f.memory; length = size }

      inside : size ≤ length f.memory
      inside = omega (arith, f.same_size, frame_size, length-region payload valid, room)

      p :
          IsPacket
            (frame_bytes node.expected_version msg_id msg_hash (contents payload))
            (length node.tx_packet)
            (encode built (record {
              data_ptr = some node.tx_packet;
              length = max_packet_size max_payload_size;
            }))
      p =
          subst
            (λ t. IsPacket t (length node.tx_packet) (
              encode built (record {
                data_ptr = some node.tx_packet;
                length = max_packet_size max_payload_size;
              })))
            f.written
            (encode-Fits max_payload_size f.memory size node.tx_packet inside
              (omega (arith, packet_size)) (subst (Fits max_payload_size) (sym f.written) fits))

      sent :
          ((publish transport max_payload_size node msg_id msg_hash payload s).0
            ≡ (transmit transport
                (encode built (record {
                  data_ptr = some node.tx_packet;
                  length = max_packet_size max_payload_size;
                }))
                s).0)
          × ((publish transport max_payload_size node msg_id msg_hash payload s).2
              ≡ (transmit transport
                  (encode built (record {
                    data_ptr = some node.tx_packet;
                    length = max_packet_size max_payload_size;
                  }))
                  s).1)
      sent = publish-ok built f.returns

  -- With buffers of their sizes, a payload that is longer than its length field can say, or than
  -- the node was made for, is refused with `InvalidArgument`, and the transport is not called.
  pub publish-refused :
      (0xFFFF < payload.length) ⊎ (max_payload_size < payload.length)
      → ((publish transport max_payload_size node msg_id msg_hash payload s).0 ≡ invalid_argument)
        × ((publish transport max_payload_size node msg_id msg_hash payload s).2 ≡ s)
  unfolding publish is_ok max_frame_size
  publish-refused over =
      simp
        (encode_frame-refused node.expected_version msg_id msg_hash payload node.tx_frame
          (max_frame_size max_payload_size) valid (omega (arith, frame_size)) (omega (arith, over)))
        (refl, refl)
