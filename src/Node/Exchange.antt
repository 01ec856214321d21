-- ===== src/Node/Exchange.antt =====
-- Nodes that send letters to each other.
use umsg.Base.{
  ℕ, ◌≤◌, ◌<◌, ◌≡◌, ◌∙◌, sym, ap, ap₂, arith, if◌then◌else◌, true, some, List, [], ◌∷◌, ◌++◌,
  append-nil, length, IsU32, IsByte, IsBytes, All,
}
use umsg.Common.{ok, transport_error, ByteSpan, HasRoom, contents, max_packet_size, max_frame_size}
use umsg.Framer.{Framer}
use umsg.Framer.Stream.{collecting, receive_all}
use umsg.Framer.Receive.{IsValid, view}
use umsg.Framer.Packet.{packet_of, length-packet}
use umsg.Framer.Capacity.{Fits, length-packet-Fits}
use umsg.Protocol.Encode.{length-region}
use umsg.Node.{Node, Transport, poll, publish}
use umsg.Node.Stream.{Letter, deliver, effects, ReadsPayload}
use umsg.Node.Poll.{Yields}
use umsg.Node.Refine.{Follows, poll-Follows}
use umsg.Node.Letters.{IsLetter, frame_of, wire, wire-IsBytes, deliver_all, receive_all-wire}
use umsg.Node.Publish.{publish-writes}
use mathlib.Core.Path.{subst}

module _ {World State : Type 0} (transport : Transport State) (max_payload_size : ℕ) where
  -- A node whose framer is valid and has collected nothing, whose handlers read only the bytes of a
  -- payload, and whose transport yields the packets of some letters and then has none: `poll` with
  -- more fuel than bytes ends and returns their number, every letter of the expected version has been
  -- dispatched once, in order, and nothing else had an effect. The framer is valid and has collected
  -- nothing again, and nothing else of the node has changed.
  pub poll-wire :
      (fuel : ℕ) (node : Node World) (s s' : State) (w : World) (letters : List Letter)
      → IsValid (max_packet_size max_payload_size) node.framer
      → view node.framer ≡ collecting []
      → All ReadsPayload node.handlers
      → All (IsLetter (max_packet_size max_payload_size)) letters
      → Yields transport s (wire letters) s'
      → length (wire letters) < fuel
      → (framer : Framer) × (poll transport max_payload_size fuel node s w
          ≡ some (
            length (wire letters),
            record node { framer = framer },
            s',
            deliver_all node.handlers node.expected_version letters w,
          ))
        × (view framer ≡ collecting [])
        × IsValid (max_packet_size max_payload_size) framer
  poll-wire fuel node s s' w letters valid fresh reading fitting y enough =
      let limit : ℕ = max_packet_size max_payload_size in
      let run =
        poll-Follows transport max_payload_size fuel node s s' w (wire letters) valid
          (wire-IsBytes limit letters fitting) reading y enough in
      let after : Node World × World = run.0 in
      let follows : Follows max_payload_size node (wire letters) w after = run.2 in
      let taken = receive_all-wire node.handlers node.expected_version limit letters w fitting in
      let world : after.1 ≡ deliver_all node.handlers node.expected_version letters w =
        follows.world
        ∙ ap
            (λ p.
              effects node.handlers node.expected_version (receive_all limit p (wire letters)).0 w)
            fresh
        ∙ taken.0 in
      (
        after.0.framer,
        run.1 ∙ ap₂ (λ n u. some (length (wire letters), n, s', u)) follows.kept world,
        follows.phase ∙ ap (λ p. (receive_all limit p (wire letters)).1) fresh ∙ taken.1,
        follows.valid,
      )

module _ {Sender Receiver State : Type 0} (transport peer : Transport State) (max_payload_size : ℕ)
    (sender : Node Sender) (receiver : Node Receiver) (msg_id msg_hash : ℕ)
    (payload : ByteSpan) where
  abbrev letter : Letter
  letter = record {
    version = sender.expected_version;
    msg_id = msg_id;
    msg_hash = msg_hash;
    payload = contents payload;
  }

  abbrev packet : List ℕ
  packet = packet_of (frame_of letter)

  -- What a node publishes, another receives. With buffers of their sizes, a payload that its length
  -- field and the node allow and of which the frame fits a packet, the fields in range, a transport
  -- that takes the packet, and a peer's transport that yields its bytes and then has none: `publish`
  -- answers `OK`, and the `poll` of a receiver for packets of the same size, with a valid framer that
  -- has collected nothing and handlers that read only the bytes of a payload, returns the number of
  -- bytes of the packet, with the payload dispatched once under its id and hash where the receiver
  -- expects the sender's version, and nothing done where not. The receiver's framer is then valid and
  -- has collected nothing.
  pub publish-poll :
      (s s1 s2 : State) (fuel : ℕ) (w : Receiver)
      → HasRoom payload.data_ptr payload.length
      → length sender.tx_frame ≡ max_frame_size max_payload_size
      → length sender.tx_packet ≡ max_packet_size max_payload_size
      → payload.length ≤ 0xFFFF
      → payload.length ≤ max_payload_size
      → Fits max_payload_size (frame_of letter)
      → IsByte sender.expected_version
      → IsByte msg_id
      → IsU32 msg_hash
      → IsBytes (contents payload)
      → transport.write packet s ≡ (true, s1)
      → Yields peer s1 packet s2
      → length packet < fuel
      → IsValid (max_packet_size max_payload_size) receiver.framer
      → view receiver.framer ≡ collecting []
      → All ReadsPayload receiver.handlers
      → ((publish transport max_payload_size sender msg_id msg_hash payload s).0 ≡ ok)
        × (framer : Framer) × (poll peer max_payload_size fuel receiver
              (publish transport max_payload_size sender msg_id msg_hash payload s).2
              w
            ≡ some (
              length packet,
              record receiver { framer = framer },
              s2,
              deliver receiver.handlers receiver.expected_version (some letter) w,
            ))
        × (view framer ≡ collecting [])
        × IsValid (max_packet_size max_payload_size) framer
  publish-poll s s1 s2 fuel w room frame_size packet_size short small fits version_ok id_ok hash_ok
        bytes_ok taken yields enough valid fresh reading =
      let sent =
        publish-writes transport max_payload_size sender msg_id msg_hash payload s room frame_size
          packet_size short small fits in
      let is_letter : IsLetter (max_packet_size max_payload_size) letter = record {
        version_byte = version_ok;
        id_byte = id_ok;
        hash_word = hash_ok;
        payload_bytes = bytes_ok;
        payload_short = omega (arith, length-region payload room);
        packet_room = omega (
          arith,
          length-packet-Fits max_payload_size (frame_of letter) fits,
          length-packet (frame_of letter),
        );
      } in
      let alone : packet ++ [] ≡ packet = append-nil packet in
      let run =
        poll-wire peer max_payload_size fuel receiver s1 s2 w (letter ∷ []) valid fresh reading
          (is_letter, tt) (subst (λ t. Yields peer s1 t s2) (sym alone) yields)
          (subst (λ t. length t < fuel) (sym alone) enough) in
      (
        sent.0 ∙ ap (λ r. if r.0 then ok else transport_error) taken,
        run.0,
        ap (λ t. poll peer max_payload_size fuel receiver t w) (sent.1 ∙ ap (λ r. r.1) taken)
            ∙ run.1
            ∙ ap
                (λ t. some (
                  length t,
                  record receiver { framer = run.0 },
                  s2,
                  deliver receiver.handlers receiver.expected_version (some letter) w,
                ))
                alone,
        run.2,
        run.3,
      )
