-- ===== src/Node/Tests.antt =====
-- The nodes of Node/Fixtures.
use umsg.Base.{
  ℕ, ◌≡◌, refl, arith, Bool, true, some, List, [], ◌∷◌, ◌++◌, length, replicate, inr, if◌then◌else◌,
}
use umsg.Common.{ok, invalid_argument, transport_error, max_packet_size, contents}
use umsg.Protocol.Encode.{frame_bytes}
use umsg.Framer.Packet.{packet_of}
use umsg.Node.{Node, poll, publish}
use umsg.Framer.{Framer}
use umsg.Framer.Stream.{collecting}
use umsg.Framer.Receive.{IsValid, view, view-start}
use umsg.Node.{publish_typed, subscribe_typed}
use umsg.Node.Typed.{subscribe-publish-poll}
use umsg.Node.Stream.{deliver}
use umsg.Node.Refine.{Follows, poll-Follows}
use umsg.Node.Letters.{frame_of, wire, deliver_all}
use umsg.Node.Exchange.{poll-wire, publish-poll}
use umsg.Node.Publish.{publish-writes, publish-refused}
use umsg.Node.Fixtures.{
  pipe, node, payload, frame_room_size, packet_room_size, frame_Fits, long_payload,
  inbox-ReadsPayload, receiver, receiver-IsValid, pipe-Yields, letter, letter-IsLetter,
  letters_short, packet_short, bytes_message, collect, idle_receiver, scratch,
  subscribed-ReadsPayload, has_room,
}

publish-writes_example :
    let written : Bool × List ℕ =
      (true, [] ++ packet_of (frame_bytes 1 5 0xDEADBEEF (contents payload))) in
    ((publish pipe 242 node 5 0xDEADBEEF payload []).0
      ≡ (if written.0 then ok else transport_error))
    × ((publish pipe 242 node 5 0xDEADBEEF payload []).2 ≡ written.1)
publish-writes_example =
    publish-writes pipe 242 node 5 0xDEADBEEF payload [] (omega arith) frame_room_size
      packet_room_size (omega arith) (omega arith) frame_Fits

publish-refused_example :
    ((publish pipe 242 node 5 0xDEADBEEF long_payload []).0 ≡ invalid_argument)
    × ((publish pipe 242 node 5 0xDEADBEEF long_payload []).2 ≡ [])
publish-refused_example =
    publish-refused pipe 242 node 5 0xDEADBEEF long_payload [] (omega arith) frame_room_size
      packet_room_size (inr (omega arith))

poll-Follows_example :
    (after : Node (List (List ℕ)) × List (List ℕ)) × (poll pipe 242 4 receiver (5 ∷ 6 ∷ []) []
      ≡ some (2, after.0, [], after.1))
    × Follows 242 receiver (5 ∷ 6 ∷ []) [] after
poll-Follows_example =
    poll-Follows pipe 242 4 receiver (5 ∷ 6 ∷ []) [] [] (5 ∷ 6 ∷ []) receiver-IsValid (omega arith)
      (inbox-ReadsPayload, tt) (pipe-Yields (5 ∷ 6 ∷ [])) (omega arith)

poll-wire_example :
    (framer : Framer) × (poll pipe 242 1000 receiver (wire (letter ∷ letter ∷ [])) []
      ≡ some (
        length (wire (letter ∷ letter ∷ [])),
        record receiver { framer = framer },
        [],
        deliver_all receiver.handlers receiver.expected_version (letter ∷ letter ∷ []) [],
      ))
    × (view framer ≡ collecting [])
    × IsValid (max_packet_size 242) framer
poll-wire_example =
    poll-wire pipe 242 1000 receiver (wire (letter ∷ letter ∷ [])) [] [] (letter ∷ letter ∷ [])
      receiver-IsValid (view-start (replicate 256 0)) (inbox-ReadsPayload, tt)
      (letter-IsLetter, (letter-IsLetter, tt)) (pipe-Yields (wire (letter ∷ letter ∷ [])))
      letters_short

publish-poll_example :
    ((publish pipe 242 node 5 0xDEADBEEF payload []).0 ≡ ok)
    × (framer : Framer) × (poll pipe 242 1000 receiver
          (publish pipe 242 node 5 0xDEADBEEF payload []).2
          []
        ≡ some (
          length (packet_of (frame_of letter)),
          record receiver { framer = framer },
          [],
          deliver receiver.handlers receiver.expected_version (some letter) [],
        ))
    × (view framer ≡ collecting [])
    × IsValid (max_packet_size 242) framer
publish-poll_example =
    publish-poll pipe pipe 242 node receiver 5 0xDEADBEEF payload [] (packet_of (frame_of letter))
      [] 1000 [] (omega arith) frame_room_size packet_room_size (omega arith) (omega arith)
      frame_Fits (omega arith) (omega arith) (omega arith) (omega arith) refl
      (pipe-Yields (packet_of (frame_of letter))) packet_short receiver-IsValid
      (view-start (replicate 256 0)) (inbox-ReadsPayload, tt)

subscribe-publish-poll_example :
    ((subscribe_typed idle_receiver 5 1 bytes_message collect (3 ∷ [])).0 ≡ ok)
    × ((publish_typed pipe 242 node 5 0xDEADBEEF (λ room. (true, scratch)) []).0 ≡ ok)
    × (framer : Framer) × (poll pipe 242 1000
          (subscribe_typed idle_receiver 5 1 bytes_message collect (3 ∷ [])).1
          (publish_typed pipe 242 node 5 0xDEADBEEF (λ room. (true, scratch)) []).2
          []
        ≡ some (
          length (packet_of (frame_of letter)),
          record (subscribe_typed idle_receiver 5 1 bytes_message collect (3 ∷ [])).1 {
            framer = framer;
          },
          [],
          (17 ∷ 0 ∷ 99 ∷ []) ∷ [],
        ))
subscribe-publish-poll_example =
    subscribe-publish-poll pipe pipe 242 node idle_receiver bytes_message (17 ∷ 0 ∷ 99 ∷ []) 5 1
      collect (3 ∷ []) (λ room. (true, scratch)) scratch [] (packet_of (frame_of letter)) [] 1000 []
      (refl, tt) (omega arith) has_room receiver-IsValid (view-start (replicate 256 0))
      subscribed-ReadsPayload frame_room_size packet_room_size refl refl (omega arith) (omega arith)
      (omega arith) frame_Fits refl (omega arith) (omega arith) (omega arith) (omega arith) refl
      (pipe-Yields (packet_of (frame_of letter))) packet_short
