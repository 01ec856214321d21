-- ===== src/Node/Typed.antt =====
-- The typed path: `subscribe`, `publish` of a message, `poll`, and the handler.
use umsg.Base.{
  ℕ, ◌≤◌, ◌<◌, ◌≡◌, ◌∙◌, inl, inr, refl, ap, arith, eq→==, not, ◌||◌, if◌then◌else◌, Bool, true,
  some, List, [], length, IsU32, IsByte, IsBytes, All,
}
use umsg.Common.{
  Error, ok, invalid_argument, ByteSpan, HasRoom, contents, max_packet_size, max_frame_size,
  max_member_fn_ptr_size,
}
use umsg.Framer.{Framer}
use umsg.Framer.Stream.{collecting}
use umsg.Framer.Receive.{IsValid, view}
use umsg.Framer.Packet.{packet_of}
use umsg.Framer.Capacity.{Fits}
use umsg.Dispatcher.{Message, dispatch}
use umsg.Dispatcher.Install.{IsTable, is_bound, is_full}
use umsg.Dispatcher.Register.{register_typed-Installs, run_typed}
use umsg.Node.{Node, Transport, poll, publish, publish_typed, subscribe_typed, memory_of}
use umsg.Node.Stream.{Letter, deliver, span_of, ReadsPayload}
use umsg.Node.Poll.{Yields}
use umsg.Node.Letters.{frame_of}
use umsg.Node.Exchange.{publish-poll}

module _ {Sender Receiver State : Type 0} (transport peer : Transport State) (max_payload_size : ℕ)
    (sender : Node Sender) (receiver : Node Receiver) (message : Message) (msg : message.Msg)
    (msg_id obj : ℕ) (call : List ℕ → ℕ → message.Msg → Receiver → Error × Receiver)
    (method : List ℕ) (encoder : ByteSpan → Bool × ByteSpan) (payload : ByteSpan) where
  abbrev subscribed : Error × Node Receiver
  subscribed = subscribe_typed receiver msg_id obj message call method

  -- The sender, with what `encode` has left in the scratch buffer.
  abbrev encoded : Node Sender
  encoded = record sender { tx_encode = memory_of payload sender.tx_encode }

  abbrev letter : Letter
  letter = record {
    version = sender.expected_version;
    msg_id = msg_id;
    msg_hash = message.msg_hash;
    payload = contents payload;
  }

  abbrev packet : List ℕ
  packet = packet_of (frame_of letter)

  published :
      (s : State)
      → encoder (record { data_ptr = some sender.tx_encode; length = max_payload_size })
        ≡ (true, payload)
      → publish_typed transport max_payload_size sender msg_id message.msg_hash encoder s
        ≡ publish transport max_payload_size encoded msg_id message.msg_hash payload s
  unfolding publish_typed
  published s e =
      ap
        (λ (p : Bool × ByteSpan).
          if not (p.0)
          then (invalid_argument, record sender { tx_encode = memory_of (p.1) sender.tx_encode }, s)
          else publish transport max_payload_size
              (record sender { tx_encode = memory_of (p.1) sender.tx_encode }) msg_id
              message.msg_hash (p.1) s)
        e

  ran :
      (w : Receiver)
      → IsTable receiver.handlers
      → length method ≤ max_member_fn_ptr_size
      → is_bound msg_id receiver.handlers || not (is_full receiver.handlers) ≡ true
      → message.decode (span_of (contents payload)) ≡ some msg
      → (subscribed.0 ≡ ok)
        × (dispatch subscribed.1.handlers msg_id message.msg_hash (span_of (contents payload)) w
            ≡ call method obj msg w)
  unfolding subscribe_typed run_typed
  ran w table fits room decoded =
      elim (register_typed-Installs receiver.handlers msg_id obj message call method table fits
        msg_id (span_of (contents payload)) message.msg_hash w) [
          | inl (b, o, t, d) ↦ (
            o,
            d
                ∙ simp
                    (
                      eq→== msg_id msg_id refl,
                      eq→== message.msg_hash message.msg_hash refl,
                      decoded,
                    )
                    refl,
          )
          | inr (b, e) ↦ absurd (ground (arith, b, room))
        ]

  delivered_letter :
      (w : Receiver)
      → sender.expected_version ≡ receiver.expected_version
      → deliver subscribed.1.handlers subscribed.1.expected_version (some letter) w
        ≡ (dispatch subscribed.1.handlers msg_id message.msg_hash (span_of (contents payload)) w).1
  unfolding deliver subscribe_typed
  delivered_letter w same = simp (eq→== sender.expected_version receiver.expected_version same) refl

  -- A message from `publish` to its handler. A receiver, with the slots of a table that has the id or
  -- room for it, a method of at most 16 bytes, and a valid framer that has collected nothing,
  -- subscribes to the message's type; all its handlers then read only the bytes of a payload. A sender
  -- with buffers of their sizes and the same version publishes a message whose `encode` succeeds, with
  -- a payload that its length field and the node allow, of which the frame fits a packet and which
  -- `decode` takes back to the message; the fields are in range, the transport takes the packet, and
  -- the receiver's yields its bytes and then has none. Then `subscribe` and `publish` answer `OK`, and
  -- `poll` returns the number of bytes of the packet, with the world as the call of the method on its
  -- object with the message leaves it.
  pub subscribe-publish-poll :
      (s s1 s2 : State) (fuel : ℕ) (w : Receiver)
      → IsTable receiver.handlers
      → length method ≤ max_member_fn_ptr_size
      → is_bound msg_id receiver.handlers || not (is_full receiver.handlers) ≡ true
      → IsValid (max_packet_size max_payload_size) receiver.framer
      → view receiver.framer ≡ collecting []
      → All ReadsPayload subscribed.1.handlers
      → length sender.tx_frame ≡ max_frame_size max_payload_size
      → length sender.tx_packet ≡ max_packet_size max_payload_size
      → sender.expected_version ≡ receiver.expected_version
      → encoder (record { data_ptr = some sender.tx_encode; length = max_payload_size })
        ≡ (true, payload)
      → HasRoom payload.data_ptr payload.length
      → payload.length ≤ 0xFFFF
      → payload.length ≤ max_payload_size
      → Fits max_payload_size (frame_of letter)
      → message.decode (span_of (contents payload)) ≡ some msg
      → IsByte sender.expected_version
      → IsByte msg_id
      → IsU32 message.msg_hash
      → IsBytes (contents payload)
      → transport.write packet s ≡ (true, s1)
      → Yields peer s1 packet s2
      → length packet < fuel
      → (subscribed.0 ≡ ok)
        × ((publish_typed transport max_payload_size sender msg_id message.msg_hash encoder s).0
            ≡ ok)
        × (framer : Framer) × (poll peer max_payload_size fuel subscribed.1
              (publish_typed transport max_payload_size sender msg_id message.msg_hash encoder s).2
              w
            ≡ some (
              length packet,
              record subscribed.1 { framer = framer },
              s2,
              (call method obj msg w).1,
            ))
  unfolding subscribe_typed
  subscribe-publish-poll s s1 s2 fuel w table fits bound valid fresh reading frame_size packet_size
        same encodes room short small fits_packet decoded version_ok id_ok hash_ok bytes_ok taken
        yields enough =
      let handled = ran w table fits bound decoded in
      let sent = published s encodes in
      let run =
        publish-poll transport peer max_payload_size encoded subscribed.1 msg_id message.msg_hash
          payload s s1 s2 fuel w room frame_size packet_size short small fits_packet version_ok
          id_ok hash_ok bytes_ok taken yields enough valid fresh reading in
      (
        handled.0,
        ap (λ r. r.0) sent ∙ run.0,
        run.1,
        ap (λ r. poll peer max_payload_size fuel subscribed.1 (r.2) w) sent
            ∙ run.2
            ∙ ap (λ u. some (length packet, record subscribed.1 { framer = run.1 }, s2, u))
                (delivered_letter w same ∙ ap (λ r. r.1) handled.1),
      )
