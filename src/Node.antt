-- ===== src/Node.antt =====
-- src/umsg/node.hpp: `Node<Transport, MaxPayloadSize, MaxHandlers>`, a framer and a dispatcher on a
-- transport. A handler changes the `World`; one that calls back into the node is not modelled.
pub mod Stream
pub mod Handle
pub mod Poll
pub mod Refine
pub mod Letters
pub mod Exchange
pub mod Typed
pub mod Publish
pub mod Fixtures
mod Tests
use umsg.Base.{
  ℕ, suc, zero, ◌+◌, ◌==◌, not, if◌then◌else◌, Bool, true, false, Option, none, some, List, [],
}
use umsg.Common.{
  Error, ok, invalid_argument, transport_error, ByteSpan, contents, max_frame_size, max_packet_size,
}
use umsg.Framer.{Framer, Result, feed, encode}
use umsg.Framer
use umsg.Protocol.{Header, encode_frame, decode_frame}
use umsg.Dispatcher.{Slot, dispatch, Message, register_raw, register_typed}
use umsg.Dispatcher

-- What a node asks of a transport: `read` has a byte or returns false, and `write` takes the bytes.
pub record Transport (State : Type 0) : Type 0 where
  pub read : State → Option ℕ × State
  pub write : List ℕ → State → Bool × State

pub record Node (World : Type 0) : Type 0 where
  pub expected_version : ℕ
  pub framer : Framer
  pub handlers : List (Slot World)
  pub tx_frame : List ℕ
  pub tx_packet : List ℕ
  pub tx_encode : List ℕ

unfoldable pub is_ok : Error → Bool
is_ok ok = true
is_ok e = false

-- The header and the span that `decodeFrame` sets are not read where it fails, so that what they
-- hold before does not matter.
abbrev pub no_header : Header
no_header = record { version = 0; msg_id = 0; msg_hash = 0; payload_length = 0 }

abbrev pub no_span : ByteSpan
no_span = record { data_ptr = none; length = 0 }

module _ {World : Type 0} where
  -- The two forms of `subscribe`.
  unfoldable pub subscribe_raw :
      Node World
      → ℕ
      → ℕ
      → (List ℕ → ℕ → ByteSpan → ℕ → World → Error × World)
      → List ℕ
      → Error × Node World
  subscribe_raw node msg_id obj call method =
      let (e, handlers) = register_raw node.handlers msg_id obj call method in
      (e, record node { handlers = handlers })

  unfoldable pub subscribe_typed :
      Node World
      → ℕ
      → ℕ
      → (message : Message) → (List ℕ → ℕ → message.Msg → World → Error × World)
      → List ℕ
      → Error × Node World
  subscribe_typed node msg_id obj message call method =
      let (e, handlers) = register_typed node.handlers msg_id obj message call method in
      (e, record node { handlers = handlers })

  -- What `poll` does with the result of `decodeFrame`.
  unfoldable pub act : Node World → Error × Header × ByteSpan → World → World
  act node (e, h, payload) w =
      if not (is_ok e)
      then w
      else if not (h.version == node.expected_version)
      then w
      else (dispatch node.handlers h.msg_id h.msg_hash payload w).1

  -- The body of the loop of `poll` behind `feed`.
  unfoldable pub handle : Node World → Result → World → World
  unfolding act
  handle node r w = if r.complete then act node (decode_frame r.frame no_header no_span) w else w

-- The memory of a span after a call that was given `old` to write to.
abbrev pub memory_of : ByteSpan → List ℕ → List ℕ
memory_of span old = elim (span.data_ptr) [ none ↦ old | some memory ↦ memory ]

module _ {State : Type 0} (transport : Transport State) where
  -- The last part of `publish`, on the result of `Framer::encode`.
  unfoldable pub transmit : Error × ByteSpan → State → Error × State
  transmit (e, packet) s =
      if not (is_ok e)
      then (e, s)
      else let (written, s') = transport.write (contents packet) s in
        if not written then (transport_error, s') else (ok, s')

module _ {World State : Type 0} (transport : Transport State) (max_payload_size : ℕ) where
  -- The loop of `poll`, with the bytes counted before; `none` means that the fuel was not enough.
  unfoldable pub poll_loop :
      ℕ → Node World → State → World → ℕ → Option (ℕ × Node World × State × World)
  poll_loop zero node s w bytes = none
  poll_loop (suc fuel) node s w bytes =
      let (byte, s') = transport.read s in
      elim byte [
        | none ↦ some (bytes, node, s', w)
        | some b ↦
            let (r, framer) = feed (max_packet_size max_payload_size) node.framer b in
            let fed : Node World = record node { framer = framer } in
            poll_loop fuel fed s' (handle fed r w) (bytes + 1)
      ]

  unfoldable pub poll : ℕ → Node World → State → World → Option (ℕ × Node World × State × World)
  poll fuel node s w = poll_loop fuel node s w 0

  unfoldable pub publish : Node World → ℕ → ℕ → ByteSpan → State → Error × Node World × State
  publish node msg_id msg_hash payload s =
      let frame : ByteSpan = record {
        data_ptr = some node.tx_frame;
        length = max_frame_size max_payload_size;
      } in
      let (e, built) = encode_frame node.expected_version msg_id msg_hash payload frame in
      let framed : Node World = record node { tx_frame = memory_of built node.tx_frame } in
      let room : ByteSpan = record {
        data_ptr = some node.tx_packet;
        length = max_packet_size max_payload_size;
      } in
      let sent = encode built room in
      let packed : Node World = record framed { tx_packet = memory_of sent.1 node.tx_packet } in
      let (result, s') = transmit transport sent s in
      if not (is_ok e) then (e, framed, s) else (result, packed, s')

  -- The typed form; `encoded` is what `Msg::encode` does to the span of the scratch buffer.
  unfoldable pub publish_typed :
      Node World → ℕ → ℕ → (ByteSpan → Bool × ByteSpan) → State → Error × Node World × State
  publish_typed node msg_id msg_hash encoder s =
      let (encoded, payload) =
        encoder (record { data_ptr = some node.tx_encode; length = max_payload_size }) in
      let after : Node World = record node { tx_encode = memory_of payload node.tx_encode } in
      if not encoded then (invalid_argument, after, s) else publish after msg_id msg_hash payload s
