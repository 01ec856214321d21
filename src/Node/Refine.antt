-- ===== src/Node/Refine.antt =====
-- `poll` against the node of `Node.Stream`.
use umsg.Base.{ℕ, ◌<◌, ◌≡◌, ◌∙◌, refl, ap, ap₂, some, List, [], ◌∷◌, length, IsBytes, All}
use umsg.Common.{max_packet_size}
use umsg.Framer.{feed}
use umsg.Framer.Stream.{receive_all}
use umsg.Framer.Receive.{IsValid, view}
use umsg.Framer.Feed.{feed-Refines}
use umsg.Node.{Node, Transport, poll, handle}
use umsg.Node.Stream.{effect, effects, ReadsPayload}
use umsg.Node.Handle.{handle-effect}
use umsg.Node.Poll.{Yields, absorb, poll-absorb}

module _ {World : Type 0} (max_payload_size : ℕ) where
  -- What bytes do to a node: the phase and the world are those of the receiver, the framer stays
  -- valid, and nothing else of the node changes.
  pub record Follows (node : Node World) (bytes : List ℕ) (w : World) (after : Node World × World)
      : Type 0 where
    pub world :
        after.1
        ≡ effects node.handlers node.expected_version
            (receive_all (max_packet_size max_payload_size) (view node.framer) bytes).0
            w
    pub phase :
        view after.0.framer
        ≡ (receive_all (max_packet_size max_payload_size) (view node.framer) bytes).1
    pub valid : IsValid (max_packet_size max_payload_size) after.0.framer
    pub kept : after.0 ≡ record node { framer = after.0.framer }

  pub absorb-Follows :
      (node : Node World) (bytes : List ℕ) (w : World)
      → IsValid (max_packet_size max_payload_size) node.framer
      → IsBytes bytes
      → All ReadsPayload node.handlers
      → Follows node bytes w (absorb max_payload_size node bytes w)
  unfolding absorb receive_all effects
  absorb-Follows node [] w v b h = record { world = refl; phase = refl; valid = v; kept = refl }
  absorb-Follows node (x ∷ bytes) w v b h =
      let limit : ℕ = max_packet_size max_payload_size in
      let one = feed-Refines limit node.framer v x b.0 in
      let (r, framer) = feed limit node.framer x in
      let fed : Node World = record node { framer = framer } in
      let rest = absorb-Follows fed bytes (handle fed r w) one.valid b.1 h in
      let now = handle-effect fed r w h one.frame_room in
      record {
        world =
            rest.world
            ∙ ap₂
                (λ p u. effects node.handlers node.expected_version (receive_all limit p bytes).0 u)
                one.state
                (now ∙ ap (λ e. effect node.handlers node.expected_version e w) one.event);
        phase = rest.phase ∙ ap (λ p. (receive_all limit p bytes).1) one.state;
        valid = rest.valid;
        kept = rest.kept;
      }

module _ {World State : Type 0} (transport : Transport State) (max_payload_size : ℕ) where
  -- With a framer in a valid state, handlers that read only the bytes of a payload, and a transport
  -- that yields some bytes and then has none, `poll` with more fuel than bytes ends and returns their
  -- number. The world has changed as the frames among the events of the receiver of `Framer.Stream`
  -- say, in order: each that is a header of the expected version and a payload of the length that it
  -- names has been dispatched, and nothing else had an effect. The framer is valid, in the receiver's
  -- phase, and nothing else of the node has changed.
  pub poll-Follows :
      (fuel : ℕ) (node : Node World) (s s' : State) (w : World) (bytes : List ℕ)
      → IsValid (max_packet_size max_payload_size) node.framer
      → IsBytes bytes
      → All ReadsPayload node.handlers
      → Yields transport s bytes s'
      → length bytes < fuel
      → (after : Node World × World) × (poll transport max_payload_size fuel node s w
          ≡ some (length bytes, after.0, s', after.1))
        × Follows max_payload_size node bytes w after
  poll-Follows fuel node s s' w bytes v b h y enough = (
    absorb max_payload_size node bytes w,
    poll-absorb transport max_payload_size fuel node s s' w bytes y enough,
    absorb-Follows max_payload_size node bytes w v b h,
  )
