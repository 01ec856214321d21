-- ===== src/Node/Poll.antt =====
-- `poll` on a transport that has some bytes.
use umsg.Base.{
  ℕ, suc, zero, ◌+◌, ◌<◌, ◌≡◌, ap, ◌∙◌, arith, Option, none, some, List, [], ◌∷◌, length,
}
use umsg.Common.{max_packet_size}
use umsg.Framer.{feed}
use umsg.Node.{Node, Transport, poll, poll_loop, handle}

module _ {State : Type 0} (transport : Transport State) where
  -- From the first state the transport reads the bytes, then has none, and is in the last state.
  pub data Yields : State → List ℕ → State → Type 0 where
    ends : {s s' : State} → transport.read s ≡ (none, s') → Yields s [] s'
    reads :
        {s s1 s2 : State} {b : ℕ} {bytes : List ℕ}
        → transport.read s ≡ (some b, s1)
        → Yields s1 bytes s2
        → Yields s (b ∷ bytes) s2

module _ {World : Type 0} (max_payload_size : ℕ) where
  -- The node and the world after the bytes have been fed to the framer one by one, each result
  -- handled before the next byte.
  unfoldable pub absorb : Node World → List ℕ → World → Node World × World
  absorb node [] w = (node, w)
  absorb node (b ∷ bytes) w =
      let (r, framer) = feed (max_packet_size max_payload_size) node.framer b in
      let fed : Node World = record node { framer = framer } in absorb fed bytes (handle fed r w)

module _ {World State : Type 0} (transport : Transport State) (max_payload_size : ℕ) where
  recount :
      {n m : ℕ} {node : Node World} {s : State} {w : World}
      {o : Option (ℕ × Node World × State × World)}
      → n ≡ m
      → o ≡ some (n, node, s, w)
      → o ≡ some (m, node, s, w)
  recount {node = node} {s = s} {w = w} same e = e ∙ ap (λ k. some (k, node, s, w)) same

  poll_loop-absorb :
      (fuel : ℕ) (node : Node World) (s s' : State) (w : World) (n : ℕ) (bytes : List ℕ)
      → Yields transport s bytes s'
      → length bytes < fuel
      → poll_loop transport max_payload_size fuel node s w n
        ≡ some (
          n + length bytes,
          (absorb max_payload_size node bytes w).0,
          s',
          (absorb max_payload_size node bytes w).1,
        )
  unfolding poll_loop absorb
  poll_loop-absorb zero node s s' w n bytes y enough = absurd (omega arith)
  poll_loop-absorb (suc fuel) node s s' w n [] (ends e) enough =
      rw (e, poll_loop) (recount (omega arith) (ap (λ t. some (n, node, t, w)) (ap (λ p. p.1) e)))
  poll_loop-absorb (suc fuel) node s s' w n (b ∷ bytes) (reads {s1 = s1} e y) enough =
      let (r, framer) = feed (max_packet_size max_payload_size) node.framer b in
      let fed : Node World = record node { framer = framer } in
      rw (e, poll_loop)
        (recount (omega arith) (
          ap (λ t. poll_loop transport max_payload_size fuel fed t (handle fed r w) (n + 1))
            (ap (λ p. p.1) e)
          ∙ poll_loop-absorb fuel fed s1 s' (handle fed r w) (n + 1) bytes y (omega arith)))

  -- On a transport that yields some bytes and then has none, `poll` ends: any fuel above the number
  -- of bytes is enough. It returns the number of bytes, each of which has been fed to the framer and
  -- its result handled in turn.
  pub poll-absorb :
      (fuel : ℕ) (node : Node World) (s s' : State) (w : World) (bytes : List ℕ)
      → Yields transport s bytes s'
      → length bytes < fuel
      → poll transport max_payload_size fuel node s w
        ≡ some (
          length bytes,
          (absorb max_payload_size node bytes w).0,
          s',
          (absorb max_payload_size node bytes w).1,
        )
  unfolding poll
  poll-absorb fuel node s s' w bytes y enough =
      recount (omega arith) (poll_loop-absorb fuel node s s' w 0 bytes y enough)
