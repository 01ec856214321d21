-- ===== src/Framer/Session.antt =====
-- A whole stream of bytes, fed one by one, against the receiver of `Framer.Stream`.
use umsg.Base.{ℕ, ◌≡◌, refl, ap, ap₂, ◌∙◌, List, [], ◌∷◌}
use umsg.Base.{IsBytes}
use mathlib.Core.List.{map}
use umsg.Framer.{Framer, Result, feed}
use umsg.Framer.Stream.{receive_all}
use umsg.Framer.Receive.{IsValid, view, view_result}
use umsg.Framer.Feed.{feed-Refines}

-- The calls of `feed` for the bytes of a stream.
pub feed_all : ℕ → Framer → List ℕ → List Result × Framer
feed_all max_packet_size f [] = ([], f)
feed_all max_packet_size f (byte ∷ bytes) =
    let (result, next) = feed max_packet_size f byte in
    let (results, last) = feed_all max_packet_size next bytes in (result ∷ results, last)

-- On every stream of bytes, a framer in a valid state answers each byte as the receiver of
-- `Framer.Stream` does from the same phase, ends in its phase, and stays valid.
pub feed_all_refines :
    (max_packet_size : ℕ) (f : Framer) (bytes : List ℕ)
    → IsValid max_packet_size f
    → IsBytes bytes
    → (map view_result (feed_all max_packet_size f bytes).0
        ≡ (receive_all max_packet_size (view f) bytes).0)
      × (view (feed_all max_packet_size f bytes).1 ≡ (receive_all max_packet_size (view f) bytes).1)
      × IsValid max_packet_size (feed_all max_packet_size f bytes).1
unfolding feed_all receive_all
feed_all_refines max_packet_size f [] v h = (refl, refl, v)
feed_all_refines max_packet_size f (byte ∷ bytes) v h =
    let one = feed-Refines max_packet_size f v byte h.0 in
    let (events, phase, valid) =
      feed_all_refines max_packet_size (feed max_packet_size f byte).1 bytes one.valid h.1 in
    (
      ap₂ ◌∷◌ one.event (events ∙ ap (λ p. (receive_all max_packet_size p bytes).0) one.state),
      phase ∙ ap (λ p. (receive_all max_packet_size p bytes).1) one.state,
      valid,
    )
