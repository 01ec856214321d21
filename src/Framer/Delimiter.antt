-- ===== src/Framer/Delimiter.antt =====
-- The branch of `feed` for the delimiter, against the receiver of `Framer.Stream`.
use umsg.Base.{ℕ, ◌<◌, ◌≡◌, ◌≢◌, refl, ap, ap₂, ◌∙◌, arith}
use umsg.Base.{eq→==, ne→==}
use umsg.Base.{false, Bool-cases, inl, inr, Option-cases}
use umsg.Base.{List, [], ◌∷◌, ◌++◌, take, drop, length, IsBytes}
use umsg.Base.{length-append, take-append-drop, length-take}
use umsg.Cobs.{cobs_decode_in_place, DecodeResult}
use umsg.Cobs.Format.{decoding}
use umsg.Cobs.DecoderLoop.{cobs_decode_in_place_lem}
use umsg.Cobs.DecoderSize.{length-invalid, decoding_from-IsBytes}
use umsg.Framer.{Framer, start, feed_delimiter, check_packet, quiet, failed}
use umsg.Framer.Stream.{idle, check_decoded, interpret}
use umsg.Framer.Stream.{collecting, receive}
use umsg.Framer.Receive.{IsValid, view, view_result, Refines, start-IsValid, view-start}
use umsg.Framer.Receive.{check_frame-Refines}
use native.Mathlib.Decide.{ℕ_discrete as dec_eq}
use mathlib.Core.Path.{subst}

abbrev decode_at : List ℕ → List ℕ → DecodeResult
decode_at packet behind = cobs_decode_in_place (packet ++ behind) (length packet)

check_packet-Refines :
    (max_packet_size : ℕ) (memory packet behind : List ℕ)
    → IsBytes packet
    → length (packet ++ behind) ≡ max_packet_size
    → Refines max_packet_size
        (check_packet (start memory) (decode_at packet behind))
        (check_decoded (decoding packet), collecting [])
check_packet-Refines max_packet_size memory packet behind h size =
    elim (Option-cases (decoding packet)) [
      | inl fails ↦
          let (left, e) = (cobs_decode_in_place_lem packet behind).1 fails in
          rw (e, fails)
            (record {
              event = unfold check_packet view_result failed quiet check_decoded in refl;
              frame_room = unfold check_packet failed quiet in refl;
              state = unfold check_packet start in view-start left;
              valid =
                  unfold check_packet start in
                  start-IsValid max_packet_size left
                    (length-invalid (packet ++ behind) left (length packet) e ∙ size);
            })
      | inr (bytes, succeeds) ↦
          let (junk, e, n) = (cobs_decode_in_place_lem packet behind).0 bytes succeeds in
          rw (e, succeeds)
            (unfold check_packet check_decoded in
              check_frame-Refines max_packet_size memory bytes (junk ++ behind)
                (decoding_from-IsBytes packet 0 false bytes h succeeds)
                (omega (
                  arith,
                  length-append bytes (junk ++ behind),
                  length-append junk behind,
                  length-append packet behind,
                )))
    ]

interpret-packet :
    (packet : List ℕ) → 0 < length packet → interpret packet ≡ check_decoded (decoding packet)
unfolding interpret
interpret-packet [] h = absurd (omega arith)
interpret-packet (b ∷ packet) h = refl

module _ (max_packet_size : ℕ) (f : Framer) (v : IsValid max_packet_size f) where
  feed_delimiter-empty : f.rx_index ≡ 0 → feed_delimiter f ≡ (quiet, start f.rx_buffer)
  unfolding feed_delimiter start
  feed_delimiter-empty e = rw (eq→== f.rx_index 0 e)

  feed_delimiter-packet :
      f.rx_index ≢ 0
      → f.resyncing ≡ false
      → feed_delimiter f
        ≡ check_packet (start f.rx_buffer) (cobs_decode_in_place f.rx_buffer f.rx_index)
  unfolding feed_delimiter start
  feed_delimiter-packet e r = rw (ne→== f.rx_index 0 e) (ground arith)

  receive-empty : f.rx_index ≡ 0 → receive max_packet_size (view f) 0 ≡ (idle, collecting [])
  unfolding receive view interpret
  receive-empty e = elim (Bool-cases f.resyncing) [
    | inl skips ↦ rw skips refl
    | inr collects ↦ rw (collects, e) refl
  ]

  receive-packet :
      f.resyncing ≡ false
      → receive max_packet_size (view f) 0
        ≡ (interpret (take f.rx_index f.rx_buffer), collecting [])
  unfolding receive view
  receive-packet e = rw e refl

  -- The delimiter: what has been collected is answered, and nothing is left of it.
  pub feed_delimiter-Refines :
      Refines max_packet_size (feed_delimiter f) (receive max_packet_size (view f) 0)
  feed_delimiter-Refines = elim (dec_eq f.rx_index 0) [
    | yes e ↦
        rw (feed_delimiter-empty e, receive-empty e)
          (record {
            event = unfold view_result quiet in refl;
            frame_room = unfold quiet in refl;
            state = view-start f.rx_buffer;
            valid = start-IsValid max_packet_size f.rx_buffer v.buffer_size;
          })
    | no e ↦ elim (Bool-cases f.resyncing) [
      | inl skips ↦ absurd (e (v.skips_all skips))
      | inr collects ↦
          rw
            (
              feed_delimiter-packet e collects,
              receive-packet collects,
              interpret-packet (take f.rx_index f.rx_buffer)
                  (omega (arith, length-take f.rx_index f.rx_buffer, v.index_in, v.buffer_size)),
            )
            (subst
              (λ r.
                Refines max_packet_size (check_packet (start f.rx_buffer) r)
                  (check_decoded (decoding (take f.rx_index f.rx_buffer)), collecting []))
              (ap₂ cobs_decode_in_place (take-append-drop f.rx_index f.rx_buffer)
                (omega (arith, length-take f.rx_index f.rx_buffer, v.index_in, v.buffer_size)))
              (check_packet-Refines max_packet_size f.rx_buffer (take f.rx_index f.rx_buffer)
                (drop f.rx_index f.rx_buffer) v.collected
                (ap length (take-append-drop f.rx_index f.rx_buffer) ∙ v.buffer_size)))
    ]
  ]
