-- ===== src/Framer/Receive.antt =====
-- `feed` against the receiver of `Framer.Stream`, and the invariant of the framer.
use umsg.Base.{ℕ, ◌+◌, ◌-◌, ◌*◌, ◌≤◌, ◌<◌, ◌≡◌, refl, sym, ap, ap₂, ◌∙◌, arith}
use umsg.Base.{◌==◌, le→ltb, lt→ltb, if◌then◌else◌}
use umsg.Base.{Bool, true, false, Bool-cases, inl, inr, some}
use umsg.Base.{List, [], ◌∷◌, ◌++◌, take, drop, length, IsByte, IsBytes, All-drop}
use umsg.Base.{take-append_left, take-append-drop, length-take}
use umsg.Base.{length-drop, append_assoc}
use umsg.Base.{length-append}
use umsg.Common.{HasRoom}
use umsg.Common.{Error, ok, crc_invalid, frame_too_short, contents}
use umsg.Marshalling.{read_u32_be}
use umsg.Marshalling.Words.{read_u32_be-bytes}
use umsg.Crc32.{crc32_iso_hdlc}
use umsg.Framer.{Framer, Result, start, check_frame, quiet, failed}
use umsg.Framer.Stream.{Received, idle, rejected, delivered, big_endian, check_bytes}
use umsg.Framer.Stream.{Phase, collecting, skipping}
use native.Mathlib.Decide.{dec_lt}
use mathlib.Core.Path.{subst}

-- The receive buffer has its size, what has been collected lies in it and consists of bytes, and
-- nothing is collected while an oversized packet is skipped.
pub record IsValid (max_packet_size : ℕ) (f : Framer) : Type 0 where
  pub buffer_size : length f.rx_buffer ≡ max_packet_size
  pub index_in : f.rx_index ≤ max_packet_size
  pub collected : IsBytes (take f.rx_index f.rx_buffer)
  pub skips_all : f.resyncing ≡ true → f.rx_index ≡ 0

unfoldable pub view : Framer → Phase
view f = if f.resyncing then skipping else collecting (take f.rx_index f.rx_buffer)

abbrev pub view_status : Error → Received
view_status ok = idle
view_status e = rejected e

unfoldable pub view_result : Result → Received
view_result r = if r.complete then delivered (contents r.frame) else view_status r.status

-- The outcome of a call: the events agree, the states agree, the invariant holds again, and there is
-- as much memory behind the frame as its length says.
pub record Refines (max_packet_size : ℕ) (concrete : Result × Framer) (abstract : Received × Phase)
    : Type 0 where
  pub event : view_result concrete.0 ≡ abstract.0
  pub state : view concrete.1 ≡ abstract.1
  pub valid : IsValid max_packet_size concrete.1
  pub frame_room : HasRoom concrete.0.frame.data_ptr concrete.0.frame.length

-- The last four bytes of what was decoded.
last_four :
    (bytes : List ℕ)
    → 4 ≤ length bytes
    → (a b c d : ℕ) × (bytes ≡ take (length bytes - 4) bytes ++ (a ∷ b ∷ c ∷ d ∷ []))
      × (drop (length bytes - 4) bytes ≡ a ∷ b ∷ c ∷ d ∷ [])
last_four bytes h = go (drop (length bytes - 4) bytes) refl
  where
    whole : take (length bytes - 4) bytes ++ drop (length bytes - 4) bytes ≡ bytes
    whole = take-append-drop (length bytes - 4) bytes

    count : length (drop (length bytes - 4) bytes) ≡ 4
    count = omega (arith, length-drop (length bytes - 4) bytes)

    go :
        (back : List ℕ)
        → drop (length bytes - 4) bytes ≡ back
        → (a b c d : ℕ) × (bytes ≡ take (length bytes - 4) bytes ++ (a ∷ b ∷ c ∷ d ∷ []))
          × (drop (length bytes - 4) bytes ≡ a ∷ b ∷ c ∷ d ∷ [])
    go [] p = absurd (omega (arith, count, ap length p))
    go (a ∷ []) p = absurd (omega (arith, count, ap length p))
    go (a ∷ b ∷ []) p = absurd (omega (arith, count, ap length p))
    go (a ∷ b ∷ c ∷ []) p = absurd (omega (arith, count, ap length p))
    go (a ∷ b ∷ c ∷ d ∷ []) p =
        (a, b, c, d, sym whole ∙ ap (λ t. take (length bytes - 4) bytes ++ t) p, p)
    go (a ∷ b ∷ c ∷ d ∷ e ∷ rest) p = absurd (omega (arith, count, ap length p))

pub start-IsValid :
    (max_packet_size : ℕ) (memory : List ℕ)
    → length memory ≡ max_packet_size
    → IsValid max_packet_size (start memory)
unfolding start
start-IsValid max_packet_size memory h = record {
  buffer_size = h;
  index_in = omega arith;
  collected = tt;
  skips_all = λ e. refl;
}

pub view-start : (memory : List ℕ) → view (start memory) ≡ collecting []
unfolding view start
view-start memory = refl

module _ (max_packet_size : ℕ) (memory : List ℕ) where
  check_frame-short :
      (buffer : List ℕ) (n : ℕ)
      → n < 4
      → check_frame (start memory) buffer n ≡ (failed frame_too_short, start buffer)
  unfolding check_frame start
  check_frame-short buffer n h = rw (lt→ltb n 4 h)

  check_frame-wrong :
      (buffer : List ℕ) (n : ℕ)
      → 4 ≤ n
      → (read_u32_be buffer (n - 4) == crc32_iso_hdlc (take (n - 4) buffer)) ≡ false
      → check_frame (start memory) buffer n ≡ (failed crc_invalid, start buffer)
  unfolding check_frame start
  check_frame-wrong buffer n h e = rw (le→ltb n 4 h, e)

  check_frame-right :
      (buffer : List ℕ) (n : ℕ)
      → 4 ≤ n
      → (read_u32_be buffer (n - 4) == crc32_iso_hdlc (take (n - 4) buffer)) ≡ true
      → check_frame (start memory) buffer n ≡ (
        record {
          status = ok;
          complete = true;
          frame = record { data_ptr = some buffer; length = n - 4 };
        },
        start buffer,
      )
  unfolding check_frame start
  check_frame-right buffer n h e = rw (le→ltb n 4 h, e)

  check_bytes-short :
      (bytes : List ℕ) → length bytes < 4 → check_bytes bytes ≡ rejected frame_too_short
  unfolding check_bytes
  check_bytes-short bytes h = rw (lt→ltb (length bytes) 4 h)

  check_bytes-long :
      (bytes : List ℕ)
      → 4 ≤ length bytes
      → check_bytes bytes ≡ (
          if big_endian 0 (drop (length bytes - 4) bytes)
            == crc32_iso_hdlc (take (length bytes - 4) bytes)
          then delivered (take (length bytes - 4) bytes)
          else rejected crc_invalid)
  unfolding check_bytes
  check_bytes-long bytes h = rw (le→ltb (length bytes) 4 h)

  -- The checks of `feed` on a buffer that begins with what was decoded.
  pub check_frame-Refines :
      (bytes rest : List ℕ)
      → IsBytes bytes
      → length (bytes ++ rest) ≡ max_packet_size
      → Refines max_packet_size
          (check_frame (start memory) (bytes ++ rest) (length bytes))
          (check_bytes bytes, collecting [])
  check_frame-Refines bytes rest h size = elim (dec_lt (length bytes) 4) [
    | yes few ↦
        rw (check_frame-short (bytes ++ rest) (length bytes) few, check_bytes-short bytes few)
          (record {
            event = unfold view_result failed quiet in refl;
            frame_room = unfold failed quiet in refl;
            state = view-start (bytes ++ rest);
            valid = start-IsValid max_packet_size (bytes ++ rest) size;
          })
    | no enough ↦ long (omega arith) (last_four bytes (omega arith))
  ]
    where
      long :
          4 ≤ length bytes
          → ((a b c d : ℕ) × (bytes ≡ take (length bytes - 4) bytes ++ (a ∷ b ∷ c ∷ d ∷ []))
              × (drop (length bytes - 4) bytes ≡ a ∷ b ∷ c ∷ d ∷ []))
          → Refines max_packet_size
              (check_frame (start memory) (bytes ++ rest) (length bytes))
              (check_bytes bytes, collecting [])
      long enough (a, b, c, d, split, tail) = elim (Bool-cases spec_test) [
        | inl right ↦
            rw
              (
                check_frame-right (bytes ++ rest) (length bytes) enough (same_test ∙ right),
                check_bytes-long bytes enough,
                right,
              )
              (record {
                event = unfold view_result in ap delivered frame_part;
                frame_room = omega (arith, length-append bytes rest);
                state = view-start (bytes ++ rest);
                valid = start-IsValid max_packet_size (bytes ++ rest) size;
              })
        | inr wrong ↦
            rw
              (
                check_frame-wrong (bytes ++ rest) (length bytes) enough (same_test ∙ wrong),
                check_bytes-long bytes enough,
                wrong,
              )
              (record {
                event = unfold view_result failed quiet in refl;
                frame_room = unfold failed quiet in refl;
                state = view-start (bytes ++ rest);
                valid = start-IsValid max_packet_size (bytes ++ rest) size;
              })
      ]
        where
          front : List ℕ
          front = take (length bytes - 4) bytes

          spec_test : Bool
          spec_test =
              big_endian 0 (drop (length bytes - 4) bytes)
              == crc32_iso_hdlc (take (length bytes - 4) bytes)

          frame_part : take (length bytes - 4) (bytes ++ rest) ≡ take (length bytes - 4) bytes
          frame_part = take-append_left bytes rest (length bytes - 4) (omega arith)

          four : IsBytes (a ∷ b ∷ c ∷ d ∷ [])
          four = subst IsBytes tail (All-drop IsByte (length bytes - 4) bytes h)

          digits :
              (w x y z : ℕ)
              → ((w * 256 + x) * 256 + y) * 256 + z ≡ big_endian 0 (w ∷ x ∷ y ∷ z ∷ [])
          digits w x y z = omega arith

          crc_part :
              read_u32_be (bytes ++ rest) (length bytes - 4)
              ≡ big_endian 0 (drop (length bytes - 4) bytes)
          crc_part =
              ap (λ t. read_u32_be t (length bytes - 4))
                (ap (λ t. t ++ rest) split ∙ append_assoc front (a ∷ b ∷ c ∷ d ∷ []) rest)
              ∙ read_u32_be-bytes front rest a b c d (length bytes - 4) four.0 four.1.0 four.1.1.0
                  four.1.1.1.0 (omega (arith, length-take (length bytes - 4) bytes))
              ∙ digits a b c d
              ∙ ap (big_endian 0) (sym tail)

          same_test :
              (read_u32_be (bytes ++ rest) (length bytes - 4)
                == crc32_iso_hdlc (take (length bytes - 4) (bytes ++ rest)))
              ≡ (big_endian 0 (drop (length bytes - 4) bytes)
                  == crc32_iso_hdlc (take (length bytes - 4) bytes))
          same_test = ap₂ (λ x y. x == y) crc_part (ap crc32_iso_hdlc frame_part)
