-- ===== src/Framer/Feed.antt =====
-- One call of `feed`, against the receiver of `Framer.Stream`.
use umsg.Base.{ℕ, ◌+◌, ◌≤◌, ◌<◌, ◌≡◌, ◌≢◌, refl, sym, ap, ◌∙◌, arith}
use umsg.Base.{le→leb, lt→leb, ne→==}
use umsg.Base.{true, false, Bool-cases, inl, inr}
use umsg.Base.{List, [], ◌∷◌, ◌++◌, set, take, length, IsByte, All-append}
use umsg.Base.{length-take, length-set}
use umsg.Base.{take-set}
use umsg.Common.{frame_overflow}
use umsg.Framer.{Framer, feed, quiet, failed}
use umsg.Framer.Stream.{idle, rejected}
use umsg.Framer.Stream.{collecting, skipping, receive}
use umsg.Framer.Receive.{IsValid, view, view_result, Refines}
use native.Mathlib.Decide.{dec_lt, ℕ_discrete as dec_eq}
use mathlib.Core.Bool.{false≢true}
use umsg.Framer.Delimiter.{feed_delimiter-Refines}

module _ (max_packet_size : ℕ) (f : Framer) (v : IsValid max_packet_size f) where
  -- A byte that is not a delimiter, and finds room.
  stored : ℕ → Framer
  stored byte = record f { rx_buffer = set f.rx_buffer f.rx_index byte; rx_index = f.rx_index + 1 }

  take-stored :
      (byte : ℕ)
      → f.rx_index < max_packet_size
      → take (f.rx_index + 1) (set f.rx_buffer f.rx_index byte)
        ≡ take f.rx_index f.rx_buffer ++ (byte ∷ [])
  take-stored byte room = take-set f.rx_buffer f.rx_index byte (omega (arith, v.buffer_size))

  stored-IsValid :
      (byte : ℕ)
      → IsByte byte
      → f.resyncing ≡ false
      → f.rx_index < max_packet_size
      → IsValid max_packet_size (stored byte)
  unfolding stored
  stored-IsValid byte h collects room = record {
    buffer_size = length-set f.rx_buffer f.rx_index byte ∙ v.buffer_size;
    index_in = omega arith;
    collected =
        rw (take-stored byte room)
          (All-append IsByte (take f.rx_index f.rx_buffer) (byte ∷ []) v.collected (h, tt));
    skips_all = λ skips. absurd (false≢true (sym collects ∙ skips));
  }

  view-skipping : f.resyncing ≡ true → view f ≡ skipping
  unfolding view
  view-skipping e = ground arith

  view-collecting : f.resyncing ≡ false → view f ≡ collecting (take f.rx_index f.rx_buffer)
  unfolding view
  view-collecting e = ground arith

  module _ (byte : ℕ) (nonzero : byte ≢ 0) where
    feed-skip : f.resyncing ≡ true → feed max_packet_size f byte ≡ (quiet, f)
    unfolding feed
    feed-skip e = simp (ne→== byte 0 nonzero, e)

    feed-overflow :
        f.resyncing ≡ false
        → max_packet_size ≤ f.rx_index
        → feed max_packet_size f byte
          ≡ (failed frame_overflow, record f { rx_index = 0; resyncing = true })
    unfolding feed
    feed-overflow e full = simp (ne→== byte 0 nonzero, e, le→leb max_packet_size f.rx_index full)

    feed-store :
        f.resyncing ≡ false
        → f.rx_index < max_packet_size
        → feed max_packet_size f byte ≡ (quiet, stored byte)
    unfolding feed stored
    feed-store e room = simp (ne→== byte 0 nonzero, e, lt→leb max_packet_size f.rx_index room)

    receive-skip : receive max_packet_size skipping byte ≡ (idle, skipping)
    unfolding receive
    receive-skip = rw (ne→== byte 0 nonzero) refl

    receive-overflow :
        (packet : List ℕ)
        → max_packet_size ≤ length packet
        → receive max_packet_size (collecting packet) byte ≡ (rejected frame_overflow, skipping)
    unfolding receive
    receive-overflow packet full =
        rw (ne→== byte 0 nonzero, le→leb max_packet_size (length packet) full) refl

    receive-store :
        (packet : List ℕ)
        → length packet < max_packet_size
        → receive max_packet_size (collecting packet) byte
          ≡ (idle, collecting (packet ++ (byte ∷ [])))
    unfolding receive
    receive-store packet room =
        rw (ne→== byte 0 nonzero, lt→leb max_packet_size (length packet) room) refl

  -- One byte, whatever it is: `feed` answers as the receiver does, and moves on as it does.
  pub feed-Refines :
      (byte : ℕ)
      → IsByte byte
      → Refines max_packet_size
          (feed max_packet_size f byte)
          (receive max_packet_size (view f) byte)
  feed-Refines byte h = elim (dec_eq byte 0) [
    | yes z ↦ rw z (unfold feed in feed_delimiter-Refines max_packet_size f v)
    | no nz ↦ elim (Bool-cases f.resyncing) [
      | inl skips ↦
          rw (feed-skip byte nz skips, view-skipping skips, receive-skip byte nz)
            (record {
              event = unfold view_result quiet in refl;
              frame_room = unfold quiet in refl;
              state = view-skipping skips;
              valid = v;
            })
      | inr collects ↦ elim (dec_lt f.rx_index max_packet_size) [
        | yes room ↦
            rw
              (
                feed-store byte nz collects room,
                view-collecting collects,
                receive-store byte nz (take f.rx_index f.rx_buffer) (omega (arith, count)),
              )
              (record {
                event = unfold view_result quiet in refl;
                frame_room = unfold quiet in refl;
                state = unfold view stored in simp collects (ap collecting (take-stored byte room));
                valid = stored-IsValid byte h collects room;
              })
        | no full ↦
            rw
              (
                feed-overflow byte nz collects (omega arith),
                view-collecting collects,
                receive-overflow byte nz (take f.rx_index f.rx_buffer) (omega (arith, count)),
              )
              (record {
                event = unfold view_result quiet failed in refl;
                frame_room = unfold failed quiet in refl;
                state = unfold view in refl;
                valid = record {
                  buffer_size = v.buffer_size;
                  index_in = omega arith;
                  collected = tt;
                  skips_all = λ e. refl;
                };
              })
      ]
    ]
  ]
    where
      count : length (take f.rx_index f.rx_buffer) ≡ f.rx_index
      count = omega (arith, length-take f.rx_index f.rx_buffer, v.index_in, v.buffer_size)
