-- ===== src/Framer/Packet.antt =====
-- The packets that `encode` builds, and the buffers that they fit.
use umsg.Base.{ℕ, ◌+◌, ◌≤◌, ◌<◌, ◌≡◌, refl, sym, ap, ap₂, ◌∙◌, arith}
use umsg.Base.{le→leb, lt→leb, le→ltb, lt→ltb}
use umsg.Base.{some, List, [], ◌∷◌, ◌++◌, set, take, drop, length}
use umsg.Base.{length-append, set-middle, take-append, take-append-drop}
use umsg.Common.{Error, ok, invalid_argument, ByteSpan}
use umsg.Marshalling.{write_u32_be}
use umsg.Marshalling.Words.{u32_bytes, write_u32_be-digits}
use umsg.Crc32.{crc32_iso_hdlc}
use umsg.Cobs.{cobs_encode2, EncodeResult}
use umsg.Cobs.Format.{encoding}
use umsg.Cobs.Encode2.{IsEncoded, cobs_encode2-IsEncoded, cobs_encode2-IsRefused}
use umsg.Framer.{encode, terminate}
use umsg.Cobs.Length.{length-encoding-pos}
use umsg.Base.{append_assoc, length-drop}
use native.Mathlib.Decide.{dec_lt}

-- What is stuffed: the frame and its checksum.
abbrev pub with_crc : List ℕ → List ℕ
with_crc frame = frame ++ u32_bytes (crc32_iso_hdlc frame)

-- The bytes on the wire.
abbrev pub packet_of : List ℕ → List ℕ
packet_of frame = encoding (with_crc frame) ++ (0 ∷ [])

crc_bytes_lem : (v : ℕ) → write_u32_be (0 ∷ 0 ∷ 0 ∷ 0 ∷ []) 0 v ≡ u32_bytes v
crc_bytes_lem v = write_u32_be-digits [] [] 0 0 0 0 0 v refl

-- The result of a call that succeeded: the packet stands at the front of the memory that was given.
pub record IsPacket (frame : List ℕ) (size : ℕ) (result : Error × ByteSpan) : Type 0 where
  pub memory : List ℕ
  pub returns : result ≡ (ok, record { data_ptr = some memory; length = length (packet_of frame) })
  pub packet : take (length (packet_of frame)) memory ≡ packet_of frame
  pub same_size : length memory ≡ size

pub length-packet :
    (frame : List ℕ) → length (packet_of frame) ≡ length (encoding (with_crc frame)) + 1
length-packet frame = length-append (encoding (with_crc frame)) (0 ∷ [])

split_at :
    (n : ℕ) (xs front : List ℕ)
    → n < length xs
    → take n xs ≡ front
    → (x : ℕ) × (rest : List ℕ) × (xs ≡ front ++ (x ∷ rest))
split_at n xs front h e = go (drop n xs) refl
  where
    go : (back : List ℕ) → drop n xs ≡ back → (x : ℕ) × (rest : List ℕ) × (xs ≡ front ++ (x ∷ rest))
    go [] p = absurd (omega (arith, ap length p, length-drop n xs))
    go (x ∷ rest) p = (x, rest, sym (take-append-drop n xs) ∙ ap₂ ◌++◌ e p)

module _ (frame : List ℕ) (n : ℕ) (out : List ℕ) (cap : ℕ) (frame_valid : n ≤ length frame)
    (room : cap ≤ length out) where
  abbrev frame_span : ByteSpan
  frame_span = record { data_ptr = some frame; length = n }

  abbrev packet_span : ByteSpan
  packet_span = record { data_ptr = some out; length = cap }

  abbrev stuffed : EncodeResult
  stuffed =
      cobs_encode2 (some frame) n (some (u32_bytes (crc32_iso_hdlc (take n frame)))) 4 (some out)
        cap

  encode-terminate : 2 ≤ cap → encode frame_span packet_span ≡ terminate packet_span stuffed
  unfolding encode
  encode-terminate h = rw (le→ltb cap 2 h) (
      ap (λ t. terminate packet_span (cobs_encode2 (some frame) n (some t) 4 (some out) cap))
        (crc_bytes_lem (crc32_iso_hdlc (take n frame))))

  terminate-IsPacket :
      IsEncoded (with_crc (take n frame)) out stuffed
      → length (encoding (with_crc (take n frame))) < cap
      → IsPacket (take n frame) (length out) (terminate packet_span stuffed)
  unfolding terminate
  terminate-IsPacket e fits =
      let total : ℕ = length (encoding (with_crc (take n frame))) in
      let (x, rest, shape) =
        split_at total e.written (encoding (with_crc (take n frame))) (omega (arith, e.same_size))
          e.front in
      rw (e.returns) (
        rw (lt→leb cap total fits) (record {
          memory = packet_of (take n frame) ++ rest;
          returns =
              ap₂ (λ m k. (ok, record { data_ptr = some m; length = k }))
                (ap (λ t. set t total 0) shape
                  ∙ set-middle (encoding (with_crc (take n frame))) x rest total 0 refl
                  ∙ sym (append_assoc (encoding (with_crc (take n frame))) (0 ∷ []) rest))
                (sym (length-packet (take n frame)));
          packet = take-append (packet_of (take n frame)) rest _ refl;
          same_size = omega (
            arith,
            e.same_size,
            ap length shape,
            length-append (encoding (with_crc (take n frame))) (x ∷ rest),
            length-append (packet_of (take n frame)) rest,
            length-packet (take n frame),
          );
        }))

  -- With a capacity for the whole packet `encode` succeeds, returns its length, and the packet stands
  -- at the front of the memory given, whose size is kept.
  pub encode-IsPacket :
      length (packet_of (take n frame)) ≤ cap
      → IsPacket (take n frame) (length out) (encode frame_span packet_span)
  encode-IsPacket fits =
      let shorter : length (encoding (with_crc (take n frame))) < cap =
        omega (arith, length-packet (take n frame)) in
      rw (encode-terminate (omega (arith, length-encoding-pos (with_crc (take n frame)) []))) (
        terminate-IsPacket
          (cobs_encode2-IsEncoded (some frame) n (some (u32_bytes (crc32_iso_hdlc (take n frame))))
            4 out cap frame_valid (omega arith) room (omega arith))
          shorter)

  -- With a capacity below the length of the packet `encode` answers `InvalidArgument`.
  pub encode-refused :
      cap < length (packet_of (take n frame)) → (encode frame_span packet_span).0 ≡ invalid_argument
  encode-refused over = elim (dec_lt cap 2) [
    | yes tiny ↦ unfold encode in rw (lt→ltb cap 2 tiny)
    | no big ↦ rw (encode-terminate (omega arith)) (elim (dec_lt cap total) [
      | yes less ↦
          let r =
            cobs_encode2-IsRefused (some frame) n (some (u32_bytes (crc32_iso_hdlc (take n frame))))
              4 out cap frame_valid (omega arith) room less in
          rw (r.returns) (unfold terminate in refl)
      | no enough ↦
          let e =
            cobs_encode2-IsEncoded (some frame) n (some (u32_bytes (crc32_iso_hdlc (take n frame))))
              4 out cap frame_valid (omega arith) room (omega arith) in
          rw (e.returns) (
            unfold terminate in rw (le→leb cap total (omega (arith, length-packet (take n frame)))))
    ])
  ]
    where
      total : ℕ
      total = length (encoding (with_crc (take n frame)))
