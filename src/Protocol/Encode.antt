-- ===== src/Protocol/Encode.antt =====
-- The bytes that `encodeFrame` writes, and when it refuses.
use umsg.Base.{ℕ, ◌+◌, ◌≤◌, ◌<◌, ◌≡◌, refl, sym, ap, ap₂, ◌∙◌, arith}
use umsg.Base.{◌==◌, ltb, not, lt→ltb, le→ltb, if◌then◌else◌, ◌&&◌, ◌⊎◌}
use umsg.Base.{false, none, some, List, [], ◌∷◌, ◌++◌, take, drop, length, memcpy}
use umsg.Base.{
  memcpy-middle, take-append, take-append-drop, length-append, length-take, length-drop,
}
use umsg.Base.{u16}
use umsg.Common.{Pointer, Error, ok, invalid_argument, ByteSpan, is_null, contents, region, HasRoom}
use umsg.Marshalling.{write_u16_be, write_u32_be}
use umsg.Marshalling.Words.{u16_bytes, u32_bytes, write_u16_be-digits, write_u32_be-digits}
use umsg.Protocol.{encode_frame, write_frame}
use native.Mathlib.Decide.{ℕ_discrete as dec_eq}

-- The layout of a frame.
abbrev pub header_bytes : ℕ → ℕ → ℕ → ℕ → List ℕ
header_bytes version msg_id msg_hash len = version ∷ msg_id ∷ (u32_bytes msg_hash ++ u16_bytes len)

abbrev pub frame_bytes : ℕ → ℕ → ℕ → List ℕ → List ℕ
frame_bytes version msg_id msg_hash payload =
    header_bytes version msg_id msg_hash (length payload) ++ payload

pub length-region : (p : ByteSpan) → HasRoom p.data_ptr p.length → length (contents p) ≡ p.length
length-region p h = go p.data_ptr p.length h
  where
    go : (d : Pointer) (n : ℕ) → HasRoom d n → length (region d n) ≡ n
    go none n e = sym e
    go (some bytes) n e = omega (arith, length-take n bytes)

-- The header is written over the first eight bytes.
write_header :
    (version msg_id msg_hash len : ℕ) (c d e f g h : ℕ) (rest : List ℕ)
    → write_u16_be (write_u32_be (version ∷ msg_id ∷ c ∷ d ∷ e ∷ f ∷ g ∷ h ∷ rest) 2 msg_hash) 6 len
      ≡ header_bytes version msg_id msg_hash len ++ rest
write_header version msg_id msg_hash len c d e f g h rest =
    ap (λ t. write_u16_be t 6 len)
      (write_u32_be-digits (version ∷ msg_id ∷ []) (g ∷ h ∷ rest) c d e f 2 msg_hash refl)
    ∙ write_u16_be-digits (version ∷ msg_id ∷ u32_bytes msg_hash) rest g h 6 len refl

-- A copy of no bytes may be left out.
memcpy_if :
    (payload : ByteSpan) (memory : List ℕ)
    → HasRoom payload.data_ptr payload.length
    → (if ltb 0 payload.length then memcpy memory 8 (contents payload) else memory)
      ≡ memcpy memory 8 (contents payload)
memcpy_if payload memory valid = elim (dec_eq payload.length 0) [
  | yes none_left ↦
      simp (le→ltb 0 payload.length (omega arith))
        (sym (nothing (contents payload) (omega (arith, length-region payload valid))))
  | no some_left ↦ simp (lt→ltb 0 payload.length (omega arith)) refl
]
  where
    nothing : (bytes : List ℕ) → length bytes ≡ 0 → memcpy memory 8 bytes ≡ memory
    nothing [] h = refl
    nothing (b ∷ bytes) h = absurd (omega arith)

write_frame_lem :
    (version msg_id msg_hash : ℕ) (payload : ByteSpan) (memory : List ℕ)
    → HasRoom payload.data_ptr payload.length
    → payload.length ≤ 0xFFFF
    → 8 + payload.length ≤ length memory
    → (behind : List ℕ) × (write_frame version msg_id msg_hash payload memory
        ≡ frame_bytes version msg_id msg_hash (contents payload) ++ behind)
      × (length (frame_bytes version msg_id msg_hash (contents payload) ++ behind) ≡ length memory)
unfolding write_frame
write_frame_lem version msg_id msg_hash payload (a ∷ b ∷ c ∷ d ∷ e ∷ f ∷ g ∷ h ∷ rest) valid small
      room =
    (
      drop payload.length rest,
      ap (λ t. if ltb 0 payload.length then memcpy t 8 (contents payload) else t)
            (ap
                (λ n.
                  write_u16_be
                    (write_u32_be (version ∷ msg_id ∷ c ∷ d ∷ e ∷ f ∷ g ∷ h ∷ rest) 2 msg_hash) 6 n)
                len
              ∙ write_header version msg_id msg_hash (length (contents payload)) c d e f g h rest)
          ∙ memcpy_if payload
              (header_bytes version msg_id msg_hash (length (contents payload)) ++ rest) valid
          ∙ ap
              (λ t.
                memcpy (header_bytes version msg_id msg_hash (length (contents payload)) ++ t) 8
                  (contents payload))
              (sym (take-append-drop payload.length rest))
          ∙ memcpy-middle (contents payload)
              (header_bytes version msg_id msg_hash (length (contents payload)))
              (take payload.length rest) (drop payload.length rest) 8 refl
              (omega (arith, length-take payload.length rest, length-region payload valid)),
      omega (
        arith,
        length-append (contents payload) (drop payload.length rest),
        length-drop payload.length rest,
        length-region payload valid,
      ),
    )
  where
    len : u16 payload.length ≡ length (contents payload)
    len = omega (arith, length-region payload valid)
write_frame_lem version msg_id msg_hash payload memory valid small room = absurd (omega arith)

-- The result of a call that succeeded.
pub record IsFrame (frame : List ℕ) (size : ℕ) (result : Error × ByteSpan) : Type 0 where
  pub memory : List ℕ
  pub returns : result ≡ (ok, record { data_ptr = some memory; length = length frame })
  pub written : take (length frame) memory ≡ frame
  pub same_size : length memory ≡ size

module _ (version msg_id msg_hash : ℕ) (payload : ByteSpan) (memory : List ℕ) (capacity : ℕ)
    (valid : HasRoom payload.data_ptr payload.length) (room : capacity ≤ length memory) where
  not_null : (is_null payload.data_ptr && not (payload.length == 0)) ≡ false
  not_null = go payload.data_ptr payload.length valid
    where
      go : (d : Pointer) (n : ℕ) → HasRoom d n → (is_null d && not (n == 0)) ≡ false
      go none n e = ground arith
      go (some bytes) n e = refl

  -- `encodeFrame` writes the frame where the payload is no longer than its length field can say and
  -- the output has the capacity for the header and the payload.
  pub encode_frame-IsFrame :
      payload.length ≤ 0xFFFF
      → 8 + payload.length ≤ capacity
      → IsFrame (frame_bytes version msg_id msg_hash (contents payload)) (length memory) (
          encode_frame version msg_id msg_hash payload
            (record { data_ptr = some memory; length = capacity }))
  unfolding encode_frame
  encode_frame-IsFrame small fits =
      let (behind, e, size) =
        write_frame_lem version msg_id msg_hash payload memory valid small (omega arith) in
      rw (not_null) (
        simp (le→ltb 0xFFFF payload.length small, le→ltb capacity (8 + payload.length) fits)
          (record {
            memory = frame_bytes version msg_id msg_hash (contents payload) ++ behind;
            returns =
                ap₂ (λ m k. (ok, record { data_ptr = some m; length = k })) e
                  (omega (arith, length-region payload valid));
            written =
                take-append (frame_bytes version msg_id msg_hash (contents payload)) behind _ refl;
            same_size = size;
          }))

  -- Where the payload is longer than 65535 bytes or the capacity is below the header and the payload,
  -- `encodeFrame` answers `InvalidArgument` and leaves the output as it was.
  pub encode_frame-refused :
      (0xFFFF < payload.length) ⊎ (capacity < 8 + payload.length)
      → encode_frame version msg_id msg_hash payload
          (record { data_ptr = some memory; length = capacity })
        ≡ (invalid_argument, record { data_ptr = some memory; length = capacity })
  unfolding encode_frame
  encode_frame-refused h = ground (arith, not_null)
