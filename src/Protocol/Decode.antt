-- ===== src/Protocol/Decode.antt =====
-- `decodeFrame` on every input, and against `encodeFrame`.
use umsg.Base.{none}
use umsg.Common.{invalid_argument}
use umsg.Base.{ℕ, suc, ◌+◌, ◌*◌, ◌≤◌, ◌<◌, ◌≡◌, ◌≢◌, refl, sym, ap, ap₂, ◌∙◌, arith}
use umsg.Base.{lt→ltb, le→ltb, ne→==, eq→==}
use umsg.Base.{◌⊎◌, inl, inr, some, List, [], ◌∷◌, ◌++◌, take, drop, length, get_or}
use umsg.Base.{length-take, IsBytes, IsU32}
use umsg.Common.{ok, frame_too_short, length_mismatch, ByteSpan, contents}
use umsg.Marshalling.{read_u16_be, read_u32_be}
use umsg.Marshalling.Words.{u16_bytes, u32_bytes, read_u16_be-digits, read_u32_be-digits}
use umsg.Marshalling.Words.{read_u16_be-bytes, read_u32_be-bytes}
use umsg.Protocol.{decode_frame, read_frame, Header}
use umsg.Protocol.Encode.{frame_bytes}
use mathlib.Core.Path.{subst}
use native.Mathlib.Decide.{dec_lt, ℕ_discrete as dec_eq}

-- A header and the bytes behind it, read and laid out again.
reread :
    (a b c d e f g h : ℕ) (rest : List ℕ) (m : ℕ)
    → let bytes = a ∷ b ∷ c ∷ d ∷ e ∷ f ∷ g ∷ h ∷ rest in
      m ≤ length rest
      → m ≡ read_u16_be bytes 6
      → IsBytes (take (suc (suc (suc (suc (suc (suc (suc (suc m)))))))) bytes)
      → (m ≡ length (take m rest))
        × (frame_bytes a b (read_u32_be bytes 2) (take m rest)
            ≡ a ∷ b ∷ c ∷ d ∷ e ∷ f ∷ g ∷ h ∷ take m rest)
reread a b c d e f g h rest m fits len (ha, (hb, (hc, (hd, (he, (hf, (hg, (hh, more)))))))) = (
  size,
  ap (λ t. a ∷ b ∷ t)
      (ap₂ ◌∷◌ (omega (arith, hash)) (
        ap₂ ◌∷◌ (omega (arith, hash)) (
          ap₂ ◌∷◌ (omega (arith, hash)) (
            ap₂ ◌∷◌ (omega (arith, hash)) (
              ap₂ ◌∷◌ (omega (arith, digits16, size))
                (ap₂ ◌∷◌ (omega (arith, digits16, size)) refl)))))),
)
  where
    size : m ≡ length (take m rest)
    size = omega (arith, length-take m rest)

    hash :
        read_u32_be (a ∷ b ∷ c ∷ d ∷ e ∷ f ∷ g ∷ h ∷ rest) 2 ≡ ((c * 256 + d) * 256 + e) * 256 + f
    hash = read_u32_be-bytes (a ∷ b ∷ []) (g ∷ h ∷ rest) c d e f 2 hc hd he hf refl

    digits16 : m ≡ g * 256 + h
    digits16 = len ∙ read_u16_be-bytes (a ∷ b ∷ c ∷ d ∷ e ∷ f ∷ []) rest g h 6 hg hh refl

reread_frame :
    (bytes : List ℕ) (n : ℕ)
    → n ≤ length bytes
    → IsBytes (take n bytes)
    → n ≡ 8 + read_u16_be bytes 6
    → (read_u16_be bytes 6 ≡ length (take (read_u16_be bytes 6) (drop 8 bytes)))
      × (frame_bytes
            (get_or bytes 0 0)
            (get_or bytes 1 0)
            (read_u32_be bytes 2)
            (take (read_u16_be bytes 6) (drop 8 bytes))
          ≡ take n bytes)
reread_frame (a ∷ b ∷ c ∷ d ∷ e ∷ f ∷ g ∷ h ∷ rest) n fits byte_range right =
    let bytes : List ℕ = a ∷ b ∷ c ∷ d ∷ e ∷ f ∷ g ∷ h ∷ rest in
    let m : ℕ = read_u16_be bytes 6 in
    let total : n ≡ suc (suc (suc (suc (suc (suc (suc (suc m))))))) = omega arith in
    let (size, same) =
      reread a b c d e f g h rest m (omega arith) refl
        (subst (λ k. IsBytes (take k bytes)) total byte_range) in
    (size, same ∙ ap (λ k. take k bytes) (sym total))
reread_frame bytes n fits byte_range right = absurd (omega arith)

module _ (old_header : Header) (old_payload : ByteSpan) where
  pub read_frame-right :
      (bytes : List ℕ) (n : ℕ)
      → n ≡ 8 + read_u16_be bytes 6
      → read_frame bytes n old_payload ≡ (
        ok,
        record {
          version = get_or bytes 0 0;
          msg_id = get_or bytes 1 0;
          msg_hash = read_u32_be bytes 2;
          payload_length = read_u16_be bytes 6;
        },
        record { data_ptr = some (drop 8 bytes); length = read_u16_be bytes 6 },
      )
  unfolding read_frame
  read_frame-right bytes n e = simp (eq→== n (8 + read_u16_be bytes 6) e) refl

  -- A frame is decoded to its parts, whatever stands behind it in memory.
  pub decode_frame-frame_bytes :
      (version msg_id msg_hash : ℕ) (payload behind : List ℕ)
      → IsU32 msg_hash
      → length payload ≤ 0xFFFF
      → let frame = frame_bytes version msg_id msg_hash payload in
        decode_frame
          (record { data_ptr = some (frame ++ behind); length = length frame })
          old_header
          old_payload
        ≡ (
          ok,
          record {
            version = version;
            msg_id = msg_id;
            msg_hash = msg_hash;
            payload_length = length payload;
          },
          record { data_ptr = some (payload ++ behind); length = length payload },
        )
  unfolding decode_frame
  decode_frame-frame_bytes version msg_id msg_hash payload behind hash small =
      simp (le→ltb (length (frame_bytes version msg_id msg_hash payload)) 8 (omega arith)) (
        read_frame-right memory (length (frame_bytes version msg_id msg_hash payload))
          (omega (arith, len))
        ∙ ap₂
            (λ h l. (
              ok,
              record { version = version; msg_id = msg_id; msg_hash = h; payload_length = l },
              record { data_ptr = some (payload ++ behind); length = l },
            ))
            hashed len)
    where
      memory : List ℕ
      memory = frame_bytes version msg_id msg_hash payload ++ behind

      hashed : read_u32_be (frame_bytes version msg_id msg_hash payload ++ behind) 2 ≡ msg_hash
      hashed =
          read_u32_be-digits (version ∷ msg_id ∷ [])
            (u16_bytes (length payload) ++ (payload ++ behind)) msg_hash 2 hash refl

      len : read_u16_be (frame_bytes version msg_id msg_hash payload ++ behind) 6 ≡ length payload
      len =
          read_u16_be-digits (version ∷ msg_id ∷ u32_bytes msg_hash) (payload ++ behind)
            (length payload) 6 (omega arith) refl

  pub read_frame-wrong :
      (bytes : List ℕ) (n : ℕ)
      → n ≢ 8 + read_u16_be bytes 6
      → (read_frame bytes n old_payload).0 ≡ length_mismatch
  unfolding read_frame
  read_frame-wrong bytes n e = simp (ne→== n (8 + read_u16_be bytes 6) e) refl

  payload-read_frame-wrong :
      (bytes : List ℕ) (n : ℕ)
      → n ≢ 8 + read_u16_be bytes 6
      → (read_frame bytes n old_payload).2 ≡ old_payload
  unfolding read_frame
  payload-read_frame-wrong bytes n e = simp (ne→== n (8 + read_u16_be bytes 6) e) refl

  pub decode_frame-null :
      (n : ℕ)
      → decode_frame (record { data_ptr = none; length = n }) old_header old_payload
        ≡ (invalid_argument, old_header, old_payload)
  unfolding decode_frame
  decode_frame-null n = refl

  pub decode_frame-short :
      (bytes : List ℕ) (n : ℕ)
      → n < 8
      → decode_frame (record { data_ptr = some bytes; length = n }) old_header old_payload
        ≡ (frame_too_short, old_header, old_payload)
  unfolding decode_frame
  decode_frame-short bytes n h = simp (lt→ltb n 8 h) refl

  pub decode_frame-long :
      (bytes : List ℕ) (n : ℕ)
      → 8 ≤ n
      → decode_frame (record { data_ptr = some bytes; length = n }) old_header old_payload
        ≡ read_frame bytes n old_payload
  unfolding decode_frame
  decode_frame-long bytes n h = simp (le→ltb n 8 h) refl

  -- Every branch of `decodeFrame` on a span of bytes. Less than a header is too short. With a length
  -- field that disagrees with the size of the frame it is a mismatch, and the payload is not set.
  -- Anything else is decoded, and consists of the header and the payload that it is decoded to.
  pub decode_frame_lem :
      (bytes : List ℕ) (n : ℕ)
      → n ≤ length bytes
      → IsBytes (take n bytes)
      → let result =
          decode_frame (record { data_ptr = some bytes; length = n }) old_header old_payload in
        let len = read_u16_be bytes 6 in
        ((n < 8) × (result ≡ (frame_too_short, old_header, old_payload)))
        ⊎ ((8 ≤ n) × (n ≢ 8 + len) × (result.0 ≡ length_mismatch) × (result.2 ≡ old_payload))
        ⊎ ((n ≡ 8 + len)
            × (result.0 ≡ ok)
            × (result.1.payload_length ≡ length (contents result.2))
            × (frame_bytes result.1.version result.1.msg_id result.1.msg_hash (contents result.2)
                ≡ take n bytes))
  decode_frame_lem bytes n fits h = elim (dec_lt n 8) [
    | yes few ↦ inl (few, decode_frame-short bytes n few)
    | no enough ↦ elim (dec_eq n (8 + read_u16_be bytes 6)) [
      | no wrong ↦ rw (decode_frame-long bytes n (omega arith)) (
          inr (
            inl (
              omega arith,
              wrong,
              read_frame-wrong bytes n wrong,
              payload-read_frame-wrong bytes n wrong,
            )))
      | yes right ↦
          let (size, same) = reread_frame bytes n fits h right in
          rw (decode_frame-long bytes n (omega arith), read_frame-right bytes n right)
            (inr (inr (right, refl, size, same)))
    ]
  ]
