-- ===== src/Framer/Events.antt =====
-- What the receiver of `Framer.Stream` makes of an encoding and of a delimiter.
use umsg.Base.{ℕ, suc, false, ◌+◌, ◌-◌, ◌≤◌, ◌<◌, ◌≡◌, ◌≢◌, refl, sym, ap, ◌∙◌, arith}
use umsg.Base.{List, [], ◌∷◌, ◌++◌, length, replicate, IsBytes, IsU32, All}
use umsg.Base.{◌==◌, eq→==, ne→==, le→ltb, lt→leb, if◌then◌else◌}
use umsg.Base.{append_assoc, append-nil, length-append, take-append, drop-append}
use umsg.Common.{crc_invalid}
use umsg.Marshalling.Words.{u32_bytes}
use umsg.Crc32.{crc32_iso_hdlc}
use umsg.Crc32.Detection.{crc32-IsU32}
use umsg.Cobs.Format.{
  encoding, decoding, decoding_from-encoding_from, encoding_from-IsNonzero, IsNonzero,
}
use umsg.Cobs.Length.{length-encoding-pos}
use umsg.Framer.Packet.{with_crc}
use umsg.Framer.Stream.{idle, rejected, delivered, check_bytes, check_decoded, interpret}
use umsg.Framer.Stream.{Phase, collecting, skipping, receive, receive_all, big_endian}

pub receive_all-append :
    (limit : ℕ) (phase : Phase) (xs ys : List ℕ)
    → receive_all limit phase (xs ++ ys) ≡ (
      (receive_all limit phase xs).0 ++ (receive_all limit (receive_all limit phase xs).1 ys).0,
      (receive_all limit (receive_all limit phase xs).1 ys).1,
    )
unfolding receive_all
receive_all-append limit phase [] ys = refl
receive_all-append limit phase (x ∷ xs) ys =
    ap (λ r. ((receive limit phase x).0 ∷ r.0, r.1))
      (receive_all-append limit (receive limit phase x).1 xs ys)

-- Bytes that are not zero are collected while there is room.
pub receive_all-collects :
    (limit : ℕ) (packet bytes : List ℕ)
    → All IsNonzero bytes
    → length packet + length bytes ≤ limit
    → receive_all limit (collecting packet) bytes
      ≡ (replicate (length bytes) idle, collecting (packet ++ bytes))
unfolding receive_all
receive_all-collects limit packet [] h room = ap (λ t. ([], collecting t)) (sym (append-nil packet))
receive_all-collects limit packet (b ∷ bytes) h room = rw (one limit packet b h.0 (omega arith)) (
    ap (λ r. (idle ∷ r.0, r.1))
      (receive_all-collects limit (packet ++ (b ∷ [])) bytes h.1
          (omega (arith, length-append packet (b ∷ [])))
        ∙ ap (λ t. (replicate (length bytes) idle, collecting t))
            (append_assoc packet (b ∷ []) bytes)))
  where
    one :
        (cap : ℕ) (xs : List ℕ) (x : ℕ)
        → x ≢ 0
        → length xs < cap
        → receive cap (collecting xs) x ≡ (idle, collecting (xs ++ (x ∷ [])))
    one cap xs x nz less = unfold receive in rw (ne→== x 0 nz, lt→leb cap (length xs) less) refl

big_endian-u32_bytes : (v : ℕ) → IsU32 v → big_endian 0 (u32_bytes v) ≡ v
big_endian-u32_bytes v h = omega arith

-- The check of a frame and four bytes behind it.
pub check_bytes-u32 :
    (frame : List ℕ) (v : ℕ)
    → IsU32 v
    → check_bytes (frame ++ u32_bytes v)
      ≡ (if v == crc32_iso_hdlc frame then delivered frame else rejected crc_invalid)
unfolding check_bytes
check_bytes-u32 frame v h =
    rw
      (
        le→ltb (length (frame ++ u32_bytes v)) 4 (omega (arith, count)),
        take-append frame (u32_bytes v) (length (frame ++ u32_bytes v) - 4) (omega (arith, count)),
        drop-append frame (u32_bytes v) (length (frame ++ u32_bytes v) - 4) (omega (arith, count)),
        big_endian-u32_bytes v h,
      )
      refl
  where
    count : length (frame ++ u32_bytes v) ≡ length frame + 4
    count = length-append frame (u32_bytes v)

pub check_bytes-with_crc :
    (frame : List ℕ) → IsBytes frame → check_bytes (with_crc frame) ≡ delivered frame
check_bytes-with_crc frame h =
    check_bytes-u32 frame (crc32_iso_hdlc frame) (crc32-IsU32 frame h)
    ∙ rw (eq→== (crc32_iso_hdlc frame) (crc32_iso_hdlc frame) refl) refl

interpret-encoding : (bytes : List ℕ) → interpret (encoding bytes) ≡ check_bytes bytes
interpret-encoding bytes = go (encoding bytes) refl
  where
    go : (packet : List ℕ) → encoding bytes ≡ packet → interpret packet ≡ check_bytes bytes
    go [] e = absurd (omega (arith, length-encoding-pos bytes [], ap length e))
    go (b ∷ packet) e =
        unfold interpret check_decoded in
        ap check_decoded
          (ap decoding (sym e) ∙ decoding_from-encoding_from bytes [] false (omega arith))

-- A packet with the delimiter, from a phase that has collected nothing.
pub packet-received :
    (limit : ℕ) (bytes : List ℕ)
    → length (encoding bytes) ≤ limit
    → receive_all limit (collecting []) (encoding bytes ++ (0 ∷ []))
      ≡ (replicate (length (encoding bytes)) idle ++ (check_bytes bytes ∷ []), collecting [])
packet-received limit bytes room =
    receive_all-append limit (collecting []) (encoding bytes) (0 ∷ [])
    ∙ rw
        (receive_all-collects limit [] (encoding bytes) (encoding_from-IsNonzero bytes [] tt)
          (omega arith))
        (unfold receive_all receive in
          ap (λ r. (replicate (length (encoding bytes)) idle ++ (r ∷ []), collecting []))
            (interpret-encoding bytes))

pub length-receive_all :
    (limit : ℕ) (phase : Phase) (bytes : List ℕ)
    → length (receive_all limit phase bytes).0 ≡ length bytes
unfolding receive_all
length-receive_all limit phase [] = refl
length-receive_all limit phase (b ∷ bytes) =
    ap suc (length-receive_all limit (receive limit phase b).1 bytes)

-- A delimiter ends whatever was going on.
pub after_delimiter :
    (limit : ℕ) (phase : Phase) (noise : List ℕ)
    → (receive_all limit phase (noise ++ (0 ∷ []))).1 ≡ collecting []
after_delimiter limit phase noise =
    ap (λ r. r.1) (receive_all-append limit phase noise (0 ∷ []))
    ∙ ends (receive_all limit phase noise).1
  where
    ends : (p : Phase) → (receive_all limit p (0 ∷ [])).1 ≡ collecting []
    ends skipping = unfold receive_all receive in refl
    ends (collecting packet) = unfold receive_all receive in refl
