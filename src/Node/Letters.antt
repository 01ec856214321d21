-- ===== src/Node/Letters.antt =====
-- The packets of letters, as they go over the wire, and what they do to a node.
use umsg.Base.{
  ℕ, zero, suc, ◌≤◌, ◌≡◌, ◌∙◌, refl, ap, arith, some, List, [], ◌∷◌, ◌++◌, length, replicate, IsU32,
  IsByte, IsBytes, All, All-append,
}
use umsg.Marshalling.{read_u16_be, read_u32_be}
use umsg.Marshalling.Words.{u16_bytes, u32_bytes, read_u16_be-digits, read_u32_be-digits}
use umsg.Crc32.{crc32_iso_hdlc}
use umsg.Cobs.Format.{encoding, encoding_from-IsBytes}
use umsg.Protocol.Encode.{frame_bytes}
use umsg.Framer.Packet.{with_crc, packet_of}
use umsg.Framer.Stream.{Received, idle, delivered, collecting, receive_all}
use umsg.Framer.Events.{receive_all-append, packet-received, check_bytes-with_crc}
use umsg.Dispatcher.{Slot}
use umsg.Node.Stream.{Letter, letter_of, deliver, effect, effects}
use umsg.Node.Handle.{letter_of-right}

abbrev pub frame_of : Letter → List ℕ
frame_of l = frame_bytes l.version l.msg_id l.msg_hash l.payload

-- The fields are in range, and the packet fits a receive buffer.
pub record IsLetter (limit : ℕ) (l : Letter) : Type 0 where
  pub version_byte : IsByte l.version
  pub id_byte : IsByte l.msg_id
  pub hash_word : IsU32 l.msg_hash
  pub payload_bytes : IsBytes l.payload
  pub payload_short : length l.payload ≤ 0xFFFF
  pub packet_room : length (encoding (with_crc (frame_of l))) ≤ limit

-- A frame is taken apart into what it was put together from.
pub letter_of-frame_of :
    (limit : ℕ) (l : Letter) → IsLetter limit l → letter_of (frame_of l) ≡ some l
letter_of-frame_of limit l ok_letter =
    let len : read_u16_be (frame_of l) 6 ≡ length l.payload =
      read_u16_be-digits (l.version ∷ l.msg_id ∷ u32_bytes l.msg_hash) l.payload (length l.payload)
        6 (omega arith) refl in
    let hash : read_u32_be (frame_of l) 2 ≡ l.msg_hash =
      read_u32_be-digits (l.version ∷ l.msg_id ∷ []) (u16_bytes (length l.payload) ++ l.payload)
        l.msg_hash 2 ok_letter.hash_word refl in
    letter_of-right (frame_of l) (omega (arith, len))
    ∙ ap
        (λ h.
          some
            (record { version = l.version; msg_id = l.msg_id; msg_hash = h; payload = l.payload }))
        hash

frame_of-IsBytes : (limit : ℕ) (l : Letter) → IsLetter limit l → IsBytes (frame_of l)
frame_of-IsBytes limit l h = (
  h.version_byte,
  (
    h.id_byte,
    All-append IsByte (u32_bytes l.msg_hash ++ u16_bytes (length l.payload)) l.payload (omega arith)
        h.payload_bytes,
  ),
)

-- The bytes on the wire.
abbrev pub wire : List Letter → List ℕ
wire [] = []
wire (l ∷ letters) = packet_of (frame_of l) ++ wire letters

pub wire-IsBytes :
    (limit : ℕ) (letters : List Letter) → All (IsLetter limit) letters → IsBytes (wire letters)
wire-IsBytes limit [] h = tt
wire-IsBytes limit (l ∷ letters) h =
    All-append IsByte (packet_of (frame_of l)) (wire letters)
      (All-append IsByte (encoding (with_crc (frame_of l))) (0 ∷ [])
        (encoding_from-IsBytes (with_crc (frame_of l)) [] (omega arith) tt (
          All-append IsByte (frame_of l) (u32_bytes (crc32_iso_hdlc (frame_of l)))
            (frame_of-IsBytes limit l h.0) (omega arith)))
        (omega arith))
      (wire-IsBytes limit letters h.1)

module _ {World : Type 0} (handlers : List (Slot World)) (version : ℕ) where
  -- The letters delivered one after the other.
  abbrev pub deliver_all : List Letter → World → World
  deliver_all [] w = w
  deliver_all (l ∷ letters) w = deliver_all letters (deliver handlers version (some l) w)

  effects-append :
      (xs ys : List Received) (w : World)
      → effects handlers version (xs ++ ys) w
        ≡ effects handlers version ys (effects handlers version xs w)
  unfolding effects
  effects-append [] ys w = refl
  effects-append (x ∷ xs) ys w = effects-append xs ys (effect handlers version x w)

  effects-idle : (n : ℕ) (w : World) → effects handlers version (replicate n idle) w ≡ w
  unfolding effects effect
  effects-idle zero w = refl
  effects-idle (suc n) w = effects-idle n w

  effects-delivered :
      (n : ℕ) (frame : List ℕ) (w : World)
      → effects handlers version (replicate n idle ++ (delivered frame ∷ [])) w
        ≡ deliver handlers version (letter_of frame) w
  effects-delivered n frame w =
      effects-append (replicate n idle) (delivered frame ∷ []) w
      ∙ ap (effects handlers version (delivered frame ∷ [])) (effects-idle n w)
      ∙ (unfold effects effect in refl)

  -- A receiver that has collected nothing takes the packets of letters apart again, and is left so.
  pub receive_all-wire :
      (limit : ℕ) (letters : List Letter) (w : World)
      → All (IsLetter limit) letters
      → (effects handlers version (receive_all limit (collecting []) (wire letters)).0 w
          ≡ deliver_all letters w)
        × ((receive_all limit (collecting []) (wire letters)).1 ≡ collecting [])
  receive_all-wire limit [] w h = (unfold effects receive_all in refl, unfold receive_all in refl)
  receive_all-wire limit (l ∷ letters) w h =
      let bytes : List ℕ = with_crc (frame_of l) in
      let events : List Received =
        replicate (length (encoding bytes)) idle ++ (delivered (frame_of l) ∷ []) in
      let first : receive_all limit (collecting []) (packet_of (frame_of l))
          ≡ (events, collecting []) =
        packet-received limit bytes (h.0).packet_room
        ∙ ap (λ e. (replicate (length (encoding bytes)) idle ++ (e ∷ []), collecting []))
            (check_bytes-with_crc (frame_of l) (frame_of-IsBytes limit l h.0)) in
      let rest = receive_all-wire limit letters (deliver handlers version (some l) w) h.1 in
      let whole : receive_all limit (collecting []) (wire (l ∷ letters)) ≡ (
        events ++ (receive_all limit (collecting []) (wire letters)).0,
        (receive_all limit (collecting []) (wire letters)).1,
      ) =
        receive_all-append limit (collecting []) (packet_of (frame_of l)) (wire letters)
        ∙ ap
            (λ r. (
              r.0 ++ (receive_all limit (r.1) (wire letters)).0,
              (receive_all limit (r.1) (wire letters)).1,
            ))
            first in
      (
        ap (λ r. effects handlers version (r.0) w) whole
            ∙ effects-append events (receive_all limit (collecting []) (wire letters)).0 w
            ∙ ap (effects handlers version (receive_all limit (collecting []) (wire letters)).0) (
                effects-delivered (length (encoding bytes)) (frame_of l) w
                ∙ ap (λ o. deliver handlers version o w) (letter_of-frame_of limit l h.0))
            ∙ rest.0,
        ap (λ r. r.1) whole ∙ rest.1,
      )
