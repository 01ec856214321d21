-- ===== src/Node/Fixtures.antt =====
-- Nodes for payloads of at most 242 bytes on a transport that is a list of bytes.
use umsg.Base.{
  ap, ◌<◌, length-append, ℕ, ◌≡◌, refl, arith, true, Option, none, some, List, [], ◌∷◌, ◌++◌,
  length, replicate, inl, if◌then◌else◌,
}
use umsg.Common.{ok, ByteSpan, max_frame_size, max_packet_size, cobs_max_overhead, contents}
use umsg.Protocol.Encode.{frame_bytes}
use umsg.Framer
use umsg.Framer.Packet.{packet_of}
use umsg.Framer.Capacity.{Fits}
use umsg.Node.{Node, Transport}
use umsg.Node.Poll.{Yields, ends, reads}
use umsg.Framer.{Framer}
use umsg.Framer.Receive.{IsValid, start-IsValid}
use umsg.Framer.Packet.{length-packet}
use umsg.Framer.Capacity.{length-packet-Fits}
use umsg.Dispatcher.{
  Slot, Message, register_typed, install, replace_bound, fill_free, fill_or_refuse, write_slot,
  typed_thunk,
}
use umsg.Dispatcher.Install.{is_bound, is_full}
use umsg.Common.{Error, hash_mismatch}
use umsg.Base.{◌||◌, ◌==◌, not, false, All}
use umsg.Node.{subscribe_typed}
use umsg.Node.Stream.{Letter, ReadsPayload}
use umsg.Node.Letters.{IsLetter, frame_of, wire}

abbrev read_byte : List ℕ → Option ℕ × List ℕ
read_byte [] = (none, [])
read_byte (b ∷ bytes) = (some b, bytes)

abbrev pub pipe : Transport (List ℕ)
pipe = record { read = read_byte; write = λ bytes s. (true, s ++ bytes) }

abbrev pub node : Node ℕ
node = record {
  expected_version = 1;
  framer = Framer.start (replicate 256 0);
  handlers = [];
  tx_frame = replicate 250 0;
  tx_packet = replicate 256 0;
  tx_encode = replicate 242 0;
}

abbrev pub payload : ByteSpan
payload = record { data_ptr = some (17 ∷ 0 ∷ 99 ∷ []); length = 3 }

pub frame_room_size : length node.tx_frame ≡ max_frame_size 242
unfolding max_frame_size
frame_room_size = refl

pub packet_room_size : length node.tx_packet ≡ max_packet_size 242
unfolding max_packet_size max_frame_size cobs_max_overhead
packet_room_size = refl

pub frame_Fits : Fits 242 (frame_bytes 1 5 0xDEADBEEF (contents payload))
unfolding max_frame_size
frame_Fits = (omega arith, inl (omega arith))

abbrev pub long_payload : ByteSpan
long_payload = record { data_ptr = some (replicate 243 1); length = 243 }

-- A receiver that collects the payloads for id 5.
abbrev inbox : Slot (List (List ℕ))
inbox = record {
  used = true;
  msg_id = 5;
  obj = 1;
  method_bytes = replicate 16 0;
  thunk = λ obj method p hash w. (ok, w ++ (contents p ∷ []));
}

pub inbox-ReadsPayload : ReadsPayload inbox
inbox-ReadsPayload p q hash w hp hq e = ap (λ bytes. (ok, w ++ (bytes ∷ []))) e

abbrev pub receiver : Node (List (List ℕ))
receiver = record {
  expected_version = 1;
  framer = Framer.start (replicate 256 0);
  handlers = inbox ∷ [];
  tx_frame = replicate 250 0;
  tx_packet = replicate 256 0;
  tx_encode = replicate 242 0;
}

buffer_size : length {A = ℕ} (replicate 256 0) ≡ max_packet_size 242
unfolding max_packet_size max_frame_size cobs_max_overhead
buffer_size = refl

pub receiver-IsValid : IsValid (max_packet_size 242) receiver.framer
receiver-IsValid = start-IsValid (max_packet_size 242) (replicate 256 0) buffer_size

pub pipe-Yields : (bytes : List ℕ) → Yields pipe bytes bytes []
pipe-Yields [] = ends refl
pipe-Yields (b ∷ bytes) = reads refl (pipe-Yields bytes)

abbrev pub letter : Letter
letter = record { version = 1; msg_id = 5; msg_hash = 0xDEADBEEF; payload = contents payload }

pub letter-IsLetter : IsLetter (max_packet_size 242) letter
letter-IsLetter = record {
  version_byte = omega arith;
  id_byte = omega arith;
  hash_word = omega arith;
  payload_bytes = omega arith;
  payload_short = omega arith;
  packet_room =
      omega (
        arith,
        length-packet-Fits 242 (frame_of letter) frame_Fits,
        length-packet (frame_of letter),
      );
}

pub letters_short : length (wire (letter ∷ letter ∷ [])) < 1000
letters_short = omega (
  arith,
  buffer_size,
  length-packet-Fits 242 (frame_of letter) frame_Fits,
  length-append (packet_of (frame_of letter)) (packet_of (frame_of letter) ++ []),
  length-append {A = ℕ} (packet_of (frame_of letter)) [],
)

pub packet_short : length (packet_of (frame_of letter)) < 1000
packet_short = omega (
  arith,
  letters_short,
  length-append (packet_of (frame_of letter)) (packet_of (frame_of letter) ++ []),
)

-- A type of messages that are bytes, and a handler that collects them.
abbrev pub bytes_message : Message
bytes_message = record { Msg = List ℕ; msg_hash = 0xDEADBEEF; decode = λ p. some (contents p) }

abbrev pub collect : List ℕ → ℕ → List ℕ → List (List ℕ) → Error × List (List ℕ)
collect method obj bytes w = (ok, w ++ (bytes ∷ []))

abbrev free_slot : Slot (List (List ℕ))
free_slot = record {
  used = false;
  msg_id = 0;
  obj = 0;
  method_bytes = replicate 16 0;
  thunk = λ obj method p hash w. (ok, w);
}

abbrev pub idle_receiver : Node (List (List ℕ))
idle_receiver = record receiver { handlers = free_slot ∷ [] }

abbrev pub scratch : ByteSpan
scratch = record { data_ptr = some (17 ∷ 0 ∷ 99 ∷ replicate 239 0); length = 3 }

pub subscribed-ReadsPayload :
    All ReadsPayload (subscribe_typed idle_receiver 5 1 bytes_message collect (3 ∷ [])).1.handlers
unfolding subscribe_typed register_typed install replace_bound fill_free fill_or_refuse write_slot
    typed_thunk
subscribed-ReadsPayload = (
  λ p q hash w hp hq e.
      ap (λ bytes. if not (hash == 0xDEADBEEF) then (hash_mismatch, w) else (ok, w ++ (bytes ∷ [])))
        e,
  tt,
)

pub has_room : is_bound 5 idle_receiver.handlers || not (is_full idle_receiver.handlers) ≡ true
unfolding is_bound is_full
has_room = refl
