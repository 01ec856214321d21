-- ===== src/Framer/Stream.antt =====
-- What a receiver of packets promises, with no buffer: a state machine that collects the bytes of a
-- packet up to the delimiter, or skips a packet that is too long, and the meaning of a packet.
use umsg.Base.{ℕ, ◌+◌, ◌-◌, ◌*◌, ◌==◌, leb, ltb, if◌then◌else◌, Option, none, some}
use umsg.Base.{List, [], ◌∷◌, ◌++◌, length, take, drop}
use umsg.Common.{Error, frame_overflow, cobs_invalid, crc_invalid, frame_too_short}
use umsg.Crc32.{crc32_iso_hdlc}
use umsg.Cobs.Format.{decoding}

-- What one byte brings about.
pub data Received : Type 0 where
  idle : Received
  rejected : Error → Received
  delivered : List ℕ → Received

-- A number by its digits in base 256, most significant first.
abbrev pub big_endian : ℕ → List ℕ → ℕ
big_endian high [] = high
big_endian high (b ∷ bs) = big_endian (high * 256 + b) bs

-- A frame is what stands before four bytes that hold its checksum.
unfoldable pub check_bytes : List ℕ → Received
check_bytes bytes =
    let frame = take (length bytes - 4) bytes in
    if ltb (length bytes) 4
    then rejected frame_too_short
    else if big_endian 0 (drop (length bytes - 4) bytes) == crc32_iso_hdlc frame
    then delivered frame
    else rejected crc_invalid

unfoldable pub check_decoded : Option (List ℕ) → Received
unfolding check_bytes
check_decoded none = rejected cobs_invalid
check_decoded (some bytes) = check_bytes bytes

-- The meaning of the bytes between two delimiters.
unfoldable pub interpret : List ℕ → Received
unfolding check_decoded
interpret [] = idle
interpret (b ∷ packet) = check_decoded (decoding (b ∷ packet))

pub data Phase : Type 0 where
  collecting : List ℕ → Phase
  skipping : Phase

-- `limit` is the greatest number of bytes between two delimiters.
unfoldable pub receive : ℕ → Phase → ℕ → Received × Phase
unfolding interpret
receive limit skipping byte = if byte == 0 then (idle, collecting []) else (idle, skipping)
receive limit (collecting packet) byte =
    if byte == 0
    then (interpret packet, collecting [])
    else if leb limit (length packet)
    then (rejected frame_overflow, skipping)
    else (idle, collecting (packet ++ (byte ∷ [])))

unfoldable pub receive_all : ℕ → Phase → List ℕ → List Received × Phase
unfolding receive
receive_all limit phase [] = ([], phase)
receive_all limit phase (byte ∷ bytes) =
    let (event, next) = receive limit phase byte in
    let (events, last) = receive_all limit next bytes in (event ∷ events, last)
