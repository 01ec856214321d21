-- ===== src/Marshalling.antt =====
-- src/umsg/marshalling.hpp: the helpers that read and write integers in network byte order.
-- A pointer `&buf[i]` is the buffer and the offset `i`; a read or a write past its end, which the
-- source leaves undefined, reads 0 and writes nothing here, and every theorem asks for the room.
mod Join
pub mod Words
pub mod Prefix
pub mod RoundTrip
pub mod Cursor
pub mod Signed
pub mod Fields
pub mod Casts
pub mod Array
pub mod Arrays
pub mod WriteRead
mod Tests
use umsg.Base.{ℕ, ◌+◌, ◌*◌, ◌/◌, ◌^◌, List, get_or, set, bit_and, bit_or, u8, u16, u32, u64}

abbrev byte_at : List ℕ → ℕ → ℕ
byte_at buf i = get_or buf i 0

pub read_u16_be : List ℕ → ℕ → ℕ
read_u16_be buf i = u16 (bit_or (byte_at buf i * 2 ^ 8) (byte_at buf (i + 1)))

pub write_u16_be : List ℕ → ℕ → ℕ → List ℕ
write_u16_be buf i v =
    let buf1 = set buf i (u8 (bit_and (v / 2 ^ 8) 0xFF)) in set buf1 (i + 1) (u8 (bit_and v 0xFF))

pub read_u32_be : List ℕ → ℕ → ℕ
read_u32_be buf i =
    bit_or
      (bit_or (bit_or (u32 (byte_at buf i * 2 ^ 24)) (u32 (byte_at buf (i + 1) * 2 ^ 16)))
        (u32 (byte_at buf (i + 2) * 2 ^ 8)))
      (byte_at buf (i + 3))

pub write_u32_be : List ℕ → ℕ → ℕ → List ℕ
write_u32_be buf i v =
    let buf1 = set buf i (u8 (bit_and (v / 2 ^ 24) 0xFF)) in
    let buf2 = set buf1 (i + 1) (u8 (bit_and (v / 2 ^ 16) 0xFF)) in
    let buf3 = set buf2 (i + 2) (u8 (bit_and (v / 2 ^ 8) 0xFF)) in
    set buf3 (i + 3) (u8 (bit_and v 0xFF))

pub read_u64_be : List ℕ → ℕ → ℕ
read_u64_be buf i =
    let top = bit_or (u64 (byte_at buf i * 2 ^ 56)) (u64 (byte_at buf (i + 1) * 2 ^ 48)) in
    let top3 = bit_or top (u64 (byte_at buf (i + 2) * 2 ^ 40)) in
    let top4 = bit_or top3 (u64 (byte_at buf (i + 3) * 2 ^ 32)) in
    let top5 = bit_or top4 (u64 (byte_at buf (i + 4) * 2 ^ 24)) in
    let top6 = bit_or top5 (u64 (byte_at buf (i + 5) * 2 ^ 16)) in
    let top7 = bit_or top6 (u64 (byte_at buf (i + 6) * 2 ^ 8)) in bit_or top7 (byte_at buf (i + 7))

pub write_u64_be : List ℕ → ℕ → ℕ → List ℕ
write_u64_be buf i v =
    let buf1 = set buf i (u8 (bit_and (v / 2 ^ 56) 0xFF)) in
    let buf2 = set buf1 (i + 1) (u8 (bit_and (v / 2 ^ 48) 0xFF)) in
    let buf3 = set buf2 (i + 2) (u8 (bit_and (v / 2 ^ 40) 0xFF)) in
    let buf4 = set buf3 (i + 3) (u8 (bit_and (v / 2 ^ 32) 0xFF)) in
    let buf5 = set buf4 (i + 4) (u8 (bit_and (v / 2 ^ 24) 0xFF)) in
    let buf6 = set buf5 (i + 5) (u8 (bit_and (v / 2 ^ 16) 0xFF)) in
    let buf7 = set buf6 (i + 6) (u8 (bit_and (v / 2 ^ 8) 0xFF)) in
    set buf7 (i + 7) (u8 (bit_and v 0xFF))
