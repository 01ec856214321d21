-- ===== src/Crc32.antt =====
-- src/umsg/crc32.hpp: the three implementations of CRC-32/ISO-HDLC between which the build chooses.
-- The `length` bytes at `data` are a list; a `uint32_t` is a number below 2 ^ 32, and none of the
-- operations used here can leave that range, so nothing is cut off.
pub mod Tables
pub mod Linear
pub mod Equivalence
pub mod Detection
mod Tests
use umsg.Base.{ℕ, zero, suc, ◌/◌, ◌^◌, ◌==◌, if◌then◌else◌, not, List, [], ◌∷◌, get_or}
use umsg.Base.{bit_and, bit_xor}
use umsg.Crc32.Tables.{crc32_byte_table, crc32_nibble_table}

abbrev pub polynomial : ℕ
polynomial = 0xEDB88320

abbrev pub initial : ℕ
initial = 0xFFFFFFFF

-- One round of the loop over the bits.
unfoldable pub bit_step : ℕ → ℕ
bit_step crc = if not (bit_and crc 1 == 0) then bit_xor (crc / 2 ^ 1) polynomial else crc / 2 ^ 1

-- The loop over the bits, with `left` rounds to go.
unfoldable pub bit_loop : ℕ → ℕ → ℕ
bit_loop zero crc = crc
bit_loop (suc left) crc = bit_loop left (bit_step crc)

-- The loop over the bytes of the default implementation.
unfoldable pub byte_loop : List ℕ → ℕ → ℕ
byte_loop [] crc = crc
byte_loop (b ∷ rest) crc = byte_loop rest (bit_loop 8 (bit_xor crc b))

-- The default: bit by bit.
unfoldable pub crc32_iso_hdlc : List ℕ → ℕ
unfolding byte_loop bit_loop bit_step
crc32_iso_hdlc input = bit_xor (byte_loop input initial) 0xFFFFFFFF

-- `UMSG_CRC32_BYTE_TABLE`. The mask leaves nothing for the cast of the index to cut off.
pub byte_table_loop : List ℕ → ℕ → ℕ
byte_table_loop [] crc = crc
byte_table_loop (b ∷ rest) crc =
    let index = bit_and (bit_xor crc b) 0xFF in
    byte_table_loop rest (bit_xor (crc / 2 ^ 8) (get_or crc32_byte_table index 0))

pub crc32_by_byte_table : List ℕ → ℕ
crc32_by_byte_table input = bit_xor (byte_table_loop input initial) 0xFFFFFFFF

-- `UMSG_CRC32_NIBBLE_TABLE`: the lookup is made twice for each byte.
pub nibble_lookup : ℕ → ℕ
nibble_lookup crc = bit_xor (crc / 2 ^ 4) (get_or crc32_nibble_table (bit_and crc 0x0F) 0)

pub nibble_table_loop : List ℕ → ℕ → ℕ
nibble_table_loop [] crc = crc
nibble_table_loop (b ∷ rest) crc =
    nibble_table_loop rest (nibble_lookup (nibble_lookup (bit_xor crc b)))

pub crc32_by_nibble_table : List ℕ → ℕ
crc32_by_nibble_table input = bit_xor (nibble_table_loop input initial) 0xFFFFFFFF
