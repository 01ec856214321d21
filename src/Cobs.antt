-- ===== src/Cobs.antt =====
-- src/umsg/cobs.hpp: consistent overhead byte stuffing. The encoder and the decoder work on a
-- buffer by index; a read or a write outside it reads 0 or changes nothing here, and the theorems
-- on the two ask for a buffer with the room that the caller promises.
pub mod Format
pub mod Length
pub mod Encoder
pub mod EncoderLoop
pub mod Encode2
pub mod Decoder
mod DecoderBlock
pub mod DecoderLoop
pub mod Strict
pub mod DecoderSize
pub mod RoundTrip
pub mod Delimiter
mod Tests
use umsg.Base.{ℕ, zero, suc, ◌+◌, ◌-◌, ◌==◌, leb, ltb, not, ◌&&◌, ◌||◌, if◌then◌else◌, u8}
use umsg.Base.{Bool, true, false, Option, none, some, List, [], ◌∷◌, get_or, set}
use umsg.Common.{Pointer, region, is_null}

-- `struct CobsEncState`.
pub record CobsEncState : Type 0 where
  pub out : List ℕ
  pub cap : ℕ
  pub code_index : ℕ
  pub write_index : ℕ
  pub code : ℕ

-- `none` is the result `false`.
pub begin : Pointer → ℕ → Option CobsEncState
begin none output_capacity = none
begin (some output) output_capacity =
    if output_capacity == 0
    then none
    else some (record {
      out = set output 0 0;
      cap = output_capacity;
      code_index = 0;
      write_index = 1;
      code = 1;
    })

-- The end of a block, which both branches of `put` share: the code is stored, and a place is left
-- for the next one.
pub end_block : CobsEncState → CobsEncState × Bool
end_block s =
    let closed : CobsEncState = record s {
      out = set s.out s.code_index s.code;
      code_index = s.write_index;
    } in
    if leb s.cap s.write_index
    then (closed, false)
    else (record closed { write_index = s.write_index + 1; code = 1 }, true)

pub put : CobsEncState → ℕ → CobsEncState × Bool
unfolding end_block
put s b =
    if b == 0
    then end_block s
    else if leb s.cap s.write_index
    then (s, false)
    else let stored : CobsEncState = record s {
      out = set s.out s.write_index b;
      write_index = s.write_index + 1;
      code = u8 (s.code + 1);
    } in
      if stored.code == 0xFF then end_block stored else (stored, true)

-- The loop of `cobsEncode2` over one input.
pub put_all : CobsEncState → List ℕ → CobsEncState × Bool
put_all s [] = (s, true)
put_all s (b ∷ rest) =
    let (s', done) = put s b in elim done [ true ↦ put_all s' rest | false ↦ (s', false) ]

-- The buffer and the length of what was written.
pub finish : CobsEncState → List ℕ × ℕ
finish s = (set s.out s.code_index s.code, s.write_index)

-- `refused` is the result `false`, with the output as it was left.
pub data EncodeResult : Type 0 where
  encoded : List ℕ → ℕ → EncodeResult
  refused : Pointer → EncodeResult

put_inputs : CobsEncState → List ℕ → List ℕ → CobsEncState × Bool
put_inputs s a b =
    let (s', done) = put_all s a in elim done [ true ↦ put_all s' b | false ↦ (s', false) ]

conclude : CobsEncState × Bool → EncodeResult
conclude (s, true) = let (out, written) = finish s in encoded out written
conclude (s, false) = refused (some s.out)

unfoldable pub cobs_encode2 : Pointer → ℕ → Pointer → ℕ → Pointer → ℕ → EncodeResult
unfolding put_inputs begin conclude finish
cobs_encode2 input_a a_length input_b b_length output capacity =
    if (is_null input_a && not (a_length == 0)) || (is_null input_b && not (b_length == 0))
    then refused output
    else elim (begin output capacity) [
      | none ↦ refused output
      | some s ↦ conclude (put_inputs s (region input_a a_length) (region input_b b_length))
    ]

unfoldable pub cobs_encode : Pointer → ℕ → Pointer → ℕ → EncodeResult
unfolding cobs_encode2
cobs_encode input input_length output capacity =
    cobs_encode2 input input_length none 0 output capacity

-- The variables of the decoder.
pub record Cursor : Type 0 where
  pub buffer : List ℕ
  pub read_index : ℕ
  pub write_index : ℕ

-- The inner loop, with `left` rounds to go.
pub copy : ℕ → ℕ → Cursor → Cursor × Bool
copy encoded_length zero c = (c, true)
copy encoded_length (suc left) c =
    if leb encoded_length c.read_index
    then (c, false)
    else copy encoded_length left (record {
      buffer = set c.buffer c.write_index (get_or c.buffer c.read_index 0);
      read_index = c.read_index + 1;
      write_index = c.write_index + 1;
    })

-- One round of the outer loop.
pub decode_block : ℕ → Cursor → Cursor × Bool
decode_block encoded_length c =
    let code = get_or c.buffer c.read_index 0 in
    let after : Cursor = record c { read_index = c.read_index + 1 } in
    if code == 0
    then (after, false)
    else let (copied, done) = copy encoded_length (code - 1) after in
      if not done
      then (copied, false)
      else if not (code == 0xFF) && ltb copied.read_index encoded_length
      then (
        record copied {
          buffer = set copied.buffer copied.write_index 0;
          write_index = copied.write_index + 1;
        },
        true,
      )
      else (copied, true)

-- `invalid` is the result `false`, with the buffer as it was left. `stuck` is no result of the
-- source: the loop ran out of fuel.
pub data DecodeResult : Type 0 where
  decoded : List ℕ → ℕ → DecodeResult
  invalid : List ℕ → DecodeResult
  stuck : DecodeResult

pub decode_loop : ℕ → ℕ → Cursor → DecodeResult
decode_loop zero encoded_length c =
    if ltb c.read_index encoded_length then stuck else decoded c.buffer c.write_index
decode_loop (suc fuel) encoded_length c =
    let (c', done) = decode_block encoded_length c in
    let next : DecodeResult = elim done [
      | true ↦ decode_loop fuel encoded_length c'
      | false ↦ invalid c'.buffer
    ] in
    if ltb c.read_index encoded_length then next else decoded c.buffer c.write_index

-- Each round reads a byte at least.
unfoldable pub cobs_decode_in_place : List ℕ → ℕ → DecodeResult
unfolding decode_loop decode_block copy
cobs_decode_in_place buffer encoded_length =
    decode_loop encoded_length encoded_length
      (record { buffer = buffer; read_index = 0; write_index = 0 })
