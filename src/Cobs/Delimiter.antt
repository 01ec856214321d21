-- ===== src/Cobs/Delimiter.antt =====
-- What the encoder writes can be ended by a zero.
use umsg.Base.{ℕ, ◌≤◌, ◌<◌, ◌≡◌, arith, some, List, [], ◌++◌, length, take, All}
use umsg.Common.{Pointer, HasRoom, region}
use umsg.Cobs.{cobs_encode2, encoded}
use umsg.Cobs.Format.{encoding, IsNonzero, encoding_from-IsNonzero}
use umsg.Cobs.Length.{length-encoding-pos}
use umsg.Cobs.Encode2.{IsEncoded, cobs_encode2-IsEncoded}

-- With room for the encoding of the two inputs, `cobsEncode2` succeeds, and of the bytes that it
-- returns there is at least one and none is zero.
pub cobs_encode2-IsNonzero :
    (a : Pointer) (a_length : ℕ) (b : Pointer) (b_length : ℕ) (out : List ℕ) (capacity : ℕ)
    → HasRoom a a_length
    → HasRoom b b_length
    → capacity ≤ length out
    → length (encoding (region a a_length ++ region b b_length)) ≤ capacity
    → (written : List ℕ) × (n : ℕ) × (cobs_encode2 a a_length b b_length (some out) capacity
        ≡ encoded written n)
      × (0 < n)
      × All IsNonzero (take n written)
cobs_encode2-IsNonzero a a_length b b_length out capacity a_valid b_valid room fits =
    let input : List ℕ = region a a_length ++ region b b_length in
    let e : IsEncoded input out (cobs_encode2 a a_length b b_length (some out) capacity) =
      cobs_encode2-IsEncoded a a_length b b_length out capacity a_valid b_valid room fits in
    (
      e.written,
      length (encoding input),
      e.returns,
      omega (arith, length-encoding-pos input []),
      rw (e.front) (encoding_from-IsNonzero input [] tt),
    )
