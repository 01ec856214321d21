-- ===== src/Cobs/Tests.antt =====
-- COBS on three bytes, one of them zero, and on runs of 254 bytes.
use umsg.Base.{
  ℕ, ◌+◌, ◌≡◌, ◌⊎◌, refl, arith, none, some, List, [], ◌∷◌, ◌++◌, replicate, length, take, All,
}
use umsg.Cobs.{
  decode_loop, decode_block, copy, cobs_encode, cobs_encode2, cobs_decode_in_place, encoded,
  decoded, invalid,
}
use umsg.Cobs.Format.{encoding, encoding_from, decoding, IsNonzero}
use umsg.Cobs.Delimiter.{cobs_encode2-IsNonzero}
use umsg.Base.{◌<◌}
use umsg.Cobs.Length.{has_zero}
use umsg.Cobs.Encode2.{IsEncoded, IsRefused, cobs_encode2-IsEncoded, cobs_encode2-IsRefused}
use umsg.Cobs.RoundTrip.{cobs_decode_in_place-encode}
use umsg.Cobs.Strict.{strict, strict_from, cobs_decode_in_place-strict}
use umsg.Base.{true}

abbrev three : List ℕ
three = 7 ∷ 0 ∷ 5 ∷ []

abbrev output : List ℕ
output = replicate 6 9

encoding-three : encoding three ≡ 2 ∷ 7 ∷ 2 ∷ 5 ∷ []
unfolding encoding_from
encoding-three = refl

size_three : length (encoding three) ≡ 4
unfolding encoding_from
size_three = refl

cobs_decode_in_place-encode_example :
    (written : List ℕ) × (n : ℕ) × (buffer : List ℕ) × (cobs_encode (some three) 3 (some output) 6
      ≡ encoded written n)
    × (cobs_decode_in_place written n ≡ decoded buffer 3)
    × (take 3 buffer ≡ three)
cobs_decode_in_place-encode_example =
    cobs_decode_in_place-encode three output (omega (arith, size_three))

cobs_encode2-IsEncoded_example :
    IsEncoded three output (cobs_encode2 (some (7 ∷ [])) 1 (some (0 ∷ 5 ∷ [])) 2 (some output) 4)
cobs_encode2-IsEncoded_example =
    cobs_encode2-IsEncoded (some (7 ∷ [])) 1 (some (0 ∷ 5 ∷ [])) 2 output 4 (omega arith)
      (omega arith) (omega arith) (omega (arith, size_three))

cobs_encode2-IsRefused_example :
    IsRefused (cobs_encode2 (some (7 ∷ [])) 1 (some (0 ∷ 5 ∷ [])) 2 (some output) 3)
cobs_encode2-IsRefused_example =
    cobs_encode2-IsRefused (some (7 ∷ [])) 1 (some (0 ∷ 5 ∷ [])) 2 output 3 (omega arith)
      (omega arith) (omega arith) (omega (arith, size_three))

cobs_encode2-IsNonzero_example :
    (written : List ℕ) × (n : ℕ) × (cobs_encode2
        (some (7 ∷ []))
        1
        (some (0 ∷ 5 ∷ []))
        2
        (some output)
        4
      ≡ encoded written n)
    × (0 < n)
    × All IsNonzero (take n written)
cobs_encode2-IsNonzero_example =
    cobs_encode2-IsNonzero (some (7 ∷ [])) 1 (some (0 ∷ 5 ∷ [])) 2 output 4 (omega arith)
      (omega arith) (omega arith) (omega (arith, size_three))

-- A block with a zero in it.
cobs_decode_in_place-strict_example :
    ((bytes : List ℕ) × (junk : List ℕ) × (strict (2 ∷ 0 ∷ []) ≡ some bytes)
      × (cobs_decode_in_place ((2 ∷ 0 ∷ []) ++ output) 2
          ≡ decoded (bytes ++ (junk ++ output)) (length bytes))
      × (length bytes + length junk ≡ 2))
    ⊎ (((buffer : List ℕ) × (strict (2 ∷ 0 ∷ []) ≡ none)
          × (cobs_decode_in_place ((2 ∷ 0 ∷ []) ++ output) 2 ≡ invalid buffer))
        ⊎ ((bytes : List ℕ) × (junk : List ℕ) × (strict (2 ∷ 0 ∷ []) ≡ none)
            × (has_zero (2 ∷ 0 ∷ []) ≡ true)
            × (decoding (2 ∷ 0 ∷ []) ≡ some bytes)
            × (cobs_decode_in_place ((2 ∷ 0 ∷ []) ++ output) 2
                ≡ decoded (bytes ++ (junk ++ output)) (length bytes))
            × (length bytes + length junk ≡ 2)))
cobs_decode_in_place-strict_example = cobs_decode_in_place-strict (2 ∷ 0 ∷ []) output

-- The code takes it all the same.
zero_in_block :
    (strict (2 ∷ 0 ∷ []) ≡ none) × (cobs_decode_in_place (2 ∷ 0 ∷ []) 2 ≡ decoded (0 ∷ 0 ∷ []) 1)
unfolding strict_from cobs_decode_in_place decode_loop decode_block copy
zero_in_block = (refl, refl)
