-- ===== src/Marshalling/Tests.antt =====
-- Integers in a buffer of ten bytes.
use umsg.Base.{
  ◌+◌, ◌≤◌, ◌<◌, ◌⊎◌, refl, true, false, [], ◌∷◌, length, ℕ, ◌≡◌, arith, List, replicate,
}
use umsg.Marshalling.Words.{u16_bytes}
use umsg.Base.{some}
use umsg.Marshalling.Array.{write_array, read_array}
use umsg.Marshalling.Arrays.{layouts, write_array-read}
use umsg.Marshalling.Fields.{writer_at, reader_at}
use umsg.Base.Int.{ℤ, pos, negsuc, IsSigned}
use umsg.Base.{◌^◌, All}
use umsg.Marshalling.Signed.{to_unsigned, write_i16, read_i16}
use umsg.Marshalling.Casts.{write_i16-IsField}

abbrev buffer : List ℕ
buffer = replicate 10 9

abbrev words : List ℤ
words = negsuc 4 ∷ pos 300 ∷ []

abbrev i16_bytes : ℤ → List ℕ
i16_bytes v = u16_bytes (to_unsigned (2 ^ 16) v)

words-IsSigned : All (IsSigned (2 ^ 15)) words
words-IsSigned = omega arith

write_array-read_example :
    ((after : List ℕ) × (1 + length (layouts i16_bytes words) ≤ 10)
      × (write_array write_i16 (writer_at buffer 10 1) (some words) 2
          ≡ (true, writer_at after 10 (1 + length (layouts i16_bytes words))))
      × (read_array read_i16 (some (pos 0 ∷ pos 0 ∷ [])) 2 (reader_at after 10 1)
          ≡ (true, some words, reader_at after 10 (1 + length (layouts i16_bytes words)))))
    ⊎ ((10 < 1 + length (layouts i16_bytes words))
        × ((write_array write_i16 (writer_at buffer 10 1) (some words) 2).0 ≡ false))
write_array-read_example =
    write_array-read write_i16-IsField words (pos 0 ∷ pos 0 ∷ []) buffer 10 1 words-IsSigned refl
      (omega arith) (omega arith)
