-- ===== src/Cobs/Strict.antt =====
-- The decoder against the format as src/umsg/common.hpp has it (`CobsInvalid`), in which a zero byte
-- inside a block is invalid too. `cobsDecodeInPlace` takes such a byte as any other.
use umsg.Base.{
  ℕ, zero, suc, ◌+◌, ◌-◌, ◌≡◌, ◌≢◌, ◌∙◌, ◌⊎◌, inl, inr, refl, sym, ap, ◌==◌, ne→==, not, ◌||◌,
  if◌then◌else◌, Bool, true, false, Option, none, some, List, [], ◌∷◌, ◌++◌, length,
}
use mathlib.Core.Option
use mathlib.Core.Path.{subst}
use native.Mathlib.Decide.{ℕ_discrete as dec_eq}
use umsg.Cobs.{cobs_decode_in_place, decoded, invalid}
use umsg.Cobs.Format.{decoding, decoding_from, decoding_from-code, gap}
use umsg.Cobs.Length.{has_zero}
use umsg.Cobs.DecoderLoop.{cobs_decode_in_place-total}

-- As `decoding_from`, but no byte of the input may be zero.
unfoldable pub strict_from : ℕ → Bool → List ℕ → Option (List ℕ)
strict_from zero pad [] = some []
strict_from (suc left) pad [] = none
strict_from zero pad (code ∷ rest) =
    let more = strict_from (code - 1) (not (code == 0xFF)) rest in
    if code == 0 then none else Option.map (λ t. gap pad ++ t) more
strict_from (suc left) pad (b ∷ rest) =
    let more = strict_from left pad rest in if b == 0 then none else Option.map (λ t. b ∷ t) more

abbrev pub strict : List ℕ → Option (List ℕ)
strict = strict_from 0 false

-- The two readings agree, or the strict one refuses and the input has a zero.
Agrees : List ℕ → Option (List ℕ) → Option (List ℕ) → Type 0
Agrees input s d = (s ≡ d) ⊎ ((s ≡ none) × (has_zero input ≡ true))

or_true : (b : Bool) → b || true ≡ true
or_true true = refl
or_true false = refl

Agrees-map :
    (f : List ℕ → List ℕ) (b : ℕ) (input : List ℕ) (s d : Option (List ℕ))
    → Agrees input s d
    → Agrees (b ∷ input) (Option.map f s) (Option.map f d)
unfolding Agrees
Agrees-map f b input s d (inl same) = inl (ap (Option.map f) same)
Agrees-map f b input s d (inr (refused, z)) =
    inr (ap (Option.map f) refused, ap (λ t. b == 0 || t) z ∙ or_true (b == 0))

strict_from-code :
    (pad : Bool) (code : ℕ) (rest : List ℕ)
    → code ≢ 0
    → strict_from 0 pad (code ∷ rest)
      ≡ Option.map (λ t. gap pad ++ t) (strict_from (code - 1) (not (code == 0xFF)) rest)
unfolding strict_from
strict_from-code pad code rest nz = rw (ne→== code 0 nz)

strict_from-byte :
    (left : ℕ) (pad : Bool) (b : ℕ) (rest : List ℕ)
    → b ≢ 0
    → strict_from (suc left) pad (b ∷ rest) ≡ Option.map (λ t. b ∷ t) (strict_from left pad rest)
unfolding strict_from
strict_from-byte left pad b rest nz = rw (ne→== b 0 nz)

strict_from-Agrees :
    (input : List ℕ) (left : ℕ) (pad : Bool)
    → Agrees input (strict_from left pad input) (decoding_from left pad input)
unfolding Agrees strict_from decoding_from
strict_from-Agrees [] zero pad = inl refl
strict_from-Agrees [] (suc left) pad = inl refl
strict_from-Agrees (code ∷ rest) zero pad = elim (dec_eq code 0) [
  | yes z ↦ inl (rw z refl)
  | no nz ↦
      subst (λ s. Agrees (code ∷ rest) s (decoding_from 0 pad (code ∷ rest)))
        (sym (strict_from-code pad code rest nz))
        (subst
          (Agrees (code ∷ rest)
            (Option.map (λ t. gap pad ++ t) (strict_from (code - 1) (not (code == 0xFF)) rest)))
          (sym (decoding_from-code pad code rest nz))
          (Agrees-map (λ t. gap pad ++ t) code rest _ _
            (strict_from-Agrees rest (code - 1) (not (code == 0xFF)))))
]
strict_from-Agrees (b ∷ rest) (suc left) pad = elim (dec_eq b 0) [
  | yes z ↦ inr (rw z refl, rw z refl)
  | no nz ↦
      subst (λ s. Agrees (b ∷ rest) s (decoding_from (suc left) pad (b ∷ rest)))
        (sym (strict_from-byte left pad b rest nz))
        (Agrees-map (λ t. b ∷ t) b rest _ _ (strict_from-Agrees rest left pad))
]

-- On every buffer and every length of the input within it, the decoder ends, and does one of three
-- things. Where the documented format, which has no zero byte, gives the input a meaning, it succeeds
-- with that: it returns the number of bytes, which is at most that of the input, has written them to
-- the front of the buffer and has kept what is behind the input. Where the format gives none, it
-- fails; or, only if the input has a zero byte, it succeeds all the same, with the meaning that the
-- input has when a zero inside a block counts as any other byte.
pub cobs_decode_in_place-strict :
    (input behind : List ℕ)
    → ((bytes : List ℕ) × (junk : List ℕ) × (strict input ≡ some bytes)
        × (cobs_decode_in_place (input ++ behind) (length input)
            ≡ decoded (bytes ++ (junk ++ behind)) (length bytes))
        × (length bytes + length junk ≡ length input))
      ⊎ (((buffer : List ℕ) × (strict input ≡ none)
            × (cobs_decode_in_place (input ++ behind) (length input) ≡ invalid buffer))
          ⊎ ((bytes : List ℕ) × (junk : List ℕ) × (strict input ≡ none)
              × (has_zero input ≡ true)
              × (decoding input ≡ some bytes)
              × (cobs_decode_in_place (input ++ behind) (length input)
                  ≡ decoded (bytes ++ (junk ++ behind)) (length bytes))
              × (length bytes + length junk ≡ length input)))
unfolding Agrees
cobs_decode_in_place-strict input behind = elim (cobs_decode_in_place-total input behind) [
  | inl (bytes, junk, d, e, n) ↦ elim (strict_from-Agrees input 0 false) [
    | inl same ↦ inl (bytes, junk, same ∙ d, e, n)
    | inr (refused, z) ↦ inr (inr (bytes, junk, refused, z, d, e, n))
  ]
  | inr (buffer, d, e) ↦ elim (strict_from-Agrees input 0 false) [
    | inl same ↦ inr (inl (buffer, same ∙ d, e))
    | inr (refused, z) ↦ inr (inl (buffer, refused, e))
  ]
]
