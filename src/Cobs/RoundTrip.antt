-- ===== src/Cobs/RoundTrip.antt =====
-- The encoder and the decoder together.
use umsg.Base.{ℕ, ◌≤◌, ◌≡◌, refl, sym, ap, ◌∙◌, arith, none, some}
use umsg.Base.{
  List, [], ◌∷◌, ◌++◌, length, take, drop, append-nil, false, take-append, take-append-drop,
}
use mathlib.Core.Path.{subst}
use umsg.Cobs.{cobs_encode, cobs_encode2, cobs_decode_in_place, encoded, decoded}
use umsg.Cobs.Format.{encoding, decoding_from-encoding_from}
use umsg.Cobs.Encode2.{IsEncoded, cobs_encode2-IsEncoded}
use umsg.Cobs.DecoderLoop.{cobs_decode_in_place_lem}

take-length {ℓ} : {A : Type ℓ} (xs : List A) → take (length xs) xs ≡ xs
take-length [] = refl
take-length (x ∷ xs) = ap (λ t. x ∷ t) (take-length xs)

-- Whatever bytes are encoded into a buffer with room for the encoding, decoding what was written,
-- in the same buffer, succeeds, returns the number of bytes and puts the bytes at its front.
pub cobs_decode_in_place-encode :
    (input out : List ℕ)
    → length (encoding input) ≤ length out
    → (written : List ℕ) × (n : ℕ) × (buffer : List ℕ) × (cobs_encode
          (some input)
          (length input)
          (some out)
          (length out)
        ≡ encoded written n)
      × (cobs_decode_in_place written n ≡ decoded buffer (length input))
      × (take (length input) buffer ≡ input)
unfolding cobs_encode
cobs_decode_in_place-encode input out room =
    let behind : List ℕ = drop (length (encoding input)) e.written in
    let (junk, ran, _) =
      (cobs_decode_in_place_lem (encoding input) behind).0 input
        (decoding_from-encoding_from input [] false (omega arith)) in
    (
      e.written,
      length (encoding input),
      input ++ (junk ++ behind),
      e.returns,
      ap (λ t. cobs_decode_in_place t (length (encoding input)))
            (sym (take-append-drop (length (encoding input)) e.written)
              ∙ ap (λ t. t ++ behind) e.front)
          ∙ ran,
      take-append input (junk ++ behind) (length input) refl,
    )
  where
    region_all : take (length input) input ++ [] ≡ input
    region_all = append-nil (take (length input) input) ∙ take-length input

    e :
        IsEncoded input out
          (cobs_encode2 (some input) (length input) none 0 (some out) (length out))
    e =
        subst
          (λ t.
            IsEncoded t out
              (cobs_encode2 (some input) (length input) none 0 (some out) (length out)))
          region_all
          (cobs_encode2-IsEncoded (some input) (length input) none 0 out (length out) (omega arith)
            refl (omega arith) (omega (arith, ap (λ t. length (encoding t)) region_all)))
