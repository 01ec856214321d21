-- ===== src/Cobs/DecoderLoop.antt =====
-- The outer loop of `cobsDecodeInPlace`, and the whole function on every input.
use umsg.Base.{ℕ, zero, suc, ◌+◌, ◌≤◌, ◌<◌, ◌≡◌, refl, sym, ap, ap₂, ◌∙◌, arith}
use umsg.Base.{lt→ltb, le→ltb}
use umsg.Base.{true, false, none, some, inl, inr}
use umsg.Base.{List, [], ◌∷◌, ◌++◌, length, append-nil}
use umsg.Base.{append_assoc}
use umsg.Base.{Option-cases, ◌⊎◌}
use mathlib.Core.Option
use umsg.Cobs.{Cursor, decode_block, decode_loop, cobs_decode_in_place}
use umsg.Cobs.{DecodeResult, decoded, invalid}
use umsg.Cobs.Format.{decoding, decoding_from}
use umsg.Cobs.Decoder.{IsValid}
use umsg.Cobs.DecoderBlock.{Round, block_read, block_broken, decode_block-Round, map-none}

-- What the loop makes of the input that is left, where `out` is written already.
data Decodes (total : ℕ) (out input behind : List ℕ) (result : DecodeResult) : Type 0 where
  decodes :
      (bytes buffer junk : List ℕ)
      → decoding input ≡ some bytes
      → result ≡ decoded buffer (length (out ++ bytes))
      → buffer ≡ (out ++ bytes) ++ (junk ++ behind)
      → length (out ++ bytes) + length junk ≡ total
      → Decodes total out input behind result
  fails :
      (buffer : List ℕ)
      → decoding input ≡ none
      → result ≡ invalid buffer
      → Decodes total out input behind result

decode_loop-next :
    (fuel total : ℕ) (c c' : Cursor)
    → c.read_index < total
    → decode_block total c ≡ (c', true)
    → decode_loop (suc fuel) total c ≡ decode_loop fuel total c'
unfolding decode_loop
decode_loop-next fuel total c c' h e =
    rw (lt→ltb c.read_index total h, e) (ap (λ p. decode_loop fuel total p.0) e)

decode_loop-broken :
    (fuel total : ℕ) (c c' : Cursor)
    → c.read_index < total
    → decode_block total c ≡ (c', false)
    → decode_loop (suc fuel) total c ≡ invalid c'.buffer
unfolding decode_loop
decode_loop-broken fuel total c c' h e =
    rw (lt→ltb c.read_index total h, e) (ap (λ p. invalid p.0.buffer) e)

decode_loop-done :
    (fuel total : ℕ) (c : Cursor)
    → total ≤ c.read_index
    → decode_loop fuel total c ≡ decoded c.buffer c.write_index
unfolding decode_loop
decode_loop-done zero total c h = rw (le→ltb c.read_index total h)
decode_loop-done (suc fuel) total c h = rw (le→ltb c.read_index total h)

Decodes-front :
    (total : ℕ) (out front input input' behind : List ℕ) (result : DecodeResult)
    → decoding input ≡ Option.map (λ t. front ++ t) (decoding input')
    → Decodes total (out ++ front) input' behind result
    → Decodes total out input behind result
Decodes-front total out front input input' behind result e (decodes bytes buffer junk p q r n) =
    let same : (out ++ front) ++ bytes ≡ out ++ (front ++ bytes) = append_assoc out front bytes in
    decodes (front ++ bytes) buffer junk (e ∙ ap (Option.map (λ t. front ++ t)) p)
      (q ∙ ap (λ t. decoded buffer (length t)) same) (r ∙ ap (λ t. t ++ (junk ++ behind)) same)
      (omega (arith, ap length same))
Decodes-front total out front input input' behind result e (fails buffer p q) =
    fails buffer (e ∙ map-none _ (λ t. front ++ t) p) q

decode_loop-Decodes :
    (fuel total : ℕ) (c : Cursor) (out junk input behind : List ℕ)
    → length input ≤ fuel
    → IsValid total c out junk input behind
    → Decodes total out input behind (decode_loop fuel total c)
decode_loop-Decodes fuel total c out junk [] behind h v =
    decodes [] c.buffer junk (unfold decoding_from in refl)
      (decode_loop-done fuel total c (omega (arith, v.rest))
        ∙ ap (decoded c.buffer) (v.write_at ∙ ap length (sym (append-nil out))))
      (v.shape ∙ ap (λ t. t ++ (junk ++ behind)) (sym (append-nil out)))
      (omega (arith, v.read_at, v.rest, ap length (append-nil out)))
decode_loop-Decodes zero total c out junk (code ∷ input) behind h v = absurd (omega arith)
decode_loop-Decodes (suc fuel) total c out junk (code ∷ input) behind h v =
    go (decode_block-Round out junk code input behind v) (λ c' front junk' input' n v'.
      decode_loop-Decodes fuel total c' (out ++ front) junk' input' behind n v')
  where
    unread : c.read_index < total
    unread = omega (arith, v.rest)

    go :
        Round total c out (code ∷ input) behind
        → ((c' : Cursor) (front junk' input' : List ℕ)
            → length input' ≤ fuel
            → IsValid total c' (out ++ front) junk' input' behind
            → Decodes total (out ++ front) input' behind (decode_loop fuel total c'))
        → Decodes total out (code ∷ input) behind (decode_loop (suc fuel) total c)
    go (block_read c' front junk' input' p v' e n) next =
        rw (decode_loop-next fuel total c c' unread p) (
          Decodes-front total out front (code ∷ input) input' behind _ e
            (next c' front junk' input' (omega arith) v'))
    go (block_broken c' p e) next = fails c'.buffer e (decode_loop-broken fuel total c c' unread p)

-- The decoder on a buffer whose first bytes are `input`. If the format gives them a meaning, then
-- the decoder returns its length, has written it to the front of the buffer, and has changed
-- nothing behind the input; if not, it fails. It ends on every input.
pub cobs_decode_in_place_lem :
    (input behind : List ℕ)
    → ((bytes : List ℕ)
        → decoding input ≡ some bytes
        → (junk : List ℕ) × (cobs_decode_in_place (input ++ behind) (length input)
            ≡ decoded (bytes ++ (junk ++ behind)) (length bytes))
          × (length bytes + length junk ≡ length input))
      × (decoding input ≡ none
          → (buffer : List ℕ) × (cobs_decode_in_place (input ++ behind) (length input)
              ≡ invalid buffer))
unfolding cobs_decode_in_place
cobs_decode_in_place_lem input behind = (meaning run, failure run)
  where
    run : Decodes (length input) [] input behind (
        decode_loop
          (length input)
          (length input)
          (record { buffer = input ++ behind; read_index = 0; write_index = 0 }))
    run =
        decode_loop-Decodes (length input) (length input) _ [] [] input behind (omega arith)
          (record { shape = refl; write_at = refl; read_at = omega arith; rest = omega arith })

    meaning :
        {r : DecodeResult}
        → Decodes (length input) [] input behind r
        → (bytes : List ℕ) → decoding input ≡ some bytes
        → (junk : List ℕ) × (r ≡ decoded (bytes ++ (junk ++ behind)) (length bytes))
          × (length bytes + length junk ≡ length input)
    meaning (decodes bytes' buffer junk p q e n) bytes h =
        let same : bytes' ≡ bytes = cc in
        (
          junk,
          q ∙ ap₂ decoded (e ∙ ap (λ t. t ++ (junk ++ behind)) same) (ap length same),
          omega (arith, ap length same),
        )
    meaning (fails buffer p q) bytes h = absurd (cc)

    failure :
        {r : DecodeResult}
        → Decodes (length input) [] input behind r
        → decoding input ≡ none
        → (buffer : List ℕ) × (r ≡ invalid buffer)
    failure (decodes bytes' buffer junk p q e n) h = absurd (cc)
    failure (fails buffer p q) h = (buffer, q)

-- On every buffer and every length of the input within it, the decoder ends. It succeeds exactly
-- where `decoding` gives the input a meaning; then it returns the number of bytes, which is at most
-- that of the input, has written them to the front of the buffer, and has kept what is behind the
-- input.
pub cobs_decode_in_place-total :
    (input behind : List ℕ)
    → ((bytes : List ℕ) × (junk : List ℕ) × (decoding input ≡ some bytes)
        × (cobs_decode_in_place (input ++ behind) (length input)
            ≡ decoded (bytes ++ (junk ++ behind)) (length bytes))
        × (length bytes + length junk ≡ length input))
      ⊎ ((buffer : List ℕ) × (decoding input ≡ none)
          × (cobs_decode_in_place (input ++ behind) (length input) ≡ invalid buffer))
cobs_decode_in_place-total input behind = elim (Option-cases (decoding input)) [
  | inl no_meaning ↦
      let (buffer, e) = (cobs_decode_in_place_lem input behind).1 no_meaning in
      inr (buffer, no_meaning, e)
  | inr (bytes, succeeds) ↦
      let (junk, e, n) = (cobs_decode_in_place_lem input behind).0 bytes succeeds in
      inl (bytes, junk, succeeds, e, n)
]
