-- ===== src/Cobs/Format.antt =====
-- The format by itself, as lists: what an encoder writes, what a decoder reads, and that the one
-- undoes the other. A block is a code and `code - 1` bytes; each block stands for its bytes and a
-- zero behind them, but for a block with the code 255 and for the last one.
use umsg.Base.{ℕ, zero, suc, ◌+◌, ◌-◌, ◌≤◌, ◌<◌, ◌≡◌, ◌≢◌, refl, sym, ap, ◌∙◌, arith}
use umsg.Base.{◌==◌, not, if◌then◌else◌, Bool, true, false, eq→==, ne→==}
use umsg.Base.{Option, none, some, List, [], ◌∷◌, ◌++◌, length, length-append, append-nil}
use umsg.Base.{append_assoc, All, All-append, IsByte, IsBytes}
use mathlib.Core.Option
use native.Mathlib.Decide.{ℕ_discrete as dec_eq}

abbrev pub block : List ℕ → List ℕ
block bytes = (length bytes + 1) ∷ bytes

-- The encoding of what follows, where `run` is what the current block holds already.
unfoldable pub encoding_from : List ℕ → List ℕ → List ℕ
encoding_from run [] = block run
encoding_from run (b ∷ rest) =
    let new_block = encoding_from [] rest in
    let longer = encoding_from (run ++ (b ∷ [])) rest in
    if b == 0
    then block run ++ new_block
    else if length run == 253
    then block (run ++ (b ∷ [])) ++ new_block
    else longer

abbrev pub encoding : List ℕ → List ℕ
encoding = encoding_from []

-- What stands between two blocks.
abbrev pub gap : Bool → List ℕ
gap true = 0 ∷ []
gap false = []

-- The bytes that are read, with `left` bytes of the current block to come; `pad` says that a zero
-- is due before the next block. `none` is a zero as a code or the end inside a block. A zero
-- inside a block counts as any other byte, as in the code; Cobs/Strict has the format without it.
unfoldable pub decoding_from : ℕ → Bool → List ℕ → Option (List ℕ)
decoding_from zero pad [] = some []
decoding_from (suc left) pad [] = none
decoding_from zero pad (code ∷ rest) =
    let more = decoding_from (code - 1) (not (code == 0xFF)) rest in
    if code == 0 then none else Option.map (λ t. gap pad ++ t) more
decoding_from (suc left) pad (b ∷ rest) = Option.map (λ t. b ∷ t) (decoding_from left pad rest)

abbrev pub decoding : List ℕ → Option (List ℕ)
decoding = decoding_from 0 false

pub decoding_from-code :
    (pad : Bool) (code : ℕ) (rest : List ℕ)
    → code ≢ 0
    → decoding_from 0 pad (code ∷ rest)
      ≡ Option.map (λ t. gap pad ++ t) (decoding_from (code - 1) (not (code == 255)) rest)
unfolding decoding_from
decoding_from-code pad code rest h = rw (ne→== code 0 h)

map_nil : (o : Option (List ℕ)) → o ≡ Option.map (λ t. t) o
map_nil none = refl
map_nil (some x) = refl

map_cons :
    (b : ℕ) (run : List ℕ) (o : Option (List ℕ))
    → Option.map (λ t. b ∷ t) (Option.map (λ t. run ++ t) o) ≡ Option.map (λ t. (b ∷ run) ++ t) o
map_cons b run none = refl
map_cons b run (some x) = refl

-- The bytes of a block come out as they are.
pub decoding_from-append :
    (run : List ℕ) (left : ℕ) (pad : Bool) (rest : List ℕ)
    → left ≡ length run
    → decoding_from left pad (run ++ rest) ≡ Option.map (λ t. run ++ t) (decoding_from 0 pad rest)
unfolding decoding_from
decoding_from-append [] zero pad rest h = map_nil (decoding_from 0 pad rest)
decoding_from-append [] (suc left) pad rest h = absurd (omega arith)
decoding_from-append (b ∷ run) zero pad rest h = absurd (omega arith)
decoding_from-append (b ∷ run) (suc left) pad rest h =
    ap (Option.map (λ t. b ∷ t)) (decoding_from-append run left pad rest (omega arith))
    ∙ map_cons b run (decoding_from 0 pad rest)

map-map :
    (front run : List ℕ) (o : Option (List ℕ))
    → Option.map (λ t. front ++ t) (Option.map (λ t. run ++ t) o)
      ≡ Option.map (λ t. front ++ (run ++ t)) o
map-map front run none = refl
map-map front run (some x) = refl

-- A block and what follows it.
decoding_block :
    (pad : Bool) (run rest : List ℕ)
    → decoding_from 0 pad (block run ++ rest)
      ≡ Option.map (λ t. gap pad ++ (run ++ t)) (decoding_from 0 (not (length run == 254)) rest)
decoding_block pad run rest =
    decoding_from-code pad (length run + 1) (run ++ rest) (omega arith)
    ∙ ap (Option.map (λ t. gap pad ++ t)) (
        decoding_from-append run (length run + 1 - 1) (not (length run + 1 == 255)) rest
          (omega arith)
        ∙ ap (λ b. Option.map (λ t. run ++ t) (decoding_from 0 (not b) rest))
            (same_test (length run)))
    ∙ map-map (gap pad) run (decoding_from 0 (not (length run == 254)) rest)
  where
    same_test : (n : ℕ) → (n + 1 == 255) ≡ (n == 254)
    same_test n = ground arith

-- The lengths of the runs of `encoding_from`: zero ends a run, and so does its 254th byte.
pub encoding_from-nil : (run : List ℕ) → encoding_from run [] ≡ block run
unfolding encoding_from
encoding_from-nil run = refl

pub encoding_from-zero :
    (run rest : List ℕ) → encoding_from run (0 ∷ rest) ≡ block run ++ encoding rest
unfolding encoding_from
encoding_from-zero run rest = refl

pub encoding_from-full :
    (run : List ℕ) (b : ℕ) (rest : List ℕ)
    → b ≢ 0
    → length run ≡ 253
    → encoding_from run (b ∷ rest) ≡ block (run ++ (b ∷ [])) ++ encoding rest
unfolding encoding_from
encoding_from-full run b rest nonzero full = rw (ne→== b 0 nonzero, eq→== _ 253 full)

pub encoding_from-more :
    (run : List ℕ) (b : ℕ) (rest : List ℕ)
    → b ≢ 0
    → length run ≢ 253
    → encoding_from run (b ∷ rest) ≡ encoding_from (run ++ (b ∷ [])) rest
unfolding encoding_from
encoding_from-more run b rest nonzero room = rw (ne→== b 0 nonzero, ne→== _ 253 room)

decoding_block-some :
    (pad after : Bool) (run rest out : List ℕ)
    → (length run == 254) ≡ not after
    → decoding_from 0 after rest ≡ some out
    → decoding_from 0 pad (block run ++ rest) ≡ some (gap pad ++ (run ++ out))
decoding_block-some pad true run rest out e h =
    decoding_block pad run rest ∙ rw e (ap (Option.map (λ t. gap pad ++ (run ++ t))) h)
decoding_block-some pad false run rest out e h =
    decoding_block pad run rest ∙ rw e (ap (Option.map (λ t. gap pad ++ (run ++ t))) h)

-- Decoding undoes encoding, with the part of a block that is already there and a zero that is due.
pub decoding_from-encoding_from :
    (bs run : List ℕ) (pad : Bool)
    → length run ≤ 253
    → decoding_from 0 pad (encoding_from run bs) ≡ some (gap pad ++ (run ++ bs))
decoding_from-encoding_from [] run pad h =
    ap (decoding_from 0 pad) (encoding_from-nil run ∙ sym (append-nil (block run)))
    ∙ decoding_block-some pad true run [] [] (ne→== (length run) 254 (omega arith))
        (unfold decoding_from in refl)
decoding_from-encoding_from (b ∷ bs) run pad h = elim (dec_eq b 0) [
  | yes z ↦
      rw (z, encoding_from-zero run bs)
        (decoding_block-some pad true run (encoding bs) (0 ∷ bs)
          (ne→== (length run) 254 (omega arith))
          (decoding_from-encoding_from bs [] true (omega arith)))
  | no nz ↦ elim (dec_eq (length run) 253) [
    | yes full ↦ rw (encoding_from-full run b bs nz full) (
        decoding_block-some pad false (run ++ (b ∷ [])) (encoding bs) bs
          (eq→== _ 254 (omega (arith, length-append run (b ∷ []))))
          (decoding_from-encoding_from bs [] false (omega arith))
        ∙ ap (λ t. some (gap pad ++ t)) (append_assoc run (b ∷ []) bs))
    | no room ↦ rw (encoding_from-more run b bs nz room) (
        decoding_from-encoding_from bs (run ++ (b ∷ [])) pad
          (omega (arith, length-append run (b ∷ [])))
        ∙ ap (λ t. some (gap pad ++ t)) (append_assoc run (b ∷ []) bs))
  ]
]

abbrev pub IsNonzero : ℕ → Type 0
IsNonzero b = b ≢ 0

-- No byte of an encoding is zero, so that a zero can end a packet.
pub encoding_from-IsNonzero :
    (bs run : List ℕ) → All IsNonzero run → All IsNonzero (encoding_from run bs)
encoding_from-IsNonzero [] run h = unfold encoding_from in (omega arith, h)
encoding_from-IsNonzero (b ∷ bs) run h = elim (dec_eq b 0) [
  | yes z ↦
      rw (z, encoding_from-zero run bs)
        (omega arith, All-append IsNonzero run (encoding bs) h (encoding_from-IsNonzero bs [] tt))
  | no nz ↦
      let longer : All IsNonzero (run ++ (b ∷ [])) = All-append IsNonzero run (b ∷ []) h (nz, tt) in
      elim (dec_eq (length run) 253) [
        | yes full ↦ rw (encoding_from-full run b bs nz full) (
          omega arith,
          All-append IsNonzero (run ++ (b ∷ [])) (encoding bs) longer
              (encoding_from-IsNonzero bs [] tt),
        )
        | no room ↦
            rw (encoding_from-more run b bs nz room)
              (encoding_from-IsNonzero bs (run ++ (b ∷ [])) longer)
      ]
]

-- An encoding of bytes consists of bytes.
pub encoding_from-IsBytes :
    (bs run : List ℕ) → length run ≤ 253 → IsBytes run → IsBytes bs → IsBytes (encoding_from run bs)
encoding_from-IsBytes [] run n h hb = unfold encoding_from in (omega arith, h)
encoding_from-IsBytes (b ∷ bs) run n h hb = elim (dec_eq b 0) [
  | yes z ↦
      rw (z, encoding_from-zero run bs)
        (
          omega arith,
          All-append IsByte run (encoding bs) h (encoding_from-IsBytes bs [] (omega arith) tt hb.1),
        )
  | no nz ↦
      let longer : IsBytes (run ++ (b ∷ [])) = All-append IsByte run (b ∷ []) h (hb.0, tt) in
      elim (dec_eq (length run) 253) [
        | yes full ↦ rw (encoding_from-full run b bs nz full) (
          omega (arith, length-append run (b ∷ [])),
          All-append IsByte (run ++ (b ∷ [])) (encoding bs) longer
              (encoding_from-IsBytes bs [] (omega arith) tt hb.1),
        )
        | no room ↦ rw (encoding_from-more run b bs nz room) (
            encoding_from-IsBytes bs (run ++ (b ∷ [])) (omega (arith, length-append run (b ∷ [])))
              longer hb.1)
      ]
]

-- Input that ends inside a block has no result.
pub decoding_from-short :
    (input : List ℕ) (left : ℕ) (pad : Bool)
    → length input < left
    → decoding_from left pad input ≡ none
unfolding decoding_from
decoding_from-short input zero pad h = absurd (omega arith)
decoding_from-short [] (suc left) pad h = refl
decoding_from-short (b ∷ input) (suc left) pad h =
    ap (Option.map (λ t. b ∷ t)) (decoding_from-short input left pad (omega arith))

pub decoding_from-zero_code : (pad : Bool) (rest : List ℕ) → decoding_from 0 pad (0 ∷ rest) ≡ none
unfolding decoding_from
decoding_from-zero_code pad rest = refl
