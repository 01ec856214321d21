-- ===== src/Cobs/DecoderBlock.antt =====
-- One round of the outer loop of `cobsDecodeInPlace`.
use umsg.Base.{ℕ, ◌+◌, ◌-◌, ◌<◌, ◌≡◌, ◌≢◌, refl, sym, ap, ◌∙◌, arith}
use umsg.Base.{◌==◌, ltb, not, ◌&&◌, lt→ltb, le→ltb, eq→==, ne→==}
use umsg.Base.{Bool, true, false, Option, none, some}
use umsg.Base.{List, [], ◌∷◌, ◌++◌, length, get_or, set, length-append, append-nil}
use umsg.Base.{append_assoc}
use umsg.Cobs.{Cursor, copy, decode_block}
use umsg.Cobs.Format.{gap, decoding, decoding_from, decoding_from-append, decoding_from-short}
use umsg.Cobs.Format.{decoding_from-code, decoding_from-zero_code}
use umsg.Cobs.Decoder.{IsValid, overwrite, read_next, take_next, copied, short, copy-Copied}
use native.Mathlib.Decide.{ℕ_discrete as dec_eq}
use mathlib.Core.Option

abbrev after_code : Cursor → Cursor
after_code c = record c { read_index = c.read_index + 1 }

abbrev padded : Cursor → Cursor
padded c = record c { buffer = set c.buffer c.write_index 0; write_index = c.write_index + 1 }

module _ (total : ℕ) (c : Cursor) (code : ℕ) (e : get_or c.buffer c.read_index 0 ≡ code) where
  decode_block-zero : code ≡ 0 → decode_block total c ≡ (after_code c, false)
  unfolding decode_block
  decode_block-zero z = rw (e ∙ z)

  decode_block-short :
      (c' : Cursor)
      → code ≢ 0
      → copy total (code - 1) (after_code c) ≡ (c', false)
      → decode_block total c ≡ (c', false)
  unfolding decode_block
  decode_block-short c' nz p = rw (e, ne→== code 0 nz, p)

  decode_block-pad :
      (c' : Cursor)
      → code ≢ 0
      → copy total (code - 1) (after_code c) ≡ (c', true)
      → code ≢ 255
      → c'.read_index < total
      → decode_block total c ≡ (padded c', true)
  unfolding decode_block
  decode_block-pad c' nz p ne more =
      rw (e, ne→== code 0 nz, p, ne→== code 255 ne, lt→ltb c'.read_index total more)

  decode_block-plain :
      (c' : Cursor)
      → code ≢ 0
      → copy total (code - 1) (after_code c) ≡ (c', true)
      → (not (code == 255) && ltb c'.read_index total) ≡ false
      → decode_block total c ≡ (c', true)
  unfolding decode_block
  decode_block-plain c' nz p stop = rw (e, ne→== code 0 nz, p, stop)

-- A zero that is due stands before the next block, if there is one.
abbrev due : Bool → List ℕ → List ℕ
due pad [] = []
due pad (b ∷ input) = gap pad

decoding-due :
    (pad : Bool) (input : List ℕ)
    → decoding_from 0 pad input ≡ Option.map (λ t. due pad input ++ t) (decoding input)
unfolding decoding_from
decoding-due pad [] = refl
decoding-due pad (b ∷ input) = elim (dec_eq b 0) [
  | yes z ↦ rw z refl
  | no nz ↦
      decoding_from-code pad b input nz
      ∙ map_twice (gap pad) (decoding_from (b - 1) (not (b == 255)) input)
      ∙ ap (Option.map (λ t. gap pad ++ t)) (sym (decoding_from-code false b input nz))
]
  where
    map_twice :
        (g : List ℕ) (o : Option (List ℕ))
        → Option.map (λ t. g ++ t) o ≡ Option.map (λ t. g ++ t) (Option.map (λ t. [] ++ t) o)
    map_twice g none = refl
    map_twice g (some x) = refl

-- One round of the outer loop on input that is not empty.
pub data Round (total : ℕ) (c : Cursor) (out input behind : List ℕ) : Type 0 where
  block_read :
      (c' : Cursor) (front junk input' : List ℕ)
      → decode_block total c ≡ (c', true)
      → IsValid total c' (out ++ front) junk input' behind
      → decoding input ≡ Option.map (λ t. front ++ t) (decoding input')
      → length input' < length input
      → Round total c out input behind
  block_broken :
      (c' : Cursor)
      → decode_block total c ≡ (c', false)
      → decoding input ≡ none
      → Round total c out input behind

pub map-none : (o : Option (List ℕ)) (f : List ℕ → List ℕ) → o ≡ none → Option.map f o ≡ none
map-none o f e = ap (Option.map f) e

-- The bytes of a block and the zero behind it.
decoding-bytes :
    (code : ℕ) (bytes input : List ℕ)
    → code ≢ 0
    → code - 1 ≡ length bytes
    → decoding (code ∷ (bytes ++ input))
      ≡ Option.map (λ t. (bytes ++ due (not (code == 255)) input) ++ t) (decoding input)
decoding-bytes code bytes input nz n =
    decoding_from-code false code (bytes ++ input) nz
    ∙ ap (Option.map (λ t. [] ++ t)) (
        decoding_from-append bytes (code - 1) (not (code == 255)) input n
        ∙ ap (Option.map (λ t. bytes ++ t)) (decoding-due (not (code == 255)) input))
    ∙ join (due (not (code == 255)) input) (decoding input)
  where
    join :
        (d : List ℕ) (o : Option (List ℕ))
        → Option.map (λ t. [] ++ t) (Option.map (λ t. bytes ++ t) (Option.map (λ t. d ++ t) o))
          ≡ Option.map (λ t. (bytes ++ d) ++ t) o
    join d none = refl
    join d (some x) = ap some (sym (append_assoc bytes d x))

module _ {total : ℕ} {c : Cursor} (out junk : List ℕ) (code : ℕ) (input behind : List ℕ)
    (v : IsValid total c out junk (code ∷ input) behind) where
  code_read : get_or c.buffer c.read_index 0 ≡ code
  code_read = read_next c.buffer out junk input behind c.read_index code v.shape v.read_at

  after_code-IsValid : IsValid total (after_code c) out (junk ++ (code ∷ [])) input behind
  after_code-IsValid = record {
    shape = v.shape ∙ ap (λ t. out ++ t) (take_next junk input behind code);
    write_at = v.write_at;
    read_at = omega (arith, v.read_at, length-append junk (code ∷ []));
    rest = omega (arith, v.rest);
  }

  -- The end of a block whose bytes have been copied.
  close_block :
      (c' : Cursor) (bytes junk' input' : List ℕ)
      → code ≢ 0
      → copy total (code - 1) (after_code c) ≡ (c', true)
      → input ≡ bytes ++ input'
      → code - 1 ≡ length bytes
      → 0 < length junk'
      → IsValid total c' (out ++ bytes) junk' input' behind
      → Round total c out (code ∷ input) behind
  close_block c' bytes [] input' nz p e n pos v' = absurd (omega arith)
  close_block c' bytes (j ∷ js) [] nz p e n pos v' =
      block_read c' (bytes ++ []) (j ∷ js) []
        (decode_block-plain total c code code_read c' nz p (
          rw (le→ltb c'.read_index total (omega (arith, v'.rest))) (and_false (not (code == 255)))))
        (rw append-nil v') (ap (λ t. decoding (code ∷ t)) e ∙ decoding-bytes code bytes [] nz n)
        (omega arith)
    where
      and_false : (b : Bool) → (b && false) ≡ false
      and_false true = refl
      and_false false = refl
  close_block c' bytes (j ∷ js) (b ∷ input') nz p e n pos v' = elim (dec_eq code 255) [
    | yes full ↦
        block_read c' (bytes ++ []) (j ∷ js) (b ∷ input')
          (decode_block-plain total c code code_read c' nz p (rw (eq→== code 255 full)))
          (rw append-nil v')
          (value
            ∙ ap (λ t. Option.map (λ u. (bytes ++ gap (not t)) ++ u) (decoding (b ∷ input')))
                (eq→== code 255 full))
          shorter
    | no ne ↦
        block_read (padded c') (bytes ++ (0 ∷ [])) js (b ∷ input')
          (decode_block-pad total c code code_read c' nz p ne (omega (arith, v'.rest)))
          (record {
            shape =
                overwrite c'.buffer (out ++ bytes) c'.write_index 0 j js ((b ∷ input') ++ behind)
                  v'.shape v'.write_at
                ∙ ap (λ t. t ++ (js ++ ((b ∷ input') ++ behind))) (append_assoc out bytes (0 ∷ []));
            write_at = omega (
              arith,
              v'.write_at,
              length-append out bytes,
              length-append bytes (0 ∷ []),
              length-append out (bytes ++ (0 ∷ [])),
            );
            read_at = omega (
              arith,
              v'.read_at,
              length-append out bytes,
              length-append bytes (0 ∷ []),
              length-append out (bytes ++ (0 ∷ [])),
            );
            rest = v'.rest;
          })
          (value
            ∙ ap (λ t. Option.map (λ u. (bytes ++ gap (not t)) ++ u) (decoding (b ∷ input')))
                (ne→== code 255 ne))
          shorter
  ]
    where
      value :
          decoding (code ∷ input)
          ≡ Option.map (λ u. (bytes ++ gap (not (code == 255))) ++ u) (decoding (b ∷ input'))
      value = ap (λ t. decoding (code ∷ t)) e ∙ decoding-bytes code bytes (b ∷ input') nz n

      shorter : length (b ∷ input') < length (code ∷ input)
      shorter = omega (arith, ap length e, length-append bytes (b ∷ input'))

  pub decode_block-Round : Round total c out (code ∷ input) behind
  decode_block-Round = elim (dec_eq code 0) [
    | yes z ↦
        block_broken (after_code c) (decode_block-zero total c code code_read z)
          (rw z (decoding_from-zero_code false input))
    | no nz ↦
        elim (copy-Copied total (code - 1) (after_code c) out (junk ++ (code ∷ [])) input behind
          (omega (arith, length-append junk (code ∷ []))) after_code-IsValid) [
            | copied c' bytes junk' input' p e n pos v' ↦
                close_block c' bytes junk' input' nz p e n pos v'
            | short c' p n ↦ block_broken c' (decode_block-short total c code code_read c' nz p) (
                decoding_from-code false code input nz
                ∙ map-none _ (λ t. [] ++ t)
                    (decoding_from-short input (code - 1) (not (code == 255)) n))
          ]
  ]
