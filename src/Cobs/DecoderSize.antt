-- ===== src/Cobs/DecoderSize.antt =====
-- The decoder does not change the size of its buffer, and takes bytes to bytes.
use umsg.Base.{ℕ, zero, suc, ◌+◌, ◌-◌, ◌≡◌, refl, sym, ap, ◌∙◌, arith, ◌==◌, not}
use umsg.Base.{Bool, true, false, ltb, Bool-cases, inl, inr, Option, none, some, List, [], ◌∷◌}
use umsg.Base.{◌++◌, length, get_or, set, length-set, IsBytes, All-append, IsByte}
use umsg.Cobs.{Cursor, copy, decode_block, decode_loop, cobs_decode_in_place}
use umsg.Cobs.{DecodeResult, decoded, invalid, stuck}
use umsg.Cobs.Format.{decoding_from-code, decoding_from-zero_code, gap, decoding_from}
use native.Mathlib.Decide.{ℕ_discrete as dec_eq}
use mathlib.Core.Option
use mathlib.Core.Path.{subst}

length-copy : (total left : ℕ) (c : Cursor) → length (copy total left c).0.buffer ≡ length c.buffer
unfolding copy
length-copy total zero c = refl
length-copy total (suc left) c = ground (
  arith,
  length-set c.buffer c.write_index (get_or c.buffer c.read_index 0),
  length-copy total left (record {
    buffer = set c.buffer c.write_index (get_or c.buffer c.read_index 0);
    read_index = c.read_index + 1;
    write_index = c.write_index + 1;
  }),
)

length-decode_block :
    (total : ℕ) (c : Cursor) → length (decode_block total c).0.buffer ≡ length c.buffer
unfolding decode_block
length-decode_block total c =
    let code : ℕ = get_or c.buffer c.read_index 0 in
    let after : Cursor = record c { read_index = c.read_index + 1 } in
    let done : Cursor = (copy total (code - 1) after).0 in
    ground (arith, length-copy total (code - 1) after, length-set done.buffer done.write_index 0)

abbrev HasSize : ℕ → DecodeResult → Type 0
HasSize n (decoded buffer m) = length buffer ≡ n
HasSize n (invalid buffer) = length buffer ≡ n
HasSize n stuck = Unit

decode_loop-HasSize :
    (fuel total : ℕ) (c : Cursor) → HasSize (length c.buffer) (decode_loop fuel total c)
unfolding decode_loop
decode_loop-HasSize zero total c = elim (Bool-cases (ltb c.read_index total)) [
  | inl more ↦ rw more tt
  | inr done ↦ rw done refl
]
decode_loop-HasSize (suc fuel) total c = elim (Bool-cases (ltb c.read_index total)) [
  | inr done ↦ rw done refl
  | inl more ↦ elim (Bool-cases (decode_block total c).1) [
    | inl next ↦
        rw (more, next)
          (subst (λ n. HasSize n (decode_loop fuel total (decode_block total c).0))
            (length-decode_block total c) (decode_loop-HasSize fuel total (decode_block total c).0))
    | inr broken ↦ rw (more, broken) (length-decode_block total c)
  ]
]

pub length-invalid :
    (buffer left : List ℕ) (n : ℕ)
    → cobs_decode_in_place buffer n ≡ invalid left
    → length left ≡ length buffer
unfolding cobs_decode_in_place
length-invalid buffer left n e =
    subst (HasSize (length buffer)) e
      (decode_loop-HasSize n n (record { buffer = buffer; read_index = 0; write_index = 0 }))

map-some :
    (f : List ℕ → List ℕ) (o : Option (List ℕ)) (out : List ℕ)
    → Option.map f o ≡ some out
    → (t : List ℕ) × (o ≡ some t) × (out ≡ f t)
map-some f none out e = absurd (cc)
map-some f (some t) out e = (t, refl, cc)

gap-IsBytes : (pad : Bool) → IsBytes (gap pad)
gap-IsBytes true = omega arith
gap-IsBytes false = tt

pub decoding_from-IsBytes :
    (input : List ℕ) (left : ℕ) (pad : Bool) (out : List ℕ)
    → IsBytes input
    → decoding_from left pad input ≡ some out
    → IsBytes out
unfolding decoding_from
decoding_from-IsBytes [] zero pad out h e = let same : out ≡ [] = cc in rw same tt
decoding_from-IsBytes [] (suc left) pad out h e = absurd (cc)
decoding_from-IsBytes (b ∷ input) (suc left) pad out h e =
    let (t, p, q) = map-some (λ t. b ∷ t) (decoding_from left pad input) out e in
    rw q (h.0, decoding_from-IsBytes input left pad t h.1 p)
decoding_from-IsBytes (code ∷ input) zero pad out h e = elim (dec_eq code 0) [
  | yes z ↦ absurd (zero_code code input pad z e)
  | no nz ↦
      let (t, p, q) =
        map-some (λ t. gap pad ++ t) (decoding_from (code - 1) (not (code == 255)) input) out
          (sym (decoding_from-code pad code input nz) ∙ e) in
      rw q (
        All-append IsByte (gap pad) t (gap-IsBytes pad)
          (decoding_from-IsBytes input (code - 1) (not (code == 255)) t h.1 p))
]
  where
    none_some : ◌≡◌ {A = Option (List ℕ)} none (some out) → ⊥
    none_some p = cc

    zero_code :
        (k : ℕ) (rest : List ℕ) (w : Bool) → k ≡ 0 → decoding_from 0 w (k ∷ rest) ≡ some out → ⊥
    zero_code k rest w z p = absurd (
        none_some (
          sym (decoding_from-zero_code w rest)
          ∙ ap (λ n. decoding_from 0 w (n ∷ rest)) (sym z)
          ∙ p))
