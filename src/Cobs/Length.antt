-- ===== src/Cobs/Length.antt =====
-- How long an encoding is, in terms of the number of bytes that are encoded.
use umsg.Base.{ℕ, ◌+◌, ◌-◌, ◌/◌, ◌%◌, ◌≤◌, ◌<◌, ◌≡◌, ◌≢◌, ◌∙◌, arith, ◌==◌, ◌||◌, eq→==, ne→==}
use mathlib.Core.Bool.{false≢true}
use umsg.Base.{sym, ◌⊎◌, inl, inr}
use umsg.Base.{Bool, true, false, List, [], ◌∷◌, ◌++◌, length, length-append}
use umsg.Common.{cobs_max_overhead}
use umsg.Cobs.Format.{block, encoding, encoding_from, encoding_from-nil, encoding_from-zero}
use umsg.Cobs.Format.{encoding_from-full, encoding_from-more}
use native.Mathlib.Decide.{ℕ_discrete as dec_eq}

abbrev pub has_zero : List ℕ → Bool
has_zero [] = false
has_zero (b ∷ bs) = b == 0 || has_zero bs

has_zero-length : (bs : List ℕ) → has_zero bs ≡ true → 0 < length bs
has_zero-length [] h = cc
has_zero-length (b ∷ bs) h = omega arith

has_zero-tail : (b : ℕ) (bs : List ℕ) → b ≢ 0 → has_zero (b ∷ bs) ≡ has_zero bs
has_zero-tail b bs nz = rw (ne→== b 0 nz)

length-full :
    (run : List ℕ) (b : ℕ) (bs : List ℕ)
    → length (block (run ++ (b ∷ [])) ++ encoding bs) ≡ length run + 2 + length (encoding bs)
length-full run b bs =
    omega (arith, length-append (run ++ (b ∷ [])) (encoding bs), length-append run (b ∷ []))

-- One byte for the first code, and at most one for each 254 bytes.
pub length-encoding_from-le :
    (bs run : List ℕ)
    → length run ≤ 253
    → length (encoding_from run bs) ≤ length run + length bs + 1 + (length run + length bs) / 254
length-encoding_from-le [] run h = rw (encoding_from-nil run) (omega arith)
length-encoding_from-le (b ∷ bs) run h = elim (dec_eq b 0) [
  | yes z ↦
      rw (z, encoding_from-zero run bs)
        (omega
          (arith, length-append run (encoding bs), length-encoding_from-le bs [] (omega arith)))
  | no nz ↦ elim (dec_eq (length run) 253) [
    | yes full ↦
        rw (encoding_from-full run b bs nz full, length-full run b bs)
          (omega (arith, length-encoding_from-le bs [] (omega arith)))
    | no room ↦ rw (encoding_from-more run b bs nz room) (
        omega (
          arith,
          length-append run (b ∷ []),
          length-encoding_from-le bs (run ++ (b ∷ [])) (omega (arith, length-append run (b ∷ []))),
        ))
  ]
]

-- With a zero among the bytes, one of them takes no part in a run.
pub length-encoding_from-zero :
    (bs run : List ℕ)
    → length run ≤ 253
    → has_zero bs ≡ true
    → length (encoding_from run bs)
      ≤ length run + length bs + 1 + (length run + length bs - 1) / 254
length-encoding_from-zero [] run h z = cc
length-encoding_from-zero (b ∷ bs) run h some_zero = elim (dec_eq b 0) [
  | yes z ↦
      rw (z, encoding_from-zero run bs)
        (omega
          (arith, length-append run (encoding bs), length-encoding_from-le bs [] (omega arith)))
  | no nz ↦
      let later : has_zero bs ≡ true = rw (has_zero-tail b bs nz) at some_zero in
      elim (dec_eq (length run) 253) [
        | yes full ↦
            rw (encoding_from-full run b bs nz full, length-full run b bs)
              (omega (
                arith,
                has_zero-length bs later,
                length-encoding_from-zero bs [] (omega arith) later,
              ))
        | no room ↦ rw (encoding_from-more run b bs nz room) (
            omega (
              arith,
              length-append run (b ∷ []),
              length-encoding_from-zero bs (run ++ (b ∷ []))
                  (omega (arith, length-append run (b ∷ []))) later,
            ))
      ]
]

-- With no zero, each 254 bytes do take one more.
length-encoding_from-nonzero :
    (bs run : List ℕ)
    → length run ≤ 253
    → has_zero bs ≡ false
    → length (encoding_from run bs) ≡ length run + length bs + 1 + (length run + length bs) / 254
length-encoding_from-nonzero [] run h z = rw (encoding_from-nil run) (omega arith)
length-encoding_from-nonzero (b ∷ bs) run h no_zero = elim (dec_eq b 0) [
  | yes z ↦ absurd (false≢true (sym no_zero ∙ rw (eq→== b 0 z)))
  | no nz ↦
      let later : has_zero bs ≡ false = rw (has_zero-tail b bs nz) at no_zero in
      elim (dec_eq (length run) 253) [
        | yes full ↦
            rw (encoding_from-full run b bs nz full, length-full run b bs)
              (omega (arith, length-encoding_from-nonzero bs [] (omega arith) later))
        | no room ↦ rw (encoding_from-more run b bs nz room) (
            omega (
              arith,
              length-append run (b ∷ []),
              length-encoding_from-nonzero bs (run ++ (b ∷ []))
                  (omega (arith, length-append run (b ∷ []))) later,
            ))
      ]
]

pub length-encoding-pos : (bs run : List ℕ) → length run + length bs < length (encoding_from run bs)
length-encoding-pos [] run = rw (encoding_from-nil run) (omega arith)
length-encoding-pos (b ∷ bs) run = elim (dec_eq b 0) [
  | yes z ↦
      rw (z, encoding_from-zero run bs)
        (omega (arith, length-append run (encoding bs), length-encoding-pos bs []))
  | no nz ↦ elim (dec_eq (length run) 253) [
    | yes full ↦
        rw (encoding_from-full run b bs nz full, length-full run b bs)
          (omega (arith, length-encoding-pos bs []))
    | no room ↦
        rw (encoding_from-more run b bs nz room)
          (omega (arith, length-append run (b ∷ []), length-encoding-pos bs (run ++ (b ∷ []))))
  ]
]

-- The encoding of at least one byte stays within `cobsMaxOverhead` when the number of bytes is not a
-- multiple of 254, or one of the bytes is zero.
pub length-encoding-overhead :
    (bs : List ℕ)
    → 0 < length bs
    → (length bs % 254 ≢ 0) ⊎ (has_zero bs ≡ true)
    → length (encoding bs) ≤ length bs + cobs_max_overhead (length bs)
unfolding cobs_max_overhead
length-encoding-overhead bs pos (inl partial) =
    omega (arith, length-encoding_from-le bs [] (omega arith))
length-encoding-overhead bs pos (inr z) =
    omega (arith, length-encoding_from-zero bs [] (omega arith) z)

-- The encoding of a number of bytes that is a multiple of 254, none of them zero, is one byte longer
-- than `cobsMaxOverhead` says.
pub length-encoding-beyond :
    (bs : List ℕ)
    → length bs % 254 ≡ 0
    → has_zero bs ≡ false
    → length (encoding bs) ≡ length bs + cobs_max_overhead (length bs) + 1
unfolding cobs_max_overhead
length-encoding-beyond bs full z = omega (arith, length-encoding_from-nonzero bs [] (omega arith) z)
