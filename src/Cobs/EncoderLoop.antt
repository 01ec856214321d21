-- ===== src/Cobs/EncoderLoop.antt =====
-- The loops of `cobsEncode2` and the whole function against the format.
use umsg.Base.{ℕ, ◌+◌, ◌≤◌, ◌<◌, ◌≡◌, ◌≢◌, refl, sym, ap, ◌∙◌, arith}
use umsg.Base.{Bool, true, false}
use umsg.Base.{List, [], ◌∷◌, ◌++◌, length, length-append, append_assoc}
use umsg.Cobs.{CobsEncState, end_block, put, put_all}
use umsg.Cobs.Format.{block, encoding, encoding_from, encoding_from-zero}
use umsg.Cobs.Format.{encoding_from-full, encoding_from-more}
use umsg.Cobs.Length.{length-encoding-pos}
use umsg.Cobs.Encoder.{IsValid, IsValid-IsOpen, end_block-refused, end_block-IsValid, stored}
use umsg.Cobs.Encoder.{IsOpen, IsOpen-IsValid, stored-write_index}
use umsg.Cobs.Encoder.{stored-IsOpen, put-zero, put_no_room, put-more, put-full}
use native.Mathlib.Decide.{ℕ_discrete as dec_eq, dec_lt}

-- The loop over some bytes either takes them all, and what is open then stands for what it was given,
-- or it stops, and then the encoding does not fit, whatever follows.
pub data Progress (cap size : ℕ) (s : CobsEncState) (bs finished run : List ℕ) : Type 0 where
  goes_on :
      (s' : CobsEncState) (finished' run' : List ℕ)
      → put_all s bs ≡ (s', true)
      → IsValid cap size s' finished' run'
      → ((more : List ℕ)
          → finished' ++ encoding_from run' more ≡ finished ++ encoding_from run (bs ++ more))
      → Progress cap size s bs finished run
  stops :
      (s' : CobsEncState)
      → put_all s bs ≡ (s', false)
      → ((more : List ℕ) → cap < length (finished ++ encoding_from run (bs ++ more)))
      → Progress cap size s bs finished run

put_all-next :
    (s s' : CobsEncState) (b : ℕ) (bs : List ℕ)
    → put s b ≡ (s', true)
    → put_all s (b ∷ bs) ≡ put_all s' bs
unfolding put_all
put_all-next s s' b bs e = rw (e, put_all) (ap (λ p. put_all p.0 bs) e)

put_all-stop :
    (s s' : CobsEncState) (b : ℕ) (bs : List ℕ)
    → put s b ≡ (s', false)
    → put_all s (b ∷ bs) ≡ (s', false)
unfolding put_all
put_all-stop s s' b bs e = rw (e, put_all) (ap (λ p. (p.0, false)) e)

pair_of {ℓ} : {A : Type ℓ} (p : A × Bool) (b : Bool) → p.1 ≡ b → p ≡ (p.0, b)
pair_of p b e = ap (λ c. (p.0, c)) e

module _ {cap size : ℕ} (s : CobsEncState) (b : ℕ) (bs finished run : List ℕ) where
  Progress-next :
      (s1 : CobsEncState) (finished1 run1 : List ℕ)
      → put s b ≡ (s1, true)
      → ((more : List ℕ)
          → finished1 ++ encoding_from run1 more ≡ finished ++ encoding_from run (b ∷ more))
      → Progress cap size s1 bs finished1 run1
      → Progress cap size s (b ∷ bs) finished run
  Progress-next s1 finished1 run1 e same (goes_on s' finished' run' p v q) =
      goes_on s' finished' run' (put_all-next s s1 b bs e ∙ p) v
        (λ more. q more ∙ same (bs ++ more))
  Progress-next s1 finished1 run1 e same (stops s' p q) =
      stops s' (put_all-next s s1 b bs e ∙ p) (λ more. rw (← same (bs ++ more)) (q more))

  Progress-stop :
      (put s b).1 ≡ false
      → ((more : List ℕ) → cap < length (finished ++ encoding_from run (b ∷ more)))
      → Progress cap size s (b ∷ bs) finished run
  Progress-stop e over =
      stops (put s b).0 (put_all-stop s (put s b).0 b bs (pair_of (put s b) false e))
        (λ more. over (bs ++ more))

-- An encoding with a block still to come is longer than what is written.
longer_than_written :
    (finished run rest : List ℕ)
    → length finished + 1 + length run < length (finished ++ (block run ++ encoding rest))
longer_than_written finished run rest = omega (
  arith,
  length-append finished (block run ++ encoding rest),
  length-append run (encoding rest),
  length-encoding-pos rest [],
)

module _ {cap size : ℕ} (fits : cap ≤ size) where
  -- The byte that fills a block: the block is closed at once.
  block_filled :
      (s : CobsEncState) (b : ℕ) (bs finished run : List ℕ)
      → IsValid cap size s finished run
      → s.write_index < cap
      → b ≢ 0
      → length run ≡ 253
      → ((s1 : CobsEncState) (f r : List ℕ) → IsValid cap size s1 f r → Progress cap size s1 bs f r)
      → Progress cap size s (b ∷ bs) finished run
  block_filled s b bs finished run v room nz full next = elim (dec_lt (s.write_index + 1) cap) [
    | no over ↦
        Progress-stop s b bs finished run
          (ap (λ p. p.1) step
            ∙ end_block-refused fits s1 finished (run ++ (b ∷ [])) opened
                (omega (arith, stored-write_index fits s finished run b)))
          (λ more. rw (encoding_from-full run b more nz full) (
            omega (
              arith,
              longer_than_written finished (run ++ (b ∷ [])) more,
              v.write_at,
              length-append run (b ∷ []),
            )))
    | yes place ↦
        let (done, v1) =
          end_block-IsValid fits s1 finished (run ++ (b ∷ [])) opened
            (omega (arith, stored-write_index fits s finished run b)) in
        Progress-next s b bs finished run (end_block s1).0 (finished ++ block (run ++ (b ∷ []))) []
          (step ∙ pair_of (end_block s1) true done)
          (λ more.
            append_assoc finished (block (run ++ (b ∷ []))) (encoding more)
            ∙ ap (λ t. finished ++ t) (sym (encoding_from-full run b more nz full)))
          (next _ _ _ v1)
  ]
    where
      s1 : CobsEncState
      s1 = stored fits s finished run b

      opened : IsOpen cap size (stored fits s finished run b) finished (run ++ (b ∷ []))
      opened = stored-IsOpen fits s finished run b v room

      step : put s b ≡ end_block (stored fits s finished run b)
      step = put-full fits s finished run b v room nz full

  put-Progress :
      (s : CobsEncState) (b : ℕ) (bs finished run : List ℕ)
      → IsValid cap size s finished run
      → ((s1 : CobsEncState) (f r : List ℕ) → IsValid cap size s1 f r → Progress cap size s1 bs f r)
      → Progress cap size s (b ∷ bs) finished run
  put-Progress s b bs finished run v next = elim (dec_lt s.write_index cap) [
    | no full ↦
        Progress-stop s b bs finished run (put_no_room fits s finished run b v (omega arith))
          (λ more. omega (
            arith,
            v.write_at,
            length-append finished (encoding_from run (b ∷ more)),
            length-encoding-pos (b ∷ more) run,
          ))
    | yes room ↦ elim (dec_eq b 0) [
      | yes z ↦
          let (done, v1) =
            end_block-IsValid fits s finished run (IsValid-IsOpen fits s finished run v) room in
          Progress-next s b bs finished run (end_block s).0 (finished ++ block run) []
            (rw (z, put-zero fits s finished run) (pair_of (end_block s) true done))
            (λ more.
              append_assoc finished (block run) (encoding more)
              ∙ rw (z, encoding_from-zero run more))
            (next _ _ _ v1)
      | no nz ↦ elim (dec_eq (length run) 253) [
        | no more_room ↦
            Progress-next s b bs finished run (stored fits s finished run b) finished
              (run ++ (b ∷ [])) (put-more fits s finished run b v room nz more_room)
              (λ more. ap (λ t. finished ++ t) (sym (encoding_from-more run b more nz more_room)))
              (next _ _ _ (
                IsOpen-IsValid fits (stored fits s finished run b) finished (run ++ (b ∷ []))
                  (stored-IsOpen fits s finished run b v room)
                  (omega (arith, v.open_run, length-append run (b ∷ [])))
                  (omega (arith, stored-write_index fits s finished run b))))
        | yes full ↦ block_filled s b bs finished run v room nz full next
      ]
    ]
  ]

  pub put_all-Progress :
      (bs : List ℕ) (s : CobsEncState) (finished run : List ℕ)
      → IsValid cap size s finished run
      → Progress cap size s bs finished run
  put_all-Progress [] s finished run v =
      goes_on s finished run (unfold put_all in refl) v (λ more. refl)
  put_all-Progress (b ∷ bs) s finished run v =
      put-Progress s b bs finished run v (λ s1 f r v1. put_all-Progress bs s1 f r v1)
