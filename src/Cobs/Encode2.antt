-- ===== src/Cobs/Encode2.antt =====
-- `cobsEncode2` and `cobsEncode` as their callers see them.
use umsg.Base.{ℕ, ◌≤◌, ◌<◌, ◌≡◌, refl, sym, ap, ap₂, ◌∙◌, arith, ◌==◌, not}
use umsg.Base.{ne→==, Bool, true, false, none, some, ◌&&◌}
use umsg.Base.{List, [], ◌∷◌, ◌++◌, length, set, take, length-append, append-nil, append_assoc}
use umsg.Base.{set-middle, take-append, length-set}
use umsg.Common.{is_null, Pointer, region, HasRoom}
use umsg.Cobs.{finish}
use umsg.Cobs.{CobsEncState, begin, put_all, put_inputs, conclude, cobs_encode2}
use umsg.Cobs.{EncodeResult, encoded, refused}
use umsg.Cobs.Format.{block, encoding, encoding_from, encoding_from-nil}
use umsg.Cobs.Length.{length-encoding-pos}
use umsg.Cobs.Encoder.{IsValid}
use umsg.Cobs.EncoderLoop.{goes_on, stops, put_all-Progress}
use mathlib.Core.Path.{subst}
use native.Mathlib.Decide.{ℕ_discrete as dec_eq}

-- The encoding of `input` stands at the front of the output, and the rest of the buffer is kept.
pub record IsEncoded (input out : List ℕ) (result : EncodeResult) : Type 0 where
  pub written : List ℕ
  pub returns : result ≡ encoded written (length (encoding input))
  pub front : take (length (encoding input)) written ≡ encoding input
  pub same_size : length written ≡ length out

-- The result `false`, whatever the output holds then.
pub record IsRefused (result : EncodeResult) : Type 0 where
  pub left : Pointer
  pub returns : result ≡ refused left

begin-IsValid :
    (out : List ℕ) (cap : ℕ)
    → 0 < cap
    → cap ≤ length out
    → (s : CobsEncState) × (begin (some out) cap ≡ some s) × IsValid cap (length out) s [] []
begin-IsValid [] cap pos room = absurd (omega arith)
begin-IsValid (u ∷ us) cap pos room = (
  record { out = 0 ∷ us; cap = cap; code_index = 0; write_index = 1; code = 1 },
  unfold begin in rw (ne→== cap 0 (omega arith)),
  record {
    place = 0;
    unused = us;
    shape = refl;
    code_at = refl;
    write_at = refl;
    run_code = refl;
    open_run = omega arith;
    within = omega arith;
    capacity = refl;
    same_size = refl;
  },
)

-- The last code goes to its place, and the output is complete.
conclude-IsEncoded :
    (capacity : ℕ) (out input : List ℕ) (s : CobsEncState) (finished run : List ℕ)
    → IsValid capacity (length out) s finished run
    → finished ++ block run ≡ encoding input
    → IsEncoded input out (conclude (s, true))
conclude-IsEncoded capacity out input s finished run v e = record {
  written = encoding input ++ v.unused;
  returns = unfold conclude finish in ap₂ encoded written total;
  front = take-append (encoding input) v.unused (length (encoding input)) refl;
  same_size = ap length (sym written) ∙ length-set s.out s.code_index s.code ∙ v.same_size;
}
  where
    written : set s.out s.code_index s.code ≡ encoding input ++ v.unused
    written =
        ap (λ t. set t s.code_index s.code) v.shape
        ∙ set-middle finished v.place (run ++ v.unused) s.code_index s.code v.code_at
        ∙ ap (λ c. finished ++ (c ∷ (run ++ v.unused))) v.run_code
        ∙ sym (append_assoc finished (block run) v.unused)
        ∙ ap (λ t. t ++ v.unused) e

    total : s.write_index ≡ length (encoding input)
    total = omega (arith, v.write_at, length-append finished (block run), ap length e)

-- The outcome of both loops, from a state that has just begun.
data Intake (cap size : ℕ) (s : CobsEncState) (a b : List ℕ) : Type 0 where
  taken :
      (s' : CobsEncState) (finished run : List ℕ)
      → put_inputs s a b ≡ (s', true)
      → IsValid cap size s' finished run
      → finished ++ block run ≡ encoding (a ++ b)
      → Intake cap size s a b
  full :
      (s' : CobsEncState)
      → put_inputs s a b ≡ (s', false)
      → cap < length (encoding (a ++ b))
      → Intake cap size s a b

put_inputs-next :
    (s s' : CobsEncState) (a b : List ℕ) (r : CobsEncState × Bool)
    → put_all s a ≡ (s', true)
    → put_all s' b ≡ r
    → put_inputs s a b ≡ r
unfolding put_inputs
put_inputs-next s s' a b r p q = rw (p, put_inputs) (ap (λ x. put_all x.0 b) p ∙ q)

put_inputs-stop :
    (s s' : CobsEncState) (a b : List ℕ)
    → put_all s a ≡ (s', false)
    → put_inputs s a b ≡ (s', false)
unfolding put_inputs
put_inputs-stop s s' a b p = rw (p, put_inputs) (ap (λ x. (x.0, false)) p)

put_inputs-Intake :
    (cap size : ℕ) (s : CobsEncState) (a b : List ℕ)
    → cap ≤ size
    → IsValid cap size s [] []
    → Intake cap size s a b
put_inputs-Intake cap size s a b room v = elim (put_all-Progress room a s [] [] v) [
  | stops s' p over ↦ full s' (put_inputs-stop s s' a b p) (over b)
  | goes_on s' f r p v' same ↦ elim (put_all-Progress room b s' f r v') [
    | stops s2 q over ↦
        full s2 (put_inputs-next s s' a b (s2, false) p q)
          (subst (λ t. cap < length t) (ends f r same) (over []))
    | goes_on s2 f2 r2 q v2 same2 ↦
        taken s2 f2 r2 (put_inputs-next s s' a b (s2, true) p q) v2
          (ap (λ t. f2 ++ t) (sym (encoding_from-nil r2)) ∙ same2 [] ∙ ends f r same)
  ]
]
  where
    ends :
        (f r : List ℕ)
        → ((more : List ℕ) → f ++ encoding_from r more ≡ encoding (a ++ more))
        → f ++ encoding_from r (b ++ []) ≡ encoding (a ++ b)
    ends f r same = ap (λ t. f ++ encoding_from r t) (append-nil b) ∙ same b

-- The test of the pointers lets through what a caller may pass.
null_guard : (p : Pointer) (n : ℕ) → HasRoom p n → (is_null p && not (n == 0)) ≡ false
null_guard none n h = ground arith
null_guard (some bytes) n h = refl

module _ (a : Pointer) (a_length : ℕ) (b : Pointer) (b_length : ℕ) (out : List ℕ) (cap : ℕ)
    (a_valid : HasRoom a a_length) (b_valid : HasRoom b b_length) (room : cap ≤ length out) where
  abbrev input : List ℕ
  input = region a a_length ++ region b b_length

  encode2-begin :
      (s : CobsEncState)
      → begin (some out) cap ≡ some s
      → cobs_encode2 a a_length b b_length (some out) cap
        ≡ conclude (put_inputs s (region a a_length) (region b b_length))
  encode2-begin s e =
      unfold cobs_encode2 in
      rw (null_guard a a_length a_valid, null_guard b b_length b_valid) (rw e refl)

  -- If the encoding of the two inputs, one behind the other, fits the capacity, which fits the
  -- output, then `cobsEncode2` writes it to the front of the output, returns its length and keeps
  -- the size of the buffer.
  pub cobs_encode2-IsEncoded :
      length (encoding input) ≤ cap
      → IsEncoded input out (cobs_encode2 a a_length b b_length (some out) cap)
  cobs_encode2-IsEncoded fits =
      let (s, e, v) = begin-IsValid out cap (omega (arith, length-encoding-pos input [])) room in
      rw (encode2-begin s e)
        (elim (put_inputs-Intake cap (length out) s (region a a_length) (region b b_length) room
          v) [
            | taken s' f r p v' same ↦ rw p (conclude-IsEncoded cap out input s' f r v' same)
            | full s' p over ↦ absurd (omega arith)
          ])

  -- If the encoding of the two inputs, one behind the other, does not fit the capacity, which fits
  -- the output, then `cobsEncode2` returns false.
  pub cobs_encode2-IsRefused :
      cap < length (encoding input) → IsRefused (cobs_encode2 a a_length b b_length (some out) cap)
  cobs_encode2-IsRefused over = elim (dec_eq cap 0) [
    | yes z ↦ record {
      left = some out;
      returns =
          unfold cobs_encode2 begin in
          rw (null_guard a a_length a_valid, null_guard b b_length b_valid, z) refl;
    }
    | no pos ↦
        let (s, e, v) = begin-IsValid out cap (omega arith) room in
        rw (encode2-begin s e)
          (elim (put_inputs-Intake cap (length out) s (region a a_length) (region b b_length) room
            v) [
              | taken s' f r p v' same ↦
                  absurd (
                    omega
                      (arith, v'.write_at, v'.within, ap length same, length-append f (block r)))
              | full s' p over' ↦
                  rw p (record { left = some s'.out; returns = unfold conclude in refl })
            ])
  ]
