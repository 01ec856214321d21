-- ===== src/Crc32/Detection.antt =====
-- What the checksum is for: which changes of the input change it.
use umsg.Base.{ℕ, zero, suc, ◌+◌, ◌*◌, ◌^◌, ◌≤◌, ◌<◌, ◌≡◌, ◌≢◌, refl, sym, ap, ap₂, ◌∙◌}
use umsg.Base.{bit_xor, List, [], ◌∷◌, ◌++◌, length, IsBytes, IsU32, arith}
use umsg.Base.Bits.{bit_xor_fields, bit_xor_assoc, bit_xor_comm, bit_xor-lt}
use umsg.Base.Bits.{bit_xor_cancel, bit_xor_cancel_right, bit_xor-zero}
use native.Mathlib.Nat.{pow-suc}
use umsg.Crc32.{bit_loop, byte_loop, crc32_iso_hdlc, initial}
use umsg.Crc32.Linear.{bit_loop_shift, bit_loop-add, bit_loop_injective, byte_loop_injective}
use umsg.Crc32.Linear.{byte_loop-IsU32, byte_loop-append}

-- The bytes as one word, the first byte lowest.
abbrev word : List ℕ → ℕ
word [] = 0
word (b ∷ rest) = word rest * 256 + b

word_injective :
    (xs ys : List ℕ) → IsBytes xs → IsBytes ys → length xs ≡ length ys → word xs ≡ word ys → xs ≡ ys
word_injective [] [] hx hy n e = refl
word_injective [] (y ∷ ys) hx hy n e = absurd (omega arith)
word_injective (x ∷ xs) [] hx hy n e = absurd (omega arith)
word_injective (x ∷ xs) (y ∷ ys) hx hy n e =
    ap₂ ◌∷◌ (omega arith) (word_injective xs ys hx.1 hy.1 (omega arith) (omega arith))

word-lt : (xs : List ℕ) (k : ℕ) → IsBytes xs → length xs ≤ k → word xs < 256 ^ k
word-lt [] zero h n = omega arith
word-lt [] (suc k) h n = omega (arith, word-lt [] k tt (omega arith), pow-suc 256 k)
word-lt (x ∷ xs) zero h n = absurd (omega arith)
word-lt (x ∷ xs) (suc k) h n = omega (arith, word-lt xs k h.1 (omega arith), pow-suc 256 k)

-- The loop over some bytes is the loop over the bits of their word.
byte_loop-word :
    (xs : List ℕ) (crc : ℕ)
    → IsBytes xs
    → byte_loop xs crc ≡ bit_loop (8 * length xs) (bit_xor crc (word xs))
unfolding byte_loop bit_loop
byte_loop-word [] crc h = sym (bit_xor-zero crc)
byte_loop-word (b ∷ xs) crc h =
    byte_loop-word xs (bit_loop 8 (bit_xor crc b)) h.1
    ∙ ap (bit_loop (8 * length xs)) (rejoin xs)
    ∙ sym (bit_loop-add 8 (8 * length xs) (bit_xor crc (word xs * 256 + b)))
    ∙ ap (λ k. bit_loop k (bit_xor crc (word xs * 256 + b)))
        (let e : 8 + 8 * length xs ≡ 8 * suc (length xs) = omega arith in e)
  where
    rejoin :
        (ys : List ℕ)
        → bit_xor (bit_loop 8 (bit_xor crc b)) (word ys)
          ≡ bit_loop 8 (bit_xor crc (word ys * 256 + b))
    rejoin ys =
        bit_xor_comm (bit_loop 8 (bit_xor crc b)) (word ys)
        ∙ sym (bit_loop_shift 8 (word ys) (bit_xor crc b))
        ∙ ap (bit_loop 8) (
            ap (bit_xor (word ys * 256)) (bit_xor_comm crc b)
            ∙ sym (bit_xor_assoc (word ys * 256) b crc)
            ∙ bit_xor_comm (bit_xor (word ys * 256) b) crc
            ∙ ap (bit_xor crc) (bit_xor_fields 8 (word ys) b h.0))

-- Up to four bytes can be read off the state that they leave.
byte_loop_burst :
    (xs ys : List ℕ) (crc : ℕ)
    → IsBytes xs
    → IsBytes ys
    → length xs ≡ length ys
    → length xs ≤ 4
    → IsU32 crc
    → byte_loop xs crc ≡ byte_loop ys crc
    → xs ≡ ys
byte_loop_burst xs ys crc hx hy same short hc e = word_injective xs ys hx hy same (
    bit_xor_cancel crc (word xs) (word ys) (
      bit_loop_injective (8 * length xs) _ _ (bit_xor-lt 32 crc _ hc (word-lt xs 4 hx short))
        (bit_xor-lt 32 crc _ hc (word-lt ys 4 hy (omega arith)))
        (sym (byte_loop-word xs crc hx)
          ∙ e
          ∙ byte_loop-word ys crc hy
          ∙ ap (λ n. bit_loop (8 * n) (bit_xor crc (word ys))) (sym same))))

-- Two inputs of bytes that differ only in a window of at most four neighbouring bytes, and do
-- differ there, have different checksums.
pub crc32_detects_burst :
    (front xs ys back : List ℕ)
    → IsBytes front
    → IsBytes xs
    → IsBytes ys
    → IsBytes back
    → length xs ≡ length ys
    → length xs ≤ 4
    → xs ≢ ys
    → crc32_iso_hdlc (front ++ (xs ++ back)) ≢ crc32_iso_hdlc (front ++ (ys ++ back))
crc32_detects_burst front xs ys back hf hx hy hb same short differ e = differ (
    byte_loop_burst xs ys state hx hy same short state_fits (
      byte_loop_injective back (byte_loop xs state) (byte_loop ys state) hb
        (byte_loop-IsU32 xs state hx state_fits) (byte_loop-IsU32 ys state hy state_fits)
        (sym (run xs) ∙ unequal ∙ run ys)))
  where
    state : ℕ
    state = byte_loop front initial

    state_fits : IsU32 (byte_loop front initial)
    state_fits = byte_loop-IsU32 front initial hf (omega arith)

    run :
        (zs : List ℕ)
        → byte_loop (front ++ (zs ++ back)) initial
          ≡ byte_loop back (byte_loop zs (byte_loop front initial))
    run zs = byte_loop-append front (zs ++ back) initial ∙ byte_loop-append zs back _

    unequal : byte_loop (front ++ (xs ++ back)) initial ≡ byte_loop (front ++ (ys ++ back)) initial
    unequal = unfold crc32_iso_hdlc in bit_xor_cancel_right 0xFFFFFFFF _ _ e

-- The checksum of bytes is a `uint32_t`.
pub crc32-IsU32 : (input : List ℕ) → IsBytes input → IsU32 (crc32_iso_hdlc input)
unfolding crc32_iso_hdlc
crc32-IsU32 input h =
    bit_xor-lt 32 (byte_loop input initial) 0xFFFFFFFF
      (byte_loop-IsU32 input initial h (omega arith)) (omega arith)
