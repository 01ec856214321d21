-- ===== src/Marshalling/RoundTrip.antt =====
-- The integer helpers of src/umsg/marshalling.hpp, written and read back.
use umsg.Base.{
  ℕ, zero, suc, ◌+◌, ◌≤◌, ◌≡◌, refl, sym, ap, ◌∙◌, arith, List, [], ◌∷◌, ◌++◌, take, drop, length,
}
use umsg.Base.{length-take, length-drop, take-append-drop, IsU16, IsU32, IsU64}
use umsg.Marshalling.{
  read_u16_be, read_u32_be, read_u64_be, write_u16_be, write_u32_be, write_u64_be,
}
use umsg.Marshalling.Words.{
  u16_bytes, u32_bytes, u64_bytes, write_u16_be-digits, write_u32_be-digits, write_u64_be-digits,
}
use umsg.Marshalling.Words.{read_u16_be-digits, read_u32_be-digits, read_u64_be-digits}

drop-nil {ℓ} : {A : Type ℓ} (n : ℕ) → drop {A = A} n [] ≡ []
drop-nil zero = refl
drop-nil (suc n) = refl

drop_more {ℓ} : {A : Type ℓ} (i n : ℕ) (xs : List A) → drop (i + n) xs ≡ drop n (drop i xs)
drop_more zero n xs = ap (λ k. drop k xs) (let e : zero + n ≡ n = omega arith in e)
drop_more (suc i) n [] = drop-nil (suc i + n) ∙ sym (drop-nil n)
drop_more (suc i) n (x ∷ xs) =
    ap (λ k. drop k (x ∷ xs)) (let e : suc i + n ≡ suc (i + n) = omega arith in e)
    ∙ drop_more i n xs

-- A `uint16_t` that is written into a buffer with room for it at the index takes the place of 2
-- bytes, no other byte changes, and reading it from there returns it.
pub read_u16_be-write :
    (buf : List ℕ) (i v : ℕ)
    → IsU16 v
    → i + 2 ≤ length buf
    → (write_u16_be buf i v ≡ take i buf ++ (u16_bytes v ++ drop (i + 2) buf))
      × (read_u16_be (write_u16_be buf i v) i ≡ v)
read_u16_be-write buf i v h room = (
  written,
  ap (λ t. read_u16_be t i) written
      ∙ read_u16_be-digits (take i buf) (drop (i + 2) buf) v i h at_front,
)
  where
    at_front : i ≡ length (take i buf)
    at_front = omega (arith, length-take i buf)

    go :
        (tail : List ℕ)
        → drop i buf ≡ tail
        → 2 ≤ length tail
        → write_u16_be buf i v ≡ take i buf ++ (u16_bytes v ++ drop (i + 2) buf)
    go (a ∷ b ∷ back) p long =
        ap (λ t. write_u16_be t i v) (sym (take-append-drop i buf) ∙ ap (λ t. take i buf ++ t) p)
        ∙ write_u16_be-digits (take i buf) back a b i v at_front
        ∙ ap (λ t. take i buf ++ (u16_bytes v ++ t)) (sym (drop_more i 2 buf ∙ ap (drop 2) p))
    go tail p long = absurd (omega arith)

    written : write_u16_be buf i v ≡ take i buf ++ (u16_bytes v ++ drop (i + 2) buf)
    written = go (drop i buf) refl (omega (arith, length-drop i buf))

-- A `uint32_t` that is written into a buffer with room for it at the index takes the place of 4
-- bytes, no other byte changes, and reading it from there returns it.
pub read_u32_be-write :
    (buf : List ℕ) (i v : ℕ)
    → IsU32 v
    → i + 4 ≤ length buf
    → (write_u32_be buf i v ≡ take i buf ++ (u32_bytes v ++ drop (i + 4) buf))
      × (read_u32_be (write_u32_be buf i v) i ≡ v)
read_u32_be-write buf i v h room = (
  written,
  ap (λ t. read_u32_be t i) written
      ∙ read_u32_be-digits (take i buf) (drop (i + 4) buf) v i h at_front,
)
  where
    at_front : i ≡ length (take i buf)
    at_front = omega (arith, length-take i buf)

    go :
        (tail : List ℕ)
        → drop i buf ≡ tail
        → 4 ≤ length tail
        → write_u32_be buf i v ≡ take i buf ++ (u32_bytes v ++ drop (i + 4) buf)
    go (a ∷ b ∷ c ∷ d ∷ back) p long =
        ap (λ t. write_u32_be t i v) (sym (take-append-drop i buf) ∙ ap (λ t. take i buf ++ t) p)
        ∙ write_u32_be-digits (take i buf) back a b c d i v at_front
        ∙ ap (λ t. take i buf ++ (u32_bytes v ++ t)) (sym (drop_more i 4 buf ∙ ap (drop 4) p))
    go tail p long = absurd (omega arith)

    written : write_u32_be buf i v ≡ take i buf ++ (u32_bytes v ++ drop (i + 4) buf)
    written = go (drop i buf) refl (omega (arith, length-drop i buf))

-- A `uint64_t` that is written into a buffer with room for it at the index takes the place of 8
-- bytes, no other byte changes, and reading it from there returns it.
pub read_u64_be-write :
    (buf : List ℕ) (i v : ℕ)
    → IsU64 v
    → i + 8 ≤ length buf
    → (write_u64_be buf i v ≡ take i buf ++ (u64_bytes v ++ drop (i + 8) buf))
      × (read_u64_be (write_u64_be buf i v) i ≡ v)
read_u64_be-write buf i v h room = (
  written,
  ap (λ t. read_u64_be t i) written
      ∙ read_u64_be-digits (take i buf) (drop (i + 8) buf) v i h at_front,
)
  where
    at_front : i ≡ length (take i buf)
    at_front = omega (arith, length-take i buf)

    go :
        (tail : List ℕ)
        → drop i buf ≡ tail
        → 8 ≤ length tail
        → write_u64_be buf i v ≡ take i buf ++ (u64_bytes v ++ drop (i + 8) buf)
    go (a ∷ b ∷ c ∷ d ∷ e ∷ f ∷ g ∷ h ∷ back) p long =
        ap (λ t. write_u64_be t i v) (sym (take-append-drop i buf) ∙ ap (λ t. take i buf ++ t) p)
        ∙ write_u64_be-digits (take i buf) back a b c d e f g h i v at_front
        ∙ ap (λ t. take i buf ++ (u64_bytes v ++ t)) (sym (drop_more i 8 buf ∙ ap (drop 8) p))
    go tail p long = absurd (omega arith)

    written : write_u64_be buf i v ≡ take i buf ++ (u64_bytes v ++ drop (i + 8) buf)
    written = go (drop i buf) refl (omega (arith, length-drop i buf))
