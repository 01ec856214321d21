-- ===== src/Crc32/Linear.antt =====
-- What the loop over the bits does to the exclusive or of two words, and that it loses nothing.
use umsg.Base.{
  ℕ, zero, suc, ◌+◌, ◌*◌, ◌/◌, ◌%◌, ◌^◌, ◌≤◌, ◌<◌, ◌≡◌, refl, ap, ◌∙◌, arith, sym, ◌-◌, ◌++◌,
}
use umsg.Base.{◌⊎◌, inl, inr, bit_xor, IsU32, List, [], ◌∷◌, IsBytes}
use umsg.Base.Bits.{bit_and-one, bit_xor-half, bit_xor_parity, bit_xor_assoc, bit_xor-lt}
use umsg.Base.Bits.{bit_xor_fields, bit_xor_comm, bit_xor_cancel_right}
use umsg.Crc32.{bit_step, bit_loop, byte_loop, polynomial}
use native.Mathlib.Nat.{pow-suc}

-- The step by arithmetic: the parity is the bit that is shifted out.
pub bit_step_even : (x : ℕ) → x % 2 ≡ 0 → bit_step x ≡ x / 2
unfolding bit_step
bit_step_even x h = ground (arith, bit_and-one x)

pub bit_step_odd : (x : ℕ) → x % 2 ≡ 1 → bit_step x ≡ bit_xor (x / 2) polynomial
unfolding bit_step
bit_step_odd x h = ground (arith, bit_and-one x)

pub parity-cases : (x : ℕ) → (x % 2 ≡ 0) ⊎ (x % 2 ≡ 1)
parity-cases x = omega arith

-- A word added above the lowest bit moves down by one place, whatever is shifted out.
bit_step_shift : (h z : ℕ) → bit_step (bit_xor (h * 2) z) ≡ bit_xor h (bit_step z)
bit_step_shift h z = elim (parity-cases z) [
  | inl even ↦
      bit_step_even (bit_xor (h * 2) z) (omega (arith, bit_xor_parity (h * 2) z))
      ∙ xor_half h z
      ∙ ap (bit_xor h) (sym (bit_step_even z even))
  | inr odd ↦
      bit_step_odd (bit_xor (h * 2) z) (omega (arith, bit_xor_parity (h * 2) z))
      ∙ ap (λ t. bit_xor t polynomial) (xor_half h z)
      ∙ bit_xor_assoc h (z / 2) polynomial
      ∙ ap (bit_xor h) (sym (bit_step_odd z odd))
]
  where
    xor_half : (a b : ℕ) → bit_xor (a * 2) b / 2 ≡ bit_xor a (b / 2)
    xor_half a b =
        bit_xor-half (a * 2) b
        ∙ ap (λ t. bit_xor t (b / 2)) (let e : a * 2 / 2 ≡ a = omega arith in e)

-- The loop over `k` bits moves what stands above them down by `k` places.
pub bit_loop_shift : (k h z : ℕ) → bit_loop k (bit_xor (h * 2 ^ k) z) ≡ bit_xor h (bit_loop k z)
unfolding bit_loop
bit_loop_shift zero h z = ap (λ t. bit_xor t z) (let e : h * 1 ≡ h = omega arith in e)
bit_loop_shift (suc k) h z =
    ap (λ t. bit_loop k (bit_step (bit_xor t z))) (regroup h k)
    ∙ ap (bit_loop k) (bit_step_shift (h * 2 ^ k) z)
    ∙ bit_loop_shift k h (bit_step z)
  where
    regroup : (a n : ℕ) → a * 2 ^ suc n ≡ a * 2 ^ n * 2
    regroup a n = omega (arith, ap (λ (t : ℕ). a * t) (pow-suc 2 n))

pub bit_loop-add : (j k x : ℕ) → bit_loop (j + k) x ≡ bit_loop k (bit_loop j x)
unfolding bit_loop
bit_loop-add zero k x = ap (λ n. bit_loop n x) (let e : 0 + k ≡ k = omega arith in e)
bit_loop-add (suc j) k x =
    ap (λ n. bit_loop n x) (let e : suc j + k ≡ suc (j + k) = omega arith in e)
    ∙ bit_loop-add j k (bit_step x)

polynomial_split :
    (t : ℕ) → t < 2 ^ 31 → bit_xor t polynomial ≡ 2 ^ 31 + bit_xor (polynomial - 2 ^ 31) t
polynomial_split t h =
    bit_xor_comm t polynomial
    ∙ bit_xor_assoc (1 * 2 ^ 31) (polynomial - 2 ^ 31) t
    ∙ bit_xor_fields 31 1 (bit_xor (polynomial - 2 ^ 31) t)
        (bit_xor-lt 31 (polynomial - 2 ^ 31) t (omega arith) h)

-- The step keeps the width, and sets the highest bit exactly for an odd word.
pub bit_step-IsU32 : (x : ℕ) → IsU32 x → IsU32 (bit_step x)
bit_step-IsU32 x h = elim (parity-cases x) [
  | inl even ↦ rw (bit_step_even x even) (omega arith)
  | inr odd ↦ rw (bit_step_odd x odd) (bit_xor-lt 32 (x / 2) polynomial (omega arith) (omega arith))
]

bit_step_top : (x : ℕ) → IsU32 x → (x % 2 ≡ 1) → 2 ^ 31 ≤ bit_step x
bit_step_top x h odd =
    rw (bit_step_odd x odd) (omega (arith, polynomial_split (x / 2) (omega arith)))

-- No two words have the same successor.
pub bit_step_injective : (x y : ℕ) → IsU32 x → IsU32 y → bit_step x ≡ bit_step y → x ≡ y
bit_step_injective x y hx hy e = elim (parity-cases x) [
  | inl x_even ↦ elim (parity-cases y) [
    | inl y_even ↦ omega (arith, bit_step_even x x_even, bit_step_even y y_even)
    | inr y_odd ↦ absurd (omega (arith, bit_step_even x x_even, bit_step_top y hy y_odd))
  ]
  | inr x_odd ↦ elim (parity-cases y) [
    | inl y_even ↦ absurd (omega (arith, bit_step_even y y_even, bit_step_top x hx x_odd))
    | inr y_odd ↦ omega (
      arith,
      bit_xor_cancel_right polynomial (x / 2) (y / 2)
          (sym (bit_step_odd x x_odd) ∙ e ∙ bit_step_odd y y_odd),
    )
  ]
]

pub bit_loop-IsU32 : (k x : ℕ) → IsU32 x → IsU32 (bit_loop k x)
unfolding bit_loop
bit_loop-IsU32 zero x h = h
bit_loop-IsU32 (suc k) x h = bit_loop-IsU32 k (bit_step x) (bit_step-IsU32 x h)

pub bit_loop_injective : (k x y : ℕ) → IsU32 x → IsU32 y → bit_loop k x ≡ bit_loop k y → x ≡ y
unfolding bit_loop
bit_loop_injective zero x y hx hy e = e
bit_loop_injective (suc k) x y hx hy e =
    bit_step_injective x y hx hy
      (bit_loop_injective k (bit_step x) (bit_step y) (bit_step-IsU32 x hx) (bit_step-IsU32 y hy) e)

pub byte_loop-IsU32 : (xs : List ℕ) (crc : ℕ) → IsBytes xs → IsU32 crc → IsU32 (byte_loop xs crc)
unfolding byte_loop
byte_loop-IsU32 [] crc hx h = h
byte_loop-IsU32 (b ∷ xs) crc hx h =
    byte_loop-IsU32 xs (bit_loop 8 (bit_xor crc b)) hx.1
      (bit_loop-IsU32 8 (bit_xor crc b) (bit_xor-lt 32 crc b h (omega arith)))

pub byte_loop_injective :
    (xs : List ℕ) (c d : ℕ)
    → IsBytes xs
    → IsU32 c
    → IsU32 d
    → byte_loop xs c ≡ byte_loop xs d
    → c ≡ d
unfolding byte_loop
byte_loop_injective [] c d hx hc hd e = e
byte_loop_injective (b ∷ xs) c d hx hc hd e =
    let c_fits : IsU32 (bit_xor c b) = bit_xor-lt 32 c b hc (omega arith) in
    let d_fits : IsU32 (bit_xor d b) = bit_xor-lt 32 d b hd (omega arith) in
    bit_xor_cancel_right b c d (
      bit_loop_injective 8 (bit_xor c b) (bit_xor d b) c_fits d_fits (
        byte_loop_injective xs (bit_loop 8 (bit_xor c b)) (bit_loop 8 (bit_xor d b)) hx.1
          (bit_loop-IsU32 8 (bit_xor c b) c_fits) (bit_loop-IsU32 8 (bit_xor d b) d_fits) e))

pub byte_loop-append :
    (xs ys : List ℕ) (crc : ℕ) → byte_loop (xs ++ ys) crc ≡ byte_loop ys (byte_loop xs crc)
unfolding byte_loop
byte_loop-append [] ys crc = refl
byte_loop-append (b ∷ xs) ys crc = byte_loop-append xs ys (bit_loop 8 (bit_xor crc b))
