-- ===== src/Base/Bits.antt =====
-- The binary operations of the source at variables: one equation for the lowest digit, from which
-- the laws of the exclusive or, of disjoint fields and of low masks follow at every width.
use Prim.Native.Nat.{ℕ, zero, suc, ◌+◌, ◌*◌, ◌/◌, ◌%◌, ◌≤◌, ◌<◌, ◌^◌, min, max, digits, differ}
use Prim.Native.Nat.{bit_and, bit_or, bit_xor, bit_and-bitwise, bit_or-bitwise, bit_xor-bitwise}
use mathlib.Core.Path.{◌≡◌, refl, ap}
use native.Mathlib.Nat.{pow-suc}
use native.Mathlib.Omega.{arith}

-- The count of digits in the definition of the operations is fuel, and any that suffices will do.
fuel_irrelevant :
    (z : ℕ → ℕ) (f : ℕ → ℕ → ℕ) (n k a b : ℕ) → a ≤ n → a ≤ k → digits z f n a b ≡ digits z f k a b
fuel_irrelevant z f zero zero a b p q = refl
fuel_irrelevant z f zero (suc k) zero b p q = refl
fuel_irrelevant z f zero (suc k) (suc a) b p q = absurd (omega arith)
fuel_irrelevant z f (suc n) zero zero b p q = refl
fuel_irrelevant z f (suc n) zero (suc a) b p q = absurd (omega arith)
fuel_irrelevant z f (suc n) (suc k) zero b p q = refl
fuel_irrelevant z f (suc n) (suc k) (suc a) b p q =
    ap (λ (t : ℕ). t * 2 + f (suc a % 2) (b % 2))
      (fuel_irrelevant z f n k (suc a / 2) (b / 2) (omega arith) (omega arith))

-- One step of the recursion, with the fuel of the smaller number.
bitwise_step :
    (z : ℕ → ℕ) (f : ℕ → ℕ → ℕ) (a b : ℕ)
    → digits z f (suc a) (suc a) b
      ≡ digits z f (suc a / 2) (suc a / 2) (b / 2) * 2 + f (suc a % 2) (b % 2)
bitwise_step z f a b =
    ap (λ (t : ℕ). t * 2 + f (suc a % 2) (b % 2))
      (fuel_irrelevant z f a (suc a / 2) (suc a / 2) (b / 2) (omega arith) (omega arith))

differ_digits : (x y : ℕ) → x < 2 → y < 2 → differ x y ≡ (x + y) % 2
differ_digits zero y p q = omega arith
differ_digits (suc zero) zero p q = refl
differ_digits (suc zero) (suc zero) p q = refl
differ_digits (suc zero) (suc (suc y)) p q = absurd (omega arith)
differ_digits (suc (suc x)) y p q = absurd (omega arith)

pub zero-bit_xor : (b : ℕ) → bit_xor 0 b ≡ b
zero-bit_xor b = bit_xor-bitwise 0 b

-- The step of an operation that is computed digit by digit.
module _ (op : ℕ → ℕ → ℕ) (z : ℕ → ℕ) (f : ℕ → ℕ → ℕ)
    (whole : (a b : ℕ) → op a b ≡ digits z f a a b) where
  op_suc : (x y : ℕ) → op (suc x) y ≡ op (suc x / 2) (y / 2) * 2 + f (suc x % 2) (y % 2)
  op_suc x y = omega (arith, whole (suc x) y, whole (suc x / 2) (y / 2), bitwise_step z f x y)

zero-bit_or : (b : ℕ) → bit_or 0 b ≡ b
zero-bit_or b = bit_or-bitwise 0 b

zero-bit_and : (b : ℕ) → bit_and 0 b ≡ 0
zero-bit_and b = bit_and-bitwise 0 b

pub bit_xor_step : (a b : ℕ) → bit_xor a b ≡ bit_xor (a / 2) (b / 2) * 2 + (a % 2 + b % 2) % 2
bit_xor_step zero b = omega (arith, zero-bit_xor b, zero-bit_xor (b / 2))
bit_xor_step (suc a) b = omega (
  arith,
  op_suc bit_xor (λ d. d) differ bit_xor-bitwise a b,
  differ_digits (suc a % 2) (b % 2) (omega arith) (omega arith),
)

bit_or_step : (x y : ℕ) → bit_or x y ≡ max (x % 2) (y % 2) + 2 * bit_or (x / 2) (y / 2)
bit_or_step zero y = omega (arith, zero-bit_or y, zero-bit_or (y / 2))
bit_or_step (suc x) y = omega (arith, op_suc bit_or (λ d. d) max bit_or-bitwise x y)

bit_and_step : (x y : ℕ) → bit_and x y ≡ min (x % 2) (y % 2) + 2 * bit_and (x / 2) (y / 2)
bit_and_step zero y = omega (arith, zero-bit_and y, zero-bit_and (y / 2))
bit_and_step (suc x) y = omega (arith, op_suc bit_and (λ d. 0) min bit_and-bitwise x y)

pub bit_xor-half : (a b : ℕ) → bit_xor a b / 2 ≡ bit_xor (a / 2) (b / 2)
bit_xor-half a b = omega (arith, bit_xor_step a b)

pub bit_xor_parity : (a b : ℕ) → bit_xor a b % 2 ≡ (a % 2 + b % 2) % 2
bit_xor_parity a b = omega (arith, bit_xor_step a b)

-- Two numbers with equal halves and equal parities are equal.
by_digit : (a b : ℕ) → a / 2 ≡ b / 2 → a % 2 ≡ b % 2 → a ≡ b
by_digit a b p q = omega arith

-- The laws go from the halves to the numbers, on fuel that bounds the numbers.
xor_comm_fuel : (n a b : ℕ) → a ≤ n → b ≤ n → bit_xor a b ≡ bit_xor b a
xor_comm_fuel zero zero zero p q = refl
xor_comm_fuel zero zero (suc b) p q = absurd (omega arith)
xor_comm_fuel zero (suc a) b p q = absurd (omega arith)
xor_comm_fuel (suc n) a b p q = omega (
  arith,
  bit_xor_step a b,
  bit_xor_step b a,
  xor_comm_fuel n (a / 2) (b / 2) (omega arith) (omega arith),
)

pub bit_xor_comm : (a b : ℕ) → bit_xor a b ≡ bit_xor b a
bit_xor_comm a b = xor_comm_fuel (a + b) a b (omega arith) (omega arith)

xor_assoc_half :
    (a b c : ℕ)
    → bit_xor (bit_xor (a / 2) (b / 2)) (c / 2) ≡ bit_xor (a / 2) (bit_xor (b / 2) (c / 2))
    → bit_xor (bit_xor a b) c / 2 ≡ bit_xor a (bit_xor b c) / 2
xor_assoc_half a b c h =
    rw (bit_xor-half (bit_xor a b) c, bit_xor-half a b)
      (rw (bit_xor-half a (bit_xor b c), bit_xor-half b c) h)

xor_assoc_parity : (a b c : ℕ) → bit_xor (bit_xor a b) c % 2 ≡ bit_xor a (bit_xor b c) % 2
xor_assoc_parity a b c = omega (
  arith,
  bit_xor_parity (bit_xor a b) c,
  bit_xor_parity a b,
  bit_xor_parity a (bit_xor b c),
  bit_xor_parity b c,
)

xor_assoc_fuel :
    (n a b c : ℕ) → a ≤ n → b ≤ n → c ≤ n → bit_xor (bit_xor a b) c ≡ bit_xor a (bit_xor b c)
xor_assoc_fuel zero a b c p q r =
    let a_zero : a ≡ 0 = omega arith in
    let b_zero : b ≡ 0 = omega arith in
    let c_zero : c ≡ 0 = omega arith in rw (a_zero, b_zero, c_zero)
xor_assoc_fuel (suc n) a b c p q r =
    by_digit _ _
      (xor_assoc_half a b c
        (xor_assoc_fuel n (a / 2) (b / 2) (c / 2) (omega arith) (omega arith) (omega arith)))
      (xor_assoc_parity a b c)

pub bit_xor_assoc : (a b c : ℕ) → bit_xor (bit_xor a b) c ≡ bit_xor a (bit_xor b c)
bit_xor_assoc a b c = xor_assoc_fuel (a + b + c) a b c (omega arith) (omega arith) (omega arith)

xor_self_fuel : (n a : ℕ) → a ≤ n → bit_xor a a ≡ 0
xor_self_fuel zero zero p = refl
xor_self_fuel zero (suc a) p = absurd (omega arith)
xor_self_fuel (suc n) a p = omega (arith, bit_xor_step a a, xor_self_fuel n (a / 2) (omega arith))

pub bit_xor_self : (a : ℕ) → bit_xor a a ≡ 0
bit_xor_self a = xor_self_fuel a a (omega arith)

pub bit_xor-zero : (a : ℕ) → bit_xor a 0 ≡ a
bit_xor-zero a = rw bit_xor_comm (zero-bit_xor a)

-- An exclusive or can be undone.
pub bit_xor_undo : (a b : ℕ) → bit_xor a (bit_xor a b) ≡ b
bit_xor_undo a b = rw (← bit_xor_assoc a a b, bit_xor_self a) (zero-bit_xor b)

pub bit_xor_cancel : (a b c : ℕ) → bit_xor a b ≡ bit_xor a c → b ≡ c
bit_xor_cancel a b c h = cc (bit_xor_undo a b, bit_xor_undo a c, ap (bit_xor a) h)

pub bit_xor_cancel_right : (a b c : ℕ) → bit_xor b a ≡ bit_xor c a → b ≡ c
bit_xor_cancel_right a b c h = bit_xor_cancel a b c (rw (bit_xor_comm a b, bit_xor_comm a c) h)

double_power : (k : ℕ) → 2 ^ suc k ≡ 2 * 2 ^ k
double_power k = omega (arith, pow-suc 2 k)

times_double_power : (q k : ℕ) → q * 2 ^ suc k ≡ 2 * (q * 2 ^ k)
times_double_power q k = omega (arith, ap (λ (t : ℕ). q * t) (double_power k))

halve_double : (t : ℕ) → 2 * t / 2 ≡ t
halve_double t = omega arith

-- The result fits the width of the arguments.
pub bit_xor-lt : (k a b : ℕ) → a < 2 ^ k → b < 2 ^ k → bit_xor a b < 2 ^ k
bit_xor-lt zero a b p q =
    let a_zero : a ≡ 0 = omega arith in
    let b_zero : b ≡ 0 = omega arith in rw (a_zero, b_zero) (omega arith)
bit_xor-lt (suc k) a b p q = omega (
  arith,
  double_power k,
  bit_xor_step a b,
  bit_xor-lt k (a / 2) (b / 2) (omega (arith, double_power k)) (omega (arith, double_power k)),
)

-- `(q << k) ^ r`, `(q << k) | r` are the sum where `r` fits `k` bits.
pub bit_xor_fields : (k q r : ℕ) → r < 2 ^ k → bit_xor (q * 2 ^ k) r ≡ q * 2 ^ k + r
bit_xor_fields zero q r fits =
    let r_zero : r ≡ 0 = omega arith in rw r_zero (omega (arith, bit_xor-zero (q * 1)))
bit_xor_fields (suc k) q r fits = omega (
  arith,
  times_double_power q k,
  bit_xor_step (2 * (q * 2 ^ k)) r,
  ap (λ (t : ℕ). bit_xor t r) (times_double_power q k),
  ap (λ (t : ℕ). bit_xor t (r / 2)) (halve_double (q * 2 ^ k)),
  bit_xor_fields k q (r / 2) (omega (arith, double_power k)),
)

bit_or-zero_fuel : (n a : ℕ) → a ≤ n → bit_or a 0 ≡ a
bit_or-zero_fuel n zero p = refl
bit_or-zero_fuel zero (suc a) p = absurd (omega arith)
bit_or-zero_fuel (suc n) (suc a) p =
    omega (arith, bit_or_step (suc a) 0, bit_or-zero_fuel n (suc a / 2) (omega arith))

pub bit_or_fields : (k q r : ℕ) → r < 2 ^ k → bit_or (q * 2 ^ k) r ≡ q * 2 ^ k + r
bit_or_fields zero q r fits =
    let r_zero : r ≡ 0 = omega arith in
    rw r_zero (omega (arith, bit_or-zero_fuel (q * 1) (q * 1) (omega arith)))
bit_or_fields (suc k) q r fits = omega (
  arith,
  times_double_power q k,
  bit_or_step (2 * (q * 2 ^ k)) r,
  ap (λ (t : ℕ). bit_or t r) (times_double_power q k),
  ap (λ (t : ℕ). bit_or t (r / 2)) (halve_double (q * 2 ^ k)),
  bit_or_fields k q (r / 2) (omega (arith, double_power k)),
)

bit_and-zero_fuel : (n a : ℕ) → a ≤ n → bit_and a 0 ≡ 0
bit_and-zero_fuel n zero p = refl
bit_and-zero_fuel zero (suc a) p = absurd (omega arith)
bit_and-zero_fuel (suc n) (suc a) p =
    omega (arith, bit_and_step (suc a) 0, bit_and-zero_fuel n (suc a / 2) (omega arith))

-- A mask of `k` ones, which is given by its halves: `x & 0xFF` and the like.
and_ones_step : (a mask m : ℕ) → mask ≡ 2 * m + 1 → bit_and a mask ≡ bit_and (a / 2) m * 2 + a % 2
and_ones_step a mask m h = omega (
  arith,
  bit_and_step a mask,
  ap (λ (t : ℕ). bit_and (a / 2) t) (let half : mask / 2 ≡ m = omega arith in half),
)

pub bit_and-one : (a : ℕ) → bit_and a 1 ≡ a % 2
bit_and-one a =
    omega (arith, and_ones_step a 1 0 refl, bit_and-zero_fuel (a / 2) (a / 2) (omega arith))

pub bit_and_low4 : (a : ℕ) → bit_and a 0x0F ≡ a % 16
bit_and_low4 a = omega (
  arith,
  and_ones_step a 15 7 refl,
  and_ones_step (a / 2) 7 3 refl,
  and_ones_step (a / 2 / 2) 3 1 refl,
  bit_and-one (a / 2 / 2 / 2),
)

pub bit_and_low8 : (a : ℕ) → bit_and a 0xFF ≡ a % 256
bit_and_low8 a = omega (
  arith,
  and_ones_step a 255 127 refl,
  and_ones_step (a / 2) 127 63 refl,
  and_ones_step (a / 2 / 2) 63 31 refl,
  and_ones_step (a / 2 / 2 / 2) 31 15 refl,
  bit_and_low4 (a / 2 / 2 / 2 / 2),
)
