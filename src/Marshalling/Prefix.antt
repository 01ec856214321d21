-- ===== src/Marshalling/Prefix.antt =====
-- Reads that stay within the first bytes of a buffer.
use umsg.Base.{ℕ, zero, suc, ◌+◌, ◌<◌, ◌≡◌, refl, ap, arith, List, [], ◌∷◌, take, drop, get_or}
use umsg.Marshalling.{read_u16_be, read_u32_be}

pub get_or-take : (xs : List ℕ) (n i d : ℕ) → i < n → get_or (take n xs) i d ≡ get_or xs i d
get_or-take xs zero i d h = absurd (omega arith)
get_or-take [] (suc n) i d h = refl
get_or-take (x ∷ xs) (suc n) zero d h = refl
get_or-take (x ∷ xs) (suc n) (suc i) d h = get_or-take xs n i d (omega arith)

pub drop-take : (xs : List ℕ) (k m : ℕ) → drop k (take (k + m) xs) ≡ take m (drop k xs)
drop-take xs zero m = ap (λ n. take n xs) (let e : zero + m ≡ m = omega arith in e)
drop-take [] (suc k) zero = rw (let e : suc k + 0 ≡ suc k = omega arith in e) refl
drop-take [] (suc k) (suc m) = rw (let e : suc k + suc m ≡ suc (k + suc m) = omega arith in e) refl
drop-take (x ∷ xs) (suc k) m =
    rw (let e : suc k + m ≡ suc (k + m) = omega arith in e) (drop-take xs k m)

pub read_u16_be-take :
    (xs : List ℕ) (n i : ℕ) → i + 1 < n → read_u16_be (take n xs) i ≡ read_u16_be xs i
unfolding read_u16_be
read_u16_be-take xs n i h =
    rw (get_or-take xs n i 0 (omega arith), get_or-take xs n (i + 1) 0 h) refl

pub read_u32_be-take :
    (xs : List ℕ) (n i : ℕ) → i + 3 < n → read_u32_be (take n xs) i ≡ read_u32_be xs i
unfolding read_u32_be
read_u32_be-take xs n i h =
    rw
      (
        get_or-take xs n i 0 (omega arith),
        get_or-take xs n (i + 1) 0 (omega arith),
        get_or-take xs n (i + 2) 0 (omega arith),
        get_or-take xs n (i + 3) 0 h,
      )
      refl
