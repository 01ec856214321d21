-- ===== src/Marshalling/Join.antt =====
-- A chain of `|` over shifted bytes is the number with those digits in base 256.
use umsg.Base.{ℕ, ◌+◌, ◌*◌, ◌^◌, ◌≤◌, ◌<◌, ◌≡◌, ap, ap₂, ◌∙◌, arith}
use umsg.Base.{bit_or, u32, u64}
use umsg.Base.{IsByte}
use umsg.Base.Bits.{bit_or_fields}
use native.Mathlib.Nat.{one-le-pow}
use native.Mathlib.Numerals.{towards_suc}

-- One more byte below the bytes that are already joined, shifted by `k`.
shift_eight : (k : ℕ) → 2 ^ (k + 8) ≡ 256 * 2 ^ k
shift_eight k = simp towards_suc (omega arith)

or_next :
    (k a b x y : ℕ)
    → b < 256
    → x ≡ a * 2 ^ (k + 8)
    → y ≡ b * 2 ^ k
    → bit_or x y ≡ (a * 256 + b) * 2 ^ k
or_next k a b x y h p q =
    ap₂ bit_or p q
    ∙ bit_or_fields (k + 8) a (b * 2 ^ k)
        (rw (shift_eight k) (below b (2 ^ k) h (one-le-pow k 2 (omega arith))))
    ∙ omega (arith, ap (λ (t : ℕ). a * t) (shift_eight k))
  where
    below : (c t : ℕ) → c < 256 → 1 ≤ t → c * t < 256 * t
    below c t less pos = grind arith

pub join32 :
    (b0 b1 b2 b3 : ℕ)
    → IsByte b0
    → IsByte b1
    → IsByte b2
    → IsByte b3
    → bit_or (bit_or (bit_or (u32 (b0 * 2 ^ 24)) (u32 (b1 * 2 ^ 16))) (u32 (b2 * 2 ^ 8))) b3
      ≡ ((b0 * 256 + b1) * 256 + b2) * 256 + b3
join32 b0 b1 b2 b3 h0 h1 h2 h3 =
    let s1 : bit_or (u32 (b0 * 2 ^ 24)) (u32 (b1 * 2 ^ 16)) ≡ (b0 * 256 + b1) * 2 ^ 16 =
      or_next 16 (b0) b1 _ _ h1 (omega arith) (omega arith) in
    let s2 : bit_or (bit_or (u32 (b0 * 2 ^ 24)) (u32 (b1 * 2 ^ 16))) (u32 (b2 * 2 ^ 8))
        ≡ ((b0 * 256 + b1) * 256 + b2) * 2 ^ 8 =
      or_next 8 (b0 * 256 + b1) b2 _ _ h2 s1 (omega arith) in
    let s3 : bit_or (bit_or (bit_or (u32 (b0 * 2 ^ 24)) (u32 (b1 * 2 ^ 16))) (u32 (b2 * 2 ^ 8))) b3
        ≡ (((b0 * 256 + b1) * 256 + b2) * 256 + b3) * 2 ^ 0 =
      or_next 0 ((b0 * 256 + b1) * 256 + b2) b3 _ _ h3 s2 (omega arith) in
    omega arith

pub join64 :
    (b0 b1 b2 b3 b4 b5 b6 b7 : ℕ)
    → IsByte b0
    → IsByte b1
    → IsByte b2
    → IsByte b3
    → IsByte b4
    → IsByte b5
    → IsByte b6
    → IsByte b7
    → bit_or
        (bit_or
          (bit_or
            (bit_or
              (bit_or
                (bit_or (bit_or (u64 (b0 * 2 ^ 56)) (u64 (b1 * 2 ^ 48))) (u64 (b2 * 2 ^ 40)))
                (u64 (b3 * 2 ^ 32)))
              (u64 (b4 * 2 ^ 24)))
            (u64 (b5 * 2 ^ 16)))
          (u64 (b6 * 2 ^ 8)))
        b7
      ≡ ((((((b0 * 256 + b1) * 256 + b2) * 256 + b3) * 256 + b4) * 256 + b5) * 256 + b6) * 256 + b7
join64 b0 b1 b2 b3 b4 b5 b6 b7 h0 h1 h2 h3 h4 h5 h6 h7 =
    let s1 : bit_or (u64 (b0 * 2 ^ 56)) (u64 (b1 * 2 ^ 48)) ≡ (b0 * 256 + b1) * 2 ^ 48 =
      or_next 48 (b0) b1 _ _ h1 (omega arith) (omega arith) in
    let s2 : bit_or (bit_or (u64 (b0 * 2 ^ 56)) (u64 (b1 * 2 ^ 48))) (u64 (b2 * 2 ^ 40))
        ≡ ((b0 * 256 + b1) * 256 + b2) * 2 ^ 40 =
      or_next 40 (b0 * 256 + b1) b2 _ _ h2 s1 (omega arith) in
    let s3 : bit_or (bit_or (bit_or (u64 (b0 * 2 ^ 56)) (u64 (b1 * 2 ^ 48))) (u64 (b2 * 2 ^ 40)))
          (u64 (b3 * 2 ^ 32))
        ≡ (((b0 * 256 + b1) * 256 + b2) * 256 + b3) * 2 ^ 32 =
      or_next 32 ((b0 * 256 + b1) * 256 + b2) b3 _ _ h3 s2 (omega arith) in
    let s4 : bit_or
          (bit_or (bit_or (bit_or (u64 (b0 * 2 ^ 56)) (u64 (b1 * 2 ^ 48))) (u64 (b2 * 2 ^ 40)))
            (u64 (b3 * 2 ^ 32)))
          (u64 (b4 * 2 ^ 24))
        ≡ ((((b0 * 256 + b1) * 256 + b2) * 256 + b3) * 256 + b4) * 2 ^ 24 =
      or_next 24 (((b0 * 256 + b1) * 256 + b2) * 256 + b3) b4 _ _ h4 s3 (omega arith) in
    let s5 : bit_or
          (bit_or
            (bit_or (bit_or (bit_or (u64 (b0 * 2 ^ 56)) (u64 (b1 * 2 ^ 48))) (u64 (b2 * 2 ^ 40)))
              (u64 (b3 * 2 ^ 32)))
            (u64 (b4 * 2 ^ 24)))
          (u64 (b5 * 2 ^ 16))
        ≡ (((((b0 * 256 + b1) * 256 + b2) * 256 + b3) * 256 + b4) * 256 + b5) * 2 ^ 16 =
      or_next 16 ((((b0 * 256 + b1) * 256 + b2) * 256 + b3) * 256 + b4) b5 _ _ h5 s4
        (omega arith) in
    let s6 : bit_or
          (bit_or
            (bit_or
              (bit_or (bit_or (bit_or (u64 (b0 * 2 ^ 56)) (u64 (b1 * 2 ^ 48))) (u64 (b2 * 2 ^ 40)))
                (u64 (b3 * 2 ^ 32)))
              (u64 (b4 * 2 ^ 24)))
            (u64 (b5 * 2 ^ 16)))
          (u64 (b6 * 2 ^ 8))
        ≡ ((((((b0 * 256 + b1) * 256 + b2) * 256 + b3) * 256 + b4) * 256 + b5) * 256 + b6) * 2 ^ 8 =
      or_next 8 (((((b0 * 256 + b1) * 256 + b2) * 256 + b3) * 256 + b4) * 256 + b5) b6 _ _ h6 s5
        (omega arith) in
    let s7 : bit_or
          (bit_or
            (bit_or
              (bit_or
                (bit_or
                  (bit_or (bit_or (u64 (b0 * 2 ^ 56)) (u64 (b1 * 2 ^ 48))) (u64 (b2 * 2 ^ 40)))
                  (u64 (b3 * 2 ^ 32)))
                (u64 (b4 * 2 ^ 24)))
              (u64 (b5 * 2 ^ 16)))
            (u64 (b6 * 2 ^ 8)))
          b7
        ≡ (((((((b0 * 256 + b1) * 256 + b2) * 256 + b3) * 256 + b4) * 256 + b5) * 256 + b6) * 256
            + b7)
          * 2 ^ 0 =
      or_next 0 ((((((b0 * 256 + b1) * 256 + b2) * 256 + b3) * 256 + b4) * 256 + b5) * 256 + b6) b7
        _ _ h7 s6 (omega arith) in
    omega arith
