-- ===== src/Marshalling/Words.antt =====
-- The integer helpers against the digits of the number in base 256, most significant first.
use umsg.Base.{ℕ, ◌+◌, ◌*◌, ◌/◌, ◌%◌, ◌^◌, ◌≡◌, ap, ◌∙◌, arith}
use umsg.Base.{List, [], ◌∷◌, ◌++◌, length, get_or, set, bit_and, bit_or, u8, u16}
use umsg.Base.{IsByte, IsU16, IsU32, IsU64, get_or-append, set-append}
use umsg.Marshalling.Join.{join32, join64}
use umsg.Base.Bits.{bit_and_low8, bit_or_fields}
use umsg.Marshalling.{
  read_u16_be, read_u32_be, read_u64_be, write_u16_be, write_u32_be, write_u64_be,
}

abbrev pub u16_bytes : ℕ → List ℕ
u16_bytes v = v / 2 ^ 8 % 256 ∷ v % 256 ∷ []

abbrev pub u32_bytes : ℕ → List ℕ
u32_bytes v = v / 2 ^ 24 % 256 ∷ v / 2 ^ 16 % 256 ∷ v / 2 ^ 8 % 256 ∷ v % 256 ∷ []

abbrev pub u64_bytes : ℕ → List ℕ
u64_bytes v =
    v / 2 ^ 56 % 256 ∷ v / 2 ^ 48 % 256 ∷ v / 2 ^ 40 % 256 ∷ v / 2 ^ 32 % 256 ∷ u32_bytes v

low_byte : (v : ℕ) → u8 (bit_and v 0xFF) ≡ v % 256
low_byte v = omega (arith, bit_and_low8 v)

module _ (front back : List ℕ) where
  set_next :
      (ys : List ℕ) (i j w v : ℕ)
      → i ≡ length front + j
      → w ≡ v
      → set (front ++ ys) i w ≡ front ++ set ys j v
  set_next ys i j w v p q = set-append front ys i j w p ∙ ap (λ t. front ++ set ys j t) q

  -- `write_u16_be` replaces two bytes by the digits of the value.
  pub write_u16_be-digits :
      (a b i v : ℕ)
      → i ≡ length front
      → write_u16_be (front ++ (a ∷ b ∷ back)) i v ≡ front ++ (u16_bytes v ++ back)
  unfolding write_u16_be
  write_u16_be-digits a b i v e =
      ap (λ t. set t (i + 1) (u8 (bit_and v 0xFF)))
        (set_next (a ∷ b ∷ back) i 0 _ _ (omega arith) (low_byte (v / 2 ^ 8)))
      ∙ set_next (v / 2 ^ 8 % 256 ∷ b ∷ back) (i + 1) 1 _ _ (omega arith) (low_byte v)

  -- `write_u32_be` replaces four bytes by the digits of the value.
  pub write_u32_be-digits :
      (a b c d i v : ℕ)
      → i ≡ length front
      → write_u32_be (front ++ (a ∷ b ∷ c ∷ d ∷ back)) i v ≡ front ++ (u32_bytes v ++ back)
  unfolding write_u32_be
  write_u32_be-digits a b c d i v e = rw (
    set_next (a ∷ b ∷ c ∷ d ∷ back) i 0 _ _ (omega arith) (low_byte (v / 2 ^ 24)),
    set_next (v / 2 ^ 24 % 256 ∷ b ∷ c ∷ d ∷ back) (i + 1) 1 _ _ (omega arith)
        (low_byte (v / 2 ^ 16)),
    set_next (v / 2 ^ 24 % 256 ∷ v / 2 ^ 16 % 256 ∷ c ∷ d ∷ back) (i + 2) 2 _ _ (omega arith)
        (low_byte (v / 2 ^ 8)),
    set_next (v / 2 ^ 24 % 256 ∷ v / 2 ^ 16 % 256 ∷ v / 2 ^ 8 % 256 ∷ d ∷ back) (i + 3) 3 _ _
        (omega arith) (low_byte v),
  )

  join16 : (b0 b1 : ℕ) → IsByte b0 → IsByte b1 → u16 (bit_or (b0 * 2 ^ 8) b1) ≡ b0 * 2 ^ 8 + b1
  join16 b0 b1 h0 h1 = omega (arith, bit_or_fields 8 b0 b1 h1)

  get_next :
      (ys : List ℕ) (i j : ℕ) → i ≡ length front + j → get_or (front ++ ys) i 0 ≡ get_or ys j 0
  get_next ys i j e = get_or-append front ys i j 0 e

  -- The readers return the value whose digits they find.
  pub read_u16_be-digits :
      (v i : ℕ) → IsU16 v → i ≡ length front → read_u16_be (front ++ (u16_bytes v ++ back)) i ≡ v
  unfolding read_u16_be
  read_u16_be-digits v i h e = rw (get_next (u16_bytes v ++ back) i 0 (omega arith)) (
      rw (get_next (u16_bytes v ++ back) (i + 1) 1 (omega arith))
        (omega (arith, join16 (v / 2 ^ 8 % 256) (v % 256) (omega arith) (omega arith))))

  -- The readers on any bytes.
  pub read_u16_be-bytes :
      (a b i : ℕ)
      → IsByte a
      → IsByte b
      → i ≡ length front
      → read_u16_be (front ++ (a ∷ b ∷ back)) i ≡ a * 256 + b
  unfolding read_u16_be
  read_u16_be-bytes a b i ha hb e =
      rw (get_next (a ∷ b ∷ back) i 0 (omega arith))
        (rw (get_next (a ∷ b ∷ back) (i + 1) 1 (omega arith)) (join16 a b ha hb))

  pub read_u32_be-bytes :
      (a b c d i : ℕ)
      → IsByte a
      → IsByte b
      → IsByte c
      → IsByte d
      → i ≡ length front
      → read_u32_be (front ++ (a ∷ b ∷ c ∷ d ∷ back)) i ≡ ((a * 256 + b) * 256 + c) * 256 + d
  unfolding read_u32_be
  read_u32_be-bytes a b c d i ha hb hc hd e =
      rw (get_next (a ∷ b ∷ c ∷ d ∷ back) i 0 (omega arith)) (
        rw (get_next (a ∷ b ∷ c ∷ d ∷ back) (i + 1) 1 (omega arith)) (
          rw (get_next (a ∷ b ∷ c ∷ d ∷ back) (i + 2) 2 (omega arith)) (
            rw (get_next (a ∷ b ∷ c ∷ d ∷ back) (i + 3) 3 (omega arith))
              (join32 a b c d ha hb hc hd))))

  pub read_u32_be-digits :
      (v i : ℕ) → IsU32 v → i ≡ length front → read_u32_be (front ++ (u32_bytes v ++ back)) i ≡ v
  unfolding read_u32_be
  read_u32_be-digits v i h e = rw (get_next (u32_bytes v ++ back) i 0 (omega arith)) (
      rw (get_next (u32_bytes v ++ back) (i + 1) 1 (omega arith)) (
        rw (get_next (u32_bytes v ++ back) (i + 2) 2 (omega arith)) (
          rw (get_next (u32_bytes v ++ back) (i + 3) 3 (omega arith)) (
            omega (
              arith,
              join32 (v / 2 ^ 24 % 256) (v / 2 ^ 16 % 256) (v / 2 ^ 8 % 256) (v % 256) (omega arith)
                  (omega arith) (omega arith) (omega arith),
            )))))

  pub read_u64_be-digits :
      (v i : ℕ) → IsU64 v → i ≡ length front → read_u64_be (front ++ (u64_bytes v ++ back)) i ≡ v
  unfolding read_u64_be
  read_u64_be-digits v i h e = rw (get_next (u64_bytes v ++ back) i 0 (omega arith)) (
      rw (get_next (u64_bytes v ++ back) (i + 1) 1 (omega arith)) (
        rw (get_next (u64_bytes v ++ back) (i + 2) 2 (omega arith)) (
          rw (get_next (u64_bytes v ++ back) (i + 3) 3 (omega arith)) (
            rw (get_next (u64_bytes v ++ back) (i + 4) 4 (omega arith)) (
              rw (get_next (u64_bytes v ++ back) (i + 5) 5 (omega arith)) (
                rw (get_next (u64_bytes v ++ back) (i + 6) 6 (omega arith)) (
                  rw (get_next (u64_bytes v ++ back) (i + 7) 7 (omega arith)) (
                    omega (
                      arith,
                      join64 (v / 2 ^ 56 % 256) (v / 2 ^ 48 % 256) (v / 2 ^ 40 % 256)
                          (v / 2 ^ 32 % 256) (v / 2 ^ 24 % 256) (v / 2 ^ 16 % 256) (v / 2 ^ 8 % 256)
                          (v % 256) (omega arith) (omega arith) (omega arith) (omega arith)
                          (omega arith) (omega arith) (omega arith) (omega arith),
                    )))))))))

  pub write_u64_be-digits :
      (a b c d e f g h i v : ℕ)
      → i ≡ length front
      → write_u64_be (front ++ (a ∷ b ∷ c ∷ d ∷ e ∷ f ∷ g ∷ h ∷ back)) i v
        ≡ front ++ (u64_bytes v ++ back)
  unfolding write_u64_be
  write_u64_be-digits a b c d e f g h i v p = rw (
    set_next (a ∷ b ∷ c ∷ d ∷ e ∷ f ∷ g ∷ h ∷ back) i 0 _ _ (omega arith) (low_byte (v / 2 ^ 56)),
    set_next (v / 2 ^ 56 % 256 ∷ b ∷ c ∷ d ∷ e ∷ f ∷ g ∷ h ∷ back) (i + 1) 1 _ _ (omega arith)
        (low_byte (v / 2 ^ 48)),
    set_next (v / 2 ^ 56 % 256 ∷ v / 2 ^ 48 % 256 ∷ c ∷ d ∷ e ∷ f ∷ g ∷ h ∷ back) (i + 2) 2 _ _
        (omega arith) (low_byte (v / 2 ^ 40)),
    set_next (v / 2 ^ 56 % 256 ∷ v / 2 ^ 48 % 256 ∷ v / 2 ^ 40 % 256 ∷ d ∷ e ∷ f ∷ g ∷ h ∷ back)
        (i + 3) 3 _ _ (omega arith) (low_byte (v / 2 ^ 32)),
    set_next
        (v / 2 ^ 56 % 256
          ∷ v / 2 ^ 48 % 256
          ∷ v / 2 ^ 40 % 256
          ∷ v / 2 ^ 32 % 256
          ∷ e
          ∷ f
          ∷ g
          ∷ h
          ∷ back)
        (i + 4) 4 _ _ (omega arith) (low_byte (v / 2 ^ 24)),
    set_next
        (v / 2 ^ 56 % 256
          ∷ v / 2 ^ 48 % 256
          ∷ v / 2 ^ 40 % 256
          ∷ v / 2 ^ 32 % 256
          ∷ v / 2 ^ 24 % 256
          ∷ f
          ∷ g
          ∷ h
          ∷ back)
        (i + 5) 5 _ _ (omega arith) (low_byte (v / 2 ^ 16)),
    set_next
        (v / 2 ^ 56 % 256
          ∷ v / 2 ^ 48 % 256
          ∷ v / 2 ^ 40 % 256
          ∷ v / 2 ^ 32 % 256
          ∷ v / 2 ^ 24 % 256
          ∷ v / 2 ^ 16 % 256
          ∷ g
          ∷ h
          ∷ back)
        (i + 6) 6 _ _ (omega arith) (low_byte (v / 2 ^ 8)),
    set_next
        (v / 2 ^ 56 % 256
          ∷ v / 2 ^ 48 % 256
          ∷ v / 2 ^ 40 % 256
          ∷ v / 2 ^ 32 % 256
          ∷ v / 2 ^ 24 % 256
          ∷ v / 2 ^ 16 % 256
          ∷ v / 2 ^ 8 % 256
          ∷ h
          ∷ back)
        (i + 7) 7 _ _ (omega arith) (low_byte v),
  )
