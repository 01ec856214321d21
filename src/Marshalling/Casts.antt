-- ===== src/Marshalling/Casts.antt =====
-- `bool`, the signed integers and the floating point numbers as fields, by those that they are cast to.
use umsg.Base.{
  ℕ, ◌+◌, ◌%◌, ◌^◌, ◌<◌, ◌≡◌, refl, ap, ◌∙◌, arith, Bool, true, false, Option, none, some, List, [],
  ◌∷◌, IsByte, IsU32, IsU64, if◌then◌else◌,
}
use umsg.Base.Int.{ℤ, pos, negsuc, IsSigned}
use umsg.Marshalling.Words.{u16_bytes, u32_bytes, u64_bytes}
use umsg.Marshalling.Cursor.{Writer, Reader, check_bool, write_bool, read_bool}
use umsg.Marshalling.Signed.{
  cast, to_unsigned, to_signed, write_i8, write_i16, write_i32, write_i64, write_float,
  write_double, read_i8, read_i16, read_i32, read_i64, read_float, read_double,
}
use umsg.Marshalling.Fields.{
  IsField, write_u8-IsField, write_u16-IsField, write_u32-IsField, write_u64-IsField,
}

module _ {A B : Type 0} {write : Writer → A → Bool × Writer} {read : Reader → Option A × Reader}
    {layout : A → List ℕ} {n : ℕ} {Valid : A → Type 0}
    (field : IsField write read layout n Valid) where
  -- A cast to a type of fields, and back.
  cast-IsField :
      (to : B → A) (from : Option A × Reader → Option B × Reader) (Valid' : B → Type 0)
      → ((b : B) → Valid' b → Valid (to b))
      → ((b : B) (r : Reader) → Valid' b → from (some (to b), r) ≡ (some b, r))
      → ((r : Reader) → from (none, r) ≡ (none, r))
      → IsField (λ w b. write w (to b)) (λ r. from (read r)) (λ b. layout (to b)) n Valid'
  cast-IsField to from Valid' valid back_again nothing = record {
    layout_size = λ b. field.layout_size (to b);
    writes = λ b front gap back size h g room.
        field.writes (to b) front gap back size (valid b h) g room;
    refuses = λ b bytes size index full. field.refuses (to b) bytes size index full;
    reads = λ b front back size h room.
        ap from (field.reads (to b) front back size (valid b h) room) ∙ back_again b _ h;
    ends = λ bytes size index full. ap from (field.ends bytes size index full) ∙ nothing _;
  }

pub write_bool-IsField :
    IsField write_bool read_bool (λ v. (if v then 1 else 0) ∷ []) 1 (λ v. Unit {0})
unfolding write_bool read_bool check_bool
write_bool-IsField =
    cast-IsField write_u8-IsField (λ v. if v then 1 else 0) check_bool (λ v. Unit {0}) is_byte
      (λ b r h. checked b r) (λ r. refl)
  where
    is_byte : (v : Bool) → Unit {0} → IsByte (if v then 1 else 0)
    is_byte true h = omega arith
    is_byte false h = omega arith

    checked : (v : Bool) (r : Reader) → check_bool (some (if v then 1 else 0), r) ≡ (some v, r)
    checked true r = refl
    checked false r = refl

-- A signed integer of `2 * half` values and its bit pattern.
to_unsigned-lt : (half : ℕ) (v : ℤ) → IsSigned half v → to_unsigned (half + half) v < half + half
unfolding to_unsigned
to_unsigned-lt half (pos n) h = grind arith
to_unsigned-lt half (negsuc n) h = omega arith

to_signed-to_unsigned :
    (half : ℕ) (v : ℤ) → IsSigned half v → to_signed half (to_unsigned (half + half) v) ≡ v
unfolding to_unsigned to_signed
to_signed-to_unsigned half (pos n) h =
    rw (let e : n % (half + half) ≡ n = grind arith in e) (ground arith)
to_signed-to_unsigned half (negsuc n) h =
    rw (let e : n % (half + half) ≡ n = grind arith in e) (ground arith)

module _ {write : Writer → ℕ → Bool × Writer} {read : Reader → Option ℕ × Reader}
    {layout : ℕ → List ℕ} {n : ℕ} {Valid : ℕ → Type 0}
    (field : IsField write read layout n Valid) where
  half_range-IsField :
      (half : ℕ)
      → ((u : ℕ) → u < half + half → Valid u)
      → IsField
          (λ w v. write w (to_unsigned (half + half) v))
          (λ r. cast (to_signed half) (read r))
          (λ v. layout (to_unsigned (half + half) v))
          n
          (IsSigned half)
  half_range-IsField half valid =
      cast-IsField field (to_unsigned (half + half)) (cast (to_signed half)) (IsSigned half)
        (λ v h. valid _ (to_unsigned-lt half v h))
        (λ v r h. ap (λ z. (some z, r)) (to_signed-to_unsigned half v h)) (λ r. refl)

pub write_i8-IsField :
    IsField write_i8 read_i8 (λ v. to_unsigned (2 ^ 8) v ∷ []) 1 (IsSigned (2 ^ 7))
unfolding write_i8 read_i8
write_i8-IsField = half_range-IsField write_u8-IsField (2 ^ 7) (λ u h. h)

pub write_i16-IsField :
    IsField write_i16 read_i16 (λ v. u16_bytes (to_unsigned (2 ^ 16) v)) 2 (IsSigned (2 ^ 15))
unfolding write_i16 read_i16
write_i16-IsField = half_range-IsField write_u16-IsField (2 ^ 15) (λ u h. h)

pub write_i32-IsField :
    IsField write_i32 read_i32 (λ v. u32_bytes (to_unsigned (2 ^ 32) v)) 4 (IsSigned (2 ^ 31))
unfolding write_i32 read_i32
write_i32-IsField = half_range-IsField write_u32-IsField (2 ^ 31) (λ u h. h)

pub write_i64-IsField :
    IsField write_i64 read_i64 (λ v. u64_bytes (to_unsigned (2 ^ 64) v)) 8 (IsSigned (2 ^ 63))
unfolding write_i64 read_i64
write_i64-IsField = half_range-IsField write_u64-IsField (2 ^ 63) (λ u h. h)

pub write_float-IsField :
    IsField write_float read_float (λ v. u32_bytes v.bits) 4 (λ v. IsU32 v.bits)
unfolding write_float read_float
write_float-IsField =
    cast-IsField write_u32-IsField (λ v. v.bits) (cast (λ u. record { bits = u }))
      (λ v. IsU32 v.bits) (λ v h. h) (λ v r h. refl) (λ r. refl)

pub write_double-IsField :
    IsField write_double read_double (λ v. u64_bytes v.bits) 8 (λ v. IsU64 v.bits)
unfolding write_double read_double
write_double-IsField =
    cast-IsField write_u64-IsField (λ v. v.bits) (cast (λ u. record { bits = u }))
      (λ v. IsU64 v.bits) (λ v h. h) (λ v r h. refl) (λ r. refl)
