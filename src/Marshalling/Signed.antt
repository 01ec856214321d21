-- ===== src/Marshalling/Signed.antt =====
-- The signed integers and the floating point numbers of src/umsg/marshalling.hpp: a `static_cast` or
-- a `bit_cast` between them and the unsigned integers of the same width, around `write` and `read`.
use umsg.Base.{ℕ, ◌+◌, ◌-◌, ◌%◌, ◌^◌, ltb, if◌then◌else◌, Bool, Option}
use umsg.Base.Int.{ℤ, pos, negsuc}
use mathlib.Core.Option
use umsg.Marshalling.Cursor.{
  Writer, Reader, write_u8, write_u16, write_u32, write_u64, read_u8, read_u16, read_u32, read_u64,
}

-- `static_cast` of a number to an unsigned type with `m` values.
unfoldable pub to_unsigned : ℕ → ℤ → ℕ
to_unsigned m (pos n) = n % m
to_unsigned m (negsuc n) = m - 1 - n % m

-- `bit_cast` to the signed type with as many negative values, `half`, as others.
unfoldable pub to_signed : ℕ → ℕ → ℤ
to_signed half u = if ltb u half then pos u else negsuc (half + half - 1 - u)

-- `float` and `double` are the bits that `bit_cast` copies.
pub record Float : Type 0 where
  pub bits : ℕ

pub record Double : Type 0 where
  pub bits : ℕ

-- A `bit_cast` of what an unsigned `read` has read.
abbrev pub cast : {A : Type 0} → (ℕ → A) → Option ℕ × Reader → Option A × Reader
cast f (o, r) = (Option.map f o, r)

unfoldable pub write_i8 : Writer → ℤ → Bool × Writer
unfolding write_u8
write_i8 w value = write_u8 w (to_unsigned (2 ^ 8) value)

unfoldable pub write_i16 : Writer → ℤ → Bool × Writer
unfolding write_u16
write_i16 w value = write_u16 w (to_unsigned (2 ^ 16) value)

unfoldable pub write_i32 : Writer → ℤ → Bool × Writer
unfolding write_u32
write_i32 w value = write_u32 w (to_unsigned (2 ^ 32) value)

unfoldable pub write_i64 : Writer → ℤ → Bool × Writer
unfolding write_u64
write_i64 w value = write_u64 w (to_unsigned (2 ^ 64) value)

unfoldable pub write_float : Writer → Float → Bool × Writer
unfolding write_u32
write_float w value = write_u32 w value.bits

unfoldable pub write_double : Writer → Double → Bool × Writer
unfolding write_u64
write_double w value = write_u64 w value.bits

unfoldable pub read_i8 : Reader → Option ℤ × Reader
unfolding read_u8
read_i8 r = cast (to_signed (2 ^ 7)) (read_u8 r)

unfoldable pub read_i16 : Reader → Option ℤ × Reader
unfolding read_u16
read_i16 r = cast (to_signed (2 ^ 15)) (read_u16 r)

unfoldable pub read_i32 : Reader → Option ℤ × Reader
unfolding read_u32
read_i32 r = cast (to_signed (2 ^ 31)) (read_u32 r)

unfoldable pub read_i64 : Reader → Option ℤ × Reader
unfolding read_u64
read_i64 r = cast (to_signed (2 ^ 63)) (read_u64 r)

unfoldable pub read_float : Reader → Option Float × Reader
unfolding read_u32
read_float r = cast (λ u. record { bits = u }) (read_u32 r)

unfoldable pub read_double : Reader → Option Double × Reader
unfolding read_u64
read_double r = cast (λ u. record { bits = u }) (read_u64 r)
