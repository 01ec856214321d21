-- ===== src/Marshalling/Cursor.antt =====
-- `Writer` and `Reader` of src/umsg/marshalling.hpp, for the unsigned integers and `bool`. The result
-- `false` of the reader is `none`; what was not set is not returned.
use umsg.Base.{
  ℕ, ◌+◌, ◌==◌, leb, ltb, not, if◌then◌else◌, ◌&&◌, Bool, true, false, Option, none, some, List,
  set,
}
use umsg.Common.{Pointer, ByteSpan, is_null}
use umsg.Marshalling.{
  byte_at, read_u16_be, read_u32_be, read_u64_be, write_u16_be, write_u32_be, write_u64_be,
}

pub record Writer : Type 0 where
  pub out : ByteSpan
  pub index : ℕ

pub record Reader : Type 0 where
  pub input : ByteSpan
  pub index : ℕ

unfoldable pub has_space : Writer → ℕ → Bool
has_space w n = if is_null w.out.data_ptr then false else leb (w.index + n) w.out.length

-- The change of the memory behind a pointer.
abbrev pub store : (List ℕ → List ℕ) → Pointer → Pointer
store f none = none
store f (some bytes) = some (f bytes)

-- What the functions `write` of the integers share: the size, and the write at the index.
unfoldable pub advance : Writer → ℕ → (List ℕ → List ℕ) → Bool × Writer
advance w n f = if not (has_space w n) then (false, w) else (
  true,
  record {
    out = record { data_ptr = store f w.out.data_ptr; length = w.out.length };
    index = w.index + n;
  },
)

unfoldable pub write_u8 : Writer → ℕ → Bool × Writer
unfolding advance
write_u8 w value = advance w 1 (λ bytes. set bytes w.index value)

unfoldable pub write_u16 : Writer → ℕ → Bool × Writer
unfolding advance
write_u16 w value = advance w 2 (λ bytes. write_u16_be bytes w.index value)

unfoldable pub write_u32 : Writer → ℕ → Bool × Writer
unfolding advance
write_u32 w value = advance w 4 (λ bytes. write_u32_be bytes w.index value)

unfoldable pub write_u64 : Writer → ℕ → Bool × Writer
unfolding advance
write_u64 w value = advance w 8 (λ bytes. write_u64_be bytes w.index value)

unfoldable pub write_bool : Writer → Bool → Bool × Writer
unfolding write_u8
write_bool w value = write_u8 w (if value then 1 else 0)

unfoldable pub has_input : Reader → ℕ → Bool
has_input r n =
    if is_null r.input.data_ptr && not (r.input.length == 0)
    then false
    else leb (r.index + n) r.input.length

-- What the functions `read` of the integers share; `at_index` reads from the memory. `none` is the
-- result `false`, which leaves the output as it was; the reader may have moved on.
unfoldable pub fetch : Reader → ℕ → (List ℕ → ℕ) → Option ℕ × Reader
fetch r n at_index = if not (has_input r n) then (none, r) else elim (r.input.data_ptr) [
  | none ↦ (none, r)
  | some bytes ↦ (some (at_index bytes), record r { index = r.index + n })
]

unfoldable pub read_u8 : Reader → Option ℕ × Reader
unfolding fetch
read_u8 r = fetch r 1 (λ bytes. byte_at bytes r.index)

unfoldable pub read_u16 : Reader → Option ℕ × Reader
unfolding fetch
read_u16 r = fetch r 2 (λ bytes. read_u16_be bytes r.index)

unfoldable pub read_u32 : Reader → Option ℕ × Reader
unfolding fetch
read_u32 r = fetch r 4 (λ bytes. read_u32_be bytes r.index)

unfoldable pub read_u64 : Reader → Option ℕ × Reader
unfolding fetch
read_u64 r = fetch r 8 (λ bytes. read_u64_be bytes r.index)

-- A byte above 1 is consumed, and refused.
unfoldable pub check_bool : Option ℕ × Reader → Option Bool × Reader
check_bool (none, r) = (none, r)
check_bool (some b, r) = if ltb 1 b then (none, r) else (some (b == 1), r)

unfoldable pub read_bool : Reader → Option Bool × Reader
unfolding read_u8 check_bool
read_bool r = check_bool (read_u8 r)

unfoldable pub fully_consumed : Reader → Bool
fully_consumed r = r.index == r.input.length
