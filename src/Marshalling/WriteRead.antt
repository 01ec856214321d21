-- ===== src/Marshalling/WriteRead.antt =====
-- What a `Writer` writes, a `Reader` at the same place returns.
use umsg.Base.{
  ℕ, ◌+◌, ◌≤◌, ◌<◌, ◌≡◌, ◌⊎◌, inl, inr, refl, ap, arith, le→leb, lt→leb, Bool, true, false, Option,
  some, List, length, IsU16, IsU32, IsU64,
}
use umsg.Marshalling.{
  read_u16_be, read_u32_be, read_u64_be, write_u16_be, write_u32_be, write_u64_be,
}
use umsg.Marshalling.RoundTrip.{read_u16_be-write, read_u32_be-write, read_u64_be-write}
use umsg.Marshalling.Cursor.{
  Writer, Reader, has_space, has_input, advance, fetch, write_u16, write_u32, write_u64, read_u16,
  read_u32, read_u64,
}
use native.Mathlib.Decide.{dec_lt}

-- A write of `n` bytes and the read that matches it: without room the write fails and changes
-- nothing; with room it succeeds, moves on by `n`, and the read at the old index returns the value
-- and moves on by `n`.
abbrev pub Returns : ℕ → ℕ → Writer → Bool × Writer → (Reader → Option ℕ × Reader) → Type 0
Returns n value w result read =
    ((w.out.length < w.index + n) × (result ≡ (false, w)))
    ⊎ ((w.index + n ≤ w.out.length)
        × (result.0 ≡ true)
        × (result.1.index ≡ w.index + n)
        × (read (record { input = result.1.out; index = w.index })
            ≡ (some value, record { input = result.1.out; index = w.index + n })))

module _ (bytes : List ℕ) (size index : ℕ) (inside : size ≤ length bytes) where
  abbrev writer : Writer
  writer = record { out = record { data_ptr = some bytes; length = size }; index = index }

  advance-Returns :
      (n value : ℕ) (f : List ℕ → List ℕ) (at_index : List ℕ → ℕ)
      → (index + n ≤ length bytes → at_index (f bytes) ≡ value)
      → Returns n value writer (advance writer n f) (λ r. fetch r n at_index)
  unfolding advance has_space fetch has_input
  advance-Returns n value f at_index same = elim (dec_lt size (index + n)) [
    | yes few ↦ inl (few, simp (lt→leb (index + n) size few) refl)
    | no enough ↦
        let room : index + n ≤ size = omega arith in
        simp (le→leb (index + n) size room) (
          inr (
            room,
            refl,
            refl,
            ap
                (λ v. (
                  some v,
                  record {
                    input = record { data_ptr = some (f bytes); length = size };
                    index = index + n;
                  },
                ))
                (same (omega arith)),
          ))
  ]

  -- On memory of the size given, `write` of a `uint16_t` fails and changes nothing without room for
  -- 2 bytes; with room it succeeds and moves on by 2, and `read` at the old index returns the value
  -- and moves on by 2.
  pub write_u16-Returns : (v : ℕ) → IsU16 v → Returns 2 v writer (write_u16 writer v) read_u16
  unfolding write_u16 read_u16
  write_u16-Returns v h =
      advance-Returns 2 v (λ b. write_u16_be b index v) (λ b. read_u16_be b index)
        (λ room. (read_u16_be-write bytes index v h room).1)

  -- On memory of the size given, `write` of a `uint32_t` fails and changes nothing without room for
  -- 4 bytes; with room it succeeds and moves on by 4, and `read` at the old index returns the value
  -- and moves on by 4.
  pub write_u32-Returns : (v : ℕ) → IsU32 v → Returns 4 v writer (write_u32 writer v) read_u32
  unfolding write_u32 read_u32
  write_u32-Returns v h =
      advance-Returns 4 v (λ b. write_u32_be b index v) (λ b. read_u32_be b index)
        (λ room. (read_u32_be-write bytes index v h room).1)

  -- On memory of the size given, `write` of a `uint64_t` fails and changes nothing without room for
  -- 8 bytes; with room it succeeds and moves on by 8, and `read` at the old index returns the value
  -- and moves on by 8.
  pub write_u64-Returns : (v : ℕ) → IsU64 v → Returns 8 v writer (write_u64 writer v) read_u64
  unfolding write_u64 read_u64
  write_u64-Returns v h =
      advance-Returns 8 v (λ b. write_u64_be b index v) (λ b. read_u64_be b index)
        (λ room. (read_u64_be-write bytes index v h room).1)
