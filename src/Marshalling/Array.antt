-- ===== src/Marshalling/Array.antt =====
-- `Writer::writeArray` and `Reader::readArray`, for any type of elements with a `write` and a `read`.
use umsg.Base.{
  ℕ, zero, suc, ◌+◌, ◌==◌, if◌then◌else◌, Bool, true, false, Option, none, some, List, [], ◌∷◌, set,
  take,
}
use umsg.Marshalling.Cursor.{Writer, Reader}

module _ {A : Type 0} (write : Writer → A → Bool × Writer) where
  -- The loop of `writeArray` over the elements.
  unfoldable pub write_all : Writer → List A → Bool × Writer
  write_all w [] = (true, w)
  write_all w (v ∷ values) =
      let (done, w') = write w v in elim done [ true ↦ write_all w' values | false ↦ (false, w') ]

  -- `none` is the null pointer.
  unfoldable pub write_array : Writer → Option (List A) → ℕ → Bool × Writer
  unfolding write_all
  write_array w none count = if count == 0 then (true, w) else (false, w)
  write_array w (some values) count = write_all w (take count values)

module _ {A : Type 0} (read : Reader → Option A × Reader) where
  -- The loop of `readArray`, with `left` rounds to go from index `i`. What it has read stays in the
  -- output when it fails.
  unfoldable pub read_all : ℕ → ℕ → List A → Reader → Bool × List A × Reader
  read_all zero i out r = (true, out, r)
  read_all (suc left) i out r =
      let (v, r') = read r in
      elim v [ none ↦ (false, out, r') | some a ↦ read_all left (i + 1) (set out i a) r' ]

  unfoldable pub read_array : Option (List A) → ℕ → Reader → Bool × Option (List A) × Reader
  unfolding read_all
  read_array none count r = if count == 0 then (true, none, r) else (false, none, r)
  read_array (some out) count r =
      let (done, filled, r') = read_all count 0 out r in (done, some filled, r')
