-- ===== src/Marshalling/Fields.antt =====
-- What a pair of overloads `Writer::write` and `Reader::read` promises about a type of fields, and
-- that each pair keeps it.
use umsg.Base.{
  ℕ, ◌+◌, ◌≤◌, ◌<◌, ◌≡◌, refl, ap, ◌∙◌, arith, le→leb, lt→leb, Bool, true, false, Option, none,
  some, List, [], ◌∷◌, ◌++◌, length, set, set-middle, get_or-middle, IsByte, IsU16, IsU32, IsU64,
}
use umsg.Marshalling.{
  read_u16_be, read_u32_be, read_u64_be, write_u16_be, write_u32_be, write_u64_be, byte_at,
}
use umsg.Marshalling.Words.{
  u16_bytes, u32_bytes, u64_bytes, write_u16_be-digits, write_u32_be-digits, write_u64_be-digits,
}
use umsg.Marshalling.Words.{read_u16_be-digits, read_u32_be-digits, read_u64_be-digits}
use umsg.Marshalling.Cursor.{Writer, Reader, has_space, has_input, advance, fetch}
use umsg.Marshalling.Cursor.{
  write_u8, write_u16, write_u32, write_u64, read_u8, read_u16, read_u32, read_u64,
}

abbrev pub writer_at : List ℕ → ℕ → ℕ → Writer
writer_at bytes size index = record {
  out = record { data_ptr = some bytes; length = size };
  index = index;
}

abbrev pub reader_at : List ℕ → ℕ → ℕ → Reader
reader_at bytes size index = record {
  input = record { data_ptr = some bytes; length = size };
  index = index;
}

-- `layout` is the bytes of a value, `n` of them. With room, a write puts them in the place of what
-- was there, and a read that finds them returns the value; both move on by `n`. Without, both fail.
pub record IsField {A : Type 0} (write : Writer → A → Bool × Writer)
    (read : Reader → Option A × Reader) (layout : A → List ℕ) (n : ℕ) (Valid : A → Type 0)
    : Type 0 where
  pub layout_size : (v : A) → length (layout v) ≡ n
  pub writes :
      (v : A) (front gap back : List ℕ) (size : ℕ)
      → Valid v
      → length gap ≡ n
      → length front + n ≤ size
      → write (writer_at (front ++ (gap ++ back)) size (length front)) v
        ≡ (true, writer_at (front ++ (layout v ++ back)) size (length front + n))
  pub refuses :
      (v : A) (bytes : List ℕ) (size index : ℕ)
      → size < index + n
      → write (writer_at bytes size index) v ≡ (false, writer_at bytes size index)
  pub reads :
      (v : A) (front back : List ℕ) (size : ℕ)
      → Valid v
      → length front + n ≤ size
      → read (reader_at (front ++ (layout v ++ back)) size (length front))
        ≡ (some v, reader_at (front ++ (layout v ++ back)) size (length front + n))
  pub ends :
      (bytes : List ℕ) (size index : ℕ)
      → size < index + n
      → read (reader_at bytes size index) ≡ (none, reader_at bytes size index)

module _ (bytes : List ℕ) (size index n : ℕ) where
  advance-room :
      (f : List ℕ → List ℕ)
      → index + n ≤ size
      → advance (writer_at bytes size index) n f ≡ (true, writer_at (f bytes) size (index + n))
  unfolding advance has_space
  advance-room f h = simp (le→leb (index + n) size h) refl

  advance-full :
      (f : List ℕ → List ℕ)
      → size < index + n
      → advance (writer_at bytes size index) n f ≡ (false, writer_at bytes size index)
  unfolding advance has_space
  advance-full f h = simp (lt→leb (index + n) size h) refl

  fetch-room :
      (f : List ℕ → ℕ)
      → index + n ≤ size
      → fetch (reader_at bytes size index) n f ≡ (some (f bytes), reader_at bytes size (index + n))
  unfolding fetch has_input
  fetch-room f h = simp (le→leb (index + n) size h) refl

  fetch-end :
      (f : List ℕ → ℕ)
      → size < index + n
      → fetch (reader_at bytes size index) n f ≡ (none, reader_at bytes size index)
  unfolding fetch has_input
  fetch-end f h = simp (lt→leb (index + n) size h) refl

-- Writing through `advance` and reading through `fetch` is a field, where the access to the memory
-- at an index writes and reads the layout.
advance-IsField :
    (put : List ℕ → ℕ → ℕ → List ℕ) (get : List ℕ → ℕ → ℕ) (layout : ℕ → List ℕ) (n : ℕ)
    (Valid : ℕ → Type 0)
    → ((v : ℕ) → length (layout v) ≡ n)
    → ((v : ℕ) (front gap back : List ℕ)
        → Valid v
        → length gap ≡ n
        → put (front ++ (gap ++ back)) (length front) v ≡ front ++ (layout v ++ back))
    → ((v : ℕ) (front back : List ℕ)
        → Valid v
        → get (front ++ (layout v ++ back)) (length front) ≡ v)
    → IsField
        (λ w v. advance w n (λ bytes. put bytes w.index v))
        (λ r. fetch r n (λ bytes. get bytes r.index))
        layout
        n
        Valid
advance-IsField put get layout n Valid size_of puts gets = record {
  layout_size = size_of;
  writes = λ v front gap back size h g room.
      advance-room (front ++ (gap ++ back)) size (length front) n (λ b. put b (length front) v) room
      ∙ ap (λ b. (true, writer_at b size (length front + n))) (puts v front gap back h g);
  refuses = λ v bytes size index full. advance-full bytes size index n (λ b. put b index v) full;
  reads = λ v front back size h room.
      fetch-room (front ++ (layout v ++ back)) size (length front) n (λ b. get b (length front))
        room
      ∙ ap (λ u. (some u, reader_at (front ++ (layout v ++ back)) size (length front + n)))
          (gets v front back h);
  ends = λ bytes size index full. fetch-end bytes size index n (λ b. get b index) full;
}

-- The memory at an index.
set-gap :
    (v : ℕ) (front gap back : List ℕ)
    → length gap ≡ 1
    → set (front ++ (gap ++ back)) (length front) v ≡ front ++ ((v ∷ []) ++ back)
set-gap v front (g ∷ []) back h = set-middle front g back (length front) v refl
set-gap v front gap back h = absurd (omega arith)

write_u16_be-gap :
    (v : ℕ) (front gap back : List ℕ)
    → length gap ≡ 2
    → write_u16_be (front ++ (gap ++ back)) (length front) v ≡ front ++ (u16_bytes v ++ back)
write_u16_be-gap v front (a ∷ b ∷ []) back h = write_u16_be-digits front back a b _ v refl
write_u16_be-gap v front gap back h = absurd (omega arith)

write_u32_be-gap :
    (v : ℕ) (front gap back : List ℕ)
    → length gap ≡ 4
    → write_u32_be (front ++ (gap ++ back)) (length front) v ≡ front ++ (u32_bytes v ++ back)
write_u32_be-gap v front (a ∷ b ∷ c ∷ d ∷ []) back h =
    write_u32_be-digits front back a b c d _ v refl
write_u32_be-gap v front gap back h = absurd (omega arith)

write_u64_be-gap :
    (v : ℕ) (front gap back : List ℕ)
    → length gap ≡ 8
    → write_u64_be (front ++ (gap ++ back)) (length front) v ≡ front ++ (u64_bytes v ++ back)
write_u64_be-gap v front (a ∷ b ∷ c ∷ d ∷ e ∷ f ∷ g ∷ i ∷ []) back h =
    write_u64_be-digits front back a b c d e f g i _ v refl
write_u64_be-gap v front gap back h = absurd (omega arith)

-- The unsigned integers.
pub write_u8-IsField : IsField write_u8 read_u8 (λ v. v ∷ []) 1 IsByte
unfolding write_u8 read_u8
write_u8-IsField =
    advance-IsField set byte_at (λ v. v ∷ []) 1 IsByte (λ v. refl)
      (λ v front gap back h g. set-gap v front gap back g)
      (λ v front back h. get_or-middle front v back (length front) 0 refl)

pub write_u16-IsField : IsField write_u16 read_u16 u16_bytes 2 IsU16
unfolding write_u16 read_u16
write_u16-IsField =
    advance-IsField write_u16_be read_u16_be u16_bytes 2 IsU16 (λ v. refl)
      (λ v front gap back h g. write_u16_be-gap v front gap back g)
      (λ v front back h. read_u16_be-digits front back v (length front) h refl)

pub write_u32-IsField : IsField write_u32 read_u32 u32_bytes 4 IsU32
unfolding write_u32 read_u32
write_u32-IsField =
    advance-IsField write_u32_be read_u32_be u32_bytes 4 IsU32 (λ v. refl)
      (λ v front gap back h g. write_u32_be-gap v front gap back g)
      (λ v front back h. read_u32_be-digits front back v (length front) h refl)

pub write_u64-IsField : IsField write_u64 read_u64 u64_bytes 8 IsU64
unfolding write_u64 read_u64
write_u64-IsField =
    advance-IsField write_u64_be read_u64_be u64_bytes 8 IsU64 (λ v. refl)
      (λ v front gap back h g. write_u64_be-gap v front gap back g)
      (λ v front back h. read_u64_be-digits front back v (length front) h refl)
