-- ===== src/Crc32/Equivalence.antt =====
-- The two implementations by lookup tables against the default one.
use umsg.Base.{
  length, ℕ, zero, suc, ◌+◌, ◌*◌, ◌/◌, ◌%◌, ◌^◌, ◌<◌, ◌≡◌, refl, sym, ap, ap₂, ◌∙◌, arith,
}
use umsg.Base.{
  ◌==◌, ==→eq, bit_and, bit_xor, Bool, true, ◌&&◌, List, [], ◌∷◌, get_or, IsByte, IsBytes,
}
use umsg.Base.Bits.{bit_and_low4, bit_and_low8, bit_xor_fields, bit_xor_assoc, bit_xor-lt}
use umsg.Crc32.{bit_loop, byte_loop, byte_table_loop, nibble_lookup, nibble_table_loop, initial}
use umsg.Crc32.{crc32_iso_hdlc, crc32_by_byte_table, crc32_by_nibble_table}
use umsg.Crc32.Tables.{crc32_byte_table, crc32_nibble_table}
use native.Mathlib.Nat.{div-add-mod'}
use umsg.Crc32.Linear.{bit_loop_shift, bit_loop-add}

-- The entries of a table, from index `i` on, are the values of a function.
entries_match : (ℕ → ℕ) → ℕ → List ℕ → Bool
entries_match f i [] = true
entries_match f i (entry ∷ table) = (f i == entry) && entries_match f (i + 1) table

entries_match-get_or :
    (f : ℕ → ℕ) (table : List ℕ) (i j : ℕ)
    → entries_match f i table ≡ true
    → j < length table
    → f (i + j) ≡ get_or table j 0
unfolding entries_match
entries_match-get_or f [] i j h inside = absurd (omega arith)
entries_match-get_or f (entry ∷ table) i zero h inside =
    ap f (let e : i + zero ≡ i = omega arith in e) ∙ ==→eq (f i) entry (ground (arith, h))
entries_match-get_or f (entry ∷ table) i (suc j) h inside =
    ap f (let e : i + suc j ≡ i + 1 + j = omega arith in e)
    ∙ entries_match-get_or f table (i + 1) j (ground (arith, h)) (omega arith)

-- Each entry of a table is the loop over the bits, run on its index.
byte_entries : entries_match (bit_loop 8) 0 crc32_byte_table ≡ true
unfolding entries_match crc32_iso_hdlc crc32_byte_table
byte_entries = refl

nibble_entries : entries_match (bit_loop 4) 0 crc32_nibble_table ≡ true
unfolding entries_match crc32_iso_hdlc crc32_nibble_table
nibble_entries = refl

byte_table_size : length crc32_byte_table ≡ 256
unfolding crc32_byte_table
byte_table_size = refl

nibble_table_size : length crc32_nibble_table ≡ 16
unfolding crc32_nibble_table
nibble_table_size = refl

byte_entry : (i : ℕ) → i < 256 → bit_loop 8 i ≡ get_or crc32_byte_table i 0
byte_entry i h =
    ap (bit_loop 8) (let e : i ≡ 0 + i = omega arith in e)
    ∙ entries_match-get_or (bit_loop 8) crc32_byte_table 0 i byte_entries
        (omega (arith, byte_table_size))

nibble_entry : (i : ℕ) → i < 16 → bit_loop 4 i ≡ get_or crc32_nibble_table i 0
nibble_entry i h =
    ap (bit_loop 4) (let e : i ≡ 0 + i = omega arith in e)
    ∙ entries_match-get_or (bit_loop 4) crc32_nibble_table 0 i nibble_entries
        (omega (arith, nibble_table_size))

-- The loop over `k` bits needs no more than the lowest `k` bits of a word.
bit_loop_split :
    (k m x : ℕ) → m ≡ 2 ^ k → x % m < m → bit_loop k x ≡ bit_xor (x / m) (bit_loop k (x % m))
bit_loop_split k m x e h =
    ap (bit_loop k)
      (sym (bit_xor_fields k (x / m) (x % m) (rw (← e) h) ∙ rw (← e) (div-add-mod' x m)))
    ∙ bit_loop_shift k (x / m) (x % m)

byte_lookup : (x : ℕ) → bit_loop 8 x ≡ bit_xor (x / 256) (get_or crc32_byte_table (x % 256) 0)
byte_lookup x =
    bit_loop_split 8 256 x refl (omega arith)
    ∙ ap (bit_xor (x / 256)) (byte_entry (x % 256) (omega arith))

nibble_lookup_lem : (x : ℕ) → nibble_lookup x ≡ bit_loop 4 x
unfolding nibble_lookup
nibble_lookup_lem x =
    ap (λ i. bit_xor (x / 16) (get_or crc32_nibble_table i 0)) (bit_and_low4 x)
    ∙ ap (bit_xor (x / 16)) (sym (nibble_entry (x % 16) (omega arith)))
    ∙ sym (bit_loop_split 4 16 x refl (omega arith))

-- A byte does not reach the bits above it.
high_bits_kept : (crc b : ℕ) → IsByte b → bit_xor crc b / 256 ≡ crc / 256
high_bits_kept crc b h =
    ap (λ t. t / 256)
      (ap (λ t. bit_xor t b)
          (let e : crc ≡ crc / 256 * 2 ^ 8 + crc % 256 = omega arith in
            e ∙ sym (bit_xor_fields 8 (crc / 256) (crc % 256) (omega arith)))
        ∙ bit_xor_assoc (crc / 256 * 2 ^ 8) (crc % 256) b
        ∙ bit_xor_fields 8 (crc / 256) (bit_xor (crc % 256) b) fits)
    ∙ omega (arith, fits)
  where
    fits : bit_xor (crc % 256) b < 256
    fits = bit_xor-lt 8 (crc % 256) b (omega arith) h

byte_table_loop_lem :
    (xs : List ℕ) (crc : ℕ) → IsBytes xs → byte_table_loop xs crc ≡ byte_loop xs crc
unfolding byte_table_loop byte_loop
byte_table_loop_lem [] crc h = refl
byte_table_loop_lem (b ∷ xs) crc h =
    ap (byte_table_loop xs) one_byte ∙ byte_table_loop_lem xs (bit_loop 8 (bit_xor crc b)) h.1
  where
    one_byte :
        bit_xor (crc / 256) (get_or crc32_byte_table (bit_and (bit_xor crc b) 0xFF) 0)
        ≡ bit_loop 8 (bit_xor crc b)
    one_byte =
        ap₂ (λ q i. bit_xor q (get_or crc32_byte_table i 0)) (sym (high_bits_kept crc b h.0))
          (bit_and_low8 (bit_xor crc b))
        ∙ sym (byte_lookup (bit_xor crc b))

nibble_table_loop_lem : (xs : List ℕ) (crc : ℕ) → nibble_table_loop xs crc ≡ byte_loop xs crc
unfolding nibble_table_loop byte_loop
nibble_table_loop_lem [] crc = refl
nibble_table_loop_lem (b ∷ xs) crc =
    ap (nibble_table_loop xs) (
      nibble_lookup_lem (nibble_lookup (bit_xor crc b))
      ∙ ap (bit_loop 4) (nibble_lookup_lem (bit_xor crc b))
      ∙ sym (bit_loop-add 4 4 (bit_xor crc b)))
    ∙ nibble_table_loop_lem xs (bit_loop 8 (bit_xor crc b))

-- On every sequence of bytes the implementation with the table of 256 entries returns the checksum
-- of the default implementation, and so does the one with the table of 16 entries.
pub crc32_tables_agree :
    (input : List ℕ)
    → IsBytes input
    → (crc32_by_byte_table input ≡ crc32_iso_hdlc input)
      × (crc32_by_nibble_table input ≡ crc32_iso_hdlc input)
crc32_tables_agree input h = (
  unfold crc32_by_byte_table crc32_iso_hdlc in
      ap (λ t. bit_xor t 0xFFFFFFFF) (byte_table_loop_lem input initial h),
  unfold crc32_by_nibble_table crc32_iso_hdlc in
      ap (λ t. bit_xor t 0xFFFFFFFF) (nibble_table_loop_lem input initial),
)
