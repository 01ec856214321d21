-- ===== src/Messages/Codec.antt =====
-- What the fields of a message promise, and what `encode` and `decode` make of it.
use umsg.Base.{
  ℕ, zero, suc, ◌+◌, ◌≤◌, ◌<◌, ◌≡◌, ◌∙◌, ◌⊎◌, inl, inr, refl, sym, ap, ap₂, arith, le→ltb, Bool,
  true, false, Option, some, List, [], ◌∷◌, ◌++◌, append_assoc, length, length-append, length-take,
  length-drop, take, drop, take-append-drop,
}
use native.Mathlib.Decide.{dec_lt}
use umsg.Marshalling.Cursor.{Writer, Reader}
use umsg.Marshalling.Fields.{writer_at, reader_at, IsField}
use umsg.Messages.{then_write, then_read, finish, encode_fields, decode_fields}

-- The fields, `n` bytes of them, are written from the start of a span with room for them, and read
-- back from there. Without room, writing them fails.
pub record IsCodec {M : Type 0} (put : M → Writer → Bool × Writer) (get : Reader → Option M)
    (layout : M → List ℕ) (n : ℕ) (Valid : M → Type 0) : Type 0 where
  pub layout_size : (m : M) → length (layout m) ≡ n
  pub puts :
      (m : M) (memory : List ℕ) (size : ℕ)
      → Valid m
      → n ≤ size
      → size ≤ length memory
      → put m (writer_at memory size 0) ≡ (true, writer_at (layout m ++ drop n memory) size n)
  pub gets :
      (m : M) (back : List ℕ) (size : ℕ)
      → Valid m
      → n ≤ size
      → get (reader_at (layout m ++ back) size 0) ≡ some m
  pub refuses :
      (m : M) (memory : List ℕ) (size : ℕ)
      → Valid m
      → size < n
      → size ≤ length memory
      → (put m (writer_at memory size 0)).0 ≡ false

module _ {A : Type 0} {write : Writer → A → Bool × Writer} {read : Reader → Option A × Reader}
    {layout : A → List ℕ} {n : ℕ} {Valid : A → Type 0}
    (field : IsField write read layout n Valid) where
  module _ (k : ℕ) (front : List ℕ) (here : length front ≡ k) where
    writes_behind :
        (v : A) (rest : List ℕ) (size : ℕ)
        → Valid v
        → k + n ≤ size
        → size ≤ k + length rest
        → write (writer_at (front ++ rest) size k) v
          ≡ (true, writer_at (front ++ (layout v ++ drop n rest)) size (k + n))
    writes_behind v rest size ok room inside =
        ap₂ (λ b i. write (writer_at (front ++ b) size i) v) (sym (take-append-drop n rest))
          (sym here)
        ∙ field.writes v front (take n rest) (drop n rest) size ok
            (omega (arith, length-take n rest)) (omega (arith, here))
        ∙ ap (λ i. (true, writer_at (front ++ (layout v ++ drop n rest)) size (i + n))) here

    reads_behind :
        (v : A) (back : List ℕ) (size : ℕ)
        → Valid v
        → k + n ≤ size
        → read (reader_at (front ++ (layout v ++ back)) size k)
          ≡ (some v, reader_at (front ++ (layout v ++ back)) size (k + n))
    reads_behind v back size ok room =
        ap (λ i. read (reader_at (front ++ (layout v ++ back)) size i)) (sym here)
        ∙ field.reads v front back size ok (omega (arith, here))
        ∙ ap (λ i. (some v, reader_at (front ++ (layout v ++ back)) size (i + n))) here

  writes_first :
      (v : A) (memory : List ℕ) (size : ℕ)
      → Valid v
      → n ≤ size
      → size ≤ length memory
      → write (writer_at memory size 0) v ≡ (true, writer_at (layout v ++ drop n memory) size n)
  writes_first v memory size ok room inside =
      writes_behind 0 [] refl v memory size ok (omega arith) (omega arith)
      ∙ ap (λ i. (true, writer_at (layout v ++ drop n memory) size i)) (omega arith)

  reads_first :
      (v : A) (back : List ℕ) (size : ℕ)
      → Valid v
      → n ≤ size
      → read (reader_at (layout v ++ back) size 0) ≡ (some v, reader_at (layout v ++ back) size n)
  reads_first v back size ok room =
      reads_behind 0 [] refl v back size ok (omega arith)
      ∙ ap (λ i. (some v, reader_at (layout v ++ back) size i)) (omega arith)

  -- A message of one field.
  module _ {M : Type 0} (select : M → A) (build : A → M)
      (same : (m : M) → build (select m) ≡ m) where
    pub one-IsCodec :
        IsCodec
          (λ m w. write w (select m))
          (λ r. then_read (read r) (λ a r'. some (build a)))
          (λ m. layout (select m))
          n
          (λ m. Valid (select m))
    one-IsCodec = record {
      layout_size = λ m. field.layout_size (select m);
      puts = λ m memory size ok room inside. writes_first (select m) memory size ok room inside;
      gets = λ m back size ok room.
          unfold then_read in
          ap (λ p. then_read p (λ a r'. some (build a))) (reads_first (select m) back size ok room)
          ∙ ap some (same m);
      refuses = λ m memory size ok full inside.
          ap (λ p. p.0) (field.refuses (select m) memory size 0 (omega arith));
    }

drop-nil {ℓ} : {A : Type ℓ} (n : ℕ) → drop {A = A} n [] ≡ []
drop-nil zero = refl
drop-nil (suc n) = refl

drop-drop {ℓ} : {A : Type ℓ} (n m : ℕ) (xs : List A) → drop m (drop n xs) ≡ drop (n + m) xs
drop-drop zero m xs = ap (λ k. drop k xs) (let e : m ≡ 0 + m = omega arith in e)
drop-drop (suc n) m [] = drop-nil m ∙ sym (drop-nil (suc n + m))
drop-drop (suc n) m (x ∷ xs) =
    drop-drop n m xs
    ∙ ap (λ k. drop k (x ∷ xs)) (let e : suc (n + m) ≡ suc n + m = omega arith in e)

module _ {M A B : Type 0} {write : Writer → A → Bool × Writer} {read : Reader → Option A × Reader}
    {layout : A → List ℕ} {n : ℕ} {Valid : A → Type 0} {write' : Writer → B → Bool × Writer}
    {read' : Reader → Option B × Reader} {layout' : B → List ℕ} {n' : ℕ} {Valid' : B → Type 0}
    (first : IsField write read layout n Valid) (second : IsField write' read' layout' n' Valid')
    (select : M → A) (select' : M → B) (build : A → B → M)
    (same : (m : M) → build (select m) (select' m) ≡ m) where
  put_both : M → Writer → Bool × Writer
  put_both m w = then_write (write w (select m)) (λ w'. write' w' (select' m))

  two_put :
      (m : M) (memory : List ℕ) (size : ℕ)
      → Valid (select m)
      → n ≤ size
      → size ≤ length memory
      → put_both m (writer_at memory size 0)
        ≡ write' (writer_at (layout (select m) ++ drop n memory) size n) (select' m)
  unfolding then_write put_both
  two_put m memory size ok room inside =
      ap (λ p. then_write p (λ w. write' w (select' m)))
        (writes_first first (select m) memory size ok room inside)

  two_full :
      (m : M) (memory : List ℕ) (size : ℕ)
      → size < n
      → (put_both m (writer_at memory size 0)).0 ≡ false
  unfolding then_write put_both
  two_full m memory size full =
      ap (λ p. (then_write p (λ w. write' w (select' m))).0)
        (first.refuses (select m) memory size 0 (omega arith))

  -- A message of two fields.
  pub two-IsCodec :
      IsCodec
        (λ m w. then_write (write w (select m)) (λ w'. write' w' (select' m)))
        (λ r. then_read (read r) (λ a r'. then_read (read' r') (λ b r''. some (build a b))))
        (λ m. layout (select m) ++ layout' (select' m))
        (n + n')
        (λ m. Valid (select m) × Valid' (select' m))
  unfolding put_both then_read
  two-IsCodec = record {
    layout_size = λ m. omega (
      arith,
      length-append (layout (select m)) (layout' (select' m)),
      first.layout_size (select m),
      second.layout_size (select' m),
    );
    puts = λ m memory size ok room inside.
        two_put m memory size ok.0 (omega arith) inside
        ∙ writes_behind second n (layout (select m)) (first.layout_size (select m)) (select' m)
            (drop n memory) size ok.1 room (omega (arith, length-drop n memory))
        ∙ ap (λ b. (true, writer_at b size (n + n')))
            (sym (append_assoc (layout (select m)) (layout' (select' m)) (drop n' (drop n memory)))
              ∙ ap (λ b. (layout (select m) ++ layout' (select' m)) ++ b) (drop-drop n n' memory));
    gets = λ m back size ok room.
        ap
          (λ b.
            then_read (read (reader_at b size 0))
              (λ a r'. then_read (read' r') (λ b r''. some (build a b))))
          (append_assoc (layout (select m)) (layout' (select' m)) back)
        ∙ ap (λ p. then_read p (λ a r'. then_read (read' r') (λ b r''. some (build a b))))
            (reads_first first (select m) (layout' (select' m) ++ back) size ok.0 (omega arith))
        ∙ ap (λ p. then_read p (λ b r''. some (build (select m) b)))
            (reads_behind second n (layout (select m)) (first.layout_size (select m)) (select' m)
              back size ok.1 room)
        ∙ ap some (same m);
    refuses = λ m memory size ok full inside. elim (dec_lt size n) [
      | yes short ↦ two_full m memory size short
      | no enough ↦
          ap (λ p. p.0)
            (two_put m memory size ok.0 (omega arith) inside
              ∙ second.refuses (select' m) (layout (select m) ++ drop n memory) size n
                  (omega arith))
    ];
  }

finish-failed : (cap : ℕ) (p : Bool × Writer) → p.0 ≡ false → (finish cap p).0 ≡ false
unfolding finish
finish-failed cap (false, w) e = refl
finish-failed cap (true, w) e = absurd (ground (arith, e))

module _ {M : Type 0} {put : M → Writer → Bool × Writer} {get : Reader → Option M}
    {layout : M → List ℕ} {n : ℕ} {Valid : M → Type 0}
    (codec : IsCodec put get layout n Valid) where
  -- With room, `encode` writes the fields to the start of the span, sets its length to theirs, and
  -- `decode` returns the message; without, `encode` fails.
  pub encode-decode :
      (m : M) (memory : List ℕ) (size : ℕ)
      → Valid m
      → size ≤ length memory
      → ((n ≤ size)
          × (encode_fields (put m) (record { data_ptr = some memory; length = size })
              ≡ (true, record { data_ptr = some (layout m ++ drop n memory); length = n }))
          × (decode_fields n get
                (record { data_ptr = some (layout m ++ drop n memory); length = n })
              ≡ some m))
        ⊎ ((size < n)
            × ((encode_fields (put m) (record { data_ptr = some memory; length = size })).0
                ≡ false))
  unfolding encode_fields decode_fields finish
  encode-decode m memory size ok inside = elim (dec_lt size n) [
    | yes full ↦ inr (
      full,
      finish-failed size (put m (writer_at memory size 0))
          (codec.refuses m memory size ok full inside),
    )
    | no enough ↦ inl (
      omega arith,
      ap (finish size) (codec.puts m memory size ok (omega arith) inside)
          ∙ simp (le→ltb size n (omega arith)) refl,
      simp (le→ltb n n (omega arith)) (codec.gets m (drop n memory) n ok (omega arith)),
    )
  ]
