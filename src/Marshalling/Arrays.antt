-- ===== src/Marshalling/Arrays.antt =====
-- Arrays of fields, written and read back.
use umsg.Base.{
  ℕ, suc, ◌+◌, ◌-◌, ◌≤◌, ◌<◌, ◌≡◌, refl, sym, ap, ap₂, ◌∙◌, arith, Bool, true, false, Option, none,
  some, List, [], ◌∷◌, ◌++◌, append_assoc, length, length-append, length-take, length-drop, take,
  drop, take-append-drop, set, set-middle, All,
}
use umsg.Base.{◌⊎◌, inl, inr}
use native.Mathlib.Decide.{dec_lt}
use umsg.Marshalling.Cursor.{Writer, Reader}
use umsg.Marshalling.Array.{write_all, write_array, read_all, read_array}
use umsg.Marshalling.Fields.{IsField, writer_at, reader_at}

take_all {ℓ} : {A : Type ℓ} (xs : List A) → take (length xs) xs ≡ xs
take_all [] = refl
take_all (x ∷ xs) = ap (λ t. x ∷ t) (take_all xs)

-- The bytes of the elements, one behind the other.
pub layouts : {A : Type 0} → (A → List ℕ) → List A → List ℕ
layouts layout [] = []
layouts layout (v ∷ values) = layout v ++ layouts layout values

module _ {A : Type 0} {write : Writer → A → Bool × Writer} {read : Reader → Option A × Reader}
    {layout : A → List ℕ} {n : ℕ} {Valid : A → Type 0}
    (field : IsField write read layout n Valid) where
  length-layouts :
      (v : A) (values : List A)
      → length (layouts layout (v ∷ values)) ≡ n + length (layouts layout values)
  unfolding layouts
  length-layouts v values =
      omega (arith, length-append (layout v) (layouts layout values), field.layout_size v)

  write_all-next :
      (w w' : Writer) (v : A) (values : List A)
      → write w v ≡ (true, w')
      → write_all write w (v ∷ values) ≡ write_all write w' values
  unfolding write_all
  write_all-next w w' v values e =
      ap
        (λ (p : Bool × Writer). elim (p.0) [
          | true ↦ write_all write (p.1) values
          | false ↦ (false, p.1)
        ])
        e

  write_all-stop :
      (w w' : Writer) (v : A) (values : List A)
      → write w v ≡ (false, w')
      → (write_all write w (v ∷ values)).0 ≡ false
  unfolding write_all
  write_all-stop w w' v values e =
      ap
        (λ (p : Bool × Writer).
          (let r : Bool × Writer = elim (p.0) [
            | true ↦ write_all write (p.1) values
            | false ↦ (false, p.1)
          ] in
            r.0))
        e

  -- With room for them, the elements are written one behind the other.
  write_all-layouts :
      (values : List A) (front gap back : List ℕ) (size index : ℕ)
      → index ≡ length front
      → All Valid values
      → length gap ≡ length (layouts layout values)
      → index + length gap ≤ size
      → write_all write (writer_at (front ++ (gap ++ back)) size index) values
        ≡ (true, writer_at (front ++ (layouts layout values ++ back)) size (index + length gap))
  unfolding write_all layouts
  write_all-layouts [] front [] back size index here h g room =
      ap (λ k. (true, writer_at (front ++ back) size k))
        (let e : index ≡ index + 0 = omega arith in e)
  write_all-layouts [] front (b ∷ gap) back size index here h g room = absurd (omega arith)
  write_all-layouts (v ∷ values) front gap back size index here h g room =
      let total = length-layouts v values in
      let first : length (take n gap) ≡ n = omega (arith, length-take n gap, g, total) in
      let rest : length (drop n gap) ≡ length (layouts layout values) =
        omega (arith, length-drop n gap, g, total) in
      let grown : length (front ++ layout v) ≡ length front + n =
        omega (arith, length-append front (layout v), field.layout_size v) in
      ap₂ (λ m k. write_all write (writer_at (front ++ m) size k) (v ∷ values))
        (ap (λ t. t ++ back) (sym (take-append-drop n gap))
          ∙ append_assoc (take n gap) (drop n gap) back)
        here
      ∙ write_all-next _ _ v values (
          field.writes v front (take n gap) (drop n gap ++ back) size h.0 first
            (omega (arith, g, total)))
      ∙ ap (λ m. write_all write (writer_at m size (length front + n)) values)
          (sym (append_assoc front (layout v) (drop n gap ++ back)))
      ∙ write_all-layouts values (front ++ layout v) (drop n gap) back size (length front + n)
          (sym grown) h.1 rest (omega (arith, g, total, rest))
      ∙ ap₂ (λ m k. (true, writer_at m size k))
          (append_assoc front (layout v) (layouts layout values ++ back)
            ∙ ap (λ t. front ++ t) (sym (append_assoc (layout v) (layouts layout values) back)))
          (omega (arith, g, total, rest))

  -- Without, `writeArray` fails.
  write_all-refused :
      (values : List A) (front back : List ℕ) (size index : ℕ)
      → index ≡ length front
      → size ≤ length front + length back
      → index ≤ size
      → All Valid values
      → size < index + length (layouts layout values)
      → (write_all write (writer_at (front ++ back) size index) values).0 ≡ false
  unfolding layouts
  write_all-refused [] front back size index here inside start h over = absurd (omega arith)
  write_all-refused (v ∷ values) front back size index here inside start h over =
      let total = length-layouts v values in
      elim (dec_lt size (index + n)) [
        | yes full ↦ write_all-stop _ _ v values (field.refuses v (front ++ back) size index full)
        | no enough ↦
            let first : length (take n back) ≡ n = omega (arith, length-take n back) in
            let grown : length (front ++ layout v) ≡ length front + n =
              omega (arith, length-append front (layout v), field.layout_size v) in
            ap (λ r. r.0)
              (ap₂ (λ m k. write_all write (writer_at (front ++ m) size k) (v ∷ values))
                  (sym (take-append-drop n back)) here
                ∙ write_all-next _ _ v values
                    (field.writes v front (take n back) (drop n back) size h.0 first (omega arith))
                ∙ ap (λ m. write_all write (writer_at m size (length front + n)) values)
                    (sym (append_assoc front (layout v) (drop n back))))
            ∙ write_all-refused values (front ++ layout v) (drop n back) size (length front + n)
                (sym grown) (omega (arith, grown, length-drop n back)) (omega arith) h.1
                (omega (arith, total))
      ]

  read_all-next :
      (left i : ℕ) (out : List A) (r r' : Reader) (v : A)
      → read r ≡ (some v, r')
      → read_all read (suc left) i out r ≡ read_all read left (i + 1) (set out i v) r'
  unfolding read_all
  read_all-next left i out r r' v e =
      ap
        (λ (p : Option A × Reader). elim (p.0) [
          | none ↦ (false, out, p.1)
          | some a ↦ read_all read left (i + 1) (set out i a) (p.1)
        ])
        e

  read_all-layouts :
      (values filled todo : List A) (front back : List ℕ) (size index i : ℕ)
      → index ≡ length front
      → i ≡ length filled
      → All Valid values
      → length todo ≡ length values
      → index + length (layouts layout values) ≤ size
      → read_all read
          (length values)
          i
          (filled ++ todo)
          (reader_at (front ++ (layouts layout values ++ back)) size index)
        ≡ (
          true,
          filled ++ values,
          reader_at
              (front ++ (layouts layout values ++ back))
              size
              (index + length (layouts layout values)),
        )
  unfolding read_all layouts
  read_all-layouts [] filled [] front back size index i here place h same room =
      ap (λ k. (true, filled ++ [], reader_at (front ++ back) size k))
        (let e : index ≡ index + 0 = omega arith in e)
  read_all-layouts [] filled (a ∷ todo) front back size index i here place h same room =
      absurd (omega arith)
  read_all-layouts (v ∷ values) filled [] front back size index i here place h same room =
      absurd (omega arith)
  read_all-layouts (v ∷ values) filled (a ∷ todo) front back size index i here place h same room =
      let total = length-layouts v values in
      let grown : length (front ++ layout v) ≡ length front + n =
        omega (arith, length-append front (layout v), field.layout_size v) in
      let apart : front ++ ((layout v ++ layouts layout values) ++ back)
          ≡ front ++ (layout v ++ (layouts layout values ++ back)) =
        ap (λ t. front ++ t) (append_assoc (layout v) (layouts layout values) back) in
      let joined : front ++ (layout v ++ (layouts layout values ++ back))
          ≡ (front ++ layout v) ++ (layouts layout values ++ back) =
        sym (append_assoc front (layout v) (layouts layout values ++ back)) in
      ap₂ (λ m k. read_all read (suc (length values)) i (filled ++ (a ∷ todo)) (reader_at m size k))
        apart here
      ∙ read_all-next (length values) i (filled ++ (a ∷ todo)) _ _ v
          (field.reads v front (layouts layout values ++ back) size h.0 (omega (arith, total)))
      ∙ ap₂ (λ o m. read_all read (length values) (i + 1) o (reader_at m size (length front + n)))
          (set-middle filled a todo i v place ∙ sym (append_assoc filled (v ∷ []) todo)) joined
      ∙ read_all-layouts values (filled ++ (v ∷ [])) todo (front ++ layout v) back size
          (length front + n) (i + 1) (sym grown) (omega (arith, length-append filled (v ∷ []))) h.1
          (omega arith) (omega (arith, total))
      ∙ ap₂ (λ o r. (true, o, r)) (append_assoc filled (v ∷ []) values)
          (ap₂ (λ m k. reader_at m size k) (sym (apart ∙ joined)) (omega (arith, total)))

  write_array-all :
      (w : Writer) (values : List A)
      → write_array write w (some values) (length values) ≡ write_all write w values
  unfolding write_array
  write_array-all w values = ap (write_all write w) (take_all values)

  read_array-all :
      (out : List A) (count : ℕ) (r r' : Reader) (filled : List A) (done : Bool)
      → read_all read count 0 out r ≡ (done, filled, r')
      → read_array read (some out) count r ≡ (done, some filled, r')
  unfolding read_array
  read_array-all out count r r' filled done e = ap (λ p. (p.0, some (p.1), p.2)) e

  -- For any type of fields: with room for the elements, `writeArray` of `count` valid elements
  -- succeeds and moves on by their bytes, and `readArray` of as many at the old index, into an array
  -- of that length, succeeds, fills it with the elements and moves on by as much. Without room
  -- `writeArray` fails.
  pub write_array-read :
      (values out : List A) (bytes : List ℕ) (size index : ℕ)
      → All Valid values
      → length out ≡ length values
      → size ≤ length bytes
      → index ≤ size
      → ((after : List ℕ) × (index + length (layouts layout values) ≤ size)
          × (write_array write (writer_at bytes size index) (some values) (length values)
              ≡ (true, writer_at after size (index + length (layouts layout values))))
          × (read_array read (some out) (length values) (reader_at after size index)
              ≡ (true, some values, reader_at after size (index + length (layouts layout values)))))
        ⊎ ((size < index + length (layouts layout values))
            × ((write_array write (writer_at bytes size index) (some values) (length values)).0
                ≡ false))
  write_array-read values out bytes size index h same inside start =
      let m : ℕ = length (layouts layout values) in
      let front : List ℕ = take index bytes in
      let rest : List ℕ = drop index bytes in
      let here : index ≡ length front = omega (arith, length-take index bytes) in
      let behind : length rest ≡ length bytes - index = omega (arith, length-drop index bytes) in
      let whole : bytes ≡ front ++ rest = sym (take-append-drop index bytes) in
      elim (dec_lt size (index + m)) [
        | yes full ↦ inr (
          full,
          ap (λ b. (write_array write (writer_at b size index) (some values) (length values)).0)
                whole
              ∙ ap (λ r. r.0) (write_array-all (writer_at (front ++ rest) size index) values)
              ∙ write_all-refused values front rest size index here (omega (arith, here, behind))
                  start h full,
        )
        | no enough ↦
            let gap : length (take m rest) ≡ m = omega (arith, length-take m rest, behind) in
            let back : List ℕ = drop m rest in
            inl (
              front ++ (layouts layout values ++ back),
              omega arith,
              ap (λ b. write_array write (writer_at b size index) (some values) (length values))
                    (whole ∙ ap (λ t. front ++ t) (sym (take-append-drop m rest)))
                  ∙ write_array-all (writer_at (front ++ (take m rest ++ back)) size index) values
                  ∙ write_all-layouts values front (take m rest) back size index here h gap
                      (omega (arith, gap))
                  ∙ ap (λ k. (true, writer_at (front ++ (layouts layout values ++ back)) size k))
                      (omega (arith, gap)),
              read_array-all out (length values) _ _ values _ (
                  read_all-layouts values [] out front back size index 0 here refl h same
                    (omega arith)),
            )
      ]
