-- ===== src/Cobs/Encoder.antt =====
-- `cobsEncode2` against the format: the encoder writes the encoding of its two inputs, one after the
-- other, exactly when that fits the capacity.
use umsg.Base.{ℕ, suc, ◌+◌, ◌≤◌, ◌<◌, ◌≡◌, ◌≢◌, refl, sym, ap, ◌∙◌, arith, u8}
use umsg.Base.{le→leb, lt→leb, eq→==, ne→==, true, false}
use umsg.Base.{List, [], ◌∷◌, ◌++◌, length, set}
use umsg.Base.{length-append, append_assoc, set-middle, set-append, length-set}
use umsg.Cobs.{CobsEncState, end_block, put}
use umsg.Cobs.Format.{block}

-- The output holds the finished blocks, a place for the code of the current block, the bytes of that
-- block, and whatever the buffer held behind them.
pub record IsValid (cap size : ℕ) (s : CobsEncState) (finished run : List ℕ) : Type 0 where
  pub place : ℕ
  pub unused : List ℕ
  pub shape : s.out ≡ finished ++ (place ∷ (run ++ unused))
  pub code_at : s.code_index ≡ length finished
  pub write_at : s.write_index ≡ length finished + 1 + length run
  pub run_code : s.code ≡ length run + 1
  pub open_run : length run ≤ 253
  pub within : s.write_index ≤ cap
  pub capacity : s.cap ≡ cap
  pub same_size : length s.out ≡ size

-- A shape as above whose current block may just have been filled.
pub record IsOpen (cap size : ℕ) (s : CobsEncState) (finished run : List ℕ) : Type 0 where
  pub place : ℕ
  pub unused : List ℕ
  pub shape : s.out ≡ finished ++ (place ∷ (run ++ unused))
  pub code_at : s.code_index ≡ length finished
  pub write_at : s.write_index ≡ length finished + 1 + length run
  pub run_code : s.code ≡ length run + 1
  pub capacity : s.cap ≡ cap
  pub same_size : length s.out ≡ size

length-shape :
    (out finished : List ℕ) (place : ℕ) (run unused : List ℕ)
    → out ≡ finished ++ (place ∷ (run ++ unused))
    → length out ≡ length finished + 1 + length run + length unused
length-shape out finished place run unused e =
    omega (
      arith,
      ap length e,
      length-append finished (place ∷ (run ++ unused)),
      length-append run unused,
    )

-- There is a byte to write to where the write index is below the length of the output.
split_unused : (unused : List ℕ) → 0 < length unused → (u : ℕ) × (us : List ℕ) × (unused ≡ u ∷ us)
split_unused [] h = absurd (omega arith)
split_unused (u ∷ us) h = (u, us, refl)

close_shape :
    (out finished : List ℕ) (place u : ℕ) (run us : List ℕ) (i code : ℕ)
    → out ≡ finished ++ (place ∷ (run ++ (u ∷ us)))
    → i ≡ length finished
    → code ≡ length run + 1
    → set out i code ≡ (finished ++ block run) ++ (u ∷ ([] ++ us))
close_shape out finished place u run us i code e p q =
    ap (λ t. set t i code) e
    ∙ set-middle finished place (run ++ (u ∷ us)) i code p
    ∙ ap (λ c. finished ++ (c ∷ (run ++ (u ∷ us)))) q
    ∙ sym (append_assoc finished (block run) (u ∷ us))

store_shape :
    (out finished run : List ℕ) (place u : ℕ) (us : List ℕ) (i b : ℕ)
    → out ≡ finished ++ (place ∷ (run ++ (u ∷ us)))
    → i ≡ length finished + 1 + length run
    → set out i b ≡ finished ++ (place ∷ ((run ++ (b ∷ [])) ++ us))
store_shape out finished run place u us i b e p =
    ap (λ t. set t i b) e
    ∙ set-append finished (place ∷ (run ++ (u ∷ us))) i (suc (length run)) b (omega arith)
    ∙ ap (λ t. finished ++ (place ∷ t))
        (set-middle run u us (length run) b refl ∙ sym (append_assoc run (b ∷ []) us))

module _ {cap size : ℕ} (fits : cap ≤ size) (s : CobsEncState) (finished run : List ℕ) where
  -- The end of a block fails where no place is left for the next code.
  pub end_block-refused :
      IsOpen cap size s finished run → cap ≤ s.write_index → (end_block s).1 ≡ false
  unfolding end_block
  end_block-refused v h = rw (le→leb s.cap s.write_index (omega (arith, v.capacity)))

  pub end_block-IsValid :
      IsOpen cap size s finished run
      → s.write_index < cap
      → ((end_block s).1 ≡ true) × IsValid cap size (end_block s).0 (finished ++ block run) []
  unfolding end_block
  end_block-IsValid v h =
      let (u, us, e) = split_unused v.unused (
        omega (
          arith,
          length-shape s.out finished v.place run v.unused v.shape,
          v.same_size,
          v.write_at,
        )) in
      rw (lt→leb s.cap s.write_index (omega (arith, v.capacity))) (
        refl,
        record {
          place = u;
          unused = us;
          shape =
              close_shape s.out finished v.place u run us s.code_index s.code
                (v.shape ∙ ap (λ t. finished ++ (v.place ∷ (run ++ t))) e) v.code_at v.run_code;
          code_at = omega (arith, v.write_at, length-append finished (block run));
          write_at = omega (arith, v.write_at, length-append finished (block run));
          run_code = refl;
          open_run = omega arith;
          within = omega arith;
          capacity = v.capacity;
          same_size = length-set s.out s.code_index s.code ∙ v.same_size;
        },
      )

  pub IsValid-IsOpen : IsValid cap size s finished run → IsOpen cap size s finished run
  IsValid-IsOpen v = record {
    place = v.place;
    unused = v.unused;
    shape = v.shape;
    code_at = v.code_at;
    write_at = v.write_at;
    run_code = v.run_code;
    capacity = v.capacity;
    same_size = v.same_size;
  }

  -- A byte that is not zero joins the current block.
  pub stored : ℕ → CobsEncState
  stored b = record s {
    out = set s.out s.write_index b;
    write_index = s.write_index + 1;
    code = u8 (s.code + 1);
  }

  pub stored-write_index : (b : ℕ) → (stored b).write_index ≡ s.write_index + 1
  unfolding stored
  stored-write_index b = refl

  pub IsOpen-IsValid :
      IsOpen cap size s finished run
      → length run ≤ 253
      → s.write_index ≤ cap
      → IsValid cap size s finished run
  IsOpen-IsValid v open_run within = record {
    place = v.place;
    unused = v.unused;
    shape = v.shape;
    code_at = v.code_at;
    write_at = v.write_at;
    run_code = v.run_code;
    open_run = open_run;
    within = within;
    capacity = v.capacity;
    same_size = v.same_size;
  }

  pub stored-IsOpen :
      (b : ℕ)
      → IsValid cap size s finished run
      → s.write_index < cap
      → IsOpen cap size (stored b) finished (run ++ (b ∷ []))
  unfolding stored
  stored-IsOpen b v h =
      let (u, us, e) = split_unused v.unused (
        omega (
          arith,
          length-shape s.out finished v.place run v.unused v.shape,
          v.same_size,
          v.write_at,
        )) in
      record {
        place = v.place;
        unused = us;
        shape =
            store_shape s.out finished run v.place u us s.write_index b
              (v.shape ∙ ap (λ t. finished ++ (v.place ∷ (run ++ t))) e) v.write_at;
        code_at = v.code_at;
        write_at = omega (arith, v.write_at, length-append run (b ∷ []));
        run_code = omega (arith, v.run_code, v.open_run, length-append run (b ∷ []));
        capacity = v.capacity;
        same_size = length-set s.out s.write_index b ∙ v.same_size;
      }

  pub put-zero : put s 0 ≡ end_block s
  unfolding put
  put-zero = refl

  pub put_no_room :
      (b : ℕ) → IsValid cap size s finished run → cap ≤ s.write_index → (put s b).1 ≡ false
  unfolding put
  put_no_room b v h = ground (arith, v.capacity, end_block-refused (IsValid-IsOpen v) h)

  pub put-more :
      (b : ℕ)
      → IsValid cap size s finished run
      → s.write_index < cap
      → b ≢ 0
      → length run ≢ 253
      → put s b ≡ (stored b, true)
  unfolding put stored
  put-more b v h nz more = rw (
    ne→== b 0 nz,
    lt→leb s.cap s.write_index (omega (arith, v.capacity)),
    ne→== (u8 (s.code + 1)) 255 (omega (arith, v.run_code, v.open_run)),
  )

  pub put-full :
      (b : ℕ)
      → IsValid cap size s finished run
      → s.write_index < cap
      → b ≢ 0
      → length run ≡ 253
      → put s b ≡ end_block (stored b)
  unfolding put stored
  put-full b v h nz full = rw (
    ne→== b 0 nz,
    lt→leb s.cap s.write_index (omega (arith, v.capacity)),
    eq→== (u8 (s.code + 1)) 255 (omega (arith, v.run_code)),
  )
