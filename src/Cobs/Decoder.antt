-- ===== src/Cobs/Decoder.antt =====
-- `cobsDecodeInPlace` against the format, on every input: it writes what `decoding` says over the
-- front of its buffer, fails exactly where `decoding` has no result, and always ends.
use umsg.Base.{ℕ, zero, suc, ◌+◌, ◌≤◌, ◌<◌, ◌≡◌, refl, sym, ap, ◌∙◌, arith}
use umsg.Base.{le→leb, lt→leb}
use umsg.Base.{true, false}
use umsg.Base.{List, [], ◌∷◌, ◌++◌, length, get_or, set, length-append, append-nil}
use umsg.Base.{append_assoc, get_or-append, set-middle}
use umsg.Cobs.{Cursor, copy}
use mathlib.Core.Path.{subst}

-- The front of the buffer is what has been written, the bytes from the read index to `total` are still
-- to be read, and the bytes behind them belong to somebody else.
pub record IsValid (total : ℕ) (c : Cursor) (out junk input behind : List ℕ) : Type 0 where
  pub shape : c.buffer ≡ out ++ (junk ++ (input ++ behind))
  pub write_at : c.write_index ≡ length out
  pub read_at : c.read_index ≡ length out + length junk
  pub rest : c.read_index + length input ≡ total

-- The place that is written lies among the bytes that have been read.
pub overwrite :
    (buf out : List ℕ) (w v : ℕ) (j : ℕ) (js rest : List ℕ)
    → buf ≡ out ++ (j ∷ (js ++ rest))
    → w ≡ length out
    → set buf w v ≡ (out ++ (v ∷ [])) ++ (js ++ rest)
overwrite buf out w v j js rest e p =
    ap (λ t. set t w v) e
    ∙ set-middle out j (js ++ rest) w v p
    ∙ sym (append_assoc out (v ∷ []) (js ++ rest))

pub read_next :
    (buf out junk input behind : List ℕ) (r b : ℕ)
    → buf ≡ out ++ (junk ++ ((b ∷ input) ++ behind))
    → r ≡ length out + length junk
    → get_or buf r 0 ≡ b
read_next buf out junk input behind r b e p =
    ap (λ t. get_or t r 0) e
    ∙ get_or-append out (junk ++ ((b ∷ input) ++ behind)) r (length junk) 0 p
    ∙ get_or-append junk (b ∷ (input ++ behind)) (length junk) 0 0 (omega arith)

-- The byte that is read next joins the bytes that have been read.
pub take_next :
    (junk input behind : List ℕ) (b : ℕ)
    → junk ++ ((b ∷ input) ++ behind) ≡ (junk ++ (b ∷ [])) ++ (input ++ behind)
take_next junk input behind b = sym (append_assoc junk (b ∷ []) (input ++ behind))

-- What the inner loop does from a state with `junk` to overwrite.
pub data Copied (total left : ℕ) (c : Cursor) (out input behind : List ℕ) : Type 0 where
  copied :
      (c' : Cursor) (bytes junk input' : List ℕ)
      → copy total left c ≡ (c', true)
      → input ≡ bytes ++ input'
      → left ≡ length bytes
      → 0 < length junk
      → IsValid total c' (out ++ bytes) junk input' behind
      → Copied total left c out input behind
  short :
      (c' : Cursor)
      → copy total left c ≡ (c', false)
      → length input < left
      → Copied total left c out input behind

-- The state after one round of the inner loop.
abbrev moved : Cursor → ℕ → Cursor
moved c b = record {
  buffer = set c.buffer c.write_index b;
  read_index = c.read_index + 1;
  write_index = c.write_index + 1;
}

copy-suc :
    (total left : ℕ) (c : Cursor) (b : ℕ)
    → c.read_index < total
    → get_or c.buffer c.read_index 0 ≡ b
    → copy total (suc left) c ≡ copy total left (moved c b)
unfolding copy
copy-suc total left c b h e =
    rw (lt→leb total c.read_index h) (ap (λ v. copy total left (moved c v)) e)

copy-short :
    (total left : ℕ) (c : Cursor) → total ≤ c.read_index → copy total (suc left) c ≡ (c, false)
unfolding copy
copy-short total left c h = rw (le→leb total c.read_index h)

moved-IsValid :
    (total : ℕ) (c : Cursor) (out : List ℕ) (j : ℕ) (js : List ℕ) (b : ℕ) (input behind : List ℕ)
    → IsValid total c out (j ∷ js) (b ∷ input) behind
    → IsValid total (moved c b) (out ++ (b ∷ [])) (js ++ (b ∷ [])) input behind
moved-IsValid total c out j js b input behind v = record {
  shape =
      overwrite c.buffer out c.write_index b j js (b ∷ (input ++ behind)) v.shape v.write_at
      ∙ ap (λ t. (out ++ (b ∷ [])) ++ t) (take_next js input behind b);
  write_at = omega (arith, v.write_at, length-append out (b ∷ []));
  read_at = omega (arith, v.read_at, length-append out (b ∷ []), length-append js (b ∷ []));
  rest = omega (arith, v.rest);
}

pub copy-Copied :
    (total left : ℕ) (c : Cursor) (out junk input behind : List ℕ)
    → 0 < length junk
    → IsValid total c out junk input behind
    → Copied total left c out input behind
copy-Copied total zero c out junk input behind h v =
    copied c [] junk input (unfold copy in refl) refl refl h (rw append-nil v)
copy-Copied total (suc left) c out [] input behind h v = absurd (omega arith)
copy-Copied total (suc left) c out (j ∷ js) [] behind h v =
    short c (copy-short total left c (omega (arith, v.rest))) (omega arith)
copy-Copied total (suc left) c out (j ∷ js) (b ∷ input) behind h v = lift (
    copy-Copied total left (moved c b) (out ++ (b ∷ [])) (js ++ (b ∷ [])) input behind
      (omega (arith, length-append js (b ∷ []))) (moved-IsValid total c out j js b input behind v))
  where
    step : copy total (suc left) c ≡ copy total left (moved c b)
    step =
        copy-suc total left c b (omega (arith, v.rest))
          (read_next c.buffer out (j ∷ js) input behind c.read_index b v.shape v.read_at)

    lift :
        Copied total left (moved c b) (out ++ (b ∷ [])) input behind
        → Copied total (suc left) c out (b ∷ input) behind
    lift (copied c' bytes junk input' p e n pos v') =
        copied c' (b ∷ bytes) junk input' (step ∙ p) (ap (λ t. b ∷ t) e) (ap suc n) pos
          (subst (λ t. IsValid total c' t junk input' behind) (append_assoc out (b ∷ []) bytes) v')
    lift (short c' p n) = short c' (step ∙ p) (omega arith)
