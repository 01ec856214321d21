-- ===== src/Posix/Buffered.antt =====
-- The receive buffer of the three classes.
use umsg.Base.{
  ℕ, zero, suc, ◌+◌, ◌≤◌, ◌<◌, ◌≡◌, ◌∙◌, refl, sym, ap, arith, Option, none, some, List, [], ◌∷◌,
  ◌++◌, append-nil, length, length-append, length-drop, take, take-append, drop, get_or,
}
use umsg.Posix.{Connection, served, refill}

-- The index lies within what was received, which lies within the buffer of the class's size.
pub record IsBuffered (size : ℕ) (c : Connection) : Type 0 where
  pub buffer_size : length c.rx_buffer ≡ size
  pub len_in : c.buf_len ≤ size
  pub idx_in : c.buf_idx ≤ c.buf_len

-- What has been received and not yet served.
abbrev pub unread : Connection → List ℕ
unread c = drop c.buf_idx (take c.buf_len c.rx_buffer)

abbrev pub to_list : Option ℕ → List ℕ
to_list none = []
to_list (some b) = b ∷ []

drop-get_or :
    (n i : ℕ) (xs : List ℕ)
    → i < n
    → n ≤ length xs
    → drop i (take n xs) ≡ get_or xs i 0 ∷ drop (i + 1) (take n xs)
drop-get_or n i [] h k = absurd (omega arith)
drop-get_or zero i (x ∷ xs) h k = absurd (omega arith)
drop-get_or (suc n) zero (x ∷ xs) h k = refl
drop-get_or (suc n) (suc i) (x ∷ xs) h k =
    drop-get_or n i xs (omega arith) (omega arith)
    ∙ ap (λ m. get_or xs i 0 ∷ drop m (x ∷ take n xs))
        (let e : suc (i + 1) ≡ suc i + 1 = omega arith in e)

drop_past : (n i : ℕ) (xs : List ℕ) → n ≤ i → drop i (take n xs) ≡ []
drop_past zero zero xs h = refl
drop_past zero (suc i) xs h = refl
drop_past (suc n) zero xs h = absurd (omega arith)
drop_past (suc n) (suc i) [] h = refl
drop_past (suc n) (suc i) (x ∷ xs) h = drop_past n i xs (omega arith)

pub unread-end : (c : Connection) → c.buf_len ≤ c.buf_idx → unread c ≡ []
unread-end c h = drop_past c.buf_len c.buf_idx c.rx_buffer h

-- What one byte read does: the buffer is kept, and what was unread, with the bytes that came in, is
-- the byte and what is unread then.
pub record IsServed (size : ℕ) (c : Connection) (incoming : List ℕ) (r : Option ℕ × Connection)
    : Type 0 where
  pub buffered : IsBuffered size r.1
  pub same_fd : r.1.fd ≡ c.fd
  pub in_order : unread c ++ incoming ≡ to_list (r.0) ++ unread r.1
  pub idle : r.0 ≡ none → incoming ≡ []

pub served-IsServed :
    (size : ℕ) (c : Connection)
    → IsBuffered size c
    → c.buf_idx < c.buf_len
    → IsServed size c [] (served c)
served-IsServed size c v more = record {
  buffered = record {
    buffer_size = v.buffer_size;
    len_in = v.len_in;
    idx_in = omega (arith, more);
  };
  same_fd = refl;
  in_order =
      append-nil (unread c)
      ∙ drop-get_or c.buf_len c.buf_idx c.rx_buffer more (omega (arith, v.buffer_size, v.len_in));
  idle = λ e. refl;
}

pub refill-IsServed :
    (size : ℕ) (c : Connection) (bytes : List ℕ)
    → IsBuffered size c
    → c.buf_len ≤ c.buf_idx
    → length bytes ≤ size
    → IsServed size c bytes (refill c bytes)
unfolding refill
refill-IsServed size c [] v past fits = record {
  buffered = v;
  same_fd = refl;
  in_order = append-nil (unread c);
  idle = λ e. refl;
}
refill-IsServed size c (b ∷ bytes) v past fits =
    let memory : List ℕ = b ∷ (bytes ++ drop (length (b ∷ bytes)) c.rx_buffer) in
    let whole : take (length (b ∷ bytes)) memory ≡ b ∷ bytes =
      take-append (b ∷ bytes) (drop (length (b ∷ bytes)) c.rx_buffer) (length (b ∷ bytes)) refl in
    record {
      buffered = record {
        buffer_size = omega (
          arith,
          length-append (b ∷ bytes) (drop (length (b ∷ bytes)) c.rx_buffer),
          length-drop (length (b ∷ bytes)) c.rx_buffer,
          v.buffer_size,
        );
        len_in = fits;
        idx_in = omega arith;
      };
      same_fd = refl;
      in_order =
          ap (λ u. u ++ (b ∷ bytes)) (unread-end c past) ∙ ap (λ t. b ∷ drop 1 t) (sym whole);
      idle = λ e. ground (arith, e);
    }
