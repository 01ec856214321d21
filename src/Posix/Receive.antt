-- ===== src/Posix/Receive.antt =====
-- `read` of `SerialPort` and `TcpClient`.
use umsg.Base.{
  ℕ, ◌≤◌, ◌<◌, ◌≡◌, ◌∙◌, refl, sym, ap, arith, if◌then◌else◌, ltb, lt→ltb, le→ltb, Option, none,
  some, List, [], ◌++◌, append-nil, length,
}
use native.Mathlib.Decide.{dec_lt}
use umsg.Posix.{
  Outcome, done, interrupted, would_block, broken, Calls, Connection, read_turn, read_again,
  read_byte, served, refill, received, deliver,
}
use umsg.Posix.Loop.{Progress, repeat-ends}
use umsg.Posix.Line.{Reads, IsLine}
use umsg.Posix.Buffered.{IsBuffered, IsServed, served-IsServed, refill-IsServed}

module _ {State : Type 0} (calls : Calls State) (fuel fd : ℕ) (c : Connection) (s : State)
    (opened : c.fd ≡ some fd) where
  -- `read` from the descriptor on.
  abbrev read_on : Option ℕ → Option (Option ℕ × Connection × State)
  read_on o = elim o [
    | none ↦ some (none, c, s)
    | some f ↦
        if ltb c.buf_idx c.buf_len
        then some ((served c).0, (served c).1, s)
        else deliver c (read_again calls fuel f (length c.rx_buffer) s)
  ]

  -- The two branches of `read` on an open connection.
  pub read_byte-served :
      c.buf_idx < c.buf_len → read_byte calls fuel c s ≡ some ((served c).0, (served c).1, s)
  unfolding read_byte
  read_byte-served more = ap read_on opened ∙ simp (lt→ltb c.buf_idx c.buf_len more) refl

  pub read_byte-received :
      (size : ℕ) (outcome : Outcome (List ℕ)) (s' : State)
      → c.buf_len ≤ c.buf_idx
      → length c.rx_buffer ≡ size
      → read_again calls fuel fd size s ≡ some (outcome, s')
      → read_byte calls fuel c s ≡ some ((received c outcome).0, (received c outcome).1, s')
  unfolding read_byte deliver
  read_byte-received size outcome s' past room e =
      ap read_on opened
      ∙ simp (le→ltb c.buf_idx c.buf_len past)
          (ap (λ n. deliver c (read_again calls fuel fd n s)) room ∙ ap (deliver c) e)

module _ {State : Type 0} (calls : Calls State) (sent got : State → List ℕ) (patience : State → ℕ)
    (line : IsLine sent got patience calls) where
  module _ (size : ℕ) (s0 : State) where
    Unread : State → Type 0
    Unread s = got s ≡ got s0

    Answered : Outcome (List ℕ) → State → Type 0
    Answered (done bytes) s = (length bytes ≤ size) × (got s ≡ got s0 ++ bytes)
    Answered interrupted s = got s ≡ got s0
    Answered would_block s = got s ≡ got s0
    Answered broken s = got s ≡ got s0

    read_turn-Progress :
        (s : State) (r : Outcome (List ℕ) × State)
        → Unread s
        → Reads sent got patience size s r
        → Progress Unread Answered patience s (read_turn r)
    unfolding read_turn Unread Answered
    read_turn-Progress s (done bytes, s') i h = (h.0, h.1 ∙ ap (λ g. g ++ bytes) i)
    read_turn-Progress s (interrupted, s') i h = (h.0 ∙ i, h.1)
    read_turn-Progress s (would_block, s') i h = h ∙ i
    read_turn-Progress s (broken, s') i h = h ∙ i

    read_again-ends :
        (fuel fd : ℕ)
        → 0 < size
        → patience s0 < fuel
        → (r : Outcome (List ℕ) × State) × (read_again calls fuel fd size s0 ≡ some r)
          × Answered r.0 r.1
    unfolding read_again Unread
    read_again-ends fuel fd room enough =
        repeat-ends Unread Answered patience (λ s. read_turn (calls.read fd size s))
          (λ s i. read_turn-Progress s (calls.read fd size s) i (line.reads fd size s room)) fuel s0
          refl enough

    received-IsServed :
        (c : Connection) (o : Outcome (List ℕ)) (s : State)
        → IsBuffered size c
        → c.buf_len ≤ c.buf_idx
        → Answered o s
        → (incoming : List ℕ) × (got s ≡ got s0 ++ incoming)
          × IsServed size c incoming (received c o)
    unfolding received Answered refill
    received-IsServed c (done bytes) s v past a =
        (bytes, a.1, refill-IsServed size c bytes v past a.0)
    received-IsServed c interrupted s v past a =
        ([], a ∙ sym (append-nil (got s0)), refill-IsServed size c [] v past (omega arith))
    received-IsServed c would_block s v past a =
        ([], a ∙ sym (append-nil (got s0)), refill-IsServed size c [] v past (omega arith))
    received-IsServed c broken s v past a =
        ([], a ∙ sym (append-nil (got s0)), refill-IsServed size c [] v past (omega arith))

  -- On a system that keeps its promises, with more fuel than its patience, `read` of an open
  -- connection with a valid buffer ends; the buffer stays valid and the descriptor is kept, whatever
  -- the system answered. What was unread, followed by the bytes that the system has given meanwhile,
  -- is the byte that is returned, if any, followed by what is unread then: none is lost, doubled or
  -- out of its place. No byte is returned only where the system has given none.
  pub read_byte-IsServed :
      (fuel fd size : ℕ) (c : Connection) (s : State)
      → c.fd ≡ some fd
      → 0 < size
      → IsBuffered size c
      → patience s < fuel
      → (r : Option ℕ × Connection × State) × (incoming : List ℕ) × (read_byte calls fuel c s
          ≡ some r)
        × (got (r.2) ≡ got s ++ incoming)
        × IsServed size c incoming (r.0, r.1)
  read_byte-IsServed fuel fd size c s opened room v enough = elim (dec_lt c.buf_idx c.buf_len) [
    | yes more ↦ (
      ((served c).0, (served c).1, s),
      [],
      read_byte-served calls fuel fd c s opened more,
      sym (append-nil (got s)),
      served-IsServed size c v more,
    )
    | no past ↦
        let run = read_again-ends size s fuel fd room enough in
        let end = received-IsServed size s c run.0.0 run.0.1 v (omega arith) run.2 in
        (
          ((received c run.0.0).0, (received c run.0.0).1, run.0.1),
          end.0,
          read_byte-received calls fuel fd c s opened size run.0.0 run.0.1 (omega arith)
              v.buffer_size run.1,
          end.1,
          end.2,
        )
  ]
