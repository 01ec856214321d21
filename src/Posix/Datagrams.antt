-- ===== src/Posix/Datagrams.antt =====
-- `UdpSocket`: what `bind` and `close` do to the receive buffer, and `read`.
use umsg.Base.{
  ℕ, ◌≤◌, ◌<◌, ◌≡◌, ◌∙◌, refl, sym, ap, arith, if◌then◌else◌, ltb, lt→ltb, le→ltb, Bool, true,
  false, Option, none, some, List, [], ◌++◌, append-nil, length, get_or,
}
use mathlib.Core.Path.{subst}
use native.Mathlib.Decide.{dec_lt}
use umsg.Posix.{
  Connection, Outcome, done, interrupted, would_block, broken, is_open, served, refill, received,
}
use umsg.Posix.Buffered.{IsBuffered, IsServed, served-IsServed, refill-IsServed}
use umsg.Posix.TcpClient.{Sockets}
use umsg.Posix.UdpSocket.{UdpSocket, bind, bound, opened, close, read, taken}

-- Nothing of the socket has changed but the descriptor, and the answer says whether it is open.
pub record IsRebound {State : Type 0} (u : UdpSocket) (r : Bool × UdpSocket × State) : Type 0 where
  pub same : r.1 ≡ record u { connection = record u.connection { fd = r.1.connection.fd } }
  pub answers : r.0 ≡ is_open r.1.connection

open_fields :
    (fd : Option ℕ) → elim fd [ none ↦ false | some f ↦ true ] ≡ true → (f : ℕ) × (fd ≡ some f)
open_fields none e = absurd (ground (arith, e))
open_fields (some f) e = (f, refl)

open_fd : (c : Connection) → is_open c ≡ true → (f : ℕ) × (c.fd ≡ some f)
unfolding is_open
open_fd c e = open_fields c.fd e

module _ {State : Type 0} (net : Sockets State) where
  bound-IsRebound :
      (u : UdpSocket) (fd : ℕ) (r : Bool × State)
      → IsRebound u (bound net (record u { connection = record u.connection { fd = some fd } }) r)
  unfolding bound close is_open
  bound-IsRebound u fd (false, s) = record { same = refl; answers = refl }
  bound-IsRebound u fd (true, s) = record { same = refl; answers = refl }

  opened-IsRebound :
      (u : UdpSocket) (port : ℕ) (r : Option ℕ × State) → IsRebound u (opened net u port r)
  unfolding opened is_open
  opened-IsRebound u port (none, s) = record { same = refl; answers = refl }
  opened-IsRebound u port (some fd, s) = bound-IsRebound u fd (net.bind fd _ s)

  rebound :
      (b : Bool) (u : UdpSocket) (s : State) (port : ℕ) (r : UdpSocket × State → Option ℕ × State)
      → let fresh : UdpSocket × State = if b then close net u s else (u, s) in
        IsRebound u (opened net (fresh.0) port (r fresh))
  unfolding close
  rebound true u s port r =
      let h = opened-IsRebound (close net u s).0 port (r (close net u s)) in
      unfold close in record { same = h.same; answers = h.answers }
  rebound false u s port r = opened-IsRebound u port (r (u, s))

  -- On every path `bind` changes nothing of the socket but the descriptor, and answers true exactly
  -- where the socket is then open.
  pub bind-IsRebound : (u : UdpSocket) (port : ℕ) (s : State) → IsRebound u (bind net port u s)
  unfolding bind
  bind-IsRebound u port s =
      rebound (is_open u.connection) u s port
        (λ fresh. net.socket net.af_inet net.sock_dgram (fresh.1))

  -- `read` from the descriptor on.
  abbrev read_on : UdpSocket → State → Option ℕ → Option ℕ × UdpSocket × State
  read_on u s fd = elim fd [
    | none ↦ (none, u, s)
    | some f ↦
        if ltb u.connection.buf_idx u.connection.buf_len
        then ((served u.connection).0, record u { connection = (served u.connection).1 }, s)
        else taken net u (net.recvfrom f (length u.connection.rx_buffer) s)
  ]

  read-more :
      (u : UdpSocket) (fd : ℕ) (s : State)
      → u.connection.fd ≡ some fd
      → u.connection.buf_idx < u.connection.buf_len
      → read net u s
        ≡ ((served u.connection).0, record u { connection = (served u.connection).1 }, s)
  unfolding read
  read-more u fd s descriptor more =
      ap (read_on u s) descriptor
      ∙ simp (lt→ltb u.connection.buf_idx u.connection.buf_len more) refl

  read-taken :
      (u : UdpSocket) (fd : ℕ) (s : State)
      → u.connection.fd ≡ some fd
      → u.connection.buf_len ≤ u.connection.buf_idx
      → read net u s ≡ taken net u (net.recvfrom fd (length u.connection.rx_buffer) s)
  unfolding read
  read-taken u fd s descriptor past =
      ap (read_on u s) descriptor
      ∙ simp (le→ltb u.connection.buf_idx u.connection.buf_len past) refl

  -- With bytes of a datagram that are not served yet, `bind` to another port, where it succeeds,
  -- leaves them, and the first byte that `read` returns then is one of the old socket's.
  pub bind-read_stale :
      (u : UdpSocket) (port : ℕ) (s s' : State)
      → u.connection.buf_idx < u.connection.buf_len
      → (bind net port u s).0 ≡ true
      → (read net (bind net port u s).1 s').0
        ≡ some (get_or u.connection.rx_buffer u.connection.buf_idx 0)
  bind-read_stale u port s s' more bound_ok =
      let r = bind-IsRebound u port s in
      let after : Connection = (bind net port u s).1.connection in
      let descriptor = open_fd after (sym r.answers ∙ bound_ok) in
      let idx : after.buf_idx ≡ u.connection.buf_idx = ap (λ v. v.connection.buf_idx) r.same in
      let len : after.buf_len ≡ u.connection.buf_len = ap (λ v. v.connection.buf_len) r.same in
      ap (λ o. o.0)
        (read-more (bind net port u s).1 descriptor.0 s' descriptor.1
          (omega (arith, idx, len, more)))
      ∙ ap (λ v. some (get_or v.connection.rx_buffer v.connection.buf_idx 0)) r.same

module _ {State : Type 0} (got : State → List ℕ) where
  -- `recvfrom` gives at most as many bytes as it has room for, the next that arrived, and what of the
  -- datagram lies behind them counts as not arrived.
  abbrev pub Arrives : ℕ → State → Outcome (List ℕ) × State → Type 0
  Arrives size s (done bytes, s') = (length bytes ≤ size) × (got s' ≡ got s ++ bytes)
  Arrives size s (interrupted, s') = got s' ≡ got s
  Arrives size s (would_block, s') = got s' ≡ got s
  Arrives size s (broken, s') = got s' ≡ got s

  module _ (net : Sockets State)
      (arrives : (fd size : ℕ) (s : State) → Arrives size s (net.recvfrom fd size s)) where
    IsRead : ℕ → Connection → State → Option ℕ × UdpSocket × State → Type 0
    IsRead size c s r =
        (incoming : List ℕ) × (got (r.2) ≡ got s ++ incoming)
        × IsServed size c incoming (r.0, r.1.connection)

    taken-IsServed :
        (size : ℕ) (u : UdpSocket) (s : State) (r : Outcome (List ℕ) × State)
        → IsBuffered size u.connection
        → u.connection.buf_len ≤ u.connection.buf_idx
        → Arrives size s r
        → IsRead size u.connection s (taken net u r)
    unfolding taken received refill IsRead
    taken-IsServed size u s (done bytes, s') v past a =
        (bytes, a.1, refill-IsServed size u.connection bytes v past a.0)
    taken-IsServed size u s (interrupted, s') v past a = (
      [],
      a ∙ sym (append-nil (got s)),
      refill-IsServed size u.connection [] v past (omega arith),
    )
    taken-IsServed size u s (would_block, s') v past a = (
      [],
      a ∙ sym (append-nil (got s)),
      refill-IsServed size u.connection [] v past (omega arith),
    )
    taken-IsServed size u s (broken, s') v past a = (
      [],
      a ∙ sym (append-nil (got s)),
      refill-IsServed size u.connection [] v past (omega arith),
    )

    -- On an open socket with a valid buffer, `read` keeps the buffer valid. What was unread, followed
    -- by the bytes that `recvfrom` has given meanwhile, is the byte that is returned, if any, followed
    -- by what is unread then. No byte is returned only where `recvfrom` has given none.
    pub read-IsServed :
        (size fd : ℕ) (u : UdpSocket) (s : State)
        → u.connection.fd ≡ some fd
        → IsBuffered size u.connection
        → (incoming : List ℕ) × (got (read net u s).2 ≡ got s ++ incoming)
          × IsServed size u.connection incoming ((read net u s).0, (read net u s).1.connection)
    unfolding IsRead
    read-IsServed size fd u s descriptor v =
        elim (dec_lt u.connection.buf_idx u.connection.buf_len) [
          | yes more ↦
              subst (IsRead size u.connection s) (sym (read-more net u fd s descriptor more))
                ([], sym (append-nil (got s)), served-IsServed size u.connection v more)
          | no past ↦
              subst (IsRead size u.connection s)
                (sym (read-taken net u fd s descriptor (omega arith)))
                (taken-IsServed size u s (net.recvfrom fd (length u.connection.rx_buffer) s) v
                  (omega arith)
                  (subst (λ n. Arrives n s (net.recvfrom fd (length u.connection.rx_buffer) s))
                    v.buffer_size (arrives fd (length u.connection.rx_buffer) s)))
        ]
