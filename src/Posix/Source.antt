-- ===== src/Posix/Source.antt =====
-- `TcpClient` as the transport of a node, on a system that has some bytes to give.
use umsg.Base.{
  ℕ, suc, ◌+◌, ◌≤◌, ◌<◌, ◌≡◌, ◌∙◌, refl, sym, ap, arith, Bool, true, false, Option, none, some,
  List, [], ◌∷◌, ◌++◌, append_assoc, length, drop, get_or,
}
use native.Mathlib.Decide.{dec_lt}
use umsg.Node.{Transport}
use umsg.Node.Poll.{Yields, ends, reads}
use umsg.Posix.{
  Outcome, done, interrupted, would_block, broken, Calls, Connection, read_turn, read_again,
  read_byte, served, refill, received,
}
use umsg.Posix.Receive.{read_byte-served, read_byte-received}
use umsg.Posix.Loop.{Progress, repeat-ends}
use umsg.Posix.Buffered.{
  IsBuffered, IsServed, unread, unread-end, to_list, served-IsServed, refill-IsServed,
}
use umsg.Posix.Descriptors.{Keeps}
use umsg.Posix.TcpClient.{Sockets}
use umsg.Posix.TcpClient

module _ {State : Type 0} (held : State → ℕ → Bool) (pending : State → ℕ → List ℕ)
    (patience : State → ℕ) where
  -- `read` of a descriptor gives the first of the bytes that are pending on it, none only where there
  -- are none, fails only then, and is not interrupted for ever.
  abbrev pub Gives : ℕ → ℕ → State → Outcome (List ℕ) × State → Type 0
  Gives fd size s (done bytes, s') =
      (length bytes ≤ size)
      × (pending s fd ≡ bytes ++ pending s' fd)
      × (bytes ≡ [] → pending s fd ≡ [])
  Gives fd size s (interrupted, s') = (pending s' fd ≡ pending s fd) × (patience s' < patience s)
  Gives fd size s (would_block, s') = (pending s fd ≡ []) × (pending s' fd ≡ [])
  Gives fd size s (broken, s') = (pending s fd ≡ []) × (pending s' fd ≡ [])

  -- That much is said of descriptors that are open; `read` of another fails, and may do so with bytes
  -- pending elsewhere. No `read` opens or closes a descriptor.
  pub record IsSource (calls : Calls State) : Type 0 where
    pub gives :
        (fd size : ℕ) (s : State)
        → held s fd ≡ true
        → 0 < size
        → Gives fd size s (calls.read fd size s)
    pub keeps : (fd size : ℕ) (s : State) → Keeps held s (calls.read fd size s).1

  module _ (fd size : ℕ) (s0 : State) where
    Waiting : State → Type 0
    Waiting s = (pending s fd ≡ pending s0 fd) × (held s fd ≡ true)

    Given : Outcome (List ℕ) → State → Type 0
    Given (done bytes) s =
        (length bytes ≤ size)
        × (pending s0 fd ≡ bytes ++ pending s fd)
        × (bytes ≡ [] → pending s0 fd ≡ [])
    Given interrupted s = ⊥
    Given would_block s = (pending s0 fd ≡ []) × (pending s fd ≡ [])
    Given broken s = (pending s0 fd ≡ []) × (pending s fd ≡ [])

    Read : Outcome (List ℕ) → State → Type 0
    Read o s = Given o s × (held s fd ≡ true)

    read_turn-Given :
        (s : State) (r : Outcome (List ℕ) × State)
        → Waiting s
        → Gives fd size s r
        → Keeps held s (r.1)
        → Progress Waiting Read patience s (read_turn r)
    unfolding read_turn Waiting Given Read
    read_turn-Given s (done bytes, s') i g k =
        ((g.0, sym i.0 ∙ g.1, λ e. sym i.0 ∙ g.2 e), k fd ∙ i.1)
    read_turn-Given s (interrupted, s') i g k = ((g.0 ∙ i.0, k fd ∙ i.1), g.1)
    read_turn-Given s (would_block, s') i g k = ((sym i.0 ∙ g.0, g.1), k fd ∙ i.1)
    read_turn-Given s (broken, s') i g k = ((sym i.0 ∙ g.0, g.1), k fd ∙ i.1)

    -- What is to come before and after.
    Comes : Connection → Option ℕ × Connection → State → Type 0
    Comes c r s =
        IsBuffered size r.1
        × (r.1.fd ≡ c.fd)
        × (unread c ++ pending s0 fd ≡ to_list (r.0) ++ (unread r.1 ++ pending s fd))
        × (r.0 ≡ none → unread c ++ pending s0 fd ≡ [])

    served-Comes :
        (c : Connection) (bytes : List ℕ) (r : Option ℕ × Connection) (s : State)
        → IsServed size c bytes r
        → pending s0 fd ≡ bytes ++ pending s fd
        → (r.0 ≡ none → unread c ++ pending s0 fd ≡ [])
        → Comes c r s
    unfolding Comes
    served-Comes c bytes r s v e nothing = (
      v.buffered,
      v.same_fd,
      ap (λ t. unread c ++ t) e
          ∙ sym (append_assoc (unread c) bytes (pending s fd))
          ∙ ap (λ t. t ++ pending s fd) v.in_order
          ∙ append_assoc (to_list (r.0)) (unread r.1) (pending s fd),
      nothing,
    )

    received-Comes :
        (c : Connection) (o : Outcome (List ℕ)) (s : State)
        → IsBuffered size c
        → c.buf_len ≤ c.buf_idx
        → Given o s
        → Comes c (received c o) s
    unfolding received Given refill
    received-Comes c (done bytes) s v past g =
        let r = refill-IsServed size c bytes v past g.0 in
        served-Comes c bytes (refill c bytes) s r g.1
          (λ e. ap (λ t. t ++ pending s0 fd) (unread-end c past) ∙ g.2 (r.idle e))
    received-Comes c interrupted s v past g = elim g [ ]
    received-Comes c would_block s v past g =
        served-Comes c [] (none, c) s (refill-IsServed size c [] v past (omega arith))
          (g.0 ∙ sym g.1) (λ e. ap (λ t. t ++ pending s0 fd) (unread-end c past) ∙ g.0)
    received-Comes c broken s v past g =
        served-Comes c [] (none, c) s (refill-IsServed size c [] v past (omega arith))
          (g.0 ∙ sym g.1) (λ e. ap (λ t. t ++ pending s0 fd) (unread-end c past) ∙ g.0)

  module _ (calls : Calls State) (source : IsSource calls) where
    read_again-Given :
        (fuel fd size : ℕ) (s : State)
        → held s fd ≡ true
        → 0 < size
        → patience s < fuel
        → (r : Outcome (List ℕ) × State) × (read_again calls fuel fd size s ≡ some r)
          × Given fd size s r.0 r.1
          × (held (r.1) fd ≡ true)
    unfolding read_again Waiting Read
    read_again-Given fuel fd size s opened room enough =
        let run =
          repeat-ends (Waiting fd size s) (Read fd size s) patience
            (λ t. read_turn (calls.read fd size t))
            (λ t i.
              read_turn-Given fd size s t (calls.read fd size t) i (source.gives fd size t i.1 room)
                (source.keeps fd size t))
            fuel s (refl, opened) enough in
        (run.0, run.1, run.2.0, run.2.1)

    read_byte-Comes :
        (fuel fd size : ℕ) (c : Connection) (s : State)
        → c.fd ≡ some fd
        → held s fd ≡ true
        → 0 < size
        → IsBuffered size c
        → patience s < fuel
        → (r : Option ℕ × Connection × State) × (read_byte calls fuel c s ≡ some r)
          × Comes fd size s c (r.0, r.1) (r.2)
          × (held (r.2) fd ≡ true)
    read_byte-Comes fuel fd size c s opened live room v enough = elim (dec_lt c.buf_idx c.buf_len) [
      | yes more ↦ (
        ((served c).0, (served c).1, s),
        read_byte-served calls fuel fd c s opened more,
        served-Comes fd size s c [] (served c) s (served-IsServed size c v more) refl
            (λ e. absurd (ground (arith, e))),
        live,
      )
      | no past ↦
          let run = read_again-Given fuel fd size s live room enough in
          (
            ((received c run.0.0).0, (received c run.0.0).1, run.0.1),
            read_byte-received calls fuel fd c s opened size run.0.0 run.0.1 (omega arith)
                v.buffer_size run.1,
            received-Comes fd size s c run.0.0 run.0.1 v (omega arith) run.2,
            run.3,
          )
    ]

no_head : (o : Option ℕ) (rest : List ℕ) → [] ≡ to_list o ++ rest → o ≡ none
no_head none rest e = refl
no_head (some b) rest e = absurd (omega (arith, ap (length {A = ℕ}) e))

head_of :
    (o : Option ℕ) (b : ℕ) (bytes rest : List ℕ)
    → b ∷ bytes ≡ to_list o ++ rest
    → (o ≡ none → b ∷ bytes ≡ [])
    → (o ≡ some b) × (rest ≡ bytes)
head_of none b bytes rest e nothing = absurd (omega (arith, ap (length {A = ℕ}) (nothing refl)))
head_of (some a) b bytes rest e nothing =
    (ap (λ xs. some (get_or xs 0 0)) (sym e), ap (drop 1) (sym e))

module _ {State : Type 0} (net : Sockets State) (patience : State → ℕ) where
  -- The answer of a call that has fuel enough.
  abbrev answer_read :
      Connection × State → Option (Option ℕ × Connection × State) → Option ℕ × (Connection × State)
  answer_read t none = (none, t)
  answer_read t (some (o, c, s)) = (o, (c, s))

  abbrev answer_write : Connection × State → Option (Bool × State) → Bool × (Connection × State)
  answer_write t none = (false, t)
  answer_write (c, s) (some (b, s')) = (b, (c, s'))

  -- The client as a node sees it.
  abbrev pub client_transport : Transport (Connection × State)
  client_transport = record {
    read = λ t. answer_read t (TcpClient.read net (suc (patience (t.1))) (t.0) (t.1));
    write = λ bytes t.
        answer_write t
          (TcpClient.write net (suc (patience (t.1) + length bytes)) (t.0) bytes (t.1));
  }

  module _ (held : State → ℕ → Bool) (pending : State → ℕ → List ℕ)
      (source : IsSource held pending patience net.calls) (fd size : ℕ) (room : 0 < size) where
    read-step :
        (c : Connection) (s : State)
        → c.fd ≡ some fd
        → held s fd ≡ true
        → IsBuffered size c
        → (r : Option ℕ × Connection × State) × (client_transport.read (c, s) ≡ (r.0, (r.1, r.2)))
          × Comes held pending patience fd size s c (r.0, r.1) (r.2)
          × (held (r.2) fd ≡ true)
    unfolding TcpClient.read
    read-step c s opened live v =
        let step =
          read_byte-Comes held pending patience net.calls source (suc (patience s)) fd size c s
            opened live room v (omega arith) in
        (step.0, ap (answer_read (c, s)) step.1, step.2, step.3)

    read-Yields :
        (bytes : List ℕ) (c : Connection) (s : State)
        → c.fd ≡ some fd
        → held s fd ≡ true
        → IsBuffered size c
        → unread c ++ pending s fd ≡ bytes
        → (t : Connection × State) × Yields client_transport (c, s) bytes t
    unfolding Comes
    read-Yields [] c s opened live v e =
        let step = read-step c s opened live v in
        let nothing =
          no_head step.0.0 (unread step.0.1 ++ pending step.0.2 fd) (sym e ∙ step.2.2) in
        ((step.0.1, step.0.2), ends (step.1 ∙ ap (λ o. (o, (step.0.1, step.0.2))) nothing))
    read-Yields (b ∷ bytes) c s opened live v e =
        let step = read-step c s opened live v in
        let front =
          head_of step.0.0 b bytes (unread step.0.1 ++ pending step.0.2 fd) (sym e ∙ step.2.2)
            (λ n. sym e ∙ step.2.3 n) in
        let rest =
          read-Yields bytes step.0.1 step.0.2 (step.2.1 ∙ opened) step.3 step.2.0 front.1 in
        (rest.0, reads (step.1 ∙ ap (λ o. (o, (step.0.1, step.0.2))) front.0) rest.1)

    -- A client with a valid buffer, whose descriptor the system holds open, on a system that gives the
    -- bytes pending on an open descriptor in order and is not interrupted for ever, gives a node as its
    -- transport exactly the bytes that it has not served, followed by those pending on its descriptor,
    -- and then has none.
    pub client_transport-Yields :
        (c : Connection) (s : State)
        → c.fd ≡ some fd
        → held s fd ≡ true
        → IsBuffered size c
        → (t : Connection × State) × Yields client_transport (c, s) (unread c ++ pending s fd) t
    client_transport-Yields c s opened live v =
        read-Yields (unread c ++ pending s fd) c s opened live v refl
