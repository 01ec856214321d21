-- ===== src/Posix.antt =====
-- src/umsg/transports/posix: what `SerialPort`, `TcpClient` and `UdpSocket` share, and the two loops
-- over system calls. The system is a parameter: its calls act on a `State`, and answer what they
-- did or which kind of error they met.
pub mod Loop
pub mod Line
pub mod Buffered
pub mod Send
pub mod Receive
pub mod SerialPort
pub mod TcpClient
pub mod UdpSocket
pub mod Descriptors
pub mod Clean
pub mod Connect
pub mod Datagrams
pub mod Source
pub mod System
pub mod Fixtures
mod Tests
use umsg.Base.{
  ℕ, zero, suc, ◌+◌, if◌then◌else◌, ltb, not, Bool, true, false, Option, none, some, List, [], ◌∷◌,
  ◌++◌, length, drop, get_or,
}
use umsg.Posix.Loop.{Turn, again, leave, spent, repeat}

-- A system call that returns a negative number sets `errno`: `EINTR`, `EAGAIN` or `EWOULDBLOCK`, or
-- anything else.
pub data Outcome (A : Type 0) : Type 0 where
  done : A → Outcome A
  interrupted : Outcome A
  would_block : Outcome A
  broken : Outcome A

-- `read` is given the size of the buffer and `write` the bytes; `poll` waits for output.
pub record Calls (State : Type 0) : Type 0 where
  pub read : ℕ → ℕ → State → Outcome (List ℕ) × State
  pub write : ℕ → List ℕ → State → Outcome ℕ × State
  pub poll : ℕ → State → Outcome Unit × State
  pub close : ℕ → State → State

-- The members that the three classes share; `none` is the descriptor -1.
pub record Connection : Type 0 where
  pub fd : Option ℕ
  pub rx_buffer : List ℕ
  pub buf_len : ℕ
  pub buf_idx : ℕ

unfoldable pub is_open : Connection → Bool
is_open c = elim (c.fd) [ none ↦ false | some fd ↦ true ]

-- The next byte of the buffer, served.
abbrev pub served : Connection → Option ℕ × Connection
served c = (some (get_or c.rx_buffer c.buf_idx 0), record c { buf_idx = c.buf_idx + 1 })

-- The buffer after a call that wrote the bytes to it, and its first byte served.
unfoldable pub refill : Connection → List ℕ → Option ℕ × Connection
refill c [] = (none, c)
refill c (b ∷ bytes) = served (record c {
  rx_buffer = b ∷ (bytes ++ drop (length (b ∷ bytes)) c.rx_buffer);
  buf_len = length (b ∷ bytes);
  buf_idx = 0;
})

-- A call that failed leaves the buffer as it was.
unfoldable pub received : Connection → Outcome (List ℕ) → Option ℕ × Connection
received c (done bytes) = refill c bytes
received c interrupted = (none, c)
received c would_block = (none, c)
received c broken = (none, c)

module _ {State : Type 0} where
  -- One round of the loop that calls `read` until it is not interrupted.
  unfoldable pub read_turn : Outcome (List ℕ) × State → Turn State (Outcome (List ℕ))
  read_turn (interrupted, s) = again s
  read_turn (done bytes, s) = leave (done bytes) s
  read_turn (would_block, s) = leave would_block s
  read_turn (broken, s) = leave broken s

  unfoldable pub deliver :
      Connection → Option (Outcome (List ℕ) × State) → Option (Option ℕ × Connection × State)
  deliver c none = none
  deliver c (some (outcome, s)) = let r = received c outcome in some (r.0, r.1, s)

  -- The loop around `poll`: whether it returned a number that is not negative.
  unfoldable pub poll_turn : Outcome Unit × State → Turn State Bool
  poll_turn (interrupted, s) = again s
  poll_turn (done u, s) = leave true s
  poll_turn (would_block, s) = leave false s
  poll_turn (broken, s) = leave false s

  unfoldable pub resume : ℕ → Option (Bool × State) → Turn (ℕ × State) Bool
  resume total none = spent
  resume total (some (true, s)) = again (total, s)
  resume total (some (false, s)) = leave false (total, s)

  unfoldable pub finish : Option (Bool × (ℕ × State)) → Option (Bool × State)
  finish none = none
  finish (some (written, (total, s))) = some (written, s)

module _ {State : Type 0} (calls : Calls State) where
  unfoldable pub read_again : ℕ → ℕ → ℕ → State → Option (Outcome (List ℕ) × State)
  read_again fuel fd size = repeat (λ s. read_turn (calls.read fd size s)) fuel

  -- `read` of `SerialPort` and `TcpClient`; the outer `none` says that the fuel was not enough.
  unfoldable pub read_byte : ℕ → Connection → State → Option (Option ℕ × Connection × State)
  read_byte fuel c s = elim (c.fd) [
    | none ↦ some (none, c, s)
    | some fd ↦
        if ltb c.buf_idx c.buf_len
        then (let r = served c in some (r.0, r.1, s))
        else deliver c (read_again fuel fd (length c.rx_buffer) s)
  ]

  unfoldable pub await : ℕ → ℕ → State → Option (Bool × State)
  await fuel fd = repeat (λ s. poll_turn (calls.poll fd s)) fuel

  -- What the loop of `write` makes of a call of `write`, with `total` bytes taken before.
  unfoldable pub write_turn : ℕ → ℕ → ℕ → Outcome ℕ × State → Turn (ℕ × State) Bool
  write_turn fuel fd total (done n, s) = again (total + n, s)
  write_turn fuel fd total (interrupted, s) = again (total, s)
  write_turn fuel fd total (would_block, s) = resume total (await fuel fd s)
  write_turn fuel fd total (broken, s) = leave false (total, s)

  unfoldable pub write_round : ℕ → ℕ → List ℕ → ℕ × State → Turn (ℕ × State) Bool
  write_round fuel fd bytes (total, s) =
      if ltb total (length bytes)
      then write_turn fuel fd total (calls.write fd (drop total bytes) s)
      else leave true (total, s)

  -- `write` of `SerialPort` and `TcpClient`.
  unfoldable pub write_bytes : ℕ → Connection → List ℕ → State → Option (Bool × State)
  write_bytes fuel c bytes s = elim (c.fd) [
    | none ↦ some (false, s)
    | some fd ↦ finish (repeat (write_round fuel fd bytes) fuel (0, s))
  ]

  unfoldable pub close_fd : Option ℕ → State → State
  close_fd none s = s
  close_fd (some fd) s = calls.close fd s

  -- `close` of `SerialPort` and `TcpClient`.
  unfoldable pub close : Connection → State → Connection × State
  close c s = (record c { fd = none; buf_len = 0; buf_idx = 0 }, close_fd c.fd s)

  -- The ends of `open` and `connect` that fail.
  unfoldable pub give_up : Connection → State → Bool × Connection × State
  give_up c s = let r = close c s in (false, r.0, r.1)

  -- `if (fd_ >= 0) close();`
  unfoldable pub renew : Connection → State → Connection × State
  renew c s = if is_open c then close c s else (c, s)
