-- ===== src/Posix/TcpClient.antt =====
-- src/umsg/transports/posix/tcp_client.hpp. The calls of the system on sockets are parameters.
use umsg.Base.{ℕ, bit_or, Bool, true, false, Option, none, some, List}
use umsg.Posix.{Calls, Connection, Outcome, give_up, renew, read_byte, write_bytes}
use umsg.Posix

-- The members of `sockaddr_in` that are set; the rest is zero.
pub record SocketAddress : Type 0 where
  pub sin_family : ℕ
  pub sin_port : ℕ
  pub sin_addr : ℕ

-- `none` and false stand for a result that is negative, of `inet_pton` also for zero. A socket is for
-- a stream or for datagrams.
pub record Sockets (State : Type 0) : Type 0 where
  pub calls : Calls State
  pub af_inet : ℕ
  pub sock_stream : ℕ
  pub sock_dgram : ℕ
  pub inaddr_any : ℕ
  pub o_nonblock : ℕ
  pub htons : ℕ → ℕ
  pub htonl : ℕ → ℕ
  pub inet_pton : List ℕ → Option ℕ
  pub socket : ℕ → ℕ → State → Option ℕ × State
  pub connect : ℕ → SocketAddress → State → Bool × State
  pub bind : ℕ → SocketAddress → State → Bool × State
  pub fcntl_getfl : ℕ → State → Option ℕ × State
  pub fcntl_setfl : ℕ → ℕ → State → Bool × State
  pub recvfrom : ℕ → ℕ → State → Outcome (List ℕ) × State
  pub sendto : ℕ → List ℕ → SocketAddress → State → Outcome ℕ × State

-- The constructor, on memory that has not been written.
unfoldable pub start : List ℕ → Connection
start memory = record { fd = none; rx_buffer = memory; buf_len = 0; buf_idx = 0 }

module _ {State : Type 0} (net : Sockets State) where
  -- From the result of `fcntl` with `F_SETFL`.
  unfoldable pub unblocked : Connection → Bool × State → Bool × Connection × State
  unblocked c (false, s) = give_up net.calls c s
  unblocked c (true, s) = (true, record c { buf_len = 0; buf_idx = 0 }, s)

  -- From the result of `fcntl` with `F_GETFL`.
  unfoldable pub described : Connection → ℕ → Option ℕ × State → Bool × Connection × State
  described c fd (none, s) = give_up net.calls c s
  described c fd (some flags, s) = unblocked c (net.fcntl_setfl fd (bit_or flags net.o_nonblock) s)

  -- From the result of `connect`.
  unfoldable pub connected : Connection → ℕ → Bool × State → Bool × Connection × State
  connected c fd (false, s) = give_up net.calls c s
  connected c fd (true, s) = described c fd (net.fcntl_getfl fd s)

  -- From the result of `inet_pton`.
  unfoldable pub resolved : Connection → ℕ → ℕ → State → Option ℕ → Bool × Connection × State
  resolved c fd port s none = give_up net.calls c s
  resolved c fd port s (some addr) = connected c fd (
      net.connect fd
        (record { sin_family = net.af_inet; sin_port = net.htons port; sin_addr = addr }) s)

  -- From the result of `socket`.
  unfoldable pub opened : Connection → List ℕ → ℕ → Option ℕ × State → Bool × Connection × State
  opened c ip port (none, s) = (false, record c { fd = none }, s)
  opened c ip port (some fd, s) = resolved (record c { fd = some fd }) fd port s (net.inet_pton ip)

  unfoldable pub connect : List ℕ → ℕ → Connection → State → Bool × Connection × State
  connect ip port c s =
      let fresh : Connection × State = renew net.calls c s in
      opened (fresh.0) ip port (net.socket net.af_inet net.sock_stream (fresh.1))

  unfoldable pub close : Connection → State → Connection × State
  close c s = Posix.close net.calls c s

  unfoldable pub read : ℕ → Connection → State → Option (Option ℕ × Connection × State)
  read fuel c s = read_byte net.calls fuel c s

  unfoldable pub write : ℕ → Connection → List ℕ → State → Option (Bool × State)
  write fuel c bytes s = write_bytes net.calls fuel c bytes s
