-- ===== src/Posix/UdpSocket.antt =====
-- src/umsg/transports/posix/udp_socket.hpp. The calls of the system on sockets are parameters.
use umsg.Base.{
  ℕ, ◌==◌, not, bit_or, if◌then◌else◌, ltb, Bool, true, false, Option, none, some, List, length,
}
use umsg.Posix.{
  Connection, Outcome, done, interrupted, would_block, broken, is_open, close_fd, served, received,
}
use umsg.Posix.TcpClient.{Sockets, SocketAddress}

pub record UdpSocket : Type 0 where
  pub connection : Connection
  pub has_dest : Bool
  pub dest_addr : SocketAddress

-- The constructor; `destAddr_` and `rxBuffer_` are not written.
unfoldable pub start : List ℕ → SocketAddress → UdpSocket
start memory dest = record {
  connection = record { fd = none; rx_buffer = memory; buf_len = 0; buf_idx = 0 };
  has_dest = false;
  dest_addr = dest;
}

module _ {State : Type 0} (net : Sockets State) where
  -- `close`, which leaves the buffer as it is.
  unfoldable pub close : UdpSocket → State → UdpSocket × State
  close u s = (
    record u { connection = record u.connection { fd = none } },
    close_fd net.calls u.connection.fd s,
  )

  -- From the result of `fcntl` with `F_GETFL`: -1, with the bit set, is handed on as it is.
  unfoldable pub unblock : ℕ → Option ℕ × State → State
  unblock fd (none, s) = (net.fcntl_setfl fd 0xFFFFFFFF s).1
  unblock fd (some flags, s) = (net.fcntl_setfl fd (bit_or flags net.o_nonblock) s).1

  unfoldable pub make_non_blocking : Option ℕ → State → State
  make_non_blocking none s = s
  make_non_blocking (some fd) s = unblock fd (net.fcntl_getfl fd s)

  -- From the result of `bind`.
  unfoldable pub bound : UdpSocket → Bool × State → Bool × UdpSocket × State
  bound u (false, s) = let r = close u s in (false, r.0, r.1)
  bound u (true, s) = (true, u, make_non_blocking u.connection.fd s)

  -- From the result of `socket`.
  unfoldable pub opened : UdpSocket → ℕ → Option ℕ × State → Bool × UdpSocket × State
  opened u port (none, s) = (false, record u { connection = record u.connection { fd = none } }, s)
  opened u port (some fd, s) =
      bound (record u { connection = record u.connection { fd = some fd } })
        (net.bind fd
          (record {
            sin_family = net.af_inet;
            sin_port = net.htons port;
            sin_addr = net.htonl net.inaddr_any;
          })
          s)

  unfoldable pub bind : ℕ → UdpSocket → State → Bool × UdpSocket × State
  bind port u s =
      let fresh : UdpSocket × State = if is_open u.connection then close u s else (u, s) in
      opened (fresh.0) port (net.socket net.af_inet net.sock_dgram (fresh.1))

  -- Where `inet_pton` fails, the address stays zero.
  unfoldable pub set_destination : List ℕ → ℕ → UdpSocket → UdpSocket
  set_destination ip port u = record u {
    dest_addr = record {
      sin_family = net.af_inet;
      sin_port = net.htons port;
      sin_addr = elim (net.inet_pton ip) [ none ↦ 0 | some addr ↦ addr ];
    };
    has_dest = true;
  }

  unfoldable pub taken : UdpSocket → Outcome (List ℕ) × State → Option ℕ × UdpSocket × State
  taken u (outcome, s) =
      let r = received u.connection outcome in (r.0, record u { connection = r.1 }, s)

  unfoldable pub read : UdpSocket → State → Option ℕ × UdpSocket × State
  read u s = elim (u.connection.fd) [
    | none ↦ (none, u, s)
    | some fd ↦
        if ltb u.connection.buf_idx u.connection.buf_len
        then (let r = served u.connection in (r.0, record u { connection = r.1 }, s))
        else taken u (net.recvfrom fd (length u.connection.rx_buffer) s)
  ]

  -- Whether the datagram went out whole.
  unfoldable pub sent_all : ℕ → Outcome ℕ → Bool
  sent_all size (done n) = n == size
  sent_all size interrupted = false
  sent_all size would_block = false
  sent_all size broken = false

  unfoldable pub write : UdpSocket → List ℕ → State → Bool × State
  write u bytes s = elim (u.connection.fd) [
    | none ↦ (false, s)
    | some fd ↦
        if not u.has_dest
        then (false, s)
        else (let r = net.sendto fd bytes u.dest_addr s in (sent_all (length bytes) (r.0), r.1))
  ]
