-- ===== src/Posix/Fixtures.antt =====
-- Connections, sockets and terminals on the system of Posix/System.
use umsg.Base.{
  ℕ, ◌≡◌, refl, arith, true, false, some, List, [], ◌∷◌, length, length-take, replicate,
}
use umsg.Posix.{
  Outcome, done, interrupted, would_block, broken, Calls, Connection, read_byte, write_bytes,
}
use umsg.Posix.Source.{IsSource}
use umsg.Posix.Buffered.{IsBuffered}
use umsg.Posix.Clean.{IsClean}
use umsg.Posix.Connect.{KeepsSockets, KeepsTerminals}
use umsg.Posix.TcpClient.{Sockets}
use umsg.Posix.SerialPort.{Terminals}
use umsg.Posix.UdpSocket.{UdpSocket, bind, read}
use umsg.Posix.Datagrams.{Arrives}
use umsg.Posix.System.{
  System, hand_out, allot, calls, system, calls-Closes, allot-Opens, receive-Gives, receive-Keeps,
}

-- A connection that has two bytes to serve.
abbrev pub connection : Connection
connection = record { fd = some 3; rx_buffer = replicate 512 0; buf_len = 2; buf_idx = 0 }

pub connection-IsBuffered : IsBuffered 512 connection
connection-IsBuffered = record { buffer_size = refl; len_in = omega arith; idx_in = omega arith }

-- One that has none.
abbrev pub drained : Connection
drained = record { fd = some 3; rx_buffer = replicate 512 0; buf_len = 2; buf_idx = 2 }

pub drained-IsBuffered : IsBuffered 512 drained
drained-IsBuffered = record { buffer_size = refl; len_in = omega arith; idx_in = omega arith }

-- Every address is known.
abbrev pub net : Sockets System
net = record {
  calls = calls;
  af_inet = 2;
  sock_stream = 1;
  sock_dgram = 2;
  inaddr_any = 0;
  o_nonblock = 2048;
  htons = λ n. n;
  htonl = λ n. n;
  inet_pton = λ ip. some (length ip);
  socket = λ family kind s. allot (s.held s.next) s;
  connect = λ fd a s. (true, s);
  bind = λ fd a s. (true, s);
  fcntl_getfl = λ fd s. (some 2, s);
  fcntl_setfl = λ fd flags s. (true, s);
  recvfrom = λ fd size s. hand_out 0 s.coming size s;
  sendto = λ fd bytes a s. (done (length bytes), s);
}

pub net-KeepsSockets : KeepsSockets (λ s. s.held) net
net-KeepsSockets = record {
  socket_opens = λ family kind s. allot-Opens (s.held s.next) s refl;
  closes = calls-Closes;
  connect_keeps = λ fd a s. λ f. refl;
  getfl_keeps = λ fd s. λ f. refl;
  setfl_keeps = λ fd flags s. λ f. refl;
}

pub connection-IsClean : IsClean 512 connection
connection-IsClean = record {
  buffered = connection-IsBuffered;
  closed_empty = λ e. absurd (ground (arith, e));
}

abbrev pub tty : Terminals System
tty = record {
  constants = record {
    o_rdwr = 2;
    o_noctty = 256;
    o_nonblock = 2048;
    tcsanow = 0;
    parenb = 256;
    cstopb = 64;
    csize = 48;
    cs8 = 48;
    crtscts = 0x80000000;
    clocal = 2048;
    cread = 128;
    icanon = 2;
    echo = 8;
    echoe = 16;
    isig = 1;
    opost = 1;
  };
  calls = calls;
  open_file = λ device flags s. allot (s.held s.next) s;
  tcgetattr =
      λ fd s. (some (record { c_cflag = 0xBD; c_lflag = 0x8A3B; c_oflag = 5; others = [] }), s);
  tcsetattr = λ fd action options s. (false, s);
  cfsetispeed = λ options rate. options;
  cfsetospeed = λ options rate. options;
}

pub tty-KeepsTerminals : KeepsTerminals (λ s. s.held) tty
tty-KeepsTerminals = record {
  open_opens = λ device flags s. allot-Opens (s.held s.next) s refl;
  closes = calls-Closes;
  get_keeps = λ fd s. λ f. refl;
  set_keeps = λ fd action options s. λ f. refl;
}

abbrev pub socket : Connection → UdpSocket
socket c = record {
  connection = c;
  has_dest = true;
  dest_addr = record { sin_family = 2; sin_port = 9000; sin_addr = 1 };
}

pub bound : (bind net 9001 (socket connection) system).0 ≡ true
unfolding bind umsg.Posix.UdpSocket.opened umsg.Posix.UdpSocket.bound umsg.Posix.UdpSocket.close
    umsg.Posix.is_open umsg.Posix.close_fd
bound = refl

pub hand_out-Arrives :
    (fd size : ℕ) (s : System) → Arrives (λ s. s.got) size s (hand_out 0 s.coming size s)
hand_out-Arrives fd size s = arrives s.coming
  where
    arrives : (coming : List ℕ) → Arrives (λ (s : System). s.got) size s (hand_out 0 coming size s)
    arrives [] = refl
    arrives (b ∷ coming) = (omega (arith, length-take size (b ∷ coming)), refl)

pub net-IsSource : IsSource (λ (s : System). s.held) (λ s fd. s.coming) (λ s. s.stalls) net.calls
net-IsSource = record {
  gives = λ fd size s open_fd room. receive-Gives (s.held fd) fd size s open_fd room;
  keeps = λ fd size s. receive-Keeps (s.held fd) size s;
}
