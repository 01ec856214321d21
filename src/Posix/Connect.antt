-- ===== src/Posix/Connect.antt =====
-- `SerialPort::open` and `TcpClient::connect`, on every path.
use umsg.Base.{ℕ, ◌≡◌, refl, sym, Bool, true, false, Option, none, some, List, length, bit_or}
use umsg.Posix.{Connection, give_up, renew}
use mathlib.Core.Path.{subst}
use umsg.Posix.Descriptors.{Holds, Closes, Opens, Keeps, Keeps-Holds, Opens-Holds}
use umsg.Posix.Clean.{
  IsClean, IsRenewed, give_up-IsRenewed, ready-IsRenewed, renew-IsRenewed, unopened-IsRenewed,
  renewed-Holds,
}
use umsg.Posix.TcpClient.{Sockets, SocketAddress}
use umsg.Posix.SerialPort.{Terminals, Termios}
use umsg.Posix.TcpClient
use umsg.Posix.SerialPort

module _ {State : Type 0} (held : State → ℕ → Bool) where
  -- What the calls on sockets do to the descriptors that are open: `socket` gets one that was not, or
  -- fails, `close` gives back the one that it names where that is open, and the others leave them as
  -- they are.
  pub record KeepsSockets (net : Sockets State) : Type 0 where
    pub socket_opens : (family kind : ℕ) (s : State) → Opens held s (net.socket family kind s)
    pub closes : Closes held net.calls
    pub connect_keeps :
        (fd : ℕ) (a : SocketAddress) (s : State) → Keeps held s (net.connect fd a s).1
    pub getfl_keeps : (fd : ℕ) (s : State) → Keeps held s (net.fcntl_getfl fd s).1
    pub setfl_keeps : (fd flags : ℕ) (s : State) → Keeps held s (net.fcntl_setfl fd flags s).1

  module _ (net : Sockets State) (keeps : KeepsSockets net) (size : ℕ) (others : ℕ → Bool) where
    module _ (c : Connection) (fd : ℕ) (open_fd : c.fd ≡ some fd)
        (room : length c.rx_buffer ≡ size) where
      fails-IsRenewed :
          (s s' : State)
          → Holds held others (some fd) s
          → Keeps held s s'
          → IsRenewed held size others (give_up net.calls c s')
      fails-IsRenewed s s' h same =
          give_up-IsRenewed held size others net.calls keeps.closes c s' room (
            subst (λ o. Holds held others o s') (sym open_fd)
              (Keeps-Holds held others (some fd) s s' h same))

      unblocked-IsRenewed :
          (s : State) (r : Bool × State)
          → Holds held others (some fd) s
          → Keeps held s (r.1)
          → IsRenewed held size others (TcpClient.unblocked net c r)
      unfolding TcpClient.unblocked
      unblocked-IsRenewed s (false, s') h same = fails-IsRenewed s s' h same
      unblocked-IsRenewed s (true, s') h same =
          ready-IsRenewed held size others net.calls keeps.closes c fd s' open_fd room
            (Keeps-Holds held others (some fd) s s' h same)

      described-IsRenewed :
          (s : State) (r : Option ℕ × State)
          → Holds held others (some fd) s
          → Keeps held s (r.1)
          → IsRenewed held size others (TcpClient.described net c fd r)
      unfolding TcpClient.described
      described-IsRenewed s (none, s') h same = fails-IsRenewed s s' h same
      described-IsRenewed s (some flags, s') h same =
          unblocked-IsRenewed s' (net.fcntl_setfl fd (bit_or flags net.o_nonblock) s')
            (Keeps-Holds held others (some fd) s s' h same)
            (keeps.setfl_keeps fd (bit_or flags net.o_nonblock) s')

      connected-IsRenewed :
          (s : State) (r : Bool × State)
          → Holds held others (some fd) s
          → Keeps held s (r.1)
          → IsRenewed held size others (TcpClient.connected net c fd r)
      unfolding TcpClient.connected
      connected-IsRenewed s (false, s') h same = fails-IsRenewed s s' h same
      connected-IsRenewed s (true, s') h same =
          described-IsRenewed s' (net.fcntl_getfl fd s')
            (Keeps-Holds held others (some fd) s s' h same) (keeps.getfl_keeps fd s')

      resolved-IsRenewed :
          (port : ℕ) (s : State) (addr : Option ℕ)
          → Holds held others (some fd) s
          → IsRenewed held size others (TcpClient.resolved net c fd port s addr)
      unfolding TcpClient.resolved
      resolved-IsRenewed port s none h = fails-IsRenewed s s h (λ f. refl)
      resolved-IsRenewed port s (some addr) h =
          connected-IsRenewed s _ h (keeps.connect_keeps fd _ s)

    opened-IsRenewed :
        (c : Connection) (ip : List ℕ) (port : ℕ) (s : State) (r : Option ℕ × State)
        → IsRenewed held size others (false, c, s)
        → Opens held s r
        → IsRenewed held size others (TcpClient.opened net c ip port r)
    unfolding TcpClient.opened
    opened-IsRenewed c ip port s (none, s') v o =
        unopened-IsRenewed held size others net.calls keeps.closes c s s' v o
    opened-IsRenewed c ip port s (some fd, s') v o =
        resolved-IsRenewed (record c { fd = some fd }) fd refl v.clean.buffered.buffer_size port s'
          (net.inet_pton ip)
          (Opens-Holds held others fd s s'
            (renewed-Holds held size others net.calls keeps.closes c s v) o)

    -- For a clean client, open or not, whose descriptor, if any, is open in the system and none of the
    -- `others` that are: `connect` leaves it clean with nothing to serve and answers true exactly where
    -- it is then open. Open in the system are then the same `others`, and besides them the client's
    -- descriptor, if it has one, and no more: on no path, failing ones included, is a descriptor left
    -- behind or that of another closed.
    pub connect-IsRenewed :
        (ip : List ℕ) (port : ℕ) (c : Connection) (s : State)
        → IsClean size c
        → Holds held others c.fd s
        → IsRenewed held size others (TcpClient.connect net ip port c s)
    unfolding TcpClient.connect
    connect-IsRenewed ip port c s v h =
        opened-IsRenewed (renew net.calls c s).0 ip port (renew net.calls c s).1
          (net.socket net.af_inet net.sock_stream (renew net.calls c s).1)
          (renew-IsRenewed held size others net.calls keeps.closes c s v h)
          (keeps.socket_opens net.af_inet net.sock_stream (renew net.calls c s).1)

  -- The same of the calls on terminals.
  pub record KeepsTerminals (tty : Terminals State) : Type 0 where
    pub open_opens :
        (device : List ℕ) (flags : ℕ) (s : State) → Opens held s (tty.open_file device flags s)
    pub closes : Closes held tty.calls
    pub get_keeps : (fd : ℕ) (s : State) → Keeps held s (tty.tcgetattr fd s).1
    pub set_keeps :
        (fd action : ℕ) (options : Termios) (s : State)
        → Keeps held s (tty.tcsetattr fd action options s).1

  module _ (tty : Terminals State) (keeps : KeepsTerminals tty) (size : ℕ) (others : ℕ → Bool) where
    configured-IsRenewed :
        (c : Connection) (fd : ℕ) (r : Bool × State)
        → c.fd ≡ some fd
        → length c.rx_buffer ≡ size
        → Holds held others (some fd) (r.1)
        → IsRenewed held size others (SerialPort.configured tty c r)
    unfolding SerialPort.configured
    configured-IsRenewed c fd (false, s) open_fd room h =
        give_up-IsRenewed held size others tty.calls keeps.closes c s room
          (subst (λ o. Holds held others o s) (sym open_fd) h)
    configured-IsRenewed c fd (true, s) open_fd room h =
        ready-IsRenewed held size others tty.calls keeps.closes c fd s open_fd room h

    described_port-IsRenewed :
        (c : Connection) (fd baud_rate : ℕ) (r : Option Termios × State)
        → c.fd ≡ some fd
        → length c.rx_buffer ≡ size
        → Holds held others (some fd) (r.1)
        → IsRenewed held size others (SerialPort.described tty c fd baud_rate r)
    unfolding SerialPort.described
    described_port-IsRenewed c fd baud_rate (none, s) open_fd room h =
        give_up-IsRenewed held size others tty.calls keeps.closes c s room
          (subst (λ o. Holds held others o s) (sym open_fd) h)
    described_port-IsRenewed c fd baud_rate (some options, s) open_fd room h =
        configured-IsRenewed c fd _ open_fd room
          (Keeps-Holds held others (some fd) s _ h (keeps.set_keeps fd tty.constants.tcsanow _ s))

    opened_port-IsRenewed :
        (c : Connection) (baud_rate : ℕ) (s : State) (r : Option ℕ × State)
        → IsRenewed held size others (false, c, s)
        → Opens held s r
        → IsRenewed held size others (SerialPort.opened tty c baud_rate r)
    unfolding SerialPort.opened
    opened_port-IsRenewed c baud_rate s (none, s') v o =
        unopened-IsRenewed held size others tty.calls keeps.closes c s s' v o
    opened_port-IsRenewed c baud_rate s (some fd, s') v o =
        described_port-IsRenewed (record c { fd = some fd }) fd baud_rate (tty.tcgetattr fd s') refl
          v.clean.buffered.buffer_size
          (Keeps-Holds held others (some fd) s' _
            (Opens-Holds held others fd s s'
              (renewed-Holds held size others tty.calls keeps.closes c s v) o)
            (keeps.get_keeps fd s'))

    -- For a clean port, open or not, whose descriptor, if any, is open in the system and none of the
    -- `others` that are: `open` leaves it clean with nothing to serve and answers true exactly where it
    -- is then open. Open in the system are then the same `others`, and besides them the port's
    -- descriptor, if it has one, and no more, also where `tcgetattr` or `tcsetattr` has failed.
    pub open_port-IsRenewed :
        (device : List ℕ) (baud_rate : ℕ) (c : Connection) (s : State)
        → IsClean size c
        → Holds held others c.fd s
        → IsRenewed held size others (SerialPort.open_port tty device baud_rate c s)
    unfolding SerialPort.open_port
    open_port-IsRenewed device baud_rate c s v h =
        opened_port-IsRenewed (renew tty.calls c s).0 baud_rate (renew tty.calls c s).1 _
          (renew-IsRenewed held size others tty.calls keeps.closes c s v h)
          (keeps.open_opens device _ (renew tty.calls c s).1)
