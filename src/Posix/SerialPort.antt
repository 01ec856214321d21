-- ===== src/Posix/SerialPort.antt =====
-- src/umsg/transports/posix/serial_port.hpp. `tcflag_t` has 32 bits. The constants of the system and
-- its calls on terminals are parameters.
use umsg.Base.{ℕ, ◌-◌, bit_and, bit_or, Bool, true, false, Option, none, some, List}
use umsg.Posix.{Calls, Connection, give_up, renew}

pub record Constants : Type 0 where
  pub o_rdwr : ℕ
  pub o_noctty : ℕ
  pub o_nonblock : ℕ
  pub tcsanow : ℕ
  pub parenb : ℕ
  pub cstopb : ℕ
  pub csize : ℕ
  pub cs8 : ℕ
  pub crtscts : ℕ
  pub clocal : ℕ
  pub cread : ℕ
  pub icanon : ℕ
  pub echo : ℕ
  pub echoe : ℕ
  pub isig : ℕ
  pub opost : ℕ

-- `struct termios`, with what the class does not touch itself.
pub record Termios : Type 0 where
  pub c_cflag : ℕ
  pub c_lflag : ℕ
  pub c_oflag : ℕ
  pub others : List ℕ

-- `none` and false stand for a negative result.
pub record Terminals (State : Type 0) : Type 0 where
  pub constants : Constants
  pub calls : Calls State
  pub open_file : List ℕ → ℕ → State → Option ℕ × State
  pub tcgetattr : ℕ → State → Option Termios × State
  pub tcsetattr : ℕ → ℕ → Termios → State → Bool × State
  pub cfsetispeed : Termios → ℕ → Termios
  pub cfsetospeed : Termios → ℕ → Termios

-- `~flag`
abbrev complement : ℕ → ℕ
complement flag = 0xFFFFFFFF - flag

-- 8N1, no flow control by hardware, raw input and output.
unfoldable pub raw_8n1 : Constants → Termios → Termios
raw_8n1 k options = record options {
  c_cflag =
      bit_or
        (bit_and
          (bit_or
            (bit_and (bit_and (bit_and options.c_cflag (complement k.parenb)) (complement k.cstopb))
              (complement k.csize))
            k.cs8)
          (complement k.crtscts))
        (bit_or k.clocal k.cread);
  c_lflag =
      bit_and options.c_lflag
        (complement (bit_or (bit_or (bit_or k.icanon k.echo) k.echoe) k.isig));
  c_oflag = bit_and options.c_oflag (complement k.opost);
}

-- The constructor, on memory that has not been written.
unfoldable pub start : List ℕ → Connection
start memory = record { fd = none; rx_buffer = memory; buf_len = 0; buf_idx = 0 }

module _ {State : Type 0} (tty : Terminals State) where
  -- From the result of `tcsetattr`.
  unfoldable pub configured : Connection → Bool × State → Bool × Connection × State
  configured c (false, s) = give_up tty.calls c s
  configured c (true, s) = (true, record c { buf_len = 0; buf_idx = 0 }, s)

  -- From the result of `tcgetattr`.
  unfoldable pub described : Connection → ℕ → ℕ → Option Termios × State → Bool × Connection × State
  described c fd baud_rate (none, s) = give_up tty.calls c s
  described c fd baud_rate (some options, s) =
      let timed : Termios = tty.cfsetospeed (tty.cfsetispeed options baud_rate) baud_rate in
      configured c (tty.tcsetattr fd tty.constants.tcsanow (raw_8n1 tty.constants timed) s)

  -- From the result of `open`.
  unfoldable pub opened : Connection → ℕ → Option ℕ × State → Bool × Connection × State
  opened c baud_rate (none, s) = (false, record c { fd = none }, s)
  opened c baud_rate (some fd, s) =
      described (record c { fd = some fd }) fd baud_rate (tty.tcgetattr fd s)

  unfoldable pub open_port : List ℕ → ℕ → Connection → State → Bool × Connection × State
  open_port device baud_rate c s =
      let fresh : Connection × State = renew tty.calls c s in
      let flags : ℕ =
        bit_or (bit_or tty.constants.o_rdwr tty.constants.o_noctty) tty.constants.o_nonblock in
      opened (fresh.0) baud_rate (tty.open_file device flags (fresh.1))
