-- ===== src/Posix/Tests.antt =====
-- The transports on the system of Posix/System.
use umsg.Base.{
  ℕ, ◌<◌, ◌≡◌, ◌⊎◌, refl, arith, Bool, true, false, Option, some, List, [], ◌∷◌, ◌++◌, take, get_or,
  replicate,
}
use umsg.Posix.{Connection, read_byte, write_bytes}
use umsg.Node.Poll.{Yields}
use umsg.Posix.Source.{client_transport, client_transport-Yields}
use umsg.Posix.Buffered.{IsServed}
use umsg.Posix.Send.{write_bytes-sends}
use umsg.Posix.Receive.{read_byte-IsServed}
use umsg.Posix.Clean.{IsRenewed}
use umsg.Posix.Connect.{connect-IsRenewed, open_port-IsRenewed}
use umsg.Posix.TcpClient.{connect}
use umsg.Posix.SerialPort.{open_port}
use umsg.Posix.UdpSocket.{bind, read}
use umsg.Posix.Datagrams.{bind-read_stale, read-IsServed}
use umsg.Posix.System.{System, calls, calls-IsLine, system, streams, system-Holds}
use umsg.Posix.Fixtures.{
  connection, connection-IsBuffered, drained, drained-IsBuffered, net, net-KeepsSockets,
  connection-IsClean, tty, tty-KeepsTerminals, socket, bound, hand_out-Arrives, net-IsSource,
}

write_bytes-sends_example :
    (r : Bool × System) × (write_bytes calls 8 connection (1 ∷ 2 ∷ 3 ∷ 4 ∷ 5 ∷ []) system ≡ some r)
    × (((r.0 ≡ true) × (r.1.sent ≡ [] ++ (1 ∷ 2 ∷ 3 ∷ 4 ∷ 5 ∷ [])))
        ⊎ ((r.0 ≡ false) × (k : ℕ) × (k < 5) × (r.1.sent ≡ [] ++ take k (1 ∷ 2 ∷ 3 ∷ 4 ∷ 5 ∷ []))))
write_bytes-sends_example =
    write_bytes-sends calls (λ s. s.sent) (λ s. s.got) (λ s. s.stalls) calls-IsLine 8 3 connection
      (1 ∷ 2 ∷ 3 ∷ 4 ∷ 5 ∷ []) system refl (omega arith)

read_byte-IsServed_example :
    (r : Option ℕ × Connection × System) × (incoming : List ℕ) × (read_byte calls 3 drained system
      ≡ some r)
    × (r.2.got ≡ [] ++ incoming)
    × IsServed 512 drained incoming (r.0, r.1)
read_byte-IsServed_example =
    read_byte-IsServed calls (λ s. s.sent) (λ s. s.got) (λ s. s.stalls) calls-IsLine 3 3 512 drained
      system refl (omega arith) drained-IsBuffered (omega arith)

connect-IsRenewed_example :
    IsRenewed (λ s. s.held) 512 streams (connect net (49 ∷ []) 9000 connection system)
connect-IsRenewed_example =
    connect-IsRenewed (λ s. s.held) net net-KeepsSockets 512 streams (49 ∷ []) 9000 connection
      system connection-IsClean system-Holds

open_port-IsRenewed_example :
    IsRenewed (λ s. s.held) 512 streams (open_port tty (47 ∷ []) 4098 connection system)
open_port-IsRenewed_example =
    open_port-IsRenewed (λ s. s.held) tty tty-KeepsTerminals 512 streams (47 ∷ []) 4098 connection
      system connection-IsClean system-Holds

bind-read_stale_example :
    (read net (bind net 9001 (socket connection) system).1 system).0
    ≡ some (get_or (replicate 512 0) 0 0)
bind-read_stale_example =
    bind-read_stale net (socket connection) 9001 system system (omega arith) bound

read-IsServed_example :
    (incoming : List ℕ) × ((read net (socket drained) system).2.got ≡ [] ++ incoming)
    × IsServed 512 drained incoming
        ((read net (socket drained) system).0, (read net (socket drained) system).1.connection)
read-IsServed_example =
    read-IsServed (λ s. s.got) net hand_out-Arrives 512 3 (socket drained) system refl
      drained-IsBuffered

client_transport-Yields_example :
    (t : Connection × System) × Yields
      (client_transport net (λ s. s.stalls))
      (connection, system)
      (0 ∷ 0 ∷ 7 ∷ 8 ∷ 9 ∷ [])
      t
client_transport-Yields_example =
    client_transport-Yields net (λ s. s.stalls) (λ s. s.held) (λ s fd. s.coming) net-IsSource 3 512
      (omega arith) connection system refl refl connection-IsBuffered
