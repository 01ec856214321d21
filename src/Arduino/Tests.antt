-- ===== src/Arduino/Tests.antt =====
-- An object that is a list of packets.
use umsg.Base.{ℕ, suc, ◌≡◌, refl, ap, arith, false, List, [], ◌∷◌, ◌++◌, length}
use umsg.Base.Int.{ℤ, pos, negsuc}
use umsg.Node.Poll.{Yields}
use umsg.Arduino.{Stream, Udp, is_positive, stream_transport}
use umsg.Arduino.Queues.{has_some, IsQueue, stream_transport-Yields}
use umsg.Arduino.Packets.{IsPackets, joined, udp_transport, udp_transport-Yields}

record Inbox : Type 0 where
  waiting : List ℕ
  packets : List (List ℕ)

abbrev front : List ℕ → ℤ
front [] = negsuc 0
front (b ∷ bytes) = pos b

abbrev behind : List ℕ → List ℕ
behind [] = []
behind (b ∷ bytes) = bytes

abbrev count : List ℕ → ℤ
count [] = pos 0
count (b ∷ bytes) = pos (suc (length bytes))

abbrev stream : Stream Inbox
stream = record {
  available = λ s. (count s.waiting, s);
  read = λ s. (front s.waiting, record s { waiting = behind s.waiting });
  write = λ bytes s. (length bytes, s);
}

abbrev next_packet : List (List ℕ) → Inbox → ℤ × Inbox
next_packet [] s = (pos 0, record s { waiting = [] })
next_packet (packet ∷ rest) s = (count packet, record { waiting = packet; packets = rest })

abbrev udp : Udp Inbox
udp = record {
  stream = stream;
  parse_packet = λ s. next_packet s.packets s;
  begin_packet = λ ip port s. (pos 1, s);
  end_packet = λ s. (pos 1, s);
}

positive-count : (bytes : List ℕ) → is_positive (count bytes) ≡ has_some bytes
positive-count [] = refl
positive-count (b ∷ bytes) = refl

stream-IsQueue : IsQueue (λ (s : Inbox). s.waiting) (λ s. s.packets) stream
stream-IsQueue = record {
  counts = λ s. positive-count s.waiting;
  counting_keeps = λ s. refl;
  counting_behind = λ s. refl;
  serves = λ s b bytes e. (ap front e, ap behind e);
  serving_behind = λ s. refl;
}

next_packet-parses :
    (packets : List (List ℕ)) (s : Inbox) (packet : List ℕ) (rest : List (List ℕ))
    → packets ≡ packet ∷ rest
    → (is_positive (next_packet packets s).0 ≡ has_some packet)
      × ((next_packet packets s).1.waiting ≡ packet)
      × ((next_packet packets s).1.packets ≡ rest)
next_packet-parses packets s packet rest e = rw e (positive-count packet, refl, refl)

next_packet-none :
    (packets : List (List ℕ)) (s : Inbox)
    → packets ≡ []
    → s.packets ≡ []
    → (is_positive (next_packet packets s).0 ≡ false)
      × ((next_packet packets s).1.waiting ≡ [])
      × ((next_packet packets s).1.packets ≡ [])
next_packet-none packets s e none_left = rw e (refl, refl, none_left)

udp-IsPackets : IsPackets (λ s. s.waiting) (λ s. s.packets) udp
udp-IsPackets = record {
  queue = stream-IsQueue;
  parses = λ s packet rest empty e. next_packet-parses s.packets s packet rest e;
  parses_none = λ s empty e. next_packet-none s.packets s e e;
}

abbrev inbox : Inbox
inbox = record { waiting = 3 ∷ 0 ∷ []; packets = (5 ∷ []) ∷ (6 ∷ 7 ∷ []) ∷ [] }

stream_transport-Yields_example :
    (s' : Inbox) × Yields (stream_transport stream) inbox (3 ∷ 0 ∷ []) s' × (s'.waiting ≡ [])
stream_transport-Yields_example =
    stream_transport-Yields (λ s. s.waiting) (λ s. s.packets) stream stream-IsQueue inbox
      (omega arith)

udp_transport-Yields_example :
    (s' : Inbox) × Yields
      (udp_transport
        (λ s. s.waiting)
        (λ s. s.packets)
        udp
        udp-IsPackets
        (record { dest_ip = 1; dest_port = 9000 }))
      inbox
      ((3 ∷ 0 ∷ []) ++ joined ((5 ∷ []) ∷ (6 ∷ 7 ∷ []) ∷ []))
      s'
    × (s'.waiting ≡ [])
    × (s'.packets ≡ [])
udp_transport-Yields_example =
    udp_transport-Yields (λ s. s.waiting) (λ s. s.packets) udp udp-IsPackets
      (record { dest_ip = 1; dest_port = 9000 }) inbox (omega arith)
      ((omega arith, refl), ((omega arith, refl), tt))
