-- ===== src/Arduino/Packets.antt =====
-- `UdpTransport` on an object that serves packets in order.
use umsg.Base.{
  ℕ, ◌≡◌, ◌∙◌, refl, ap, arith, true, false, if◌then◌else◌, none, List, [], ◌∷◌, ◌++◌, IsByte,
  IsBytes, All,
}
use umsg.Node.{Transport}
use umsg.Node.Poll.{Yields, ends, reads}
use umsg.Arduino.{Stream, Udp, is_positive, byte_of, read_available}
use umsg.Arduino.UdpTransport.{Destination, read_parsed, read_current, read, write}
use umsg.Arduino.Queues.{has_some, IsQueue, byte_of-Leaves, read-some, Leaves}
use umsg.Arduino

-- What `parsePacket` does where no byte waits: the next packet becomes what waits, and the answer
-- says whether it has bytes.
pub record IsPackets {State : Type 0} (waiting : State → List ℕ) (packets : State → List (List ℕ))
    (udp : Udp State) : Type 0 where
  pub queue : IsQueue waiting packets udp.stream
  pub parses :
      (s : State) (packet : List ℕ) (rest : List (List ℕ))
      → waiting s ≡ []
      → packets s ≡ packet ∷ rest
      → (is_positive (udp.parse_packet s).0 ≡ has_some packet)
        × (waiting (udp.parse_packet s).1 ≡ packet)
        × (packets (udp.parse_packet s).1 ≡ rest)
  pub parses_none :
      (s : State)
      → waiting s ≡ []
      → packets s ≡ []
      → (is_positive (udp.parse_packet s).0 ≡ false)
        × (waiting (udp.parse_packet s).1 ≡ [])
        × (packets (udp.parse_packet s).1 ≡ [])

-- A packet with bytes.
abbrev pub IsFilled : List ℕ → Type 0
IsFilled packet = IsBytes packet × (has_some packet ≡ true)

abbrev pub joined : List (List ℕ) → List ℕ
joined [] = []
joined (packet ∷ rest) = packet ++ joined rest

module _ {State : Type 0} (waiting : State → List ℕ) (packets : State → List (List ℕ))
    (udp : Udp State) (holds : IsPackets waiting packets udp) (d : Destination) where
  abbrev pub udp_transport : Transport State
  udp_transport = record { read = read udp; write = write udp d }

  counted : (s : State) → State
  counted s = (udp.stream.available s).1

  read-current :
      (s : State) (b : ℕ) (bytes : List ℕ)
      → IsByte b
      → waiting s ≡ b ∷ bytes
      → Leaves waiting packets (packets s) b bytes (read udp s)
  unfolding read read_current read_available
  read-current s b bytes is_byte front =
      let q = holds.queue in
      let s1 : State = (udp.stream.available s).1 in
      let positive : is_positive (udp.stream.available s).0 ≡ true =
        q.counts s ∙ ap has_some front in
      let next =
        byte_of-Leaves waiting packets udp.stream q s1 b bytes is_byte
          (q.counting_keeps s ∙ front) in
      (
        next.0,
        ap (λ t. if t then byte_of (udp.stream.read s1) else read_parsed udp (udp.parse_packet s1))
              positive
            ∙ next.1,
        next.2,
        next.3 ∙ q.counting_behind s,
      )

  -- Where no byte waits, `parsePacket` is asked.
  read-parses :
      (s : State)
      → waiting s ≡ []
      → read udp s ≡ read_parsed udp (udp.parse_packet (udp.stream.available s).1)
  unfolding read read_current
  read-parses s empty =
      let s1 : State = (udp.stream.available s).1 in
      ap (λ t. if t then byte_of (udp.stream.read s1) else read_parsed udp (udp.parse_packet s1))
        (holds.queue.counts s ∙ ap has_some empty)

  read-next :
      (s : State) (b : ℕ) (bytes : List ℕ) (rest : List (List ℕ))
      → IsByte b
      → waiting s ≡ []
      → packets s ≡ (b ∷ bytes) ∷ rest
      → Leaves waiting packets rest b bytes (read udp s)
  unfolding read_parsed Arduino.read
  read-next s b bytes rest is_byte empty front =
      let q = holds.queue in
      let s1 : State = (udp.stream.available s).1 in
      let s2 : State = (udp.parse_packet s1).1 in
      let parsed =
        holds.parses s1 (b ∷ bytes) rest (q.counting_keeps s ∙ empty)
          (q.counting_behind s ∙ front) in
      let next = read-some waiting packets udp.stream q s2 b bytes is_byte parsed.1 in
      (
        next.0,
        read-parses s empty
            ∙ ap
                (λ t. if t then read_available udp.stream (udp.stream.available s2) else (none, s2))
                parsed.0
            ∙ next.1,
        next.2,
        next.3 ∙ parsed.2,
      )

  read-end :
      (s : State)
      → waiting s ≡ []
      → packets s ≡ []
      → (s' : State) × (read udp s ≡ (none, s')) × (waiting s' ≡ []) × (packets s' ≡ [])
  unfolding read_parsed Arduino.read
  read-end s empty front =
      let q = holds.queue in
      let s1 : State = (udp.stream.available s).1 in
      let s2 : State = (udp.parse_packet s1).1 in
      let parsed =
        holds.parses_none s1 (q.counting_keeps s ∙ empty) (q.counting_behind s ∙ front) in
      (
        s2,
        read-parses s empty
            ∙ ap
                (λ t. if t then read_available udp.stream (udp.stream.available s2) else (none, s2))
                parsed.0,
        parsed.1,
        parsed.2,
      )

  Gives : State → List ℕ → Type 0
  Gives s bytes =
      (s' : State) × Yields udp_transport s bytes s' × (waiting s' ≡ []) × (packets s' ≡ [])

  udp_transport-from :
      (rest : List (List ℕ)) (bytes : List ℕ) (s : State)
      → IsBytes bytes
      → All IsFilled rest
      → waiting s ≡ bytes
      → packets s ≡ rest
      → Gives s (bytes ++ joined rest)
  unfolding Gives
  udp_transport-from [] [] s all_bytes filled front later =
      let end = read-end s front later in (end.0, ends end.1, end.2, end.3)
  udp_transport-from ([] ∷ rest) [] s all_bytes filled front later = absurd (ground (arith, filled))
  udp_transport-from ((b ∷ packet) ∷ rest) [] s all_bytes filled front later =
      let step = read-next s b packet rest filled.0.0.0 front later in
      let more = udp_transport-from rest packet step.0 filled.0.0.1 filled.1 step.2 step.3 in
      (more.0, reads step.1 more.1, more.2, more.3)
  udp_transport-from rest (b ∷ bytes) s all_bytes filled front later =
      let step = read-current s b bytes all_bytes.0 front in
      let more = udp_transport-from rest bytes step.0 all_bytes.1 filled step.2 (step.3 ∙ later) in
      (more.0, reads step.1 more.1, more.2, more.3)

  -- On an object that serves the bytes of its packets in order, where every packet that has come has
  -- bytes, the transport gives a node the bytes that wait and those of the packets, in order and with
  -- no gap between packets, and then has none.
  pub udp_transport-Yields :
      (s : State)
      → IsBytes (waiting s)
      → All IsFilled (packets s)
      → (s' : State) × Yields udp_transport s (waiting s ++ joined (packets s)) s'
        × (waiting s' ≡ [])
        × (packets s' ≡ [])
  unfolding Gives
  udp_transport-Yields s all_bytes filled =
      udp_transport-from (packets s) (waiting s) s all_bytes filled refl refl
