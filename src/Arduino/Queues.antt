-- ===== src/Arduino/Queues.antt =====
-- The transports on objects that serve the bytes that have come, in order.
use umsg.Base.{
  ℕ, ◌≡◌, ◌∙◌, refl, ap, arith, Bool, true, false, if◌then◌else◌, Option, none, some, List, [], ◌∷◌,
  IsByte, IsBytes,
}
use umsg.Base.Int.{pos}
use umsg.Marshalling.Signed.{to_unsigned}
use umsg.Node.Poll.{Yields, ends, reads}
use umsg.Arduino.{Stream, is_positive, byte_of, read_available, read, stream_transport}

abbrev pub has_some : List ℕ → Bool
has_some [] = false
has_some (b ∷ bytes) = true

-- What `available` and `read` do to the bytes that wait in the object. The rest of the state,
-- `behind`, they leave.
pub record IsQueue {State Rest : Type 0} (waiting : State → List ℕ) (behind : State → Rest)
    (stream : Stream State) : Type 0 where
  pub counts : (s : State) → is_positive (stream.available s).0 ≡ has_some (waiting s)
  pub counting_keeps : (s : State) → waiting (stream.available s).1 ≡ waiting s
  pub counting_behind : (s : State) → behind (stream.available s).1 ≡ behind s
  pub serves :
      (s : State) (b : ℕ) (bytes : List ℕ)
      → waiting s ≡ b ∷ bytes
      → ((stream.read s).0 ≡ pos b) × (waiting (stream.read s).1 ≡ bytes)
  pub serving_behind : (s : State) → behind (stream.read s).1 ≡ behind s

byte-to_unsigned : (b : ℕ) → IsByte b → to_unsigned 256 (pos b) ≡ b
unfolding to_unsigned
byte-to_unsigned b h = omega (arith, h)

module _ {State Rest : Type 0} (waiting : State → List ℕ) (behind : State → Rest) where
  -- What a read of one byte leaves.
  abbrev pub Leaves : Rest → ℕ → List ℕ → Option ℕ × State → Type 0
  Leaves rest b bytes r = (s : State) × (r ≡ (some b, s)) × (waiting s ≡ bytes) × (behind s ≡ rest)

  module _ (stream : Stream State) (queue : IsQueue waiting behind stream) where
    pub byte_of-Leaves :
        (s : State) (b : ℕ) (bytes : List ℕ)
        → IsByte b
        → waiting s ≡ b ∷ bytes
        → Leaves (behind s) b bytes (byte_of (stream.read s))
    byte_of-Leaves s b bytes is_byte front =
        let got = queue.serves s b bytes front in
        (
          (stream.read s).1,
          ap (λ n. (some (to_unsigned 256 n), (stream.read s).1)) got.0
              ∙ ap (λ n. (some n, (stream.read s).1)) (byte-to_unsigned b is_byte),
          got.1,
          queue.serving_behind s,
        )

    -- `read` where a byte waits, and where none does.
    pub read-some :
        (s : State) (b : ℕ) (bytes : List ℕ)
        → IsByte b
        → waiting s ≡ b ∷ bytes
        → Leaves (behind s) b bytes (read stream s)
    unfolding read read_available
    read-some s b bytes is_byte front =
        let s1 : State = (stream.available s).1 in
        let positive : is_positive (stream.available s).0 ≡ true =
          queue.counts s ∙ ap has_some front in
        let next = byte_of-Leaves s1 b bytes is_byte (queue.counting_keeps s ∙ front) in
        (
          next.0,
          ap (λ t. if t then byte_of (stream.read s1) else (none, s1)) positive ∙ next.1,
          next.2,
          next.3 ∙ queue.counting_behind s,
        )

    read-none : (s : State) → waiting s ≡ [] → read stream s ≡ (none, (stream.available s).1)
    unfolding read read_available
    read-none s empty =
        let s1 : State = (stream.available s).1 in
        ap (λ t. if t then byte_of (stream.read s1) else (none, s1))
          (queue.counts s ∙ ap has_some empty)

    stream-Yields-from :
        (bytes : List ℕ) (s : State)
        → IsBytes bytes
        → waiting s ≡ bytes
        → (s' : State) × Yields (stream_transport stream) s bytes s' × (waiting s' ≡ [])
    stream-Yields-from [] s all_bytes front =
        ((stream.available s).1, ends (read-none s front), queue.counting_keeps s ∙ front)
    stream-Yields-from (b ∷ bytes) s all_bytes front =
        let step = read-some s b bytes all_bytes.0 front in
        let rest = stream-Yields-from bytes step.0 all_bytes.1 step.2 in
        (rest.0, reads step.1 rest.1, rest.2)

    -- On an object that serves the bytes that wait in it in order, the transport gives a node exactly
    -- these, in order, and then has none.
    pub stream_transport-Yields :
        (s : State)
        → IsBytes (waiting s)
        → (s' : State) × Yields (stream_transport stream) s (waiting s) s' × (waiting s' ≡ [])
    stream_transport-Yields s all_bytes = stream-Yields-from (waiting s) s all_bytes refl
