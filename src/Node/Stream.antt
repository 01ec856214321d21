-- ===== src/Node/Stream.antt =====
-- What a node makes of the stream of bytes that it receives, with no buffer and no span: the events of
-- the receiver of `Framer.Stream`, each frame taken apart and given to the handlers.
use umsg.Base.{
  ℕ, ◌+◌, ◌==◌, ltb, if◌then◌else◌, Option, none, some, List, [], ◌∷◌, length, drop, get_or, ◌≡◌,
}
use umsg.Common.{ByteSpan, HasRoom, contents}
use umsg.Marshalling.{read_u16_be, read_u32_be}
use umsg.Dispatcher.{Slot, dispatch}
use umsg.Dispatcher.Lookup.{handler_of}
use umsg.Framer.Stream.{Received, idle, rejected, delivered}

pub record Letter : Type 0 where
  pub version : ℕ
  pub msg_id : ℕ
  pub msg_hash : ℕ
  pub payload : List ℕ

-- A frame whose length field agrees with its size.
unfoldable pub letter_of : List ℕ → Option Letter
letter_of frame =
    if ltb (length frame) 8
    then none
    else if length frame == 8 + read_u16_be frame 6
    then some (record {
      version = get_or frame 0 0;
      msg_id = get_or frame 1 0;
      msg_hash = read_u32_be frame 2;
      payload = drop 8 frame;
    })
    else none

-- The span of exactly some bytes.
abbrev pub span_of : List ℕ → ByteSpan
span_of bytes = record { data_ptr = some bytes; length = length bytes }

module _ {World : Type 0} where
  -- What a letter does: with the version that the node expects it is dispatched.
  unfoldable pub deliver : List (Slot World) → ℕ → Option Letter → World → World
  deliver handlers version none w = w
  deliver handlers version (some l) w =
      if l.version == version
      then (dispatch handlers l.msg_id l.msg_hash (span_of l.payload) w).1
      else w

  unfoldable pub effect : List (Slot World) → ℕ → Received → World → World
  effect handlers version idle w = w
  effect handlers version (rejected e) w = w
  effect handlers version (delivered frame) w = deliver handlers version (letter_of frame) w

  unfoldable pub effects : List (Slot World) → ℕ → List Received → World → World
  effects handlers version [] w = w
  effects handlers version (event ∷ events) w =
      effects handlers version events (effect handlers version event w)

  -- The handlers read of a payload its bytes only: not its address, nor what stands behind it.
  abbrev pub ReadsPayload : Slot World → Type 0
  ReadsPayload s =
      (p q : ByteSpan) (hash : ℕ) (w : World)
      → HasRoom p.data_ptr p.length
      → HasRoom q.data_ptr q.length
      → contents p ≡ contents q
      → handler_of s p hash w ≡ handler_of s q hash w
