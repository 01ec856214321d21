-- ===== src/Dispatcher.antt =====
-- src/umsg/dispatcher.hpp: `Dispatcher<MaxHandlers>`, a table of handlers keyed by the message id.
-- The objects that handlers belong to, and all else that a handler can change, are the `World`; an
-- object is known by its address. A member function pointer is its bytes, and calling through it is
-- an argument of the thunks, `call`, since what it runs is the client's code.
pub mod Lookup
pub mod Install
pub mod Register
mod Tests
use umsg.Base.{ℕ, ◌==◌, not, ◌&&◌, ◌||◌, if◌then◌else◌, Bool, true, false, Option, none, some}
use umsg.Base.{List, [], ◌∷◌, take, length, memcpy}
use umsg.Common.{Error, ok, invalid_argument, handler_not_found, hash_mismatch, ByteSpan}
use mathlib.Core.Option
use mathlib.Core.List.{map}

-- `Thunk`: object, bytes of the method, payload, hash.
abbrev pub Thunk : Type 0 → Type 0
Thunk World = ℕ → List ℕ → ByteSpan → ℕ → World → Error × World

pub record Slot (World : Type 0) : Type 0 where
  pub used : Bool
  pub msg_id : ℕ
  pub obj : ℕ
  pub method_bytes : List ℕ
  pub thunk : Thunk World

-- What the dispatcher asks of the type of a message: `kMsgHash` and `decode`.
pub record Message : Type 1 where
  pub Msg : Type 0
  pub msg_hash : ℕ
  pub decode : ByteSpan → Option Msg

module _ {World : Type 0} where
  -- The constructor, on memory that has not been written.
  unfoldable pub start : List (Slot World) → List (Slot World)
  start handlers = map {A = Slot World} {B = Slot World} (λ s. record s { used = false }) handlers

  unfoldable pub write_slot : Slot World → ℕ → ℕ → Thunk World → List ℕ → Slot World
  write_slot s msg_id obj thunk method = record s {
    used = true;
    msg_id = msg_id;
    obj = obj;
    method_bytes = memcpy s.method_bytes 0 method;
    thunk = thunk;
  }

  -- The first loop of `install`; `none` means that it ran through.
  unfoldable pub replace_bound :
      ℕ → (Slot World → Slot World) → List (Slot World) → Option (List (Slot World))
  replace_bound msg_id write [] = none
  replace_bound msg_id write (s ∷ rest) =
      let later = replace_bound msg_id write rest in
      if s.used && s.msg_id == msg_id then some (write s ∷ rest) else Option.map (λ t. s ∷ t) later

  -- The second loop of `install`.
  unfoldable pub fill_free :
      (Slot World → Slot World) → List (Slot World) → Option (List (Slot World))
  fill_free write [] = none
  fill_free write (s ∷ rest) =
      let later = fill_free write rest in
      if not s.used then some (write s ∷ rest) else Option.map (λ t. s ∷ t) later

  unfoldable pub fill_or_refuse :
      (Slot World → Slot World) → List (Slot World) → Error × List (Slot World)
  fill_or_refuse write handlers = elim (fill_free write handlers) [
    | some table ↦ (ok, table)
    | none ↦ (invalid_argument, handlers)
  ]

  unfoldable pub install :
      List (Slot World) → ℕ → ℕ → Thunk World → List ℕ → Error × List (Slot World)
  unfolding fill_or_refuse
  install handlers msg_id obj thunk method =
      let write = λ (s : Slot World). write_slot s msg_id obj thunk method in
      elim (replace_bound msg_id write handlers) [
        | some table ↦ (ok, table)
        | none ↦ fill_or_refuse write handlers
      ]

  -- `call` is `(obj->*m)(payload, msgHash)`; `size` is `sizeof(m)`.
  unfoldable pub raw_thunk : (List ℕ → ℕ → ByteSpan → ℕ → World → Error × World) → ℕ → Thunk World
  raw_thunk call size obj method_bytes payload msg_hash w =
      call (take size method_bytes) obj payload msg_hash w

  -- `call` is `(obj->*m)(msg)`.
  unfoldable pub typed_thunk :
      (message : Message) → (List ℕ → ℕ → message.Msg → World → Error × World) → ℕ → Thunk World
  typed_thunk message call size obj method_bytes payload msg_hash w =
      if not (msg_hash == message.msg_hash)
      then (hash_mismatch, w)
      else elim (message.decode payload) [
        | none ↦ (invalid_argument, w)
        | some msg ↦ call (take size method_bytes) obj msg w
      ]

  -- The two forms of `registerHandler`.
  unfoldable pub register_raw :
      List (Slot World)
      → ℕ
      → ℕ
      → (List ℕ → ℕ → ByteSpan → ℕ → World → Error × World)
      → List ℕ
      → Error × List (Slot World)
  unfolding install raw_thunk
  register_raw handlers msg_id obj call method =
      install handlers msg_id obj (raw_thunk call (length method)) method

  unfoldable pub register_typed :
      List (Slot World)
      → ℕ
      → ℕ
      → (message : Message) → (List ℕ → ℕ → message.Msg → World → Error × World)
      → List ℕ
      → Error × List (Slot World)
  unfolding install typed_thunk
  register_typed handlers msg_id obj message call method =
      install handlers msg_id obj (typed_thunk message call (length method)) method

  unfoldable pub dispatch : List (Slot World) → ℕ → ℕ → ByteSpan → World → Error × World
  dispatch [] msg_id msg_hash payload w = (handler_not_found, w)
  dispatch (s ∷ rest) msg_id msg_hash payload w =
      let later = dispatch rest msg_id msg_hash payload w in
      if not s.used || not (s.msg_id == msg_id)
      then later
      else s.thunk s.obj s.method_bytes payload msg_hash w
