-- ===== src/Dispatcher/Lookup.antt =====
-- The table as a partial map from message ids to what dispatching does.
use umsg.Base.{ℕ, ◌≡◌, refl, arith, ◌==◌, ◌&&◌, if◌then◌else◌}
use umsg.Base.{Option, none, some, List, [], ◌∷◌}
use umsg.Common.{Error, handler_not_found, ByteSpan}
use umsg.Dispatcher.{Slot, dispatch, start}

-- What a call of a handler does to the world.
abbrev pub Handler : Type 0 → Type 0
Handler World = ByteSpan → ℕ → World → Error × World

module _ {World : Type 0} where
  abbrev pub handler_of : Slot World → Handler World
  handler_of s payload msg_hash w = s.thunk s.obj s.method_bytes payload msg_hash w

  unfoldable pub lookup : ℕ → List (Slot World) → Option (Handler World)
  lookup msg_id [] = none
  lookup msg_id (s ∷ rest) =
      if s.used && s.msg_id == msg_id then some (handler_of s) else lookup msg_id rest

  abbrev pub run : Option (Handler World) → Handler World
  run none payload msg_hash w = (handler_not_found, w)
  run (some handler) payload msg_hash w = handler payload msg_hash w

  -- `dispatch` runs the handler that the table holds for the id, with the payload, the hash and the
  -- world that it was given, and answers `HandlerNotFound` with no effect where it holds none.
  pub dispatch-lookup :
      (handlers : List (Slot World)) (msg_id msg_hash : ℕ) (payload : ByteSpan) (w : World)
      → dispatch handlers msg_id msg_hash payload w
        ≡ run (lookup msg_id handlers) payload msg_hash w
  unfolding dispatch lookup
  dispatch-lookup [] msg_id msg_hash payload w = refl
  dispatch-lookup (s ∷ rest) msg_id msg_hash payload w =
      ground (arith, dispatch-lookup rest msg_id msg_hash payload w)

  -- A new table is empty.
  pub lookup-start : (msg_id : ℕ) (memory : List (Slot World)) → lookup msg_id (start memory) ≡ none
  unfolding lookup start
  lookup-start msg_id [] = refl
  lookup-start msg_id (s ∷ rest) = lookup-start msg_id rest
