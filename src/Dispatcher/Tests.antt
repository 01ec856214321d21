-- ===== src/Dispatcher/Tests.antt =====
-- A table of two slots whose handlers add the bytes of a payload to a counter.
use umsg.Base.{ℕ, ◌+◌, refl, arith, some, List, [], ◌∷◌, length, replicate, true, false}
use umsg.Common.{ByteSpan, Error, ok, contents}
use umsg.Dispatcher.{Slot, Message, register_raw, register_typed}
use umsg.Dispatcher.Register.{Installs, run_typed, register_raw-Installs, register_typed-Installs}

-- The bound slot of message 5, and a free one.
abbrev table : List (Slot ℕ)
table =
    record {
      used = true;
      msg_id = 5;
      obj = 100;
      method_bytes = replicate 16 0;
      thunk = λ obj method payload hash w. (ok, w + obj + length (contents payload));
    }
    ∷ record {
      used = false;
      msg_id = 0;
      obj = 0;
      method_bytes = replicate 16 0;
      thunk = λ obj method payload hash w. (ok, w);
    }
    ∷ []

abbrev payload : ByteSpan
payload = record { data_ptr = some (1 ∷ 2 ∷ []); length = 2 }

abbrev method : List ℕ
method = 11 ∷ 12 ∷ []

abbrev call : List ℕ → ℕ → ByteSpan → ℕ → ℕ → Error × ℕ
call m obj p hash w = (ok, w + hash + length m)

-- A message of one byte.
abbrev message : Message
message = record { Msg = ℕ; msg_hash = 77; decode = λ p. some (length (contents p)) }

abbrev call_typed : List ℕ → ℕ → ℕ → ℕ → Error × ℕ
call_typed m obj msg w = (ok, w + msg)

register_raw-Installs_example :
    Installs table 6
      (register_raw table 6 200 call method)
      6
      payload
      3
      1
      (call method 200 payload 3 1)
register_raw-Installs_example =
    register_raw-Installs table 6 200 call method (refl, (refl, tt)) (omega arith) 6 payload 3 1

register_typed-Installs_example :
    Installs table 6
      (register_typed table 6 200 message call_typed method)
      6
      payload
      77
      1
      (run_typed message (λ msg. call_typed method 200 msg) payload 77 1)
register_typed-Installs_example =
    register_typed-Installs table 6 200 message call_typed method (refl, (refl, tt)) (omega arith) 6
      payload 77 1
