-- ===== src/Posix/Clean.antt =====
-- `open`, `connect` and `close`: the descriptors that the system holds for the program, and the
-- receive buffer.
use umsg.Base.{ℕ, ◌≡◌, refl, sym, ap, arith, Bool, true, false, Option, none, some, List, length}
use umsg.Posix.{Calls, Connection, is_open, close, give_up, renew}
use mathlib.Core.Path.{subst}
use umsg.Posix.Descriptors.{Holds, Closes, Keeps, Keeps-Holds, close_fd-Holds}
use umsg.Posix.Buffered.{IsBuffered}

-- A valid buffer, which a closed connection has emptied.
pub record IsClean (size : ℕ) (c : Connection) : Type 0 where
  pub buffered : IsBuffered size c
  pub closed_empty : c.fd ≡ none → c.buf_len ≡ 0

closed_fields : (fd : Option ℕ) → false ≡ elim fd [ none ↦ false | some f ↦ true ] → fd ≡ none
closed_fields none e = refl
closed_fields (some fd) e = ground (arith, e)

closed_fd : (c : Connection) → false ≡ is_open c → c.fd ≡ none
unfolding is_open
closed_fd c e = closed_fields c.fd e

module _ {State : Type 0} (held : State → ℕ → Bool) (size : ℕ) (others : ℕ → Bool) where
  -- The connection is clean and has nothing to serve, the answer says whether it is open, and the
  -- descriptors that are open are the others, which stayed as they were, and its own.
  pub record IsRenewed (r : Bool × Connection × State) : Type 0 where
    pub clean : IsClean size r.1
    pub emptied : r.1.buf_len ≡ 0
    pub answers : r.0 ≡ is_open r.1
    pub accounts : Holds held others r.1.fd (r.2)

  module _ (calls : Calls State) (closes : Closes held calls) where
    emptied-IsBuffered :
        (c : Connection) (fd : Option ℕ)
        → length c.rx_buffer ≡ size
        → IsBuffered size (record c { fd = fd; buf_len = 0; buf_idx = 0 })
    emptied-IsBuffered c fd h = record {
      buffer_size = h;
      len_in = omega arith;
      idx_in = omega arith;
    }

    pub give_up-IsRenewed :
        (c : Connection) (s : State)
        → length c.rx_buffer ≡ size
        → Holds held others c.fd s
        → IsRenewed (give_up calls c s)
    unfolding give_up close is_open
    give_up-IsRenewed c s room h = record {
      clean = record { buffered = emptied-IsBuffered c none room; closed_empty = λ e. refl };
      emptied = refl;
      answers = refl;
      accounts = close_fd-Holds held others calls c.fd s closes h;
    }

    -- What `open` and `connect` end with when all went well.
    pub ready-IsRenewed :
        (c : Connection) (fd : ℕ) (s : State)
        → c.fd ≡ some fd
        → length c.rx_buffer ≡ size
        → Holds held others (some fd) s
        → IsRenewed (true, record c { buf_len = 0; buf_idx = 0 }, s)
    unfolding is_open
    ready-IsRenewed c fd s open_fd room h = record {
      clean = record {
        buffered = record { buffer_size = room; len_in = omega arith; idx_in = omega arith };
        closed_empty = λ e. refl;
      };
      emptied = refl;
      answers = sym (ap (λ (o : Option ℕ). elim o [ none ↦ false | some f ↦ true ]) open_fd);
      accounts = subst (λ o. Holds held others o s) (sym open_fd) h;
    }

    renew_fields :
        (fd : Option ℕ) (memory : List ℕ) (len idx : ℕ) (s : State)
        → let c : Connection = record {
          fd = fd;
          rx_buffer = memory;
          buf_len = len;
          buf_idx = idx;
        } in
          IsClean size c
          → Holds held others fd s
          → IsRenewed (false, (renew calls c s).0, (renew calls c s).1)
    unfolding renew is_open close
    renew_fields none memory len idx s v h = record {
      clean = v;
      emptied = v.closed_empty refl;
      answers = refl;
      accounts = h;
    }
    renew_fields (some fd) memory len idx s v h =
        unfold give_up close is_open in
        give_up-IsRenewed
          (record { fd = some fd; rx_buffer = memory; buf_len = len; buf_idx = idx }) s
          v.buffered.buffer_size h

    -- After `if (fd_ >= 0) close();` the connection is closed and empty.
    pub renew-IsRenewed :
        (c : Connection) (s : State)
        → IsClean size c
        → Holds held others c.fd s
        → IsRenewed (false, (renew calls c s).0, (renew calls c s).1)
    renew-IsRenewed c s v h = renew_fields c.fd c.rx_buffer c.buf_len c.buf_idx s v h

    pub renewed-Holds :
        (c : Connection) (s : State) → IsRenewed (false, c, s) → Holds held others none s
    renewed-Holds c s r = subst (λ o. Holds held others o s) (closed_fd c r.answers) r.accounts

    -- Where the descriptor was not got, the connection stays closed.
    pub unopened-IsRenewed :
        (c : Connection) (s s' : State)
        → IsRenewed (false, c, s)
        → Keeps held s s'
        → IsRenewed (false, record c { fd = none }, s')
    unfolding is_open
    unopened-IsRenewed c s s' r h = record {
      clean = record {
        buffered = record {
          buffer_size = r.clean.buffered.buffer_size;
          len_in = r.clean.buffered.len_in;
          idx_in = r.clean.buffered.idx_in;
        };
        closed_empty = λ e. r.emptied;
      };
      emptied = r.emptied;
      answers = refl;
      accounts = Keeps-Holds held others none s s' (renewed-Holds c s r) h;
    }
