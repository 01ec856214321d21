-- ===== src/Dispatcher/Register.antt =====
-- The two forms of `registerHandler`, by what `dispatch` does after them.
use umsg.Base.{ℕ, ◌≤◌, ◌≡◌, refl, ap, arith, ◌==◌, not, ◌||◌, if◌then◌else◌, true, false}
use umsg.Base.{Option, none, some, List, ◌⊎◌, inl, inr, ◌∙◌, length, memcpy}
use umsg.Base.{length-memcpy, take-memcpy}
use umsg.Common.{Error, ok, invalid_argument, hash_mismatch, ByteSpan, max_member_fn_ptr_size}
use umsg.Dispatcher.{
  Slot, Thunk, Message, dispatch, replace_bound, fill_free, install, fill_or_refuse, write_slot,
  raw_thunk, typed_thunk,
}
use umsg.Dispatcher.{register_raw, register_typed}
use umsg.Dispatcher.Install.{
  is_bound, is_full, IsSlot, IsTable, IsWrite, replace_bound-dispatch, fill_free-dispatch,
}

module _ {World : Type 0} where
  -- What installing does: with the id in the table, or room in it, the id's handler is set, and else
  -- nothing changes.
  abbrev pub Installs :
      List (Slot World)
      → ℕ
      → Error × List (Slot World)
      → (j : ℕ) → ByteSpan
      → ℕ
      → World
      → Error × World
      → Type 0
  Installs handlers msg_id result j payload hash w ran =
      ((is_bound msg_id handlers || not (is_full handlers) ≡ true)
        × (result.0 ≡ ok)
        × IsTable result.1
        × (dispatch result.1 j hash payload w
            ≡ (if j == msg_id then ran else dispatch handlers j hash payload w)))
      ⊎ ((is_bound msg_id handlers || not (is_full handlers) ≡ false)
          × (result ≡ (invalid_argument, handlers)))

  install-replace :
      (handlers : List (Slot World)) (msg_id obj : ℕ) (thunk : Thunk World) (method : List ℕ)
      (table : List (Slot World))
      → replace_bound msg_id (λ s. write_slot s msg_id obj thunk method) handlers ≡ some table
      → install handlers msg_id obj thunk method ≡ (ok, table)
  unfolding install fill_or_refuse
  install-replace handlers msg_id obj thunk method table r =
      ap
        (λ (o : Option (List (Slot World))). elim o [
          | some t ↦ (ok, t)
          | none ↦ fill_or_refuse (λ s. write_slot s msg_id obj thunk method) handlers
        ])
        r

  install-fill :
      (handlers : List (Slot World)) (msg_id obj : ℕ) (thunk : Thunk World) (method : List ℕ)
      (table : List (Slot World))
      → replace_bound msg_id (λ s. write_slot s msg_id obj thunk method) handlers ≡ none
      → fill_free (λ s. write_slot s msg_id obj thunk method) handlers ≡ some table
      → install handlers msg_id obj thunk method ≡ (ok, table)
  unfolding install fill_or_refuse
  install-fill handlers msg_id obj thunk method table r r' =
      ap
        (λ (o : Option (List (Slot World))). elim o [
          | some t ↦ (ok, t)
          | none ↦ fill_or_refuse (λ s. write_slot s msg_id obj thunk method) handlers
        ])
        r
      ∙ ap
          (λ (o : Option (List (Slot World))). elim o [
            | some t ↦ (ok, t)
            | none ↦ (invalid_argument, handlers)
          ])
          r'

  install-refuse :
      (handlers : List (Slot World)) (msg_id obj : ℕ) (thunk : Thunk World) (method : List ℕ)
      → replace_bound msg_id (λ s. write_slot s msg_id obj thunk method) handlers ≡ none
      → fill_free (λ s. write_slot s msg_id obj thunk method) handlers ≡ none
      → install handlers msg_id obj thunk method ≡ (invalid_argument, handlers)
  unfolding install fill_or_refuse
  install-refuse handlers msg_id obj thunk method r r' =
      ap
        (λ (o : Option (List (Slot World))). elim o [
          | some t ↦ (ok, t)
          | none ↦ fill_or_refuse (λ s. write_slot s msg_id obj thunk method) handlers
        ])
        r
      ∙ ap
          (λ (o : Option (List (Slot World))). elim o [
            | some t ↦ (ok, t)
            | none ↦ (invalid_argument, handlers)
          ])
          r'

  install-dispatch :
      (handlers : List (Slot World)) (msg_id obj : ℕ) (thunk : Thunk World) (method : List ℕ)
      (payload : ByteSpan) (hash : ℕ) (w : World) (ran : Error × World)
      → IsWrite (λ s. write_slot s msg_id obj thunk method) msg_id payload hash w ran
      → IsTable handlers
      → (j : ℕ)
      → Installs handlers msg_id (install handlers msg_id obj thunk method) j payload hash w ran
  install-dispatch handlers msg_id obj thunk method payload hash w ran is_write h j =
      let write : Slot World → Slot World = λ s. write_slot s msg_id obj thunk method in
      let installed = install handlers msg_id obj thunk method in
      elim (replace_bound-dispatch write msg_id payload hash w ran is_write handlers j h) [
        | inl (b, (table, r, t, d)) ↦
            let e : installed ≡ (ok, table) =
              install-replace handlers msg_id obj thunk method table r in
            rw (b, e) (inl (refl, refl, t, d))
        | inr (b, r) ↦
            elim (fill_free-dispatch write msg_id payload hash w ran is_write handlers j h b) [
              | inl (f, (table, r', t, d)) ↦
                  let e : installed ≡ (ok, table) =
                    install-fill handlers msg_id obj thunk method table r r' in
                  rw (b, f, e) (inl (refl, refl, t, d))
              | inr (f, r') ↦
                  let e : installed ≡ (invalid_argument, handlers) =
                    install-refuse handlers msg_id obj thunk method r r' in
                  rw (b, f, e) (inr (refl, refl))
            ]
      ]

  write_slot-IsWrite :
      (msg_id obj : ℕ) (thunk : Thunk World) (method : List ℕ) (payload : ByteSpan) (hash : ℕ)
      (w : World) (ran : Error × World)
      → ((s : Slot World)
          → IsSlot s
          → thunk obj (memcpy s.method_bytes 0 method) payload hash w ≡ ran)
      → IsWrite (λ s. write_slot s msg_id obj thunk method) msg_id payload hash w ran
  unfolding write_slot
  write_slot-IsWrite msg_id obj thunk method payload hash w ran runs = record {
    is_used = λ s. refl;
    has_id = λ s. refl;
    keeps = λ s h. length-memcpy s.method_bytes 0 method ∙ h;
    runs = runs;
  }

  -- With the slots of a table of handlers and a method of at most 16 bytes: where the id is in the
  -- table, or there is room for it, the raw form of `registerHandler` succeeds, and then `dispatch`
  -- of that id calls the method on the object with the payload and the hash, and of any other id
  -- does what it did; else it answers `InvalidArgument` and changes nothing.
  pub register_raw-Installs :
      (handlers : List (Slot World)) (msg_id obj : ℕ)
      (call : List ℕ → ℕ → ByteSpan → ℕ → World → Error × World) (method : List ℕ)
      → IsTable handlers
      → length method ≤ max_member_fn_ptr_size
      → (j : ℕ) (payload : ByteSpan) (hash : ℕ) (w : World)
      → Installs handlers msg_id
          (register_raw handlers msg_id obj call method)
          j
          payload
          hash
          w
          (call method obj payload hash w)
  unfolding register_raw raw_thunk
  register_raw-Installs handlers msg_id obj call method h fits j payload hash w =
      install-dispatch handlers msg_id obj (raw_thunk call (length method)) method payload hash w
        (call method obj payload hash w)
        (write_slot-IsWrite msg_id obj (raw_thunk call (length method)) method payload hash w
          (call method obj payload hash w)
          (λ s k.
            ap (λ m. call m obj payload hash w)
              (take-memcpy s.method_bytes method (omega (arith, k)))))
        h j

  -- What a typed handler does with a payload.
  unfoldable pub run_typed :
      (message : Message)
      → (message.Msg → World → Error × World)
      → ByteSpan
      → ℕ
      → World
      → Error × World
  run_typed message handle payload hash w =
      if not (hash == message.msg_hash)
      then (hash_mismatch, w)
      else elim (message.decode payload) [ none ↦ (invalid_argument, w) | some msg ↦ handle msg w ]

  -- With the slots of a table of handlers and a method of at most 16 bytes: where the id is in the
  -- table, or there is room for it, the typed form of `registerHandler` succeeds, and then
  -- `dispatch` of that id answers `HashMismatch` for a hash that is not the message type's and
  -- `InvalidArgument` for a payload that does not decode, in both cases without an effect, and else
  -- calls the method on the object with the message; of any other id it does what it did. Else it
  -- answers `InvalidArgument` and changes nothing.
  pub register_typed-Installs :
      (handlers : List (Slot World)) (msg_id obj : ℕ) (message : Message)
      (call : List ℕ → ℕ → message.Msg → World → Error × World) (method : List ℕ)
      → IsTable handlers
      → length method ≤ max_member_fn_ptr_size
      → (j : ℕ) (payload : ByteSpan) (hash : ℕ) (w : World)
      → Installs handlers msg_id
          (register_typed handlers msg_id obj message call method)
          j
          payload
          hash
          w
          (run_typed message (λ msg. call method obj msg) payload hash w)
  unfolding register_typed typed_thunk run_typed
  register_typed-Installs handlers msg_id obj message call method h fits j payload hash w =
      let thunk = typed_thunk message call (length method) in
      let ran = run_typed message (λ msg. call method obj msg) payload hash w in
      install-dispatch handlers msg_id obj thunk method payload hash w ran
        (write_slot-IsWrite msg_id obj thunk method payload hash w ran (λ s k.
          ap (λ m. run_typed message (λ msg. call m obj msg) payload hash w)
            (take-memcpy s.method_bytes method (omega (arith, k)))))
        h j
