-- ===== src/Dispatcher/Install.antt =====
-- The two loops of `install`, seen from `dispatch`.
use umsg.Base.{ℕ, ◌≡◌, refl, arith, ◌==◌, not, ◌&&◌, ◌||◌, if◌then◌else◌, Bool, true, false}
use umsg.Base.{Option, none, some, List, [], ◌∷◌, ◌⊎◌, inl, inr, All, length, Bool-cases}
use umsg.Common.{Error, ByteSpan}
use umsg.Common.{max_member_fn_ptr_size}
use umsg.Dispatcher.{Slot, dispatch, replace_bound, fill_free}
use umsg.Dispatcher.Lookup.{handler_of}

module _ {World : Type 0} where
  unfoldable pub is_bound : ℕ → List (Slot World) → Bool
  is_bound msg_id [] = false
  is_bound msg_id (s ∷ rest) = (s.used && s.msg_id == msg_id) || is_bound msg_id rest

  unfoldable pub is_full : List (Slot World) → Bool
  is_full [] = true
  is_full (s ∷ rest) = s.used && is_full rest

  -- The slots store 16 bytes for a method.
  abbrev pub IsSlot : Slot World → Type 0
  IsSlot s = length s.method_bytes ≡ max_member_fn_ptr_size

  abbrev pub IsTable : List (Slot World) → Type 0
  IsTable handlers = All IsSlot handlers

  -- What one write of a slot comes to.
  pub record IsWrite (write : Slot World → Slot World) (msg_id : ℕ) (payload : ByteSpan) (hash : ℕ)
      (w : World) (ran : Error × World) : Type 0 where
    pub is_used : (s : Slot World) → (write s).used ≡ true
    pub has_id : (s : Slot World) → (write s).msg_id ≡ msg_id
    pub keeps : (s : Slot World) → IsSlot s → IsSlot (write s)
    pub runs : (s : Slot World) → IsSlot s → handler_of (write s) payload hash w ≡ ran

  module _ (write : Slot World → Slot World) (msg_id : ℕ) (payload : ByteSpan) (hash : ℕ)
      (w : World) (ran : Error × World) (is_write : IsWrite write msg_id payload hash w ran) where
    -- What dispatching `j` does in the table that a loop leaves.
    abbrev expected : ℕ → List (Slot World) → Error × World
    expected j handlers = if j == msg_id then ran else dispatch handlers j hash payload w

    -- The slot that is written is bound to the id, or free.
    dispatch-write :
        (s : Slot World) (rest : List (Slot World)) (j : ℕ)
        → IsSlot s
        → not s.used || s.msg_id == msg_id ≡ true
        → dispatch (write s ∷ rest) j hash payload w ≡ expected j (s ∷ rest)
    unfolding dispatch
    dispatch-write s rest j h bound =
        simp (is_write.is_used s, is_write.has_id s, is_write.runs s h) (ground (arith, bound))

    -- The slot is passed over.
    dispatch-pass :
        (s : Slot World) (rest table : List (Slot World)) (j : ℕ)
        → s.used && s.msg_id == msg_id ≡ false
        → dispatch table j hash payload w ≡ expected j rest
        → dispatch (s ∷ table) j hash payload w ≡ expected j (s ∷ rest)
    unfolding dispatch
    dispatch-pass s rest table j other e = ground (arith, e, other)

    abbrev pub Written :
        (loop : Option (List (Slot World))) (handlers : List (Slot World)) (j : ℕ) → Type 0
    Written loop handlers j =
        (table : List (Slot World)) × (loop ≡ some table)
        × IsTable table
        × (dispatch table j hash payload w ≡ expected j handlers)

    pub replace_bound-dispatch :
        (handlers : List (Slot World)) (j : ℕ)
        → IsTable handlers
        → ((is_bound msg_id handlers ≡ true)
            × Written (replace_bound msg_id write handlers) handlers j)
          ⊎ ((is_bound msg_id handlers ≡ false) × (replace_bound msg_id write handlers ≡ none))
    unfolding replace_bound is_bound
    replace_bound-dispatch [] j h = inr (refl, refl)
    replace_bound-dispatch (s ∷ rest) j h = elim (Bool-cases (s.used && s.msg_id == msg_id)) [
      | inl e ↦ simp e (
          inl (
            refl,
            (
              write s ∷ rest,
              refl,
              (is_write.keeps s h.0, h.1),
              dispatch-write s rest j h.0 (ground (arith, e)),
            ),
          ))
      | inr e ↦ elim (replace_bound-dispatch rest j h.1) [
        | inl (b, (table, r, t, d)) ↦
            simp (e, b, r)
              (inl (refl, (s ∷ table, refl, (h.0, t), dispatch-pass s rest table j e d)))
        | inr (b, r) ↦ simp (e, b, r) (inr (refl, refl))
      ]
    ]

    pub fill_free-dispatch :
        (handlers : List (Slot World)) (j : ℕ)
        → IsTable handlers
        → is_bound msg_id handlers ≡ false
        → ((is_full handlers ≡ false) × Written (fill_free write handlers) handlers j)
          ⊎ ((is_full handlers ≡ true) × (fill_free write handlers ≡ none))
    unfolding fill_free is_bound is_full
    fill_free-dispatch [] j h b = inr (refl, refl)
    fill_free-dispatch (s ∷ rest) j h b =
        let other : s.used && s.msg_id == msg_id ≡ false = ground (arith, b) in
        let others : is_bound msg_id rest ≡ false = ground (arith, b) in
        elim (Bool-cases s.used) [
          | inr e ↦ simp e (
              inl (
                refl,
                (
                  write s ∷ rest,
                  refl,
                  (is_write.keeps s h.0, h.1),
                  dispatch-write s rest j h.0 (ground (arith, e)),
                ),
              ))
          | inl e ↦ elim (fill_free-dispatch rest j h.1 others) [
            | inl (f, (table, r, t, d)) ↦
                simp (e, f, r)
                  (inl (refl, (s ∷ table, refl, (h.0, t), dispatch-pass s rest table j other d)))
            | inr (f, r) ↦ simp (e, f, r) (inr (refl, refl))
          ]
        ]
