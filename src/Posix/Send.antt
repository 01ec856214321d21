-- ===== src/Posix/Send.antt =====
-- `write`: the loop over partial writes, interruptions and a full buffer.
use umsg.Base.{
  ℕ, zero, suc, ◌+◌, ◌-◌, ◌≤◌, ◌<◌, ◌≡◌, ◌∙◌, ◌⊎◌, inl, inr, refl, sym, ap, arith, lt→ltb, le→ltb,
  Bool, true, false, Option, none, some, List, [], ◌∷◌, ◌++◌, append_assoc, append-nil, length,
  length-drop, take, drop,
}
use mathlib.Core.Path.{subst}
use native.Mathlib.Decide.{dec_lt}
use umsg.Posix.{
  Outcome, done, interrupted, would_block, broken, Calls, Connection, poll_turn, await, resume,
  write_turn, write_round, write_bytes, finish,
}
use umsg.Posix.Loop.{repeat, Progress, repeat-ends}
use umsg.Posix.Line.{Writes, Polls, IsLine}

take-nil {ℓ} : {A : Type ℓ} (n : ℕ) → take {A = A} n [] ≡ []
take-nil zero = refl
take-nil (suc n) = refl

take-drop {ℓ} :
    {A : Type ℓ} (n m : ℕ) (xs : List A) → take n xs ++ take m (drop n xs) ≡ take (n + m) xs
take-drop zero m xs = ap (λ k. take k xs) (let e : m ≡ 0 + m = omega arith in e)
take-drop (suc n) m [] = take-nil m ∙ sym (take-nil (suc n + m))
take-drop (suc n) m (x ∷ xs) =
    ap (λ t. x ∷ t) (take-drop n m xs)
    ∙ ap (λ k. take k (x ∷ xs)) (let e : suc (n + m) ≡ suc n + m = omega arith in e)

take_all {ℓ} : {A : Type ℓ} (n : ℕ) (xs : List A) → length xs ≤ n → take n xs ≡ xs
take_all n [] h = take-nil n
take_all zero (x ∷ xs) h = absurd (omega arith)
take_all (suc n) (x ∷ xs) h = ap (λ t. x ∷ t) (take_all n xs (omega arith))

module _ {State : Type 0} (calls : Calls State) (sent got : State → List ℕ) (patience : State → ℕ)
    (line : IsLine sent got patience calls) where
  module _ (s0 : State) where
    Quiet : State → Type 0
    Quiet s = (sent s ≡ sent s0) × (patience s ≤ patience s0)

    Waited : Bool → State → Type 0
    Waited b s = (sent s ≡ sent s0) × (b ≡ true → patience s ≤ patience s0)

    poll_turn-Progress :
        (s : State) (r : Outcome Unit × State)
        → Quiet s
        → Polls sent got patience s r
        → Progress Quiet Waited patience s (poll_turn r)
    unfolding poll_turn Quiet Waited
    poll_turn-Progress s (done u, s') i h = (h.0 ∙ i.0, λ e. omega (arith, h.1, i.1))
    poll_turn-Progress s (interrupted, s') i h = ((h.0 ∙ i.0, omega (arith, h.1, i.1)), h.1)
    poll_turn-Progress s (would_block, s') i h = (h ∙ i.0, λ e. ground (arith, e))
    poll_turn-Progress s (broken, s') i h = (h ∙ i.0, λ e. ground (arith, e))

    -- The loop around `poll` ends.
    await-ends :
        (fuel fd : ℕ)
        → patience s0 < fuel
        → (r : Bool × State) × (await calls fuel fd s0 ≡ some r) × Waited r.0 r.1
    unfolding await Quiet
    await-ends fuel fd enough =
        repeat-ends Quiet Waited patience (λ s. poll_turn (calls.poll fd s))
          (λ s i. poll_turn-Progress s (calls.poll fd s) i (line.polls fd s)) fuel s0
          (refl, omega arith) enough

  module _ (fuel fd : ℕ) (bytes : List ℕ) (s0 : State)
      (enough : patience s0 + length bytes < fuel) where
    -- The first bytes have been taken, as many as `total`.
    Taken : ℕ × State → Type 0
    Taken (total, s) =
        (total ≤ length bytes)
        × (sent s ≡ sent s0 ++ take total bytes)
        × (patience s ≤ patience s0 + total)

    Sent : Bool → ℕ × State → Type 0
    Sent true (total, s) = sent s ≡ sent s0 ++ bytes
    Sent false (total, s) = (total < length bytes) × (sent s ≡ sent s0 ++ take total bytes)

    left : ℕ × State → ℕ
    left (total, s) = (length bytes - total) + patience s

    resume-Progress :
        (total : ℕ) (s s' : State) (r : Bool × State)
        → Taken (total, s)
        → total < length bytes
        → sent s' ≡ sent s
        → patience s' < patience s
        → Waited s' r.0 r.1
        → Progress Taken Sent left (total, s) (resume total (some r))
    unfolding resume Taken Sent left Waited
    resume-Progress total s s' (true, s2) t more same less w =
        ((t.0, w.0 ∙ same ∙ t.1, omega (arith, w.1 refl, t.2)), omega (arith, w.1 refl))
    resume-Progress total s s' (false, s2) t more same less w = (more, w.0 ∙ same ∙ t.1)

    write_turn-Progress :
        (total : ℕ) (s : State) (r : Outcome ℕ × State)
        → Taken (total, s)
        → total < length bytes
        → Writes sent got patience (drop total bytes) s r
        → Progress Taken Sent left (total, s) (write_turn calls fuel fd total r)
    unfolding write_turn Taken Sent left
    write_turn-Progress total s (done n, s') t more h =
        let size : length (drop total bytes) ≡ length bytes - total = length-drop total bytes in
        (
          (
            omega (arith, h.0, size),
            h.1
                ∙ ap (λ b. b ++ take n (drop total bytes)) t.1
                ∙ append_assoc (sent s0) (take total bytes) (take n (drop total bytes))
                ∙ ap (λ b. sent s0 ++ b) (take-drop total n bytes),
            omega (arith, h.2, t.2),
          ),
          omega (arith, h.0, h.2, size),
        )
    write_turn-Progress total s (interrupted, s') t more h =
        ((t.0, h.0 ∙ t.1, omega (arith, h.1, t.2)), omega (arith, h.1))
    write_turn-Progress total s (would_block, s') t more h =
        let waited = await-ends s' fuel fd (omega (arith, h.1, t.2)) in
        subst (λ o. Progress Taken Sent left (total, s) (resume total o)) (sym waited.1)
          (resume-Progress total s s' waited.0 t more h.0 h.1 waited.2)
    write_turn-Progress total s (broken, s') t more h = (more, h ∙ t.1)

    write_round-Progress :
        (t : ℕ × State) → Taken t → Progress Taken Sent left t (write_round calls fuel fd bytes t)
    unfolding write_round Taken Sent
    write_round-Progress (total, s) t = elim (dec_lt total (length bytes)) [
      | yes more ↦ simp (lt→ltb total (length bytes) more) (
          write_turn-Progress total s (calls.write fd (drop total bytes) s) t more
            (line.writes fd (drop total bytes) s (omega (arith, length-drop total bytes))))
      | no end ↦
          simp (le→ltb total (length bytes) (omega arith))
            (t.1 ∙ ap (λ b. sent s0 ++ b) (take_all total bytes (omega arith)))
    ]

    write-ends :
        (r : Bool × (ℕ × State)) × (repeat (write_round calls fuel fd bytes) fuel (0, s0) ≡ some r)
        × Sent r.0 r.1
    unfolding Taken left
    write-ends =
        repeat-ends Taken Sent left (write_round calls fuel fd bytes) write_round-Progress fuel
          (0, s0) (omega arith, sym (append-nil (sent s0)), omega arith) (omega arith)

  -- On a system that keeps its promises, with more fuel than its patience and the bytes, `write` on an
  -- open descriptor ends. It answers true where the system has taken all the bytes, in order and each
  -- once, and false where it has taken only the first of them, fewer than all.
  pub write_bytes-sends :
      (fuel fd : ℕ) (c : Connection) (bytes : List ℕ) (s : State)
      → c.fd ≡ some fd
      → patience s + length bytes < fuel
      → (r : Bool × State) × (write_bytes calls fuel c bytes s ≡ some r)
        × (((r.0 ≡ true) × (sent (r.1) ≡ sent s ++ bytes))
            ⊎ ((r.0 ≡ false)
                × (k : ℕ) × (k < length bytes)
                × (sent (r.1) ≡ sent s ++ take k bytes)))
  unfolding write_bytes finish Sent
  write_bytes-sends fuel fd c bytes s opened enough =
      let run = write-ends fuel fd bytes s enough in
      (
        (run.0.0, run.0.1.1),
        ap
              (λ (o : Option ℕ). elim o [
                | none ↦ some (false, s)
                | some f ↦ finish (repeat (write_round calls fuel f bytes) fuel (0, s))
              ])
              opened
            ∙ ap finish run.1,
        outcome run.0.0 run.0.1 run.2,
      )
    where
      outcome :
          (b : Bool) (t : ℕ × State)
          → Sent fuel fd bytes s enough b t
          → (((b ≡ true) × (sent (t.1) ≡ sent s ++ bytes))
              ⊎ ((b ≡ false)
                  × (k : ℕ) × (k < length bytes)
                  × (sent (t.1) ≡ sent s ++ take k bytes)))
      outcome true (total, s') h = inl (refl, h)
      outcome false (total, s') h = inr (refl, total, h.0, h.1)
