-- ===== src/Posix/Loop.antt =====
-- A `while` or `do` loop as a body that is run again until it leaves the loop, on fuel.
use umsg.Base.{ℕ, zero, suc, ◌<◌, ◌≡◌, ◌∙◌, refl, ap, arith, Option, none, some}

-- A round goes on, leaves with a result, or has itself run out of fuel.
pub data Turn (S A : Type 0) : Type 0 where
  again : S → Turn S A
  leave : A → S → Turn S A
  spent : Turn S A

module _ {S A : Type 0} (body : S → Turn S A) where
  unfoldable pub repeat : ℕ → S → Option (A × S)
  repeat zero s = none
  repeat (suc fuel) s = elim (body s) [
    | again s' ↦ repeat fuel s'
    | leave a s' ↦ some (a, s')
    | spent ↦ none
  ]

module _ {S A : Type 0} (Inv : S → Type 0) (Post : A → S → Type 0) (measure : S → ℕ) where
  -- What a round does: it keeps the invariant and comes closer to the end, or it leaves as wanted.
  abbrev pub Progress : S → Turn S A → Type 0
  Progress s (again s') = Inv s' × (measure s' < measure s)
  Progress s (leave a s') = Post a s'
  Progress s spent = ⊥

  Ends : ℕ → (S → Turn S A) → S → Type 0
  Ends fuel body s = (r : A × S) × (repeat body fuel s ≡ some r) × Post r.0 r.1

  repeat-turn :
      (body : S → Turn S A) (fuel : ℕ) (s : S) (t : Turn S A)
      → body s ≡ t
      → Progress s t
      → ((s' : S) → Inv s' → measure s' < measure s → Ends fuel body s')
      → Ends (suc fuel) body s
  unfolding Ends repeat
  repeat-turn body fuel s (again s') e p rest =
      let r = rest s' p.0 p.1 in
      (
        r.0,
        ap
              (λ (t : Turn S A). elim t [
                | again u ↦ repeat body fuel u
                | leave a u ↦ some (a, u)
                | spent ↦ none
              ])
              e
            ∙ r.1,
        r.2,
      )
  repeat-turn body fuel s (leave a s') e p rest = (
    (a, s'),
    ap
        (λ (t : Turn S A). elim t [
          | again u ↦ repeat body fuel u
          | leave a u ↦ some (a, u)
          | spent ↦ none
        ])
        e,
    p,
  )
  repeat-turn body fuel s spent e p rest = elim p [ ]

  -- A loop of which every round comes closer to its end, ends with enough fuel, as its rounds say.
  pub repeat-ends :
      (body : S → Turn S A)
      → ((s : S) → Inv s → Progress s (body s))
      → (fuel : ℕ) (s : S) → Inv s
      → measure s < fuel
      → (r : A × S) × (repeat body fuel s ≡ some r) × Post r.0 r.1
  unfolding Ends
  repeat-ends body step zero s i enough = absurd (omega arith)
  repeat-ends body step (suc fuel) s i enough =
      repeat-turn body fuel s (body s) refl (step s i)
        (λ s' i' closer. repeat-ends body step fuel s' i' (omega arith))
