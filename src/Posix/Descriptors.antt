-- ===== src/Posix/Descriptors.antt =====
-- Which descriptors the system holds open for the program, each by its number, and what the calls
-- that get and give them back do to them.
use umsg.Base.{
  ℕ, ◌≡◌, ◌≢◌, ◌∙◌, refl, sym, ap, arith, ◌==◌, eq→==, ne→==, ◌&&◌, ◌||◌, Bool, true, false, Option,
  none, some,
}
use mathlib.Core.Path.{subst}
use native.Mathlib.Decide.{ℕ_discrete as dec_eq}
use umsg.Posix.{Calls, close_fd}

abbrev pub owns : Option ℕ → ℕ → Bool
owns none f = false
owns (some fd) f = fd == f

module _ {State : Type 0} (held : State → ℕ → Bool) where
  abbrev pub Keeps : State → State → Type 0
  Keeps s s' = (f : ℕ) → held s' f ≡ held s f

  -- `close` of a descriptor that is open gives this one back, and no other. (`close` of any other
  -- number, which fails, is not spoken of.)
  abbrev pub Closes : Calls State → Type 0
  Closes calls =
      (fd : ℕ) (s : State)
      → held s fd ≡ true
      → (held (calls.close fd s) fd ≡ false)
        × ((f : ℕ) → fd ≢ f → held (calls.close fd s) f ≡ held s f)

  -- A call that gets a descriptor gets one that was not open, or none.
  abbrev pub Opens : State → Option ℕ × State → Type 0
  Opens s (none, s') = Keeps s s'
  Opens s (some fd, s') =
      (held s fd ≡ false) × (held s' fd ≡ true) × ((f : ℕ) → fd ≢ f → held s' f ≡ held s f)

  -- Open are the descriptor, if any, and the others, of which it is none.
  abbrev pub Holds : (ℕ → Bool) → Option ℕ → State → Type 0
  Holds others fd s =
      (f : ℕ) → (held s f ≡ (others f || owns fd f)) × ((others f && owns fd f) ≡ false)

-- How a number joins and leaves the descriptors that are open.
join :
    (others : Bool)
    → false ≡ (others || false)
    → (true ≡ (others || true)) × ((others && true) ≡ false)
join true e = ground (arith, e)
join false e = (refl, refl)

leave :
    (others : Bool)
    → (others && true) ≡ false
    → (false ≡ (others || false)) × ((others && false) ≡ false)
leave true e = ground (arith, e)
leave false e = (refl, refl)

alone : (others : Bool) → (others && false) ≡ false
alone true = refl
alone false = refl

full : (others : Bool) → (others || true) ≡ true
full true = refl
full false = refl

module _ {State : Type 0} (held : State → ℕ → Bool) (others : ℕ → Bool) where
  pub Keeps-Holds :
      (fd : Option ℕ) (s s' : State)
      → Holds held others fd s
      → Keeps held s s'
      → Holds held others fd s'
  Keeps-Holds fd s s' h same f = (same f ∙ (h f).0, (h f).1)

  -- What `h` says of the descriptor itself, and of any other number.
  own :
      (fd f : ℕ) (s : State)
      → Holds held others (some fd) s
      → fd ≡ f
      → (held s f ≡ (others f || true)) × ((others f && true) ≡ false)
  own fd f s h same =
      subst (λ b. (held s f ≡ (others f || b)) × ((others f && b) ≡ false)) (eq→== fd f same) (h f)

  other :
      (fd f : ℕ) (s : State)
      → Holds held others (some fd) s
      → fd ≢ f
      → (held s f ≡ (others f || false)) × ((others f && false) ≡ false)
  other fd f s h different =
      subst (λ b. (held s f ≡ (others f || b)) × ((others f && b) ≡ false)) (ne→== fd f different)
        (h f)

  pub close_fd-Holds :
      (calls : Calls State) (fd : Option ℕ) (s : State)
      → Closes held calls
      → Holds held others fd s
      → Holds held others none (close_fd calls fd s)
  unfolding close_fd
  close_fd-Holds calls none s closes h = h
  close_fd-Holds calls (some fd) s closes h = λ f.
      let open_fd : held s fd ≡ true = (own fd fd s h refl).0 ∙ full (others fd) in
      let closed = closes fd s open_fd in
      elim (dec_eq fd f) [
        | yes same ↦
            let left = leave (others f) (own fd f s h same).1 in
            (ap (held (calls.close fd s)) (sym same) ∙ closed.0 ∙ left.0, left.1)
        | no different ↦ (closed.1 f different ∙ (other fd f s h different).0, alone (others f))
      ]

  pub Opens-Holds :
      (fd : ℕ) (s s' : State)
      → Holds held others none s
      → Opens held s (some fd, s')
      → Holds held others (some fd) s'
  Opens-Holds fd s s' h o = λ f. elim (dec_eq fd f) [
    | yes same ↦
        let joined = join (others f) (sym o.0 ∙ ap (held s) same ∙ (h f).0) in
        simp (eq→== fd f same) (ap (held s') (sym same) ∙ o.1 ∙ joined.0, joined.1)
    | no different ↦ simp (ne→== fd f different) (o.2 f different ∙ (h f).0, alone (others f))
  ]
