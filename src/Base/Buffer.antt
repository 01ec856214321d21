-- ===== src/Base/Buffer.antt =====
-- C arrays as lists that are indexed by native numbers, and facts about a write in the middle.
use Prim.Native.Nat.{ℕ, zero, suc, ◌+◌, ◌-◌, ◌≤◌, ◌<◌, min}
use mathlib.Core.Path.{◌≡◌, refl, sym, ap, ◌∙◌}
use mathlib.Core.List.{List, [], ◌∷◌, ◌++◌, append_assoc}
use native.Mathlib.Omega.{arith}

module _ {ℓ} {A : Type ℓ} where
  abbrev pub length : List A → ℕ
  length [] = 0
  length (x ∷ xs) = suc (length xs)

  abbrev pub get_or : List A → ℕ → A → A
  get_or [] i d = d
  get_or (x ∷ xs) zero d = x
  get_or (x ∷ xs) (suc i) d = get_or xs i d

  abbrev pub set : List A → ℕ → A → List A
  set [] i v = []
  set (x ∷ xs) zero v = v ∷ xs
  set (x ∷ xs) (suc i) v = x ∷ set xs i v

  abbrev pub take : ℕ → List A → List A
  take zero xs = []
  take (suc n) [] = []
  take (suc n) (x ∷ xs) = x ∷ take n xs

  abbrev pub drop : ℕ → List A → List A
  drop zero xs = xs
  drop (suc n) [] = []
  drop (suc n) (x ∷ xs) = drop n xs

  abbrev pub replicate : ℕ → A → List A
  replicate zero a = []
  replicate (suc n) a = a ∷ replicate n a

module _ {ℓ} {A : Type ℓ} where
  pub length-append : (xs ys : List A) → length (xs ++ ys) ≡ length xs + length ys
  length-append [] ys = omega arith
  length-append (x ∷ xs) ys = omega (arith, length-append xs ys)

  pub length-set : (xs : List A) (i : ℕ) (v : A) → length (set xs i v) ≡ length xs
  length-set [] i v = refl
  length-set (x ∷ xs) zero v = refl
  length-set (x ∷ xs) (suc i) v = ap suc (length-set xs i v)

  pub length-take : (n : ℕ) (xs : List A) → length (take n xs) ≡ min n (length xs)
  length-take zero xs = omega arith
  length-take (suc n) [] = omega arith
  length-take (suc n) (x ∷ xs) = omega (arith, length-take n xs)

  pub length-drop : (n : ℕ) (xs : List A) → length (drop n xs) ≡ length xs - n
  length-drop zero xs = omega arith
  length-drop (suc n) [] = omega arith
  length-drop (suc n) (x ∷ xs) = omega (arith, length-drop n xs)

  pub length-replicate : (n : ℕ) (a : A) → length (replicate n a) ≡ n
  length-replicate zero a = refl
  length-replicate (suc n) a = ap suc (length-replicate n a)

  pub take-append-drop : (n : ℕ) (xs : List A) → take n xs ++ drop n xs ≡ xs
  take-append-drop zero xs = refl
  take-append-drop (suc n) [] = refl
  take-append-drop (suc n) (x ∷ xs) = ap (λ t. x ∷ t) (take-append-drop n xs)

  -- A read and a write at the index where the second part of a list starts.
  pub get_or-middle :
      (xs : List A) (y : A) (ys : List A) (i : ℕ) (d : A)
      → i ≡ length xs
      → get_or (xs ++ (y ∷ ys)) i d ≡ y
  get_or-middle [] y ys zero d h = refl
  get_or-middle [] y ys (suc i) d h = absurd (omega arith)
  get_or-middle (x ∷ xs) y ys zero d h = absurd (omega arith)
  get_or-middle (x ∷ xs) y ys (suc i) d h = get_or-middle xs y ys i d (omega arith)

  pub set-middle :
      (xs : List A) (y : A) (ys : List A) (i : ℕ) (v : A)
      → i ≡ length xs
      → set (xs ++ (y ∷ ys)) i v ≡ xs ++ (v ∷ ys)
  set-middle [] y ys zero v h = refl
  set-middle [] y ys (suc i) v h = absurd (omega arith)
  set-middle (x ∷ xs) y ys zero v h = absurd (omega arith)
  set-middle (x ∷ xs) y ys (suc i) v h = ap (λ t. x ∷ t) (set-middle xs y ys i v (omega arith))

  -- A read and a write that reach past the first part of a list.
  pub get_or-append :
      (xs ys : List A) (i j : ℕ) (d : A) → i ≡ length xs + j → get_or (xs ++ ys) i d ≡ get_or ys j d
  get_or-append [] ys i j d h = ap (λ k. get_or ys k d) (let e : i ≡ j = omega arith in e)
  get_or-append (x ∷ xs) ys zero j d h = absurd (omega arith)
  get_or-append (x ∷ xs) ys (suc i) j d h = get_or-append xs ys i j d (omega arith)

  pub set-append :
      (xs ys : List A) (i j : ℕ) (v : A) → i ≡ length xs + j → set (xs ++ ys) i v ≡ xs ++ set ys j v
  set-append [] ys i j v h = ap (λ k. set ys k v) (let e : i ≡ j = omega arith in e)
  set-append (x ∷ xs) ys zero j v h = absurd (omega arith)
  set-append (x ∷ xs) ys (suc i) j v h = ap (λ t. x ∷ t) (set-append xs ys i j v (omega arith))

  pub take-append : (xs ys : List A) (n : ℕ) → n ≡ length xs → take n (xs ++ ys) ≡ xs
  take-append [] ys zero h = refl
  take-append [] ys (suc n) h = absurd (omega arith)
  take-append (x ∷ xs) ys zero h = absurd (omega arith)
  take-append (x ∷ xs) ys (suc n) h = ap (λ t. x ∷ t) (take-append xs ys n (omega arith))

  pub take-set :
      (xs : List A) (i : ℕ) (v : A)
      → i < length xs
      → take (i + 1) (set xs i v) ≡ take i xs ++ (v ∷ [])
  take-set [] i v h = absurd (omega arith)
  take-set (x ∷ xs) zero v h = refl
  take-set (x ∷ xs) (suc i) v h =
      ap (λ n. take n (x ∷ set xs i v)) (let e : suc i + 1 ≡ suc (i + 1) = omega arith in e)
      ∙ ap (λ t. x ∷ t) (take-set xs i v (omega arith))

  pub take-append_left : (xs ys : List A) (n : ℕ) → n ≤ length xs → take n (xs ++ ys) ≡ take n xs
  take-append_left xs ys zero h = refl
  take-append_left [] ys (suc n) h = absurd (omega arith)
  take-append_left (x ∷ xs) ys (suc n) h = ap (λ t. x ∷ t) (take-append_left xs ys n (omega arith))

  pub drop-append : (xs ys : List A) (n : ℕ) → n ≡ length xs → drop n (xs ++ ys) ≡ ys
  drop-append [] ys zero h = refl
  drop-append [] ys (suc n) h = absurd (omega arith)
  drop-append (x ∷ xs) ys zero h = absurd (omega arith)
  drop-append (x ∷ xs) ys (suc n) h = drop-append xs ys n (omega arith)

-- `memcpy(&xs[i], ys, n)`, where `ys` are the `n` bytes.
module _ {ℓ} {A : Type ℓ} where
  abbrev pub memcpy : List A → ℕ → List A → List A
  memcpy xs i [] = xs
  memcpy xs i (y ∷ ys) = memcpy (set xs i y) (suc i) ys

  pub memcpy-middle :
      (ys front gap back : List A) (i : ℕ)
      → i ≡ length front
      → length gap ≡ length ys
      → memcpy (front ++ (gap ++ back)) i ys ≡ front ++ (ys ++ back)
  memcpy-middle [] front [] back i p q = refl
  memcpy-middle [] front (g ∷ gap) back i p q = absurd (omega arith)
  memcpy-middle (y ∷ ys) front [] back i p q = absurd (omega arith)
  memcpy-middle (y ∷ ys) front (g ∷ gap) back i p q =
      ap (λ t. memcpy t (suc i) ys)
        (set-middle front g (gap ++ back) i y p ∙ sym (append_assoc front (y ∷ []) (gap ++ back)))
      ∙ memcpy-middle ys (front ++ (y ∷ [])) gap back (suc i)
          (omega (arith, length-append front (y ∷ []))) (omega arith)
      ∙ append_assoc front (y ∷ []) (ys ++ back)

  pub length-memcpy : (xs : List A) (i : ℕ) (ys : List A) → length (memcpy xs i ys) ≡ length xs
  length-memcpy xs i [] = refl
  length-memcpy xs i (y ∷ ys) = length-memcpy (set xs i y) (suc i) ys ∙ length-set xs i y

  -- What is copied to the start can be read back there.
  pub take-memcpy :
      (xs ys : List A) → length ys ≤ length xs → take (length ys) (memcpy xs 0 ys) ≡ ys
  take-memcpy xs ys fits =
      let n = length ys in
      ap (λ t. take n (memcpy t 0 ys)) (sym (take-append-drop n xs))
      ∙ ap (λ t. take n t)
          (memcpy-middle ys [] (take n xs) (drop n xs) 0 refl (omega (arith, length-take n xs)))
      ∙ take-append ys (drop n xs) n refl

abbrev pub All {ℓ κ} : {A : Type ℓ} → (A → Type κ) → List A → Type κ
All P [] = Unit
All P (x ∷ xs) = P x × All P xs

module _ {ℓ κ} {A : Type ℓ} (P : A → Type κ) where
  pub All-append : (xs ys : List A) → All P xs → All P ys → All P (xs ++ ys)
  All-append [] ys p q = q
  All-append (x ∷ xs) ys p q = (p.0, All-append xs ys p.1 q)

  pub All-append_left : (xs ys : List A) → All P (xs ++ ys) → All P xs
  All-append_left [] ys p = tt
  All-append_left (x ∷ xs) ys p = (p.0, All-append_left xs ys p.1)

  pub All-append_right : (xs ys : List A) → All P (xs ++ ys) → All P ys
  All-append_right [] ys p = p
  All-append_right (x ∷ xs) ys p = All-append_right xs ys p.1

  pub All-take : (n : ℕ) (xs : List A) → All P xs → All P (take n xs)
  All-take zero xs p = tt
  All-take (suc n) [] p = tt
  All-take (suc n) (x ∷ xs) p = (p.0, All-take n xs p.1)

  pub All-drop : (n : ℕ) (xs : List A) → All P xs → All P (drop n xs)
  All-drop zero xs p = p
  All-drop (suc n) [] p = p
  All-drop (suc n) (x ∷ xs) p = All-drop n xs p.1

abbrev pub IsByte : ℕ → Type 0
IsByte b = b < 256

abbrev pub IsBytes : List ℕ → Type 0
IsBytes = All IsByte
