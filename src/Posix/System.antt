-- ===== src/Posix/System.antt =====
-- A system that interrupts or refuses a few calls, takes two bytes at a time, and hands out what comes.
use umsg.Base.{
  ℕ, zero, suc, ◌+◌, ◌<◌, ◌≡◌, ◌∙◌, refl, sym, ap, arith, ◌==◌, eq→==, ne→==, ltb, ◌&&◌, ◌||◌,
  if◌then◌else◌, Bool, true, false, Option, none, some, List, [], ◌∷◌, ◌++◌, length, length-take,
  take, drop, take-append-drop,
}
use umsg.Posix.{Outcome, done, interrupted, would_block, broken, Calls}
use umsg.Posix.Source.{Gives}
use umsg.Posix.Line.{Writes, Reads, IsLine}
use umsg.Posix.Descriptors.{Holds, Closes, Opens, Keeps}

pub record System : Type 0 where
  pub sent : List ℕ
  pub got : List ℕ
  pub coming : List ℕ
  pub stalls : ℕ
  pub held : ℕ → Bool
  pub next : ℕ

abbrev take_two : ℕ → List ℕ → System → Outcome ℕ × System
take_two zero bytes s = (done (length (take 2 bytes)), record s { sent = s.sent ++ take 2 bytes })
take_two (suc n) bytes s = (would_block, record s { stalls = n })

abbrev pub hand_out : ℕ → List ℕ → ℕ → System → Outcome (List ℕ) × System
hand_out (suc n) coming size s = (interrupted, record s { stalls = n })
hand_out zero [] size s = (would_block, s)
hand_out zero (b ∷ coming) size s = (
  done (take size (b ∷ coming)),
  record s { got = s.got ++ take size (b ∷ coming); coming = drop size (b ∷ coming) },
)

-- `read` of a descriptor that is not open fails.
abbrev receive : Bool → ℕ → System → Outcome (List ℕ) × System
receive true size s = hand_out s.stalls s.coming size s
receive false size s = (broken, s)

abbrev without : (ℕ → Bool) → ℕ → ℕ → Bool
without held fd f = if fd == f then false else held f

-- A descriptor that is not open, where the next number is none.
abbrev pub allot : Bool → System → Option ℕ × System
allot true s = (none, s)
allot false s = (
  some s.next,
  record s { held = λ f. if s.next == f then true else s.held f; next = s.next + 1 },
)

abbrev pub calls : Calls System
calls = record {
  read = λ fd size s. receive (s.held fd) size s;
  write = λ fd bytes s. take_two s.stalls bytes s;
  poll = λ fd s. (done tt, s);
  close = λ fd s. record s { held = without s.held fd };
}

take_two-Writes :
    (n : ℕ) (bytes : List ℕ) (s : System)
    → s.stalls ≡ n
    → 0 < length bytes
    → Writes (λ s. s.sent) (λ s. s.got) (λ s. s.stalls) bytes s (take_two n bytes s)
take_two-Writes zero bytes s e some_bytes = (
  omega (arith, length-take 2 bytes),
  ap (λ t. s.sent ++ t) (two bytes),
  omega (arith, length-take 2 bytes),
)
  where
    two : (xs : List ℕ) → take 2 xs ≡ take (length (take 2 xs)) xs
    two [] = refl
    two (x ∷ []) = refl
    two (x ∷ y ∷ xs) = refl
take_two-Writes (suc n) bytes s e some_bytes = (refl, omega (arith, e))

hand_out-Reads :
    (n : ℕ) (coming : List ℕ) (size : ℕ) (s : System)
    → s.stalls ≡ n
    → Reads (λ s. s.sent) (λ s. s.got) (λ s. s.stalls) size s (hand_out n coming size s)
hand_out-Reads (suc n) coming size s e = (refl, omega (arith, e))
hand_out-Reads zero [] size s e = refl
hand_out-Reads zero (b ∷ coming) size s e = (omega (arith, length-take size (b ∷ coming)), refl)

hand_out-Gives :
    (fd n : ℕ) (coming : List ℕ) (size : ℕ) (s : System)
    → s.stalls ≡ n
    → s.coming ≡ coming
    → 0 < size
    → Gives (λ s. s.held) (λ s fd. s.coming) (λ s. s.stalls) fd size s (hand_out n coming size s)
hand_out-Gives fd (suc n) coming size s e c room = (refl, omega (arith, e))
hand_out-Gives fd zero [] size s e c room = (c, c)
hand_out-Gives fd zero (b ∷ coming) size s e c room = (
  omega (arith, length-take size (b ∷ coming)),
  c ∙ sym (take-append-drop size (b ∷ coming)),
  λ none_taken.
      absurd (omega (arith, length-take size (b ∷ coming), ap (length {A = ℕ}) none_taken)),
)

receive-Reads :
    (b : Bool) (size : ℕ) (s : System)
    → Reads (λ s. s.sent) (λ s. s.got) (λ s. s.stalls) size s (receive b size s)
receive-Reads true size s = hand_out-Reads s.stalls s.coming size s refl
receive-Reads false size s = refl

pub calls-IsLine : IsLine (λ (s : System). s.sent) (λ s. s.got) (λ s. s.stalls) calls
calls-IsLine = record {
  writes = λ fd bytes s some_bytes. take_two-Writes s.stalls bytes s refl some_bytes;
  polls = λ fd s. (refl, omega arith);
  reads = λ fd size s room. receive-Reads (s.held fd) size s;
}

-- The standard streams and descriptor 3 are open.
abbrev pub streams : ℕ → Bool
streams f = ltb f 3

abbrev others_held : ℕ → Bool
others_held f = streams f || 3 == f

abbrev pub system : System
system = record {
  sent = [];
  got = [];
  coming = 7 ∷ 8 ∷ 9 ∷ [];
  stalls = 2;
  held = others_held;
  next = 4;
}

-- Open are the streams, and the connection's descriptor besides.
pub system-Holds : Holds (λ (s : System). s.held) streams (some 3) system
system-Holds f = (refl, apart f)
  where
    apart : (f : ℕ) → (streams f && 3 == f) ≡ false
    apart f = ground arith

pub calls-Closes : Closes (λ (s : System). s.held) calls
calls-Closes fd s open_fd = (
  ap (λ b. if b then false else s.held fd) (eq→== fd fd refl),
  λ f different. ap (λ b. if b then false else s.held f) (ne→== fd f different),
)

pub allot-Opens :
    (b : Bool) (s : System) → s.held s.next ≡ b → Opens (λ (s : System). s.held) s (allot b s)
allot-Opens true s e = λ f. refl
allot-Opens false s e = (
  e,
  ap (λ b. if b then true else s.held s.next) (eq→== s.next s.next refl),
  λ f different. ap (λ b. if b then true else s.held f) (ne→== s.next f different),
)

hand_out-Keeps :
    (n : ℕ) (coming : List ℕ) (size : ℕ) (s : System)
    → Keeps (λ (s : System). s.held) s (hand_out n coming size s).1
hand_out-Keeps (suc n) coming size s f = refl
hand_out-Keeps zero [] size s f = refl
hand_out-Keeps zero (b ∷ coming) size s f = refl

pub receive-Gives :
    (b : Bool) (fd size : ℕ) (s : System)
    → b ≡ true
    → 0 < size
    → Gives (λ s. s.held) (λ s fd. s.coming) (λ s. s.stalls) fd size s (receive b size s)
receive-Gives true fd size s e room = hand_out-Gives fd s.stalls s.coming size s refl refl room
receive-Gives false fd size s e room = absurd (ground (arith, e))

pub receive-Keeps :
    (b : Bool) (size : ℕ) (s : System) → Keeps (λ (s : System). s.held) s (receive b size s).1
receive-Keeps true size s f = hand_out-Keeps s.stalls s.coming size s f
receive-Keeps false size s f = refl
