-- ===== src/Posix/Line.antt =====
-- What the system promises about the calls on an open descriptor.
use umsg.Base.{ℕ, ◌+◌, ◌≤◌, ◌<◌, ◌≡◌, List, ◌++◌, length, take}
use umsg.Posix.{Outcome, done, interrupted, would_block, broken, Calls}

module _ {State : Type 0} (sent got : State → List ℕ) (patience : State → ℕ) where
  -- `write` of some bytes takes a number of the first of them, or none where it fails. It does not
  -- take none for ever.
  abbrev pub Writes : List ℕ → State → Outcome ℕ × State → Type 0
  Writes bytes s (done n, s') =
      (n ≤ length bytes) × (sent s' ≡ sent s ++ take n bytes) × (patience s' < patience s + n)
  Writes bytes s (interrupted, s') = (sent s' ≡ sent s) × (patience s' < patience s)
  Writes bytes s (would_block, s') = (sent s' ≡ sent s) × (patience s' < patience s)
  Writes bytes s (broken, s') = sent s' ≡ sent s

  -- `poll` moves no bytes, and is not interrupted for ever.
  abbrev pub Polls : State → Outcome Unit × State → Type 0
  Polls s (done u, s') = (sent s' ≡ sent s) × (patience s' ≤ patience s)
  Polls s (interrupted, s') = (sent s' ≡ sent s) × (patience s' < patience s)
  Polls s (would_block, s') = sent s' ≡ sent s
  Polls s (broken, s') = sent s' ≡ sent s

  -- `read` gives at most as many bytes as it has room for, the next that arrived, and is not
  -- interrupted for ever.
  abbrev pub Reads : ℕ → State → Outcome (List ℕ) × State → Type 0
  Reads size s (done bytes, s') = (length bytes ≤ size) × (got s' ≡ got s ++ bytes)
  Reads size s (interrupted, s') = (got s' ≡ got s) × (patience s' < patience s)
  Reads size s (would_block, s') = got s' ≡ got s
  Reads size s (broken, s') = got s' ≡ got s

  pub record IsLine (calls : Calls State) : Type 0 where
    pub writes :
        (fd : ℕ) (bytes : List ℕ) (s : State)
        → 0 < length bytes
        → Writes bytes s (calls.write fd bytes s)
    pub polls : (fd : ℕ) (s : State) → Polls s (calls.poll fd s)
    pub reads : (fd size : ℕ) (s : State) → 0 < size → Reads size s (calls.read fd size s)
