-- ===== src/Page/Pipe.antt =====
-- The writing end of a pipe, as the kernel offers it: `vmsplice` and `write`. The kernel is not part
-- of the program, so it is a parameter here, with what its manual pages say as laws.
use asymmetricfs.Prelude.{
  ℕ, ◌+◌, ◌-◌, ◌≤◌, ◌<◌, ◌≡◌, List, [], ◌∷◌, Option, some, Memory, ltb, if◌then◌else◌,
}

-- `struct iovec`
pub record Iovec : Type 0 where
  pub iov_base : Memory
  pub iov_len : ℕ

-- The bytes of a vector, one buffer after the other.
abbrev pub total : List Iovec → ℕ
total [] = 0
total (v ∷ ios) = v.iov_len + total ios

abbrev pub iov_byte : List Iovec → Memory
iov_byte [] i = 0
iov_byte (v ∷ ios) i = if ltb i v.iov_len then v.iov_base i else iov_byte ios (i - v.iov_len)

-- Its two calls on a state, and what has gone in so far. A call returns `none` for -1, or the number
-- of bytes that it took.
pub record Pipe : Type 1 where
  pub State : Type 0
  pub vmsplice : List Iovec → ℕ → State → Option ℕ × State
  pub write : Memory → ℕ → State → Option ℕ × State
  pub count : State → ℕ
  pub byte : State → Memory

module _ (P : Pipe) where
  open P use {State, vmsplice, write, count, byte}

  -- From `s` to `t` the first `n` bytes of `from` have gone in.
  abbrev pub Appended : State → State → ℕ → Memory → Type 0
  Appended s t n from =
      (count t ≡ count s + n)
      × ((i : ℕ)
          → i < count t
          → byte t i ≡ (if ltb i (count s) then byte s i else from (i - count s)))

  -- The reader is there and reads on: `vmsplice` takes a byte or more of a vector that has one, and
  -- `write` takes all.
  pub record IsOpen : Type 0 where
    pub splices :
        (ios : List Iovec) (flags : ℕ) (s : State)
        → 0 < total ios
        → (r : ℕ) × (t : State) × (vmsplice ios flags s ≡ (some r, t))
          × (0 < r)
          × (r ≤ total ios)
          × Appended s t r (iov_byte ios)
    pub writes :
        (from : Memory) (n : ℕ) (s : State)
        → (t : State) × (write from n s ≡ (some n, t)) × Appended s t n from
