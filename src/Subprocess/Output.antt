-- ===== src/Subprocess/Output.antt =====
-- `communicate` with a child that gets no input: which bytes of its output it reads.
use asymmetricfs.Prelude.{
  ℕ, ap, subst, ltb, in_range, zero, suc, ◌+◌, ◌-◌, ◌≤◌, ◌<◌, ◌≡◌, refl, ◌∙◌, Bool, true, false,
  ◌&&◌, not, done, inl, inr, ◌==◌, if◌then◌else◌, Memory, memcpy, add64, sub64, add64_lem,
  sub64_lem, arith, u64_mod, Bool-cases,
}
use asymmetricfs.Kernel.{Kernel, ok, error, eintr}
use asymmetricfs.Subprocess.{Subprocess}
use asymmetricfs.Subprocess.Communicate.{
  Exchange, Communicated, returns, goes_on, write_some, was_read, read_some, then_read, selected,
  communicate_round, communicate_loop, communicate,
}

-- The output of a child behind a descriptor: `size` bytes, of which `taken` have been read. `select`
-- finds it ready, and a read takes the next bytes, one or more until the end.
pub record IsSource (K : Kernel) (fd size : ℕ) (bytes : Memory) : Type 0 where
  pub taken : K.State → ℕ
  pub within : (s : K.State) → taken s ≤ size
  pub selects :
      (in_fd : ℕ) (s : K.State)
      → (writable : Bool) × (t : K.State) × (K.select true fd false in_fd s
          ≡ (ok (true, writable), t))
        × (taken t ≡ taken s)
  pub reads :
      (n : ℕ) (s : K.State)
      → 0 < n
      → (k : ℕ) × (out : Memory) × (t : K.State) × (K.read fd n s ≡ (ok (k, out), t))
        × (k ≤ n)
        × (taken t ≡ taken s + k)
        × (taken s < size → 0 < k)
        × ((i : ℕ) → i < k → out i ≡ bytes (taken s + i))

is_positive : (n : ℕ) → (n == 0) ≡ false → 0 < n
is_positive n e = ground arith

is_zero : (n : ℕ) → (n == 0) ≡ true → n ≡ 0
is_zero n e = ground arith

at_end : (a k size : ℕ) → a ≤ size → (a < size → 0 < k) → k ≡ 0 → a ≡ size
at_end a k size le progress e = elim (Bool-cases (ltb a size)) [
  | inl before ↦ absurd (omega (arith, progress (ground arith)))
  | inr here ↦ ground arith
]

-- An exchange without a byte to write.
abbrev pub reading : Memory → ℕ → ℕ → Exchange
reading m has_read read_remaining = record {
  read_buffer = m;
  has_read = has_read;
  read_remaining = read_remaining;
  has_written = 0;
  write_remaining = 0;
}

module _ (K : Kernel) (p : Subprocess) (size : ℕ) (bytes : Memory)
    (source : IsSource K p.out_fd size bytes) where
  open K use {State}
  open source use {taken}

  round_reads :
      (w : Memory) (m : Memory) (r n : ℕ) (s t u : State) (writable : Bool) (k : ℕ) (out : Memory)
      → 0 < n
      → K.select true p.out_fd false p.in_fd s ≡ (ok (true, writable), t)
      → K.read p.out_fd n t ≡ (ok (k, out), u)
      → communicate_round K w (reading m r n) p s ≡ (
          if k == 0
          then returns 0 (reading m r n) p u
          else goes_on (reading (memcpy m r out 0 k) (add64 r k) (sub64 n k)) p u)
  unfolding communicate_round selected write_some then_read read_some was_read
  round_reads w m r n s t u writable k out h f g =
      let more : (n == 0) ≡ false = ground arith in rw (more, f) (rw (more, g) refl)

  -- `r` bytes have been read since `base`, and they are in the memory.
  abbrev pub Has : ℕ → Memory → ℕ → State → Type 0
  Has base m r s = (taken s ≡ base + r) × ((i : ℕ) → i < r → m i ≡ bytes (base + i))

  -- The loop returns 0 with `n` bytes asked for or all that there are.
  abbrev LoopReads : ℕ → ℕ → Communicated K → Type 0
  LoopReads base n o =
      (m : Memory) × (r : ℕ) × (l : ℕ) × (t : State) × (o ≡ done (0, reading m r l, p, t))
      × Has base m r t
      × (r + l ≡ n)
      × (0 < l → taken t ≡ size)

  Has-more :
      (base r k : ℕ) (m out : Memory) (s t : State)
      → Has base m r s
      → taken t ≡ taken s
      → ((i : ℕ) → i < k → out i ≡ bytes (taken t + i))
      → (i : ℕ) → i < r + k
      → memcpy m r out 0 k i ≡ bytes (base + i)
  Has-more base r k m out s t (at, has) same next i h = elim (Bool-cases (ltb i r)) [
    | inl before ↦ ground (arith, before, has i)
    | inr after ↦
        let place : i - r + 0 ≡ i - r = omega arith in
        let where_at : taken t + (i - r) ≡ base + i = ground arith in
        let inside : in_range r (r + k) i ≡ true = ground arith in
        rw (inside, place) (next (i - r) (ground arith) ∙ ap bytes where_at)
  ]

  communicate_loop-LoopReads :
      (fuel : ℕ) (w m : Memory) (base r n : ℕ) (s : State)
      → Has base m r s
      → r + n < u64_mod
      → n < fuel
      → LoopReads base (r + n) (communicate_loop K fuel w (reading m r n) p s)
  unfolding communicate_loop
  communicate_loop-LoopReads zero w m base r n s has v f = absurd (omega arith)
  communicate_loop-LoopReads (suc fuel) w m base r n s has v f = elim (Bool-cases (n == 0)) [
    | inl full ↦
        let none_left = is_zero n full in
        rw (full, communicate_loop) (m, r, n, s, refl, has, refl, λ more. absurd (omega arith))
    | inr more ↦
        let h = is_positive n more in
        let (writable, t, e1, same) = source.selects p.in_fd s in
        let (k, out, u, e2, le, moved, progress, next) = source.reads n t h in
        let round = round_reads w m r n s t u writable k out h e1 e2 in
        elim (Bool-cases (k == 0)) [
          | inl over ↦
              let none_read = is_zero k over in
              let ended = at_end (taken t) k size (source.within t) progress none_read in
              rw (more, communicate_loop, round, over)
                (m, r, n, u, refl, (omega (arith, has.0), has.1), refl, λ l. omega arith)
          | inr some_bytes ↦
              let low = is_positive k some_bytes in
              let a = add64_lem r k (omega arith) in
              let b = sub64_lem n k le (omega arith) in
              let all : r + k + (n - k) ≡ r + n = omega arith in
              let moved' : taken u ≡ base + (r + k) = omega (arith, has.0) in
              let bytes' = Has-more base r k m out s t has same next in
              let rest =
                communicate_loop-LoopReads fuel w (memcpy m r out 0 k) base (r + k) (n - k) u
                  (moved', bytes') (omega arith) (omega arith) in
              rw (more, communicate_loop, round, some_bytes, a, b)
                (subst
                  (λ q.
                    LoopReads base q (
                      communicate_loop K fuel w (reading (memcpy m r out 0 k) (r + k) (n - k)) p u))
                  all rest)
        ]
  ]

  -- For a size below 2 ^ 64, communicate returns 0 and has read the next bytes of the output, as
  -- many as were asked for or all that were left.
  pub communicate-Has :
      (m w : Memory) (n : ℕ) (s : State)
      → n < u64_mod
      → (m' : Memory) × (r : ℕ) × (l : ℕ) × (t : State) × (communicate K (suc (n + 0)) m n w 0 p s
          ≡ done (0, reading m' r l, p, t))
        × Has (taken s) m' r t
        × (r + l ≡ n)
        × (0 < l → taken t ≡ size)
  unfolding communicate
  communicate-Has m w n s h =
      let allowed : (not p.in_owned && ltb 0 0) ≡ false = ground (arith, Bool-cases p.in_owned) in
      let start : Has (taken s) m 0 s = (omega arith, λ i below. absurd (omega arith)) in
      let (m', r, l, t, e, has, sum, ended) =
        communicate_loop-LoopReads (suc (n + 0)) w m (taken s) 0 n s start (omega arith)
          (omega arith) in
      (m', r, l, t, rw allowed e, has, omega arith, ended)

-- A `select` that fails, but for an interruption, ends communicate with its error.
pub communicate_failed :
    (K : Kernel) (p : Subprocess) (fuel n e : ℕ) (m w : Memory) (s t : K.State)
    → 0 < n
    → K.select true p.out_fd false p.in_fd s ≡ (error e, t)
    → (e == eintr) ≡ false
    → communicate K (suc fuel) m n w 0 p s ≡ done (e, reading m 0 n, p, t)
unfolding communicate communicate_loop communicate_round selected
communicate_failed K p fuel n e m w s t h failed other =
    let allowed : (not p.in_owned && ltb 0 0) ≡ false = ground (arith, Bool-cases p.in_owned) in
    let more : (n == 0) ≡ false = ground arith in rw allowed (rw more (rw (failed, other) refl))
