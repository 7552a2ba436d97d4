-- ===== src/Subprocess/Invariant.antt =====
-- What holds of an exchange with a child and is kept by the calls of the system holds after
-- `communicate`.
use asymmetricfs.Prelude.{
  ℕ, zero, suc, ◌+◌, ◌≡◌, refl, Bool, false, ◌&&◌, not, IfDone, inl, inr, ◌==◌, lt→ltb, Memory,
  memcpy, add64, sub64, arith, Bool-cases,
}
use asymmetricfs.Kernel.{Kernel, Sys, ok, error, eintr}
use asymmetricfs.Subprocess.{Subprocess}
use asymmetricfs.Subprocess.Communicate.{
  Exchange, Progress, returns, goes_on, close_input, written, write_some, was_read, read_some,
  then_read, selected, communicate_round, communicate_loop, go_on,
}

-- The calls of a round keep a property, with what the program counts of their results.
pub record IsKept (K : Kernel) (w : Memory) (P : Exchange → Subprocess → K.State → Type 0)
    : Type 0 where
  pub selects :
      (x : Exchange) (p : Subprocess) (read write : Bool) (s : K.State)
      → P x p s
      → P x p (K.select read p.out_fd write p.in_fd s).1
  pub closes :
      (x : Exchange) (p : Subprocess) (s : K.State)
      → P x p s
      → P x (record p { in_owned = false }) (K.close p.in_fd s).1
  pub write_fails :
      (x : Exchange) (p : Subprocess) (e : ℕ) (s t : K.State)
      → K.write p.in_fd (λ i. w (i + x.has_written)) x.write_remaining s ≡ (error e, t)
      → P x p s
      → P x p t
  pub writes_none :
      (x : Exchange) (p : Subprocess) (s t : K.State)
      → K.write p.in_fd (λ i. w (i + x.has_written)) x.write_remaining s ≡ (ok 0, t)
      → P x p s
      → P x p t
  pub writes :
      (x : Exchange) (p : Subprocess) (k : ℕ) (s t : K.State)
      → K.write p.in_fd (λ i. w (i + x.has_written)) x.write_remaining s ≡ (ok k, t)
      → P x p s
      → P
          (record x {
            has_written = add64 x.has_written k;
            write_remaining = sub64 x.write_remaining k;
          })
          p
          t
  pub read_fails :
      (x : Exchange) (p : Subprocess) (e : ℕ) (s t : K.State)
      → K.read p.out_fd x.read_remaining s ≡ (error e, t)
      → P x p s
      → P x p t
  pub reads_none :
      (x : Exchange) (p : Subprocess) (bytes : Memory) (s t : K.State)
      → K.read p.out_fd x.read_remaining s ≡ (ok (0, bytes), t)
      → P x p s
      → P x p t
  pub reads :
      (x : Exchange) (p : Subprocess) (k : ℕ) (bytes : Memory) (s t : K.State)
      → K.read p.out_fd x.read_remaining s ≡ (ok (k, bytes), t)
      → P x p s
      → P
          (record x {
            read_buffer = memcpy x.read_buffer x.has_read bytes 0 k;
            has_read = add64 x.has_read k;
            read_remaining = sub64 x.read_remaining k;
          })
          p
          t

module _ (K : Kernel) (w : Memory) (P : Exchange → Subprocess → K.State → Type 0)
    (keeps : IsKept K w P) where
  open K use {State}

  abbrev Holds : Progress State → Type 0
  Holds (returns ret x p s) = P x p s
  Holds (goes_on x p s) = P x p s

  written-Holds :
      (x : Exchange) (p : Subprocess) (s : State) (r : Sys ℕ × State)
      → K.write p.in_fd (λ i. w (i + x.has_written)) x.write_remaining s ≡ r
      → P x p s
      → Holds (written K x p r)
  unfolding written close_input
  written-Holds x p s (error c, t) e v = elim (Bool-cases (c == eintr)) [
    | inl again ↦ rw (again, written) (keeps.write_fails x p c s t e v)
    | inr failed ↦ rw (failed, written) (keeps.write_fails x p c s t e v)
  ]
  written-Holds x p s (ok zero, t) e v = keeps.writes_none x p s t e v
  written-Holds x p s (ok (suc k), t) e v =
      let v' = keeps.writes x p (suc k) s t e v in
      rw (lt→ltb 0 (suc k) (omega arith))
        (elim (Bool-cases (sub64 x.write_remaining (suc k) == 0)) [
          | inl last ↦ rw last (keeps.closes _ p t v')
          | inr more ↦ rw more v'
        ])

  write_some-Holds :
      (ready : Bool) (x : Exchange) (p : Subprocess) (s : State)
      → P x p s
      → Holds (write_some K w ready x p s)
  unfolding write_some
  write_some-Holds ready x p s v = elim (Bool-cases (not (x.write_remaining == 0) && ready)) [
    | inl asked ↦ rw (asked, write_some) (written-Holds x p s _ refl v)
    | inr idle ↦ rw (idle, write_some) v
  ]

  was_read-Holds :
      (x : Exchange) (p : Subprocess) (s : State) (r : Sys (ℕ × Memory) × State)
      → K.read p.out_fd x.read_remaining s ≡ r
      → P x p s
      → Holds (was_read K x p r)
  unfolding was_read
  was_read-Holds x p s (error c, t) e v = elim (Bool-cases (c == eintr)) [
    | inl again ↦ rw (again, was_read) (keeps.read_fails x p c s t e v)
    | inr failed ↦ rw (failed, was_read) (keeps.read_fails x p c s t e v)
  ]
  was_read-Holds x p s (ok (zero, bytes), t) e v = keeps.reads_none x p bytes s t e v
  was_read-Holds x p s (ok (suc k, bytes), t) e v =
      let more : (suc k == 0) ≡ false = ground arith in
      rw (more, was_read) (keeps.reads x p (suc k) bytes s t e v)

  then_read-Holds : (ready : Bool) (r : Progress State) → Holds r → Holds (then_read K ready r)
  unfolding then_read read_some
  then_read-Holds ready (returns ret x p s) v = v
  then_read-Holds ready (goes_on x p s) v =
      elim (Bool-cases (not (x.read_remaining == 0) && ready)) [
        | inl asked ↦ rw (asked, read_some) (was_read-Holds x p s _ refl v)
        | inr idle ↦ rw (idle, read_some) v
      ]

  selected-Holds :
      (x : Exchange) (p : Subprocess) (r : Sys (Bool × Bool) × State)
      → P x p r.1
      → Holds (selected K w x p r)
  unfolding selected
  selected-Holds x p (error c, t) v = elim (Bool-cases (c == eintr)) [
    | inl again ↦ rw (again, selected) v
    | inr failed ↦ rw (failed, selected) v
  ]
  selected-Holds x p (ok (readable, writable), t) v =
      then_read-Holds readable (write_some K w writable x p t) (write_some-Holds writable x p t v)

  abbrev pub After : ℕ × Exchange × Subprocess × State → Type 0
  After (ret, x, p, s) = P x p s

  go_on-After :
      (fuel : ℕ) (r : Progress State)
      → ((x : Exchange) (p : Subprocess) (s : State)
          → P x p s
          → IfDone After (communicate_loop K fuel w x p s))
      → Holds r
      → IfDone After (go_on K (communicate_loop K fuel w) r)
  go_on-After fuel (returns ret x p s) loop v = v
  go_on-After fuel (goes_on x p s) loop v = loop x p s v

  pub communicate_loop-After :
      (fuel : ℕ) (x : Exchange) (p : Subprocess) (s : State)
      → P x p s
      → IfDone After (communicate_loop K fuel w x p s)
  unfolding communicate_loop communicate_round
  communicate_loop-After zero x p s v = tt
  communicate_loop-After (suc fuel) x p s v =
      elim (Bool-cases (x.read_remaining == 0 && x.write_remaining == 0)) [
        | inl finished ↦ rw (finished, communicate_loop) v
        | inr more ↦
            rw (more, communicate_loop)
              (go_on-After fuel _ (communicate_loop-After fuel)
                (selected-Holds x p _ (keeps.selects x p _ _ s v)))
      ]
