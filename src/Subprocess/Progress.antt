-- ===== src/Subprocess/Progress.antt =====
-- `communicate` comes to an end, and loses no byte of either buffer.
use asymmetricfs.Prelude.{
  ℕ, zero, suc, ◌+◌, ◌≤◌, ◌<◌, ◌≡◌, refl, subst, ap, ◌∙◌, sym, Bool, true, false, ◌&&◌, ◌||◌, not,
  Outcome, done, ◌⊎◌, inl, inr, ◌==◌, ltb, Memory, add64, sub64, add64_lem, sub64_lem, lt→ltb,
  arith, u64_mod, Bool-cases,
}
use asymmetricfs.Kernel.{Kernel, ok}
use asymmetricfs.Subprocess.{Subprocess}
use asymmetricfs.Subprocess.Communicate.{
  Exchange, Progress, returns, goes_on, close_input, written, write_some, was_read, read_some,
  then_read, selected, communicate_round, communicate_loop, communicate, go_on,
}

-- The child takes and gives bytes: `select` finds a descriptor that it was asked for, a write that
-- may go on takes a byte or more, and a read does not fail.
pub record IsLively (K : Kernel) : Type 0 where
  pub selects :
      (read write : Bool) (out_fd in_fd : ℕ) (s : K.State)
      → (read || write) ≡ true
      → (readable : Bool) × (writable : Bool) × (t : K.State) × (K.select read out_fd write in_fd s
          ≡ (ok (readable, writable), t))
        × ((read && readable || write && writable) ≡ true)
  pub writes :
      (fd : ℕ) (from : Memory) (n : ℕ) (s : K.State)
      → 0 < n
      → (k : ℕ) × (t : K.State) × (K.write fd from n s ≡ (ok k, t)) × (0 < k) × (k ≤ n)
  pub reads :
      (fd n : ℕ) (s : K.State)
      → 0 < n
      → (k : ℕ) × (bytes : Memory) × (t : K.State) × (K.read fd n s ≡ (ok (k, bytes), t)) × (k ≤ n)

-- What has been read and what is left make the same sum, and so for writing.
abbrev pub Conserves : Exchange → Exchange → Type 0
Conserves x y =
    (y.has_read + y.read_remaining ≡ x.has_read + x.read_remaining)
    × (y.has_written + y.write_remaining ≡ x.has_written + x.write_remaining)

abbrev left : Exchange → ℕ
left x = x.read_remaining + x.write_remaining

abbrev IsSized : Exchange → Type 0
IsSized x =
    (x.has_read + x.read_remaining < u64_mod) × (x.has_written + x.write_remaining < u64_mod)

module _ (K : Kernel) (lively : IsLively K) where
  open K use {State}

  -- The writing part goes on, with the reading as it was, and with fewer bytes left if it was asked.
  abbrev Writes : Bool → Exchange → Progress State → Type 0
  Writes asked x (returns ret y p s) = ⊥
  Writes asked x (goes_on y p s) =
      Conserves x y
      × (y.read_remaining ≡ x.read_remaining)
      × (left y ≤ left x)
      × (asked ≡ true → left y < left x)

  close_input-Writes :
      (asked : Bool) (x y : Exchange) (p : Subprocess) (s : State)
      → Writes asked x (goes_on y p s)
      → Writes asked x (close_input K y p s)
  unfolding close_input
  close_input-Writes asked x y p s w = elim (Bool-cases (y.write_remaining == 0)) [
    | inl last ↦ rw (last, close_input) w
    | inr more ↦ rw (more, close_input) w
  ]

  written-Writes :
      (asked : Bool) (x : Exchange) (p : Subprocess) (k : ℕ) (t : State)
      → IsSized x
      → 0 < k
      → k ≤ x.write_remaining
      → Writes asked x (written K x p (ok k, t))
  unfolding written
  written-Writes asked x p k t z h j =
      rw
        (
          lt→ltb 0 k h,
          add64_lem x.has_written k (omega arith),
          sub64_lem x.write_remaining k j (omega arith),
        )
        (close_input-Writes asked x _ p t
          ((omega arith, omega arith), refl, omega arith, λ a. omega arith))

  write_some-Writes :
      (write_buffer : Memory) (ready : Bool) (x : Exchange) (p : Subprocess) (s : State)
      → IsSized x
      → Writes (not (x.write_remaining == 0) && ready) x (write_some K write_buffer ready x p s)
  unfolding write_some
  write_some-Writes write_buffer ready x p s z =
      elim (Bool-cases (not (x.write_remaining == 0) && ready)) [
        | inl asked ↦
            let (k, t, e, low, high) =
              lively.writes p.in_fd (λ i. write_buffer (i + x.has_written)) x.write_remaining s
                (ground arith) in
            rw (asked, write_some, e) (written-Writes true x p k t z low high)
        | inr idle ↦ rw (idle, write_some) ((refl, refl), refl, omega arith, λ a. ground (arith, a))
      ]

  -- A round takes bytes from what is left, or the call returns 0 at the end of the output.
  abbrev Rounds : Exchange → Progress State → Type 0
  Rounds x (returns ret y p s) = (ret ≡ 0) × Conserves x y
  Rounds x (goes_on y p s) = Conserves x y × (left y < left x)

  was_read-Rounds :
      (x y : Exchange) (p : Subprocess) (k : ℕ) (bytes : Memory) (t : State)
      → Conserves x y
      → left y ≤ left x
      → IsSized y
      → k ≤ y.read_remaining
      → Rounds x (was_read K y p (ok (k, bytes), t))
  unfolding was_read
  was_read-Rounds x y p k bytes t c j z h = elim (Bool-cases (k == 0)) [
    | inl end ↦ rw (end, was_read) (refl, c)
    | inr more ↦
        let some_bytes : 0 < k = ground arith in
        let there : add64 y.has_read k + sub64 y.read_remaining k ≡ y.has_read + y.read_remaining =
          omega (
            arith,
            add64_lem y.has_read k (omega arith),
            sub64_lem y.read_remaining k h (omega arith),
          ) in
        let less = sub64_lem y.read_remaining k h (omega arith) in
        rw (more, was_read) ((there ∙ c.0, c.1), omega arith)
  ]

  read_some-Rounds :
      (ready : Bool) (x y : Exchange) (p : Subprocess) (s : State)
      → Conserves x y
      → left y ≤ left x
      → IsSized y
      → (left y < left x) ⊎ ((not (y.read_remaining == 0) && ready) ≡ true)
      → Rounds x (read_some K ready y p s)
  unfolding read_some
  read_some-Rounds ready x y p s c j z d =
      elim (Bool-cases (not (y.read_remaining == 0) && ready)) [
        | inl asked ↦
            let (k, bytes, t, e, high) = lively.reads p.out_fd y.read_remaining s (ground arith) in
            rw (asked, read_some, e) (was_read-Rounds x y p k bytes t c j z high)
        | inr idle ↦ rw (idle, read_some) (c, decreased d idle)
      ]
    where
      decreased :
          (left y < left x) ⊎ ((not (y.read_remaining == 0) && ready) ≡ true)
          → (not (y.read_remaining == 0) && ready) ≡ false
          → left y < left x
      decreased (inl less) idle = less
      decreased (inr asked) idle = ground (arith, asked, idle)

  -- The two parts of a round after each other.
  then_read-Rounds :
      (ready asked : Bool) (x : Exchange) (r : Progress State)
      → IsSized x
      → Writes asked x r
      → (asked ≡ true) ⊎ ((not (x.read_remaining == 0) && ready) ≡ true)
      → Rounds x (then_read K ready r)
  unfolding then_read
  then_read-Rounds ready asked x (returns ret y p s) z w d = absurd w
  then_read-Rounds ready asked x (goes_on y p s) z (c, same, le, less) d =
      read_some-Rounds ready x y p s c le (omega (arith, c.0), omega (arith, c.1)) (either d)
    where
      either :
          (asked ≡ true) ⊎ ((not (x.read_remaining == 0) && ready) ≡ true)
          → (left y < left x) ⊎ ((not (y.read_remaining == 0) && ready) ≡ true)
      either (inl a) = inl (less a)
      either (inr r) = inr (subst (λ n. (not (n == 0) && ready) ≡ true) (sym same) r)

  communicate_round-Rounds :
      (write_buffer : Memory) (x : Exchange) (p : Subprocess) (s : State)
      → IsSized x
      → 0 < left x
      → Rounds x (communicate_round K write_buffer x p s)
  unfolding communicate_round selected
  communicate_round-Rounds write_buffer x p s z h =
      let r = not (x.read_remaining == 0) in
      let w = not (x.write_remaining == 0) in
      let (readable, writable, t, e, found) =
        lively.selects r w p.out_fd p.in_fd s (ground arith) in
      rw e (
        then_read-Rounds readable (w && writable) x _ z
          (write_some-Writes write_buffer writable x p t z) (one r w readable writable found))
    where
      one :
          (r w readable writable : Bool)
          → ((r && readable) || (w && writable)) ≡ true
          → ((w && writable) ≡ true) ⊎ ((r && readable) ≡ true)
      one r w readable writable found = elim (Bool-cases (r && readable)) [
        | inl read ↦ inr read
        | inr idle ↦ inl (ground (arith, found, idle))
      ]

  -- The loop returns 0 and has lost no byte.
  abbrev Ends : Exchange → Outcome (ℕ × Exchange × Subprocess × State) → Type 0
  Ends x r =
      (y : Exchange) × (p : Subprocess) × (t : State) × (r ≡ done (0, y, p, t)) × Conserves x y

  loop_after :
      (fuel : ℕ) (write_buffer : Memory) (x : Exchange) (r : Progress State)
      → Rounds x r
      → ((y : Exchange) (p : Subprocess) (t : State)
          → Conserves x y
          → left y < left x
          → Ends y (communicate_loop K fuel write_buffer y p t))
      → Ends x (go_on K (communicate_loop K fuel write_buffer) r)
  loop_after fuel write_buffer x (returns ret y p t) (zero_ret, c) loop =
      (y, p, t, ap (λ n. done (n, y, p, t)) zero_ret, c)
  loop_after fuel write_buffer x (goes_on y p t) (c, less) loop =
      let (y', p', t', e, c') = loop y p t c less in (y', p', t', e, (c'.0 ∙ c.0, c'.1 ∙ c.1))

  communicate_loop-Ends :
      (fuel : ℕ) (write_buffer : Memory) (x : Exchange) (p : Subprocess) (s : State)
      → IsSized x
      → left x < fuel
      → Ends x (communicate_loop K fuel write_buffer x p s)
  unfolding communicate_loop
  communicate_loop-Ends zero write_buffer x p s z h = absurd (omega arith)
  communicate_loop-Ends (suc fuel) write_buffer x p s z h =
      elim (Bool-cases (x.read_remaining == 0 && x.write_remaining == 0)) [
        | inl finished ↦ rw (finished, communicate_loop) (x, p, s, refl, (refl, refl))
        | inr more ↦
            rw (more, communicate_loop)
              (loop_after fuel write_buffer x _
                (communicate_round-Rounds write_buffer x p s z (ground arith))
                (λ y q t c less.
                  communicate_loop-Ends fuel write_buffer y q t
                    (omega (arith, c.0), omega (arith, c.1)) (omega arith)))
      ]

  -- With a child that takes and gives bytes, for sizes below 2 ^ 64, and unless there are bytes to
  -- write for an input that is not owned, communicate returns 0, and for both buffers the bytes
  -- that went through and those that are left make the size that was asked for. One round for each
  -- byte and one more is enough.
  pub communicate-Conserves :
      (read_buffer write_buffer : Memory) (read_size write_size : ℕ) (p : Subprocess) (s : State)
      → read_size < u64_mod
      → write_size < u64_mod
      → (not p.in_owned && ltb 0 write_size) ≡ false
      → (y : Exchange) × (p' : Subprocess) × (t : State) × (communicate K
            (suc (read_size + write_size))
            read_buffer
            read_size
            write_buffer
            write_size
            p
            s
          ≡ done (0, y, p', t))
        × (y.has_read + y.read_remaining ≡ read_size)
        × (y.has_written + y.write_remaining ≡ write_size)
  unfolding communicate
  communicate-Conserves read_buffer write_buffer read_size write_size p s h k allowed =
      let x : Exchange = record {
        read_buffer = read_buffer;
        has_read = 0;
        read_remaining = read_size;
        has_written = 0;
        write_remaining = write_size;
      } in
      let (y, q, t, e, c) =
        communicate_loop-Ends (suc (read_size + write_size)) write_buffer x p s
          (omega arith, omega arith) (omega arith) in
      (y, q, t, rw allowed e, omega (arith, c.0), omega (arith, c.1))
