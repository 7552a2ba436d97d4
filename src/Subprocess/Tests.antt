-- ===== src/Subprocess/Tests.antt =====
-- Runs of a child that gives a byte at a time and takes two, and the theorems at concrete data.
use asymmetricfs.Prelude.{
  ℕ, ◌+◌, ◌-◌, ◌≡◌, refl, min, Outcome, done, pos, true, false, zeroes, some, arith, add64, sub64,
  ◌>>=◌, Memory, memcpy, ◌<◌, ◌≤◌, ap, sym, ◌∙◌, in_range,
}
use asymmetricfs.Kernel.{Kernel, Sys, ok, error}
use asymmetricfs.Kernel.Idle.{idle}
use asymmetricfs.Subprocess.{Subprocess, wait}
use asymmetricfs.Subprocess.Communicate.{
  Exchange, close_input, written, write_some, was_read, read_some, then_read, selected,
  communicate_round, communicate_loop, communicate,
}
use asymmetricfs.Subprocess.Input.{IsSink}
use asymmetricfs.Subprocess.Exchanging.{IsOutput, communicate-Exchanges}
use asymmetricfs.Subprocess.Progress.{IsLively}

-- The state is what the child has left to say.
abbrev stingy : Kernel
stingy = record (idle ℕ) {
  waitpid = λ pid s. (some 2, s);
  write = λ fd from n s. (ok (min n 2), s);
  read = λ fd n s. (ok (min (min n 1) s, λ i. 7), s - 1);
}

abbrev child : Subprocess
child = record {
  pid = 100;
  in_fd = 5;
  in_owned = true;
  out_fd = 4;
  out_owned = true;
  finished = false;
}

first_wait : (wait stingy child 3).0 ≡ pos 2
unfolding wait
first_wait = refl

-- The child has three bytes for the ten that are asked for, and takes all five.
abbrev sizes : ℕ × Exchange × Subprocess × ℕ → Outcome (ℕ × ℕ × ℕ)
sizes (ret, x, p, s) = done (ret, x.has_read, x.has_written)

three_bytes : (communicate stingy 16 zeroes 10 zeroes 5 child 3 >>= sizes) ≡ done (0, 3, 5)
unfolding communicate communicate_loop communicate_round selected then_read read_some was_read
    write_some written close_input add64 sub64
three_bytes = refl

-- What the child has got, and how much it has said: the number of the bytes and the bytes, and the
-- number of those that were read. It takes two at a time, and has three to say, one at a time.
abbrev eager : Kernel
eager = record (idle (ℕ × Memory × ℕ)) {
  write = λ fd from n s. (ok (min n 2), (s.0 + min n 2, memcpy s.1 s.0 from 0 (min n 2), s.2));
  read = λ fd n s.
      let k = min (min n 1) (3 - s.2) in (ok (k, λ i. s.2 + i + 200), (s.0, s.1, s.2 + k));
}

eager-IsLively : IsLively eager
eager-IsLively = record {
  selects = λ read write out_fd in_fd s h. (read, write, s, refl, ground (arith, h));
  writes = λ fd from n s h. (min n 2, _, refl, omega arith, omega arith);
  reads = λ fd n s h. (min (min n 1) (3 - s.2), _, _, refl, omega arith);
}

eager_writes :
    (from : Memory) (n k : ℕ) (s t : ℕ × Memory × ℕ)
    → eager.write 5 from n s ≡ (ok k, t)
    → (k ≤ n)
      × (t.0 ≡ s.0 + k)
      × ((i : ℕ) → i < s.0 → t.1 i ≡ s.1 i)
      × ((i : ℕ) → i < k → t.1 (s.0 + i) ≡ from i)
eager_writes from n k s t e =
    let count : min n 2 ≡ k = ground (arith, ap (λ r. r.0) e) in
    let state : (s.0 + min n 2 ≡ t.0) × (memcpy s.1 s.0 from 0 (min n 2) ≡ t.1) =
      (ap (λ r. r.1.0) e, ap (λ r. r.1.1) e) in
    (
      omega (arith, count),
      sym state.0 ∙ omega (arith, count),
      λ i h.
          sym (ap (λ m. m i) state.1)
          ∙ (let outside : in_range s.0 (s.0 + min n 2) i ≡ false = ground (arith, h) in
              rw outside refl),
      λ i h.
          sym (ap (λ m. m (s.0 + i)) state.1)
          ∙ (let inside : in_range s.0 (s.0 + min n 2) (s.0 + i) ≡ true =
                ground (arith, h, count) in
              let place : s.0 + i - s.0 + 0 ≡ i = omega arith in rw (inside, place) refl),
    )

eager-IsSink : IsSink eager 5
eager-IsSink = record {
  count = λ s. s.0;
  byte = λ s. s.1;
  selects = λ read write out_fd in_fd s. (refl, λ i. refl);
  reads = λ out_fd n s. (refl, λ i. refl);
  closes = λ closed s. (refl, λ i. refl);
  fails = λ from n e s t failed. cc (ap (λ r. r.0) failed);
  writes = eager_writes;
}

-- The number of the bytes and the bytes, after a read that works.
abbrev said : Sys (ℕ × Memory) → ℕ × Memory
said (ok r) = r
said (error e) = (0, zeroes)

eager_reads :
    (n k : ℕ) (bytes : Memory) (s t : ℕ × Memory × ℕ)
    → eager.read 4 n s ≡ (ok (k, bytes), t)
    → (k ≤ n) × (t.2 ≡ s.2 + k) × ((i : ℕ) → i < k → bytes i ≡ s.2 + i + 200)
eager_reads n k bytes s t e =
    let count : min (min n 1) (3 - s.2) ≡ k = ap (λ r. (said r.0).0) e in
    (
      omega (arith, count),
      sym (ap (λ r. r.1.2) e) ∙ omega (arith, count),
      λ i h. sym (ap (λ r. (said r.0).1 i) e),
    )

eager-IsOutput : IsOutput eager 4
eager-IsOutput = record {
  taken = λ s. s.2;
  output = λ i. i + 200;
  selects = λ read write out_fd in_fd s. refl;
  writes = λ in_fd from n s. refl;
  closes = λ closed s. refl;
  fails = λ n e s t failed. cc (ap (λ r. r.0) failed);
  reads = eager_reads;
}

-- The child takes five bytes, and ten are asked for.
communicate-Exchanges_example :
    (y : Exchange) × (p' : Subprocess) × (t : ℕ × Memory × ℕ) × (communicate eager 16 zeroes 10
        (λ i. i + 65)
        5
        child
        (1, zeroes, 0)
      ≡ done (0, y, p', t))
    × (y.has_read + y.read_remaining ≡ 10)
    × (y.has_written + y.write_remaining ≡ 5)
    × (t.0 ≡ 1 + y.has_written)
    × ((i : ℕ) → i < 1 → t.1 i ≡ 0)
    × ((i : ℕ) → i < y.has_written → t.1 (1 + i) ≡ i + 65)
    × (t.2 ≡ 0 + y.has_read)
    × ((i : ℕ) → i < y.has_read → y.read_buffer i ≡ 0 + i + 200)
unfolding eager-IsSink eager-IsOutput
communicate-Exchanges_example =
    communicate-Exchanges eager eager-IsLively zeroes (λ i. i + 65) 10 5 child eager-IsSink
      eager-IsOutput (1, zeroes, 0) (omega arith) (omega arith) refl
