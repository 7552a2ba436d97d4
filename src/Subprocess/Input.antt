-- ===== src/Subprocess/Input.antt =====
-- `communicate`: which bytes get into the child.
use asymmetricfs.Prelude.{
  ℕ, suc, ◌+◌, ◌-◌, ◌≤◌, ◌<◌, ◌≡◌, refl, sym, ap, subst, ◌∙◌, Bool, false, ◌&&◌, not, done, inl,
  inr, ltb, Memory, add64_lem, sub64_lem, arith, u64_mod, Bool-cases, IfDone,
}
use asymmetricfs.Kernel.{Kernel, Sys, ok, error}
use asymmetricfs.Subprocess.{Subprocess}
use asymmetricfs.Subprocess.Invariant.{IsKept, After, communicate_loop-After}
use asymmetricfs.Subprocess.Progress.{IsLively, communicate-Conserves}
use asymmetricfs.Subprocess.Communicate.{Exchange, communicate}

-- Nothing has gone in between two states.
abbrev pub Same : {S : Type 0} → (S → ℕ) → (S → Memory) → S → S → Type 0
Same count byte s t = (count t ≡ count s) × ((i : ℕ) → byte t i ≡ byte s i)

-- The input of a child behind a descriptor: the bytes that have gone in so far. Only a write to the
-- descriptor adds to them, as many as it says.
pub record IsSink (K : Kernel) (fd : ℕ) : Type 0 where
  pub count : K.State → ℕ
  pub byte : K.State → Memory
  pub selects :
      (read write : Bool) (out_fd in_fd : ℕ) (s : K.State)
      → Same count byte s (K.select read out_fd write in_fd s).1
  pub reads : (out_fd n : ℕ) (s : K.State) → Same count byte s (K.read out_fd n s).1
  pub closes : (closed : ℕ) (s : K.State) → Same count byte s (K.close closed s).1
  pub fails :
      (from : Memory) (n e : ℕ) (s t : K.State)
      → K.write fd from n s ≡ (error e, t)
      → Same count byte s t
  pub writes :
      (from : Memory) (n k : ℕ) (s t : K.State)
      → K.write fd from n s ≡ (ok k, t)
      → (k ≤ n)
        × (count t ≡ count s + k)
        × ((i : ℕ) → i < count s → byte t i ≡ byte s i)
        × ((i : ℕ) → i < k → byte t (count s + i) ≡ from i)

module _ (K : Kernel) (fd : ℕ) (sink : IsSink K fd) (w : Memory) (size : ℕ) (small : size < u64_mod)
    (start : K.State) where
  open K use {State}
  open sink use {count, byte}

  -- The bytes that the exchange counts have gone in since the start, in order, and no others.
  pub record Sent (x : Exchange) (p : Subprocess) (s : State) : Type 0 where
    pub input : p.in_fd ≡ fd
    pub sum : x.has_written + x.write_remaining ≡ size
    pub counted : count s ≡ count start + x.has_written
    pub before : (i : ℕ) → i < count start → byte s i ≡ byte start i
    pub bytes : (i : ℕ) → i < x.has_written → byte s (count start + i) ≡ w i

  Sent-Same :
      (x : Exchange) (p : Subprocess) (s t : State) → Same count byte s t → Sent x p s → Sent x p t
  Sent-Same x p s t (n, b) v = record {
    input = v.input;
    sum = v.sum;
    counted = n ∙ v.counted;
    before = λ i h. b i ∙ v.before i h;
    bytes = λ i h. b _ ∙ v.bytes i h;
  }

  written-Sent :
      (x : Exchange) (p : Subprocess) (s t : State) (k : ℕ)
      → K.write fd (λ i. w (i + x.has_written)) x.write_remaining s ≡ (ok k, t)
      → Sent x p s
      → Sent
          (record x { has_written = x.has_written + k; write_remaining = x.write_remaining - k })
          p
          t
  written-Sent x p s t k e v =
      let (le, n, old, new) = sink.writes _ _ k s t e in
      record {
        input = v.input;
        sum = omega (arith, v.sum);
        counted = omega (arith, v.counted);
        before = λ i h. old i (omega (arith, v.counted)) ∙ v.before i h;
        bytes = λ i h. elim (Bool-cases (ltb i x.has_written)) [
          | inl early ↦ old _ (ground (arith, v.counted, early)) ∙ v.bytes i (ground arith)
          | inr late ↦
              let place : count start + i ≡ count s + (i - x.has_written) =
                ground (arith, v.counted, late) in
              let back : i - x.has_written + x.has_written ≡ i = ground (arith, late) in
              ap (byte t) place ∙ new (i - x.has_written) (ground (arith, late)) ∙ ap w back
        ];
      }

  written_none-Sent :
      (x : Exchange) (p : Subprocess) (s t : State)
      → K.write fd (λ i. w (i + x.has_written)) x.write_remaining s ≡ (ok 0, t)
      → Sent x p s
      → Sent x p t
  written_none-Sent x p s t e v =
      let (le, n, old, new) = sink.writes _ _ 0 s t e in
      record {
        input = v.input;
        sum = v.sum;
        counted = omega (arith, v.counted);
        before = λ i h. old i (omega (arith, v.counted)) ∙ v.before i h;
        bytes = λ i h. old _ (omega (arith, v.counted)) ∙ v.bytes i h;
      }

  Sent-closed :
      (x : Exchange) (p : Subprocess) (s : State)
      → Sent x p s
      → Sent x (record p { in_owned = false }) s
  Sent-closed x p s v = record {
    input = v.input;
    sum = v.sum;
    counted = v.counted;
    before = v.before;
    bytes = v.bytes;
  }

  Sent-read :
      (x : Exchange) (p : Subprocess) (s : State) (m : Memory) (has_read read_remaining : ℕ)
      → Sent x p s
      → Sent
          (record x { read_buffer = m; has_read = has_read; read_remaining = read_remaining })
          p
          s
  Sent-read x p s m has_read read_remaining v = record {
    input = v.input;
    sum = v.sum;
    counted = v.counted;
    before = v.before;
    bytes = v.bytes;
  }

  at_sink :
      (x : Exchange) (p : Subprocess) (s : State) (r : Sys ℕ × State)
      → Sent x p s
      → K.write p.in_fd (λ i. w (i + x.has_written)) x.write_remaining s ≡ r
      → K.write fd (λ i. w (i + x.has_written)) x.write_remaining s ≡ r
  at_sink x p s r v e =
      ap (λ f. K.write f (λ i. w (i + x.has_written)) x.write_remaining s) (sym v.input) ∙ e

  after_read :
      (x : Exchange) (p : Subprocess) (s : State) (r : Sys (ℕ × Memory) × State)
      → K.read p.out_fd x.read_remaining s ≡ r
      → Sent x p s
      → Sent x p r.1
  after_read x p s r e =
      Sent-Same x p s r.1
        (subst (λ u. Same count byte s u.1) e (sink.reads p.out_fd x.read_remaining s))

  Sent-IsKept : IsKept K w Sent
  Sent-IsKept = record {
    selects =
        λ x p read write s v. Sent-Same x p s _ (sink.selects read write p.out_fd p.in_fd s) v;
    closes = λ x p s v. Sent-closed x p _ (Sent-Same x p s _ (sink.closes p.in_fd s) v);
    write_fails = λ x p e s t f v. Sent-Same x p s t (sink.fails _ _ e s t (at_sink x p s _ v f)) v;
    writes_none = λ x p s t f v. written_none-Sent x p s t (at_sink x p s _ v f) v;
    writes = λ x p k s t f v.
        let g = at_sink x p s _ v f in
        let le = (sink.writes _ _ k s t g).0 in
        rw
          (
            add64_lem x.has_written k (omega (arith, v.sum)),
            sub64_lem x.write_remaining k le (omega (arith, v.sum)),
          )
          (written-Sent x p s t k g v);
    read_fails = λ x p e s t f v. after_read x p s _ f v;
    reads_none = λ x p bytes s t f v. after_read x p s _ f v;
    reads = λ x p k bytes s t f v. Sent-read x p t _ _ _ (after_read x p s _ f v);
  }

-- Let a child take and give bytes, and let the system account for the bytes that have gone into its
-- input. For sizes below 2 ^ 64, and unless there are bytes to write for an input that is not owned,
-- communicate returns 0, and the bytes that it counts as written have gone into the input, each once
-- and in order, behind those from before, and no others have.
pub communicate-Sends :
    (K : Kernel) (lively : IsLively K) (read_buffer write_buffer : Memory)
    (read_size write_size : ℕ) (p : Subprocess) (sink : IsSink K p.in_fd) (s : K.State)
    → read_size < u64_mod
    → write_size < u64_mod
    → (not p.in_owned && ltb 0 write_size) ≡ false
    → (y : Exchange) × (p' : Subprocess) × (t : K.State) × (communicate K
          (suc (read_size + write_size))
          read_buffer
          read_size
          write_buffer
          write_size
          p
          s
        ≡ done (0, y, p', t))
      × (y.has_read + y.read_remaining ≡ read_size)
      × (y.has_written + y.write_remaining ≡ write_size)
      × (sink.count t ≡ sink.count s + y.has_written)
      × ((i : ℕ) → i < sink.count s → sink.byte t i ≡ sink.byte s i)
      × ((i : ℕ) → i < y.has_written → sink.byte t (sink.count s + i) ≡ write_buffer i)
unfolding communicate
communicate-Sends K lively read_buffer write_buffer read_size write_size p sink s h k allowed =
    let (y, p', t, e, read_sum, write_sum) =
      communicate-Conserves K lively read_buffer write_buffer read_size write_size p s h k
        allowed in
    let x : Exchange = record {
      read_buffer = read_buffer;
      has_read = 0;
      read_remaining = read_size;
      has_written = 0;
      write_remaining = write_size;
    } in
    let start : Sent K p.in_fd sink write_buffer write_size k s x p s = record {
      input = refl;
      sum = omega arith;
      counted = omega arith;
      before = λ i below. refl;
      bytes = λ i below. absurd (omega arith);
    } in
    let runs =
      communicate_loop-After K write_buffer _
        (Sent-IsKept K p.in_fd sink write_buffer write_size k s) (suc (read_size + write_size)) x p
        s start in
    let sent =
      subst
        (λ o.
          IfDone
            (After K write_buffer (Sent K p.in_fd sink write_buffer write_size k s)
              (Sent-IsKept K p.in_fd sink write_buffer write_size k s))
            o)
        (sym (rw allowed refl) ∙ e) runs in
    (y, p', t, e, read_sum, write_sum, sent.counted, sent.before, sent.bytes)
