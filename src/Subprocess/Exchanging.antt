-- ===== src/Subprocess/Exchanging.antt =====
-- `communicate`: what it writes and what it reads together.
use asymmetricfs.Prelude.{
  ℕ, suc, ◌+◌, ◌-◌, ◌≤◌, ◌<◌, ◌≡◌, refl, sym, ap, subst, ◌∙◌, Bool, true, false, ◌&&◌, not, done,
  inl, inr, ltb, in_range, Memory, memcpy, add64_lem, sub64_lem, arith, u64_mod, Bool-cases, IfDone,
}
use asymmetricfs.Kernel.{Kernel, Sys, ok, error}
use asymmetricfs.Subprocess.{Subprocess}
use asymmetricfs.Subprocess.Communicate.{Exchange, communicate}
use asymmetricfs.Subprocess.Invariant.{IsKept, After, communicate_loop-After}
use asymmetricfs.Subprocess.Progress.{IsLively}
use asymmetricfs.Subprocess.Input.{IsSink, communicate-Sends}

-- The output of a child behind a descriptor, of which `taken` bytes have been read. Only a read of
-- the descriptor takes bytes: the next ones, as many as it says.
pub record IsOutput (K : Kernel) (fd : ℕ) : Type 0 where
  pub taken : K.State → ℕ
  pub output : Memory
  pub selects :
      (read write : Bool) (out_fd in_fd : ℕ) (s : K.State)
      → taken (K.select read out_fd write in_fd s).1 ≡ taken s
  pub writes :
      (in_fd : ℕ) (from : Memory) (n : ℕ) (s : K.State) → taken (K.write in_fd from n s).1 ≡ taken s
  pub closes : (closed : ℕ) (s : K.State) → taken (K.close closed s).1 ≡ taken s
  pub fails : (n e : ℕ) (s t : K.State) → K.read fd n s ≡ (error e, t) → taken t ≡ taken s
  pub reads :
      (n k : ℕ) (bytes : Memory) (s t : K.State)
      → K.read fd n s ≡ (ok (k, bytes), t)
      → (k ≤ n) × (taken t ≡ taken s + k) × ((i : ℕ) → i < k → bytes i ≡ output (taken s + i))

module _ (K : Kernel) (fd : ℕ) (source : IsOutput K fd) (w : Memory) (size : ℕ)
    (small : size < u64_mod) (start : K.State) where
  open K use {State}
  open source use {taken, output}

  -- The bytes that the exchange counts are the next of the output, in order.
  record Got (x : Exchange) (p : Subprocess) (s : State) : Type 0 where
    from : p.out_fd ≡ fd
    sum : x.has_read + x.read_remaining ≡ size
    counted : taken s ≡ taken start + x.has_read
    bytes : (i : ℕ) → i < x.has_read → x.read_buffer i ≡ output (taken start + i)

  -- The fields that do not change may be of another exchange.
  Got-other :
      (x : Exchange) (p : Subprocess) (s t : State) (in_owned : Bool) (n k : ℕ)
      → taken t ≡ taken s
      → Got x p s
      → Got (record x { has_written = n; write_remaining = k }) (record p { in_owned = in_owned }) t
  Got-other x p s t in_owned n k same v = record {
    from = v.from;
    sum = v.sum;
    counted = same ∙ v.counted;
    bytes = v.bytes;
  }

  Got-same :
      (x : Exchange) (p : Subprocess) (s t : State) → taken t ≡ taken s → Got x p s → Got x p t
  Got-same x p s t same v = record {
    from = v.from;
    sum = v.sum;
    counted = same ∙ v.counted;
    bytes = v.bytes;
  }

  wrote :
      (x : Exchange) (p : Subprocess) (s : State) (r : Sys ℕ × State)
      → K.write p.in_fd (λ i. w (i + x.has_written)) x.write_remaining s ≡ r
      → taken r.1 ≡ taken s
  wrote x p s r e = ap (λ u. taken u.1) (sym e) ∙ source.writes p.in_fd _ x.write_remaining s

  at_source :
      (x : Exchange) (p : Subprocess) (s : State) (r : Sys (ℕ × Memory) × State)
      → Got x p s
      → K.read p.out_fd x.read_remaining s ≡ r
      → K.read fd x.read_remaining s ≡ r
  at_source x p s r v e = ap (λ f. K.read f x.read_remaining s) (sym v.from) ∙ e

  Got-more :
      (x : Exchange) (p : Subprocess) (k : ℕ) (out : Memory) (s t : State)
      → K.read fd x.read_remaining s ≡ (ok (k, out), t)
      → Got x p s
      → Got
          (record x {
            read_buffer = memcpy x.read_buffer x.has_read out 0 k;
            has_read = x.has_read + k;
            read_remaining = x.read_remaining - k;
          })
          p
          t
  Got-more x p k out s t e v =
      let (le, n, next) = source.reads _ k out s t e in
      record {
        from = v.from;
        sum = omega (arith, v.sum);
        counted = omega (arith, v.counted);
        bytes = λ i h. elim (Bool-cases (ltb i x.has_read)) [
          | inl early ↦ ground (arith, early, v.bytes i)
          | inr late ↦
              let place : i - x.has_read + 0 ≡ i - x.has_read = omega arith in
              let there : taken s + (i - x.has_read) ≡ taken start + i =
                ground (arith, late, v.counted) in
              let inside : in_range x.has_read (x.has_read + k) i ≡ true = ground (arith, late) in
              rw (inside, place) (next (i - x.has_read) (ground (arith, late)) ∙ ap output there)
        ];
      }

  Got-IsKept : IsKept K w Got
  Got-IsKept = record {
    selects =
        λ x p read write s v. Got-same x p s _ (source.selects read write p.out_fd p.in_fd s) v;
    closes = λ x p s v. Got-other x p s _ false _ _ (source.closes p.in_fd s) v;
    write_fails = λ x p e s t f v. Got-same x p s t (wrote x p s _ f) v;
    writes_none = λ x p s t f v. Got-same x p s t (wrote x p s _ f) v;
    writes = λ x p k s t f v. Got-other x p s t p.in_owned _ _ (wrote x p s _ f) v;
    read_fails = λ x p e s t f v. Got-same x p s t (source.fails _ e s t (at_source x p s _ v f)) v;
    reads_none = λ x p bytes s t f v.
        let (le, n, next) = source.reads _ 0 bytes s t (at_source x p s _ v f) in
        Got-same x p s t (omega (arith, n)) v;
    reads = λ x p k bytes s t f v.
        let g = at_source x p s _ v f in
        let le = (source.reads _ k bytes s t g).0 in
        rw
          (
            add64_lem x.has_read k (omega (arith, v.sum)),
            sub64_lem x.read_remaining k le (omega (arith, v.sum)),
          )
          (Got-more x p k bytes s t g v);
  }

-- Let a child take and give bytes, and let the system account for the bytes that have gone into its
-- input and for those that were read of its output. For sizes below 2 ^ 64, and unless there are
-- bytes to write for an input that is not owned, communicate returns 0, and for both buffers the
-- bytes that went through and those that are left make the size that was asked for; one round for
-- each byte and one more is enough. The bytes of the buffer to write that it counts as written have
-- gone into the input of the child, each once and in order, behind those from before, and no others
-- have; those that it counts as read are the next bytes of the output, in order, and the buffer to
-- read has them.
pub communicate-Exchanges :
    (K : Kernel) (lively : IsLively K) (read_buffer write_buffer : Memory)
    (read_size write_size : ℕ) (p : Subprocess) (sink : IsSink K p.in_fd)
    (source : IsOutput K p.out_fd) (s : K.State)
    → read_size < u64_mod
    → write_size < u64_mod
    → (not p.in_owned && ltb 0 write_size) ≡ false
    → (y : Exchange) × (p' : Subprocess) × (t : K.State) × (communicate K
          (suc (read_size + write_size))
          read_buffer
          read_size
          write_buffer
          write_size
          p
          s
        ≡ done (0, y, p', t))
      × (y.has_read + y.read_remaining ≡ read_size)
      × (y.has_written + y.write_remaining ≡ write_size)
      × (sink.count t ≡ sink.count s + y.has_written)
      × ((i : ℕ) → i < sink.count s → sink.byte t i ≡ sink.byte s i)
      × ((i : ℕ) → i < y.has_written → sink.byte t (sink.count s + i) ≡ write_buffer i)
      × (source.taken t ≡ source.taken s + y.has_read)
      × ((i : ℕ) → i < y.has_read → y.read_buffer i ≡ source.output (source.taken s + i))
unfolding communicate
communicate-Exchanges K lively read_buffer write_buffer read_size write_size p sink source s h k
      allowed =
    let (y, p', t, e, read_sum, write_sum, counted, before, sent) =
      communicate-Sends K lively read_buffer write_buffer read_size write_size p sink s h k
        allowed in
    let x : Exchange = record {
      read_buffer = read_buffer;
      has_read = 0;
      read_remaining = read_size;
      has_written = 0;
      write_remaining = write_size;
    } in
    let start : Got K p.out_fd source write_buffer read_size h s x p s = record {
      from = refl;
      sum = omega arith;
      counted = omega arith;
      bytes = λ i below. absurd (omega arith);
    } in
    let keeps = Got-IsKept K p.out_fd source write_buffer read_size h s in
    let got =
      subst (λ o. IfDone (After K write_buffer _ keeps) o) (sym (rw allowed refl) ∙ e)
        (communicate_loop-After K write_buffer _ keeps (suc (read_size + write_size)) x p s
          start) in
    (y, p', t, e, read_sum, write_sum, counted, before, sent, got.counted, got.bytes)
