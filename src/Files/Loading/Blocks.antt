-- ===== src/Files/Loading/Blocks.antt =====
-- `load_buffer` on files that are blocks of gpg in a row, and on files that are too short for one.
use mathlib.Core.Path.{fun_ext}
use asymmetricfs.Prelude.{
  ℕ, zero, suc, ◌+◌, ◌-◌, ◌%◌, ◌≤◌, ◌<◌, ◌≡◌, refl, ◌∙◌, ap, inl, inr, true, false, ◌&&◌, List, [],
  ◌∷◌, none, some, done, aborts, ◌>>=◌, ◌==◌, Bool-cases, if◌then◌else◌, leb, ltb, lt→ltb, Memory,
  ℤ, pos, sub64, sub64_lem, u64_mod, arith,
}
use asymmetricfs.Page.Buffer
use asymmetricfs.Page.Buffer.{PageBuffer}
use asymmetricfs.Kernel.{Kernel, ok, Stat}
use asymmetricfs.Files.{Options, Internal}
use asymmetricfs.Files.Loading.{
  terminator, terminator_size, matches, find_terminator, block_end, Loaded, decrypt, after_gpg,
  load_block, load_loop, unmap, load_mapped, load_stat, load_buffer,
}
use asymmetricfs.Files.Loading.Terminator.{NoTerminator, EndsBlock, block_end_lem}

-- The `n` bytes at `from` end with a terminator, and no other begins in them before it.
abbrev pub IsBlock : Memory → ℕ → ℕ → Type 0
IsBlock m from n =
    (terminator_size ≤ n)
    × (matches terminator m (from + (n - terminator_size)) ≡ true)
    × NoTerminator m from (from + (n - terminator_size))

-- From `from` to the size there are blocks of these lengths, and then fewer bytes than a terminator
-- has.
abbrev pub AreBlocks : Memory → ℕ → List ℕ → ℕ → Type 0
AreBlocks m from [] size = (from ≤ size) × (size < from + terminator_size)
AreBlocks m from (n ∷ ns) size = IsBlock m from n × AreBlocks m (from + n) ns size

AreBlocks-le :
    (m : Memory) (from : ℕ) (ns : List ℕ) (size : ℕ) → AreBlocks m from ns size → from ≤ size
AreBlocks-le m from [] size (le, rest) = le
AreBlocks-le m from (n ∷ ns) size (b, bs) = omega (arith, AreBlocks-le m (from + n) ns size bs)

EndsBlock-rest :
    (m : Memory) (size from end : ℕ)
    → size < from + terminator_size
    → EndsBlock m size from end
    → end ≡ from
EndsBlock-rest m size from end short (inl (i, le, fits, found, before, e)) = absurd (omega arith)
EndsBlock-rest m size from end short (inr (before, e)) = omega arith

no_two :
    {P : Type 0} (m : Memory) (from to i : ℕ)
    → NoTerminator m from to
    → matches terminator m i ≡ true
    → from ≤ i
    → i < to
    → P
no_two m from to i before found le lt = absurd (ground (arith, before i le lt, found))

EndsBlock-next :
    (m : Memory) (size from n end : ℕ)
    → IsBlock m from n
    → from + n ≤ size
    → EndsBlock m size from end
    → end ≡ from + n
EndsBlock-next m size from n end (long, at_end, before) le
      (inl (i, low, fits, found, none_before, e)) =
    elim (Bool-cases (ltb i (from + (n - terminator_size)))) [
      | inl early ↦ no_two m from (from + (n - terminator_size)) i before found low (ground arith)
      | inr not_early ↦ elim (Bool-cases (ltb (from + (n - terminator_size)) i)) [
        | inl late ↦
            no_two m from i (from + (n - terminator_size)) none_before at_end (omega arith)
              (ground arith)
        | inr same ↦ ground arith
      ]
    ]
EndsBlock-next m size from n end (long, at_end, before) le (inr (no_end, e)) =
    no_two m from (size - 25) (from + (n - terminator_size)) no_end at_end (omega arith)
      (omega arith)

module _ (K : Kernel) (fuel : ℕ) (options : Options) (fd : ℕ) (m : Memory) (size : ℕ) where
  open K use {State}

  -- The blocks one after the other, from `from` on, each with a gpg of its own, as long as gpg
  -- succeeds. A file that is one block is the input of gpg itself.
  abbrev pub load_each : List ℕ → ℕ → ℤ → PageBuffer → State → Loaded K
  load_each [] from ret b s = done (true, ret, b, s)
  load_each (n ∷ ns) from ret b s =
      if from == 0 && n == size
      then decrypt K fuel options m (some fd) none 0 ret b s
        >>= after_gpg K (load_each ns (from + n))
      else decrypt K fuel options m none (some from) n ret b s
        >>= after_gpg K (load_each ns (from + n))

  load_loop_rest :
      (rounds from : ℕ) (ret : ℤ) (b : PageBuffer) (s : State)
      → terminator_size ≤ size
      → size < u64_mod
      → from ≤ size
      → size < from + terminator_size
      → load_loop K (suc rounds) fuel options fd m size from ret b s ≡ done (true, ret, b, s)
  unfolding load_loop load_block
  load_loop_rest rounds from ret b s h t le short = elim (Bool-cases (ltb from size)) [
    | inr at_end ↦ rw at_end refl
    | inl more ↦
        let (end, e, low, high, ends) = block_end_lem m size from h t le in
        let same = EndsBlock-rest m size from end short ends in
        let not_all : (from == 0 && from == size) ≡ false = ground arith in
        let nothing : sub64 from from ≡ 0 =
          sub64_lem from from (omega arith) (omega arith) ∙ omega arith in
        rw (more, e, same, not_all, nothing) refl
  ]

  load_block_next :
      (loop loop' : ℤ → PageBuffer → State → Loaded K) (from n : ℕ) (ret : ℤ) (b : PageBuffer)
      (s : State)
      → terminator_size ≤ n
      → from + n < u64_mod
      → loop ≡ loop'
      → load_block K fuel options fd m size loop from (from + n) ret b s ≡ (
          if from == 0 && n == size
          then decrypt K fuel options m (some fd) none 0 ret b s >>= after_gpg K loop'
          else decrypt K fuel options m none (some from) n ret b s >>= after_gpg K loop')
  unfolding load_block
  load_block_next loop loop' from n ret b s h t e =
      let length : sub64 (from + n) from ≡ n =
        sub64_lem (from + n) from (omega arith) t ∙ omega arith in
      let some_bytes : (n == 0) ≡ false = ground arith in
      let whole : (from == 0 && (from + n) == size) ≡ (from == 0 && n == size) = ground arith in
      rw (e, whole, length, some_bytes) refl

  -- The loop over the blocks is the reference.
  load_loop-load_each :
      (rounds : ℕ) (ns : List ℕ) (from : ℕ) (ret : ℤ) (b : PageBuffer) (s : State)
      → terminator_size ≤ size
      → size < u64_mod
      → AreBlocks m from ns size
      → size < from + rounds
      → load_loop K rounds fuel options fd m size from ret b s ≡ load_each ns from ret b s
  unfolding load_loop
  load_loop-load_each zero ns from ret b s h t bs enough =
      absurd (omega (arith, AreBlocks-le m from ns size bs))
  load_loop-load_each (suc rounds) [] from ret b s h t (le, short) enough =
      load_loop_rest rounds from ret b s h t le short
  load_loop-load_each (suc rounds) (n ∷ ns) from ret b s h t (block, bs) enough =
      let le = AreBlocks-le m (from + n) ns size bs in
      let long = block.0 in
      let (end, e, low, high, ends) = block_end_lem m size from h t (omega arith) in
      let same = EndsBlock-next m size from n end block le ends in
      let more : ltb from size ≡ true = lt→ltb from size (omega arith) in
      let again : load_loop K rounds fuel options fd m size (from + n) ≡ load_each ns (from + n) =
        fun_ext (λ ret'. fun_ext (λ b'.
          fun_ext
            (λ s'. load_loop-load_each rounds ns (from + n) ret' b' s' h t bs (omega arith)))) in
      rw (more, e, same)
        (load_block_next (load_loop K rounds fuel options fd m size (from + n))
          (load_each ns (from + n)) from n ret b s long (omega arith) again)

-- What `load_buffer` starts from.
abbrev pub cleared : Internal → Internal
cleared d = record d { dirty = false; buffer = Buffer.clear d.buffer }

module _ (K : Kernel) where
  open K use {State}

  -- The file of `d` has not been read yet. The system tells its size and maps it.
  pub record IsMapped (d : Internal) (size : ℕ) (m : Memory) (s t : State) : Type 0 where
    pub unset : d.buffer_set ≡ false
    pub opened : d.is_open ≡ true
    pub stat :
        (st : Stat) × (u : State) × (K.fstat d.fd s ≡ (ok st, u))
        × (st.st_size ≡ size)
        × (K.map_file d.fd size u ≡ (ok m, t))

  load_buffer_mapped :
      (fuel : ℕ) (options : Options) (d : Internal) (size : ℕ) (m : Memory) (s t : State)
      → IsMapped d size m s t
      → 0 < size
      → load_buffer K fuel options d s ≡ load_mapped K fuel options (cleared d) size (ok m, t)
  unfolding load_buffer load_stat
  load_buffer_mapped fuel options d size m s t maps h =
      let (st, u, e, same, f) = maps.stat in
      let some_bytes : (size == 0) ≡ false = ground arith in
      rw (maps.unset, maps.opened, e, same, some_bytes, f) refl

  -- Let a file of 26 bytes or more, and of fewer than 2 ^ 64, be blocks in a row, each of which
  -- ends with the only terminator in it, and fewer than 26 bytes behind the last one. If it is not
  -- loaded yet and can be mapped, load_buffer gives every block, in order, to a gpg of its own,
  -- until one fails, and the bytes behind the last block to none.
  pub load_buffer-load_each :
      (fuel : ℕ) (options : Options) (d : Internal) (size : ℕ) (m : Memory) (ns : List ℕ)
      (s t : State)
      → IsMapped d size m s t
      → terminator_size ≤ size
      → size < u64_mod
      → AreBlocks m 0 ns size
      → load_buffer K fuel options d s ≡ (
          load_each K fuel options d.fd m size ns 0 (pos 0) (Buffer.clear d.buffer) t
          >>= unmap K (cleared d) m size)
  unfolding load_mapped
  load_buffer-load_each fuel options d size m ns s t maps h k bs =
      load_buffer_mapped fuel options d size m s t maps (omega arith)
      ∙ ap (λ r. r >>= unmap K (cleared d) m size)
          (load_loop-load_each K fuel options d.fd m size (suc size) ns 0 (pos 0)
            (Buffer.clear d.buffer) t h k bs (omega arith))

  -- A file that is not empty and has fewer than 26 bytes, which can be mapped, is never loaded: the
  -- search for the terminator goes past its end, and the program ends.
  pub load_buffer_short :
      (fuel : ℕ) (options : Options) (d : Internal) (size : ℕ) (m : Memory) (s t : State)
      → IsMapped d size m s t
      → 0 < size
      → size < terminator_size
      → load_buffer K fuel options d s ≡ aborts
  unfolding load_mapped load_loop block_end find_terminator sub64
  load_buffer_short fuel options d size m s t maps h k =
      let wraps : leb 0 ((size + u64_mod - terminator_size) % u64_mod) ≡ true = ground arith in
      load_buffer_mapped fuel options d size m s t maps h
      ∙ rw (lt→ltb 0 size h, wraps, lt→ltb size (0 + terminator_size) k) refl
