-- ===== src/Files/Contents/Written.antt =====
-- What `read` gives after `write`.
use asymmetricfs.Prelude.{
  ℕ, ◌<◌, ◌≡◌, refl, sym, ◌∙◌, ap, subst, Bool, true, false, not, some, Outcome, done, aborts,
  throws, out_of_fuel, ◌>>=◌, Bool-cases, inl, inr, IfDone, assert, ◌>>◌, ◌&&◌, ◌||◌, if_true,
  if_false, ◌==◌, Memory, ℤ, pos, negsuc, to_int, lookup, number_key, lookup-assign_self,
  assign-assign, assign-same, u64_mod,
}
use asymmetricfs.Page.ByteFile.{file_read}
use asymmetricfs.Page.Buffer
use asymmetricfs.Page.Buffer.{PageBuffer}
use asymmetricfs.Page.Buffer.Invariant.{IsWellFormed}
use asymmetricfs.Page.Buffer.Refinement.{view, read-file_read}
use asymmetricfs.Page.Buffer.Clearing.{write-clear}
use asymmetricfs.Kernel.{Kernel, has, o_append, o_creat}
use asymmetricfs.Files.{Options, Internal, Filesystem, FileInfo}
use asymmetricfs.Files.Handles.{write_at, write_file}
use asymmetricfs.Files.Loading.{load_buffer}
use asymmetricfs.Files.Contents.{
  assign_file, is_unreadable, read_buffer, read_loaded, read_at, read_file,
}

module _ (K : Kernel) (fuel : ℕ) where
  open K use {State}

  -- A file that is not loaded is loaded the same, whatever its buffer holds.
  load_buffer-forgets :
      (options : Options) (d : Internal) (b : PageBuffer) (dirty : Bool) (s : State)
      → d.buffer_set ≡ false
      → Buffer.clear b ≡ Buffer.clear d.buffer
      → load_buffer K fuel options (record d { buffer = b; dirty = dirty }) s
        ≡ load_buffer K fuel options d s
  unfolding load_buffer
  load_buffer-forgets options d b dirty s unset e = rw (unset, e) refl

  read_loaded-assign :
      (mem : Memory) (size offset handle : ℕ) (d' : Internal) (fs : Filesystem)
      (r : ℤ × Internal × State)
      → read_loaded K mem size offset handle (assign_file handle d' fs) r
        ≡ read_loaded K mem size offset handle fs r
  unfolding read_loaded
  read_loaded-assign mem size offset handle d' fs (ret, d, s) =
      rw (assign-assign handle d d' fs.open_fds) refl

  bind_same :
      (o : Outcome (ℤ × Internal × State))
      (f g : ℤ × Internal × State → Outcome (ℤ × Memory × Filesystem × State))
      → ((r : ℤ × Internal × State) → f r ≡ g r)
      → (o >>= f) ≡ (o >>= g)
  bind_same (done r) f g h = h r
  bind_same aborts f g h = refl
  bind_same (throws e) f g h = refl
  bind_same out_of_fuel f g h = refl

  pub read_file_found :
      (mem : Memory) (size : ℕ) (at : ℤ) (info : FileInfo) (fs : Filesystem) (d : Internal)
      (s : State)
      → lookup info.fh fs.open_fds ≡ some d
      → read_file K fuel mem size at info fs s ≡ read_at K fuel mem size at info.fh d fs s
  unfolding read_file
  read_file_found mem size at info fs d s there = rw (there, read_file) refl

  read_at_loading :
      (mem : Memory) (size at handle : ℕ) (fs : Filesystem) (d : Internal) (s : State)
      → fs.read ≡ true
      → read_at K fuel mem size (pos at) handle d fs s
        ≡ (load_buffer K fuel fs.options d s >>= read_loaded K mem size at handle fs)
  unfolding read_at
  read_at_loading mem size at handle fs d s reads = if_false (not fs.read) _ _ (ap not reads)

  read_file-again :
      (mem : Memory) (size at : ℕ) (info : FileInfo) (fs : Filesystem) (d d' : Internal) (s : State)
      → fs.read ≡ true
      → lookup info.fh fs.open_fds ≡ some d
      → load_buffer K fuel fs.options d' s ≡ load_buffer K fuel fs.options d s
      → read_file K fuel mem size (pos at) info (assign_file info.fh d' fs) s
        ≡ read_file K fuel mem size (pos at) info fs s
  read_file-again mem size at info fs d d' s reads there same =
      let fs' = assign_file info.fh d' fs in
      let there' = lookup-assign_self info.fh d' d fs.open_fds there in
      read_file_found mem size (pos at) info fs' d' s there'
      ∙ read_at_loading mem size at info.fh fs' d' s reads
      ∙ ap (λ o. o >>= read_loaded K mem size at info.fh fs') same
      ∙ bind_same (load_buffer K fuel fs.options d s) _ _
          (read_loaded-assign mem size at info.fh d' fs)
      ∙ sym (read_at_loading mem size at info.fh fs d s reads)
      ∙ sym (read_file_found mem size (pos at) info fs d s there)

  abbrev ReadsAs : Memory → ℕ → ℕ → FileInfo → Filesystem → State → ℤ × Filesystem × State → Type 0
  ReadsAs mem size at info fs s (ret, fs', t) =
      read_file K fuel mem size (pos at) info fs' t ≡ read_file K fuel mem size (pos at) info fs s

  write_at-lost :
      (buffer : Memory) (n : ℕ) (offset : ℤ) (info : FileInfo) (d : Internal) (fs : Filesystem)
      (s : State) (mem : Memory) (size at : ℕ)
      → fs.read ≡ true
      → lookup info.fh fs.open_fds ≡ some d
      → d.buffer_set ≡ false
      → IfDone (λ r. ReadsAs mem size at info fs s r) (write_at K buffer n offset info.fh d fs s)
  unfolding write_at
  write_at-lost buffer n (negsuc k) info d fs s mem size at reads there unset = refl
  write_at-lost buffer n (pos offset) info d fs s mem size at reads there unset =
      by_write (Buffer.write K.mmap d.buffer n offset buffer)
        (write-clear K.mmap d.buffer n offset buffer)
    where
      by_write :
          (o : Outcome PageBuffer)
          → IfDone (λ b. Buffer.clear b ≡ Buffer.clear d.buffer) o
          → IfDone
              (λ r. ReadsAs mem size at info fs s r)
              (o >>= λ b.
                done (to_int n, assign_file info.fh (record d { buffer = b; dirty = true }) fs, s))
      by_write (done b) e =
          read_file-again mem size at info fs d (record d { buffer = b; dirty = true }) s reads
            there (load_buffer-forgets fs.options d b true s unset e)
      by_write aborts e = tt
      by_write (throws x) e = tt
      by_write out_of_fuel e = tt

  -- With reading allowed, let a file be open that is not loaded yet. After a write to it that
  -- returns, whatever it wrote, a read gives and leaves exactly what it would without the write:
  -- the bytes that were written are lost.
  pub write_lost :
      (buffer : Memory) (n : ℕ) (offset : ℤ) (info : FileInfo) (d : Internal) (fs fs' : Filesystem)
      (ret : ℤ) (s t : State) (mem : Memory) (size at : ℕ)
      → fs.read ≡ true
      → lookup info.fh fs.open_fds ≡ some d
      → d.buffer_set ≡ false
      → write_file K buffer n offset info fs s ≡ done (ret, fs', t)
      → read_file K fuel mem size (pos at) info fs' t ≡ read_file K fuel mem size (pos at) info fs s
  unfolding write_file
  write_lost buffer n offset info d fs fs' ret s t mem size at reads there unset e =
      subst (λ o. IfDone (λ r. ReadsAs mem size at info fs s r) o) e written
    where
      written :
          IfDone (λ r. ReadsAs mem size at info fs s r) (write_file K buffer n offset info fs s)
      written = elim (Bool-cases (n == 0)) [
        | inl nothing ↦ rw (there, write_file, nothing) refl
        | inr some_bytes ↦
            rw (there, write_file, some_bytes)
              (write_at-lost buffer n offset info d fs s mem size at reads there unset)
      ]

  pub load_buffer_set :
      (options : Options) (d : Internal) (s : State)
      → d.buffer_set ≡ true
      → load_buffer K fuel options d s ≡ done (pos 0, d, s)
  unfolding load_buffer
  load_buffer_set options d s set = if_true d.buffer_set _ _ set

  read_loaded_set :
      (mem : Memory) (size at handle : ℕ) (fs : Filesystem) (d : Internal) (s : State)
      → lookup handle fs.open_fds ≡ some d
      → d.buffer_set ≡ true
      → read_loaded K mem size at handle fs (pos 0, d, s) ≡ read_buffer K mem size at d fs s
  unfolding read_loaded
  read_loaded_set mem size at handle fs d s there set =
      ap (λ b. assert b >> read_buffer K mem size at d (assign_file handle d fs) s) set
      ∙ ap (λ fds. read_buffer K mem size at d (record fs { open_fds = fds }) s)
          (assign-same handle d fs.open_fds there)

  -- A loaded file reads as its buffer, in both modes.
  read_at_set :
      (mem : Memory) (size at handle : ℕ) (fs : Filesystem) (d : Internal) (s : State)
      → lookup handle fs.open_fds ≡ some d
      → d.buffer_set ≡ true
      → read_at K fuel mem size (pos at) handle d fs s ≡ read_buffer K mem size at d fs s
  unfolding read_at is_unreadable
  read_at_set mem size at handle fs d s there set = elim (Bool-cases fs.read) [
    | inl reads ↦
        read_at_loading mem size at handle fs d s reads
        ∙ ap (λ o. o >>= read_loaded K mem size at handle fs) (load_buffer_set fs.options d s set)
        ∙ read_loaded_set mem size at handle fs d s there set
    | inr hidden ↦
        if_true (not fs.read) _ _ (ap not hidden)
        ∙ if_false (not d.buffer_set && (has d.flags o_append || not (has d.flags o_creat))) _ _
            (ap (λ b. not b && (has d.flags o_append || not (has d.flags o_creat))) set)
  ]

  -- The same, as reading a file of bytes.
  pub read_file_set :
      (mem : Memory) (size at : ℕ) (info : FileInfo) (fs : Filesystem) (d : Internal) (s : State)
      → lookup info.fh fs.open_fds ≡ some d
      → d.buffer_set ≡ true
      → IsWellFormed d.buffer
      → at < u64_mod
      → let (count, bytes) = file_read (view d.buffer) size at mem in
        read_file K fuel mem size (pos at) info fs s ≡ done (to_int count, bytes, fs, s)
  unfolding read_buffer
  read_file_set mem size at info fs d s there set v h =
      read_file_found mem size (pos at) info fs d s there
      ∙ read_at_set mem size at info.fh fs d s there set
      ∙ ap (λ o. o >>= λ (n, m). done (to_int n, m, fs, s))
          (read-file_read d.buffer size at mem v h)
