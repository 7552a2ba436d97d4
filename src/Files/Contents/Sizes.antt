-- ===== src/Files/Contents/Sizes.antt =====
-- What `fgetattr` and `read` give after `write` and `ftruncate`.
use asymmetricfs.Prelude.{
  ℕ, suc, ◌+◌, ◌≤◌, ◌<◌, max, ◌≡◌, refl, ◌∙◌, ap, true, false, ◌||◌, not, some, done, ◌==◌, ◌>>=◌,
  assert-true, none, neg, Bool-cases, inl, inr, Memory, pos, to_int, lookup, number_key,
  lookup-assign_self, assign-same, if_true, if_false, u64_mod, arith,
}
use asymmetricfs.Page.ByteFile.{file_write, ByteFile, file_read, file_truncate}
use asymmetricfs.Page.Buffer
use asymmetricfs.Page.Buffer.Invariant.{IsWellFormed}
use asymmetricfs.Page.Buffer.Locating.{IsReady, block_end}
use asymmetricfs.Page.Buffer.Refinement.{
  view, IsClean, IsCut, write-file_write, resize-file_truncate,
}
use asymmetricfs.Kernel.{Kernel, Stat, ok, ebadf}
use asymmetricfs.Files.{Internal, Filesystem, FileInfo}
use asymmetricfs.Files.Handles.{write_at, write_file}
use asymmetricfs.Files.Contents.{
  assign_file, shown_size, read_file, resize_file, truncate_loaded, truncate_open, truncatefd,
  ftruncate, stat_sized, stat_loaded, stat_open, statfd, fgetattr,
}
use asymmetricfs.Files.Contents.Written.{load_buffer_set, read_file_set}

module _ (K : Kernel) (fuel : ℕ) where
  open K use {State}

  stat_sized_set :
      (st : Stat) (d : Internal) (fs : Filesystem) (s : State)
      → d.buffer_set ≡ true
      → stat_sized K st d fs s
        ≡ done (pos 0, some (record st { st_size = d.buffer.buffer_size }), fs, s)
  unfolding stat_sized shown_size Buffer.size
  stat_sized_set st d fs s set =
      assert-true (not fs.read || d.buffer_set) _ (ground (arith, set, Bool-cases fs.read))
      ∙ ap (λ n. done (pos 0, some (record st { st_size = n }), fs, s))
          (if_true d.buffer_set _ _ set)

  stat_open_set :
      (buf st : Stat) (handle : ℕ) (fs : Filesystem) (d : Internal) (s : State)
      → lookup handle fs.open_fds ≡ some d
      → d.buffer_set ≡ true
      → stat_open K fuel buf handle d fs (ok st, s)
        ≡ done (pos 0, some (record st { st_size = d.buffer.buffer_size }), fs, s)
  unfolding stat_open stat_loaded
  stat_open_set buf st handle fs d s there set = elim (Bool-cases fs.read) [
    | inl reads ↦
        if_true fs.read _ _ reads
        ∙ ap (λ o. o >>= stat_loaded K buf st handle fs) (load_buffer_set K fuel fs.options d s set)
        ∙ ap (λ fds. stat_sized K st d (record fs { open_fds = fds }) s)
            (assign-same handle d fs.open_fds there)
        ∙ stat_sized_set st d fs s set
    | inr hidden ↦ if_false fs.read _ _ hidden ∙ stat_sized_set st d fs s set
  ]

  -- The attributes of a loaded file, in both modes.
  fgetattr_set :
      (buf st : Stat) (info : FileInfo) (fs : Filesystem) (d : Internal) (s t : State)
      → lookup info.fh fs.open_fds ≡ some d
      → d.buffer_set ≡ true
      → K.fstat d.fd s ≡ (ok st, t)
      → fgetattr K fuel (some buf) info fs s
        ≡ done (pos 0, some (record st { st_size = d.buffer.buffer_size }), fs, t)
  unfolding fgetattr statfd
  fgetattr_set buf st info fs d s t there set e =
      rw (there, statfd, e) (stat_open_set buf st info.fh fs d t there set)

  -- Let a file be loaded (or created), with a well-formed and clean buffer. A write of at least one
  -- byte that is ready and ends within the block that it begins in, below 2 ^ 64 by a page, returns
  -- the size. After it, with reading allowed and without, a read at an offset below 2 ^ 64 gives
  -- what a read of the written file of bytes gives, and changes nothing, and fgetattr, if the
  -- system tells the attributes, shows them with the size of the written file.
  pub write_file_lem :
      (buffer : Memory) (n offset : ℕ) (info : FileInfo) (d : Internal) (fs : Filesystem)
      (mem : Memory) (size at : ℕ) (buf st : Stat) (s t : State)
      → lookup info.fh fs.open_fds ≡ some d
      → d.buffer_set ≡ true
      → IsWellFormed d.buffer
      → IsClean d.buffer
      → IsReady K.mmap d.buffer n offset
      → 0 < n
      → offset + n + d.buffer.page_size < u64_mod
      → offset + n ≤ block_end d.buffer n offset
      → at < u64_mod
      → K.fstat d.fd s ≡ (ok st, t)
      → let (count, bytes) = file_read (file_write (view d.buffer) n offset buffer) size at mem in
        (fs' : Filesystem) × (write_file K buffer n (pos offset) info fs s
          ≡ done (to_int n, fs', s))
        × (read_file K fuel mem size (pos at) info fs' s ≡ done (to_int count, bytes, fs', s))
        × (fgetattr K fuel (some buf) info fs' s
            ≡ done (
              pos 0,
              some (record st { st_size = max d.buffer.buffer_size (offset + n) }),
              fs',
              t,
            ))
  unfolding write_file write_at
  write_file_lem buffer n offset info d fs mem size at buf st s t there set v c ready h k fits l e =
      let (b, w, written, v', c') =
        write-file_write K.mmap d.buffer n offset buffer v c ready h k fits in
      let d' = record d { buffer = b; dirty = true } in
      let fs' = assign_file info.fh d' fs in
      let some_bytes : (n == 0) ≡ false = ground arith in
      let there' = lookup-assign_self info.fh d' d fs.open_fds there in
      (
        fs',
        rw (there, write_file, some_bytes, w) refl,
        read_file_set K fuel mem size at info fs' d' s there' set v' l
            ∙ ap (λ f. let r = file_read f size at mem in done (to_int r.0, r.1, fs', s)) written,
        fgetattr_set buf st info fs' d' s t there' set e
            ∙ ap (λ (f : ByteFile). done (pos 0, some (record st { st_size = f.size }), fs', t))
                written,
      )

  ftruncate_set :
      (n : ℕ) (info : FileInfo) (d : Internal) (fs : Filesystem) (s : State)
      → fs.read ≡ true
      → lookup info.fh fs.open_fds ≡ some d
      → d.buffer_set ≡ true
      → ftruncate K fuel (pos (suc n)) info fs s ≡ resize_file K info.fh (suc n) d fs s
  unfolding ftruncate truncatefd truncate_open truncate_loaded
  ftruncate_set n info d fs s reads there set =
      ap
        (λ o. elim o [
          | none ↦ done (neg ebadf, fs, s)
          | some d ↦ truncate_open K fuel info.fh (pos (suc n)) d fs s
        ])
        there
      ∙ if_true fs.read _ _ reads
      ∙ ap (λ o. o >>= truncate_loaded K info.fh (suc n) fs)
          (load_buffer_set K fuel fs.options d s set)

  -- With reading allowed, let a file be loaded, with a well-formed and clean buffer. ftruncate to a
  -- size from 1 to 2 ^ 64 - 1 that is not below the old size, or over which no block lies, returns
  -- 0, and a read after it at an offset below 2 ^ 64 gives what a read of the truncated file of
  -- bytes gives, and changes nothing.
  pub ftruncate-read_file :
      (n : ℕ) (info : FileInfo) (d : Internal) (fs : Filesystem) (mem : Memory) (size at : ℕ)
      (s : State)
      → fs.read ≡ true
      → lookup info.fh fs.open_fds ≡ some d
      → d.buffer_set ≡ true
      → IsWellFormed d.buffer
      → IsClean d.buffer
      → IsCut d.buffer (suc n)
      → suc n < u64_mod
      → at < u64_mod
      → let (count, bytes) = file_read (file_truncate (view d.buffer) (suc n)) size at mem in
        (fs' : Filesystem) × (ftruncate K fuel (pos (suc n)) info fs s ≡ done (pos 0, fs', s))
        × (read_file K fuel mem size (pos at) info fs' s ≡ done (to_int count, bytes, fs', s))
  unfolding resize_file
  ftruncate-read_file n info d fs mem size at s reads there set v c cut h k =
      let (b, e, truncated, v', c') = resize-file_truncate d.buffer (suc n) v c cut h in
      let d' = record d { buffer = b; dirty = true } in
      let fs' = assign_file info.fh d' fs in
      (
        fs',
        ftruncate_set n info d fs s reads there set
            ∙ ap
                (λ o. o >>= λ b.
                  done (pos 0, assign_file info.fh (record d { buffer = b; dirty = true }) fs, s))
                e,
        read_file_set K fuel mem size at info fs' d' s
              (lookup-assign_self info.fh d' d fs.open_fds there) set v' k
            ∙ ap (λ f. let r = file_read f size at mem in done (to_int r.0, r.1, fs', s)) truncated,
      )
