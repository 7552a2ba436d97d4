-- ===== src/Files/Handles.antt =====
-- The operations of the class `asymmetricfs` on the table of open files: `create`, `open`,
-- `release`, `rename`, `access`, `write`, and `internal::close`.
use Prim.Native.Nat.{bit_and, bit_or}
use Prim.Native.String.{String}
use asymmetricfs.Prelude.{
  ℕ, zero, Bool, true, false, ◌&&◌, ◌||◌, not, List, [], ◌∷◌, Option, none, some, Outcome, done,
  throws, assert, ◌>>=◌, ◌>>◌, ◌==◌, if◌then◌else◌, Memory, ℤ, pos, negsuc, neg, sub32, add32,
  to_int, is_zero, lookup, insert, assign, erase, text_key, number_key,
}
use asymmetricfs.Page.Buffer
use asymmetricfs.Page.Buffer.{PageBuffer}
use asymmetricfs.Page.Splice.{splice}
use asymmetricfs.Kernel.{
  Sys, ok, error, Stat, Kernel, pipe, has, eio, eacces, ebadf, einval, o_wronly, o_rdwr, o_rdonly,
  o_accmode, o_creat, o_excl, o_append, o_cloexec, r_ok,
}
use asymmetricfs.Subprocess.{subprocess, wait, destroy_subprocess}
use asymmetricfs.Files.{
  Options, Internal, Filesystem, FileInfo, relpath, make_rdwr, next_fd, internal,
}

-- The reply of an operation of FUSE with its state.
abbrev pub Reply : Type 0 → Type 0 → Type 0
Reply A S = Outcome (ℤ × A × Filesystem × S)

abbrev recipient_args : List String → List String
recipient_args [] = []
recipient_args (r ∷ rs) = "-r" ∷ r ∷ recipient_args rs

-- The command line of gpg in `internal::close`.
unfoldable pub encrypt_args : Options → List String
encrypt_args options = "gpg" ∷ "-ae" ∷ "--no-tty" ∷ "--batch" ∷ recipient_args options.recipients

-- Does the file whose table entry is created by `open` count as loaded?
abbrev pub is_empty : Sys Stat → Bool
is_empty (ok st) = st.st_size == 0
is_empty (error e) = false

-- The access mode is reading only, or reading and writing (writing).
unfoldable pub for_reading : ℕ → Bool
for_reading flags = bit_and flags o_accmode == o_rdwr || bit_and flags o_accmode == o_rdonly

unfoldable pub for_writing : ℕ → Bool
for_writing flags = bit_and flags o_accmode == o_rdwr || bit_and flags o_accmode == o_wronly

-- The flags with which `open` calls the system, before `make_rdwr`.
unfoldable pub open_flags : Bool → ℕ → ℕ
open_flags read flags =
    let exclusive = if has flags o_creat then bit_or flags o_excl else flags in
    bit_or (if not read && for_reading flags then exclusive else flags) o_cloexec

-- The entry of a file that was opened as `fd`.
unfoldable pub add_file : String → ℕ → ℕ → Bool → FileInfo → Filesystem → FileInfo × Filesystem
add_file path flags fd buffer_set info fs =
    let (handle, fs') = next_fd fs in
    let d = internal fs' fd flags path buffer_set in
    (
      record info { fh = handle },
      record fs' {
        open_paths = insert path handle fs'.open_paths;
        open_fds = insert handle d fs'.open_fds;
      },
    )

module _ (K : Kernel) where
  open K use {State}

  -- A second `openat` with the flags as they are, if the first was denied.
  unfoldable pub openat_retry : Bool → String → ℕ → Option ℕ → Filesystem → State → Sys ℕ × State
  openat_retry retry path flags mode fs s =
      let first = K.openat fs.root (relpath path) (make_rdwr fs.read flags) mode s in
      elim first.0 [
        | ok fd ↦ first
        | error e ↦
            if retry && e == eacces
            then K.openat fs.root (relpath path) flags mode first.1
            else first
      ]

  -- What `create` does with the descriptor.
  unfoldable pub create_as : String → FileInfo → Filesystem → Sys ℕ × State → Reply FileInfo State
  create_as path info fs (error e, t) = done (neg e, info, fs, t)
  create_as path info fs (ok fd, t) =
      let (info', fs') = add_file path info.flags fd true info fs in done (pos 0, info', fs', t)

  unfoldable pub create : String → ℕ → FileInfo → Filesystem → State → Reply FileInfo State
  create path mode info fs s =
      let flags = bit_or (bit_or info.flags o_cloexec) o_creat in
      let retry = fs.read && has flags o_wronly in
      create_as path (record info { flags = flags }) fs
        (openat_retry retry path flags (some mode) fs s)

  -- What `open` does with the descriptor. An error of `fstat` is not fatal.
  unfoldable pub open_as : String → ℕ → FileInfo → Filesystem → Sys ℕ × State → Reply FileInfo State
  open_as path flags info fs (error e, t) = done (neg e, info, fs, t)
  open_as path flags info fs (ok fd, t) =
      let stat = K.fstat fd t in
      let (info', fs') = add_file path flags fd (is_empty stat.0) info fs in
      done (pos 0, info', fs', stat.1)

  -- `open` of a path that is in the table.
  unfoldable pub open_again : ℕ → FileInfo → Filesystem → State → Reply FileInfo State
  open_again handle info fs s = elim (lookup handle fs.open_fds) [
    | none ↦ Outcome.aborts
    | some d ↦
        let d' = record d { references = add32 d.references 1 } in
        done (
          pos 0,
          record info { fh = handle },
          record fs { open_fds = assign handle d' fs.open_fds },
          s,
        )
  ]

  unfoldable pub open_file : String → FileInfo → Filesystem → State → Reply FileInfo State
  open_file path info fs s = elim (lookup path fs.open_paths) [
    | some handle ↦ open_again handle info fs s
    | none ↦
        let flags = open_flags fs.read info.flags in
        open_as path flags info fs
          (openat_retry (fs.read && not (for_writing info.flags)) path flags none fs s)
  ]

  -- The gpg of `internal::close`: the buffer goes into its standard input, and its output into the
  -- file.
  unfoldable pub encrypt : Options → Internal → State → Outcome (ℤ × State)
  encrypt options d s = do
    (p, t) ← subprocess K none (some d.fd) options.gpg_path (encrypt_args options) s
    (n, u) ← splice (pipe K p.in_fd) K.mmap d.buffer 0 t
    let w = wait K p u
    let ret = if is_zero w.0 then pos 0 else neg eio
    done (ret, destroy_subprocess K w.1 w.2)

  -- The result of `::close`, behind that of gpg.
  abbrev pub close_result : ℤ → Sys ℕ → ℤ
  close_result ret closed = elim ret [
    | pos zero ↦ elim closed [ ok n ↦ pos 0 | error e ↦ pos e ]
    | z ↦ z
  ]

  -- `internal::close`
  unfoldable pub close : Options → Internal → State → Outcome (ℤ × Internal × State)
  close options d s =
      if not d.is_open
      then done (pos 0, d, s)
      else (if d.dirty then encrypt options d s else done (pos 0, s)) >>= λ (ret, t).
          let closed = K.close d.fd t in
          done (close_result ret closed.0, record d { dirty = false; is_open = false }, closed.1)

  -- An exception in a destructor ends the program.
  abbrev pub terminates : Outcome (ℤ × Internal × State) → Outcome (ℤ × Internal × State)
  terminates (throws e) = Outcome.aborts
  terminates r = r

  -- The destructor of `internal`.
  unfoldable pub destroy : Options → Internal → State → Outcome State
  destroy options d s = do
    (ret, d', t) ← terminates (close options d s)
    assert (d'.references == 0)
    done t

  -- `release` gives one reference back, and the last one closes the file.
  unfoldable pub release_file : ℕ → Internal → Filesystem → State → Outcome (Filesystem × State)
  release_file handle d fs s =
      let d' = record d { references = sub32 d.references 1 } in
      let closed : Outcome (Filesystem × State) = do
        t ← destroy fs.options d' s
        done (
          record fs {
            open_paths = erase d.path fs.open_paths;
            open_fds = erase handle fs.open_fds;
          },
          t,
        )
      in if d'.references == 0
        then closed
        else done (record fs { open_fds = assign handle d' fs.open_fds }, s)

  unfoldable pub release : FileInfo → Filesystem → State → Outcome (ℤ × Filesystem × State)
  release info fs s = elim (lookup info.fh fs.open_fds) [
    | none ↦ done (pos 0, fs, s)
    | some d ↦ release_file info.fh d fs s >>= λ (fs', t). done (pos 0, fs', t)
  ]

  -- `rename` in the table, after the system has renamed the file.
  unfoldable pub rename_open : String → String → ℕ → Filesystem → Outcome Filesystem
  rename_open oldpath newpath handle fs = elim (lookup handle fs.open_fds) [
    | none ↦ Outcome.aborts
    | some d ↦ done (record fs {
      open_paths = erase oldpath (insert newpath handle fs.open_paths);
      open_fds = assign handle (record d { path = newpath }) fs.open_fds;
    })
  ]

  unfoldable pub rename_as :
      String → String → Filesystem → Sys ℕ × State → Outcome (ℤ × Filesystem × State)
  rename_as oldpath newpath fs (error e, t) = done (neg e, fs, t)
  rename_as oldpath newpath fs (ok n, t) = elim (lookup oldpath fs.open_paths) [
    | none ↦ done (pos 0, fs, t)
    | some handle ↦ rename_open oldpath newpath handle fs >>= λ fs'. done (pos 0, fs', t)
  ]

  unfoldable pub rename : String → String → Filesystem → State → Outcome (ℤ × Filesystem × State)
  rename oldpath newpath fs s =
      rename_as oldpath newpath fs
        (K.renameat fs.root (relpath oldpath) fs.root (relpath newpath) s)

  -- May a file that is open be read in write-only mode?
  unfoldable pub access_open : ℕ → Filesystem → Option ℤ
  access_open handle fs = elim (lookup handle fs.open_fds) [
    | none ↦ some (neg eio)
    | some d ↦
        if has d.flags o_append
        then some (neg eacces)
        else if bit_and d.flags o_creat == 0
        then some (neg eacces)
        else none
  ]

  -- The answer of `access` before it asks the system.
  unfoldable pub access_denied : String → ℕ → Filesystem → Option ℤ
  access_denied path mode fs =
      if has mode r_ok && not fs.read
      then elim (lookup path fs.open_paths) [
        | none ↦ some (neg eacces)
        | some handle ↦ access_open handle fs
      ]
      else none

  abbrev pub answer : Sys ℕ × State → ℤ × State
  answer (ok n, t) = (pos 0, t)
  answer (error e, t) = (neg e, t)

  unfoldable pub access : String → ℕ → Filesystem → State → ℤ × State
  access path mode fs s = elim (access_denied path mode fs) [
    | some ret ↦ (ret, s)
    | none ↦ answer (K.faccessat fs.root (relpath path) mode 0 s)
  ]

  -- `write` on an open file, for a size that is not 0.
  unfoldable pub write_at :
      Memory → ℕ → ℤ → ℕ → Internal → Filesystem → State → Outcome (ℤ × Filesystem × State)
  write_at buffer size (negsuc n) handle d fs s = done (neg einval, fs, s)
  write_at buffer size (pos offset) handle d fs s = do
    b ← Buffer.write K.mmap d.buffer size offset buffer
    done (
      to_int size,
      record fs { open_fds = assign handle (record d { buffer = b; dirty = true }) fs.open_fds },
      s,
    )

  unfoldable pub write_file :
      Memory → ℕ → ℤ → FileInfo → Filesystem → State → Outcome (ℤ × Filesystem × State)
  write_file buffer size offset info fs s = elim (lookup info.fh fs.open_fds) [
    | none ↦ done (neg ebadf, fs, s)
    | some d ↦ if size == 0 then done (pos 0, fs, s) else write_at buffer size offset info.fh d fs s
  ]
