-- ===== src/Files/Contents.antt =====
-- The operations of the class `asymmetricfs` that need the decrypted contents of a file: `read`,
-- `truncatefd`, `ftruncate`, `truncate`, `statfd`, `fgetattr` and `getattr`.
pub mod Written
pub mod Invariants
pub mod Truncation
pub mod Sizes
pub mod Plain
pub mod Failures
pub mod Errors
mod Tests
use Prim.Native.Nat.{bit_and, bit_or}
use Prim.Native.String.{String}
use asymmetricfs.Prelude.{
  ℕ, zero, suc, Bool, true, false, ◌&&◌, ◌||◌, not, Option, none, some, Outcome, done, assert,
  ◌>>=◌, ◌>>◌, ◌==◌, if◌then◌else◌, Memory, ℤ, pos, negsuc, neg, negate, is_zero, to_int, add64,
  lookup, assign, text_key, number_key,
}
use asymmetricfs.Page.Buffer
use asymmetricfs.Page.Buffer.{PageBuffer}
use asymmetricfs.Kernel.{
  Sys, ok, error, Stat, Kernel, has, eacces, ebadf, efault, einval, o_wronly, o_rdwr, o_creat,
  o_append, o_cloexec, at_symlink_nofollow, s_ifmt, s_ifdir,
}
use asymmetricfs.Files.{Internal, Filesystem, FileInfo, relpath, internal, clear_flag}
use asymmetricfs.Files.Handles.{close, destroy}
use asymmetricfs.Files.Loading.{load_buffer, Load}

-- A change of an open file in the table.
abbrev pub assign_file : ℕ → Internal → Filesystem → Filesystem
assign_file handle d fs = record fs { open_fds = assign handle d fs.open_fds }

-- In write-only mode a file can be read if its buffer is the whole file, or if it was created and
-- is not appended to.
unfoldable pub is_unreadable : Internal → Bool
is_unreadable d = not d.buffer_set && (has d.flags o_append || not (has d.flags o_creat))

-- The size that `statfd` shows.
unfoldable pub shown_size : Stat → Internal → ℕ
shown_size st d =
    if d.buffer_set
    then Buffer.size d.buffer
    else if has d.flags o_append
    then add64 st.st_size (Buffer.size d.buffer)
    else st.st_size

-- `S_ISDIR`
abbrev pub is_dir : ℕ → Bool
is_dir st_mode = bit_and st_mode s_ifmt == s_ifdir

-- In write-only mode a file that is not open is shown as one that nobody may read
-- (`S_IRUSR | S_IRGRP | S_IROTH` is 292).
unfoldable pub shown_mode : Bool → Stat → Stat
shown_mode read st =
    if not read && not (is_dir st.st_mode)
    then record st { st_mode = clear_flag st.st_mode 292 }
    else st

module _ (K : Kernel) where
  open K use {State}

  abbrev pub ReadReply : Type 0
  ReadReply = Outcome (ℤ × Memory × Filesystem × State)

  unfoldable pub read_buffer : Memory → ℕ → ℕ → Internal → Filesystem → State → ReadReply
  read_buffer buffer size offset d fs s =
      Buffer.read d.buffer size offset buffer >>= λ (n, m). done (to_int n, m, fs, s)

  -- `read` after `load_buffer`.
  unfoldable pub read_loaded : Memory → ℕ → ℕ → ℕ → Filesystem → ℤ × Internal × State → ReadReply
  read_loaded buffer size offset handle fs (ret, d, s) =
      let fs' = assign_file handle d fs in
      if not (is_zero ret)
      then done (negate ret, buffer, fs', s)
      else assert d.buffer_set >> read_buffer buffer size offset d fs' s

  unfoldable pub read_at : ℕ → Memory → ℕ → ℤ → ℕ → Internal → Filesystem → State → ReadReply
  read_at fuel buffer size (negsuc n) handle d fs s = done (pos 0, buffer, fs, s)
  read_at fuel buffer size (pos offset) handle d fs s =
      if not fs.read
      then if is_unreadable d
        then done (neg eacces, buffer, fs, s)
        else read_buffer buffer size offset d fs s
      else load_buffer K fuel fs.options d s >>= read_loaded buffer size offset handle fs

  -- `read`: the result, and the memory of the caller.
  unfoldable pub read_file : ℕ → Memory → ℕ → ℤ → FileInfo → Filesystem → State → ReadReply
  read_file fuel buffer size offset info fs s = elim (lookup info.fh fs.open_fds) [
    | none ↦ done (neg ebadf, buffer, fs, s)
    | some d ↦ read_at fuel buffer size offset info.fh d fs s
  ]

  abbrev pub TruncateReply : Type 0
  TruncateReply = Outcome (ℤ × Filesystem × State)

  unfoldable pub resize_file : ℕ → ℕ → Internal → Filesystem → State → TruncateReply
  resize_file handle n d fs s = Buffer.resize d.buffer n >>= λ b.
      done (pos 0, assign_file handle (record d { buffer = b; dirty = true }) fs, s)

  unfoldable pub truncate_loaded : ℕ → ℕ → Filesystem → ℤ × Internal × State → TruncateReply
  truncate_loaded handle n fs (ret, d, s) =
      if not (is_zero ret)
      then done (negate ret, assign_file handle d fs, s)
      else resize_file handle n d fs s

  unfoldable pub emptied : ℕ → Internal → Filesystem → Sys ℕ × State → TruncateReply
  emptied handle d fs (error e, s) = done (neg e, fs, s)
  emptied handle d fs (ok n, s) = resize_file handle 0 d fs s

  unfoldable pub truncate_open : ℕ → ℕ → ℤ → Internal → Filesystem → State → TruncateReply
  truncate_open fuel handle (negsuc n) d fs s = done (neg einval, fs, s)
  truncate_open fuel handle (pos zero) d fs s = emptied handle d fs (K.ftruncate d.fd 0 s)
  truncate_open fuel handle (pos (suc n)) d fs s =
      if fs.read
      then load_buffer K fuel fs.options d s >>= truncate_loaded handle (suc n) fs
      else done (neg eacces, fs, s)

  unfoldable pub truncatefd : ℕ → ℕ → ℤ → Filesystem → State → TruncateReply
  truncatefd fuel handle offset fs s = elim (lookup handle fs.open_fds) [
    | none ↦ done (neg ebadf, fs, s)
    | some d ↦ truncate_open fuel handle offset d fs s
  ]

  unfoldable pub ftruncate : ℕ → ℤ → FileInfo → Filesystem → State → TruncateReply
  ftruncate fuel offset info fs s = truncatefd fuel info.fh offset fs s

  -- The pointer to the attributes may be null, and otherwise they are changed.
  abbrev pub StatReply : Type 0
  StatReply = Outcome (ℤ × Option Stat × Filesystem × State)

  unfoldable pub stat_sized : Stat → Internal → Filesystem → State → StatReply
  stat_sized st d fs s =
      assert (not fs.read || d.buffer_set)
      >> done (pos 0, some (record st { st_size = shown_size st d }), fs, s)

  unfoldable pub stat_loaded : Stat → Stat → ℕ → Filesystem → ℤ × Internal × State → StatReply
  stat_loaded buf st handle fs (ret, d, s) =
      let fs' = assign_file handle d fs in
      if not (is_zero ret) then done (negate ret, some buf, fs', s) else stat_sized st d fs' s

  unfoldable pub stat_open : ℕ → Stat → ℕ → Internal → Filesystem → Sys Stat × State → StatReply
  stat_open fuel buf handle d fs (error e, s) = done (neg e, some buf, fs, s)
  stat_open fuel buf handle d fs (ok st, s) =
      if fs.read
      then load_buffer K fuel fs.options d s >>= stat_loaded buf st handle fs
      else stat_sized st d fs s

  unfoldable pub statfd : ℕ → ℕ → Option Stat → Filesystem → State → StatReply
  statfd fuel handle none fs s = done (neg efault, none, fs, s)
  statfd fuel handle (some buf) fs s = elim (lookup handle fs.open_fds) [
    | none ↦ done (neg ebadf, some buf, fs, s)
    | some d ↦ stat_open fuel buf handle d fs (K.fstat d.fd s)
  ]

  unfoldable pub fgetattr : ℕ → Option Stat → FileInfo → Filesystem → State → StatReply
  fgetattr fuel buf info fs s = statfd fuel info.fh buf fs s

  unfoldable pub stat_closed : Stat → Filesystem → Sys Stat × State → StatReply
  stat_closed buf fs (error e, s) = done (neg e, some buf, fs, s)
  stat_closed buf fs (ok st, s) = done (pos 0, some (shown_mode fs.read st), fs, s)

  unfoldable pub stat_path : String → Option Stat → Filesystem → State → StatReply
  stat_path path none fs s = done (neg efault, none, fs, s)
  stat_path path (some buf) fs s =
      stat_closed buf fs (K.fstatat fs.root (relpath path) at_symlink_nofollow s)

  unfoldable pub getattr : ℕ → String → Option Stat → Filesystem → State → StatReply
  getattr fuel path buf fs s = elim (lookup path fs.open_paths) [
    | some handle ↦ statfd fuel handle buf fs s
    | none ↦ stat_path path buf fs s
  ]

  -- `errno` after a call that has failed and a `::close`.
  abbrev pub errno_after : ℕ → Sys ℕ → ℕ
  errno_after e (ok n) = e
  errno_after e (error f) = f

  -- The reply to a call on a descriptor that is closed before `errno` is read.
  abbrev pub reply_closing : ℕ → Sys ℕ × State → ℤ × State
  reply_closing fd (ok n, s) = (pos 0, (K.close fd s).1)
  reply_closing fd (error e, s) =
      let closed = K.close fd s in (neg (errno_after e closed.0), closed.1)

  -- `truncate` of a closed file to no bytes.
  unfoldable pub truncate_to_zero : Filesystem → Sys ℕ × State → TruncateReply
  truncate_to_zero fs (error e, s) = done (neg e, fs, s)
  truncate_to_zero fs (ok fd, s) =
      let (ret, t) = reply_closing fd (K.ftruncate fd 0 s) in done (ret, fs, t)

  -- The file that `truncate` opens for itself. No table has it, and it has no references.
  abbrev pub transient : Filesystem → ℕ → String → Internal
  transient fs fd path = record (internal fs fd o_rdwr path false) { references = 0 }

  unfoldable pub closed_again : Filesystem → ℤ × Internal × State → TruncateReply
  closed_again fs (ret, d, s) = do
    t ← destroy K fs.options d s
    done (if is_zero ret then pos 0 else negate ret, fs, t)

  -- `truncate` of a closed file after it has been loaded: it is cut, and encrypted from its begin.
  unfoldable pub rewrite : ℕ → Filesystem → ℤ × Internal × State → TruncateReply
  rewrite n fs (ret, d, s) =
      let failed : TruncateReply = do t ← destroy K fs.options d s; done (negate ret, fs, t)
      in let cut : TruncateReply = do
        assert d.buffer_set
        b ← Buffer.resize d.buffer n
        r ← close K fs.options (record d { buffer = b; dirty = true }) (K.lseek d.fd 0 s)
        closed_again fs r
        in if not (is_zero ret) then failed else cut

  unfoldable pub truncate_closed : ℕ → String → ℕ → Filesystem → Sys ℕ × State → TruncateReply
  truncate_closed fuel path n fs (error e, s) = done (neg e, fs, s)
  truncate_closed fuel path n fs (ok fd, s) =
      load_buffer K fuel fs.options (transient fs fd path) s >>= rewrite n fs

  unfoldable pub truncate_path : ℕ → String → ℕ → Filesystem → State → TruncateReply
  truncate_path fuel path zero fs s =
      truncate_to_zero fs (K.openat fs.root (relpath path) (bit_or o_cloexec o_wronly) none s)
  truncate_path fuel path (suc n) fs s =
      if fs.read
      then truncate_closed fuel path (suc n) fs
          (K.openat fs.root (relpath path) (bit_or o_cloexec o_rdwr) none s)
      else done (neg eacces, fs, s)

  unfoldable pub truncate : ℕ → String → ℤ → Filesystem → State → TruncateReply
  truncate fuel path (negsuc n) fs s = done (neg einval, fs, s)
  truncate fuel path (pos offset) fs s = elim (lookup path fs.open_paths) [
    | some handle ↦ truncatefd fuel handle (pos offset) fs s
    | none ↦ truncate_path fuel path offset fs s
  ]
