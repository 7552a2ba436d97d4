-- ===== src/Files/Calls.antt =====
-- The operations that main.cpp registers with FUSE: each helper passes its arguments on to the
-- class.
pub mod Invariants
use Prim.Native.String.{String}
use asymmetricfs.Prelude.{ℕ, Bool, Option, Outcome, done, ◌>>=◌, Memory, ℤ}
use asymmetricfs.Kernel.{Kernel, Stat}
use asymmetricfs.Files.{Filesystem, FileInfo}
use asymmetricfs.Files.Handles.{create, open_file, release, rename, access, write_file}
use asymmetricfs.Files.Settings.{chmod, chown, link, mkdir, rmdir, symlink, unlink}
use asymmetricfs.Files.Directories.{opendir, releasedir}
use asymmetricfs.Files.Directories.Listing.{Entry, readdir}
use asymmetricfs.Files.Contents.{read_file, ftruncate, truncate, getattr}
use asymmetricfs.Files.Attributes.{statfs, utimens, readlink, listxattr, removexattr, setxattr}

-- A call of FUSE, with its arguments. The memory, the attributes and the handle are as they are
-- before the call.
pub data Call : Type 0 where
  helper_access : String → ℕ → Call
  helper_chmod : String → ℕ → Call
  helper_chown : String → ℕ → ℕ → Call
  helper_create : String → ℕ → FileInfo → Call
  helper_ftruncate : String → ℤ → FileInfo → Call
  helper_getattr : String → Option Stat → Call
  helper_link : String → String → Call
  helper_mkdir : String → ℕ → Call
  helper_open : String → FileInfo → Call
  helper_opendir : String → FileInfo → Call
  helper_read : String → Memory → ℕ → ℤ → FileInfo → Call
  helper_readdir : String → ℤ → FileInfo → Call
  helper_readlink : String → Memory → ℕ → Call
  helper_release : String → FileInfo → Call
  helper_releasedir : String → FileInfo → Call
  helper_rename : String → String → Call
  helper_rmdir : String → Call
  helper_statfs : String → Memory → Call
  helper_symlink : String → String → Call
  helper_truncate : String → ℤ → Call
  helper_unlink : String → Call
  helper_utimens : String → (ℕ × ℕ) × (ℕ × ℕ) → Call
  helper_write : String → Memory → ℕ → ℤ → FileInfo → Call
  helper_listxattr : String → Memory → ℕ → Call
  helper_removexattr : String → String → Call
  helper_setxattr : String → String → Memory → ℕ → ℕ → Call

-- What a call gives back beside its result.
pub data Output (B : Type 0) : Type 0 where
  nothing : Output B
  info : FileInfo → Output B
  attributes : Option Stat → Output B
  bytes : Memory → Output B
  entries : B → Output B

module _ (K : Kernel) (B : Type 0) (filler : B → Entry → B × Bool) where
  open K use {State}

  abbrev pub Answer : Type 0
  Answer = Outcome (ℤ × Output B × Filesystem × State)

  -- The answer of an operation that leaves the file system as it is.
  abbrev pub passed : Filesystem → ℤ × State → Answer
  passed fs (ret, t) = done (ret, nothing, fs, t)

  abbrev pub with_bytes : Filesystem → ℤ × Memory × State → Answer
  with_bytes fs (ret, m, t) = done (ret, bytes m, fs, t)

  abbrev pub changed : Outcome (ℤ × Filesystem × State) → Answer
  changed o = o >>= λ (ret, fs', t). done (ret, nothing, fs', t)

  abbrev pub with_info : Outcome (ℤ × FileInfo × Filesystem × State) → Answer
  with_info o = o >>= λ (ret, i, fs', t). done (ret, info i, fs', t)

  -- The helpers of main.cpp. The fuel is for the output of gpg and the entries of a directory, and
  -- `b` is the buffer for the entries.
  unfoldable pub serve : ℕ → B → Call → Filesystem → State → Answer
  serve fuel b (helper_access path mode) fs s = passed fs (access K path mode fs s)
  serve fuel b (helper_chmod path mode) fs s = passed fs (chmod K path mode fs s)
  serve fuel b (helper_chown path u g) fs s = passed fs (chown K path u g fs s)
  serve fuel b (helper_create path mode i) fs s = with_info (create K path mode i fs s)
  serve fuel b (helper_ftruncate path offset i) fs s = changed (ftruncate K fuel offset i fs s)
  serve fuel b (helper_getattr path st) fs s =
      getattr K fuel path st fs s >>= λ (ret, st', fs', t). done (ret, attributes st', fs', t)
  serve fuel b (helper_link oldpath newpath) fs s = passed fs (link K oldpath newpath s)
  serve fuel b (helper_mkdir path mode) fs s = passed fs (mkdir K path mode fs s)
  serve fuel b (helper_open path i) fs s = with_info (open_file K path i fs s)
  serve fuel b (helper_opendir path i) fs s = with_info (done (opendir K path i fs s))
  serve fuel b (helper_read path buffer size offset i) fs s =
      read_file K fuel buffer size offset i fs s >>= λ (ret, m, fs', t). done (ret, bytes m, fs', t)
  serve fuel b (helper_readdir path offset i) fs s =
      readdir K B filler fuel b i fs s >>= λ (ret, b', t). done (ret, entries b', fs, t)
  serve fuel b (helper_readlink path buffer size) fs s =
      with_bytes fs (readlink K path buffer size fs s)
  serve fuel b (helper_release path i) fs s = changed (release K i fs s)
  serve fuel b (helper_releasedir path i) fs s = changed (done (releasedir K i fs s))
  serve fuel b (helper_rename oldpath newpath) fs s = changed (rename K oldpath newpath fs s)
  serve fuel b (helper_rmdir path) fs s = passed fs (rmdir K path fs s)
  serve fuel b (helper_statfs path buf) fs s = with_bytes fs (statfs K buf fs s)
  serve fuel b (helper_symlink oldpath newpath) fs s = passed fs (symlink K oldpath newpath fs s)
  serve fuel b (helper_truncate path offset) fs s = changed (truncate K fuel path offset fs s)
  serve fuel b (helper_unlink path) fs s = passed fs (unlink K path fs s)
  serve fuel b (helper_utimens path tv) fs s = passed fs (utimens K path tv fs s)
  serve fuel b (helper_write path buffer size offset i) fs s =
      changed (write_file K buffer size offset i fs s)
  serve fuel b (helper_listxattr path buffer size) fs s =
      with_bytes fs (listxattr K path buffer size fs s)
  serve fuel b (helper_removexattr path name) fs s = passed fs (removexattr K path name fs s)
  serve fuel b (helper_setxattr path name value size flags) fs s =
      passed fs (setxattr K path name value size flags fs s)
