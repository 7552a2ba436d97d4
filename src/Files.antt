-- ===== src/Files.antt =====
-- The class `asymmetricfs` (implementation.h and implementation.cpp): its state, and the operations
-- on the table of open files.
pub mod Handles
pub mod Table
pub mod Consistency
pub mod Invariant
pub mod Steps
pub mod Every
pub mod Live
pub mod References
pub mod Renaming
pub mod Settings
pub mod Directories
pub mod Loading
pub mod Contents
pub mod Attributes
pub mod Calls
pub mod Destruction
pub mod Closing
mod Tests
use Prim.Native.Nat.{bit_and, bit_or}
use Prim.Native.String.{String, ◌++◌}
use asymmetricfs.Prelude.{
  ℕ, zero, suc, ◌+◌, ◌-◌, ◌^◌, Bool, true, false, ◌&&◌, ◌||◌, not, List, [], ◌∷◌, Option, none,
  some, Outcome, done, throws, runtime_error, assert, ◌>>=◌, ◌>>◌, ◌==◌, if◌then◌else◌, add64,
  Memory, ℤ, pos, negsuc, neg, is_negative, sub32, add32, lookup, insert, assign, erase, text_key,
  number_key,
}
use asymmetricfs.MemoryLock
use asymmetricfs.MemoryLock.{MemoryLock}
use asymmetricfs.Page.Buffer.{PageBuffer, page_buffer}
use asymmetricfs.Kernel.{has, o_wronly, o_rdwr, o_rdonly}

pub record Options : Type 0 where
  pub recipients : List String
  pub gpg_path : String
  pub mlock : MemoryLock

-- `asymmetricfs::internal`, an open file.
pub record Internal : Type 0 where
  pub fd : ℕ
  pub flags : ℕ
  pub references : ℕ
  pub path : String
  pub buffer_set : Bool
  pub dirty : Bool
  pub buffer : PageBuffer
  pub is_open : Bool

-- The fields of the class, and the page size that the buffers ask the system for.
pub record Filesystem : Type 0 where
  pub read : Bool
  pub root_set : Bool
  pub root : ℕ
  pub options : Options
  pub next : ℕ
  pub open_paths : List (String × ℕ)
  pub open_fds : List (ℕ × Internal)
  pub open_dirs : List (ℕ × String)
  pub page_size : ℕ

-- The fields of `struct fuse_file_info` that are used.
pub record FileInfo : Type 0 where
  pub flags : ℕ
  pub fh : ℕ

abbrev pub relpath : String → String
relpath path = "." ++ path

-- `flags & ~flag` on an `int`.
abbrev pub clear_flag : ℕ → ℕ → ℕ
clear_flag flags flag = bit_and flags (2 ^ 32 - 1 - flag)

unfoldable pub make_rdwr : Bool → ℕ → ℕ
make_rdwr read flags =
    if not read
    then flags
    else if has flags o_rdonly
    then flags
    else bit_or (clear_flag (clear_flag flags o_rdonly) o_wronly) o_rdwr

-- `next_fd`: the handle, and the counter after it.
unfoldable pub next_fd : Filesystem → ℕ × Filesystem
next_fd fs = (fs.next, record fs { next = add64 fs.next 1 })

-- The constructor of `internal`.
unfoldable pub internal : Filesystem → ℕ → ℕ → String → Bool → Internal
internal fs fd flags path buffer_set = record {
  fd = fd;
  flags = flags;
  references = 1;
  path = path;
  buffer_set = buffer_set;
  dirty = false;
  buffer = page_buffer fs.page_size fs.options.mlock;
  is_open = true;
}

-- The constructor. The root is not set, so its descriptor is not looked at.
unfoldable pub filesystem : Options → ℕ → Filesystem
filesystem options page_size = record {
  read = false;
  root_set = false;
  root = 0;
  options = options;
  next = 0;
  open_paths = [];
  open_fds = [];
  open_dirs = [];
  page_size = page_size;
}
