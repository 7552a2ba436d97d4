-- ===== src/Kernel.antt =====
-- The calls of the operating system that the program makes, as parameters. A call returns a number,
-- or -1 with `errno`.
pub mod Idle
use Prim.Native.Nat.{bit_and}
use Prim.Native.String.{String}
use asymmetricfs.Prelude.{ℕ, Bool, Option, List, some, none, Memory, not, ◌==◌}
use asymmetricfs.Page.Pipe.{Iovec, Pipe}

pub data Sys (A : Type 0) : Type 0 where
  ok : A → Sys A
  error : ℕ → Sys A

-- The fields of `struct stat` that the program reads or changes.
pub record Stat : Type 0 where
  pub st_mode : ℕ
  pub st_size : ℕ

-- The fields of `struct dirent` that are read.
pub record Dirent : Type 0 where
  pub d_name : String
  pub d_ino : ℕ
  pub d_type : ℕ

-- `map_file fd size` maps a file for reading, and gives the memory from the pointer on. The bytes
-- are those of the file up to the size. `read_dir` gives the next entry of a directory, or `none`
-- at its end. `errno` is what the last call that failed has left, and `prctl` sets an option of the
-- process to a value.
-- `select read out write in` waits until `out` can be read, if `read` holds, or `in` written, if
-- `write` does, and says which; `read` gives a count and the bytes.
-- `fork_exec` starts a child with the two descriptors as its input and output, with the rest closed,
-- and the program in it. `waitpid` gives the exit status, or `none` if the child did not exit.
pub record Kernel : Type 1 where
  pub State : Type 0
  pub open_path : String → ℕ → State → Sys ℕ × State
  pub openat : ℕ → String → ℕ → Option ℕ → State → Sys ℕ × State
  pub close : ℕ → State → Sys ℕ × State
  pub fstat : ℕ → State → Sys Stat × State
  pub fstatat : ℕ → String → ℕ → State → Sys Stat × State
  pub fdopendir : ℕ → State → Sys ℕ × State
  pub closedir : ℕ → State → Sys ℕ × State
  pub ftruncate : ℕ → ℕ → State → Sys ℕ × State
  pub renameat : ℕ → String → ℕ → String → State → Sys ℕ × State
  pub faccessat : ℕ → String → ℕ → ℕ → State → Sys ℕ × State
  pub fchmodat : ℕ → String → ℕ → ℕ → State → Sys ℕ × State
  pub fchownat : ℕ → String → ℕ → ℕ → ℕ → State → Sys ℕ × State
  pub mkdirat : ℕ → String → ℕ → State → Sys ℕ × State
  pub unlinkat : ℕ → String → ℕ → State → Sys ℕ × State
  pub symlinkat : String → ℕ → String → State → Sys ℕ × State
  pub make_pipe : State → (ℕ × ℕ) × State
  pub fork_exec : ℕ → ℕ → String → List String → State → Sys ℕ × State
  pub waitpid : ℕ → State → Option ℕ × State
  pub vmsplice : ℕ → List Iovec → ℕ → State → Option ℕ × State
  pub write : ℕ → Memory → ℕ → State → Sys ℕ × State
  pub read : ℕ → ℕ → State → Sys (ℕ × Memory) × State
  pub select : Bool → ℕ → Bool → ℕ → State → Sys (Bool × Bool) × State
  pub mmap : Bool → ℕ → Bool
  pub map_file : ℕ → ℕ → State → Sys Memory × State
  pub munmap : Memory → ℕ → State → State
  pub lseek : ℕ → ℕ → State → State
  pub read_dir : ℕ → State → Sys (Option Dirent) × State
  pub fstatvfs : ℕ → State → Sys Memory × State
  pub utimensat : ℕ → String → (ℕ × ℕ) × (ℕ × ℕ) → ℕ → State → Sys ℕ × State
  pub readlinkat : ℕ → String → ℕ → State → Sys (ℕ × Memory) × State
  pub flistxattr : ℕ → ℕ → State → Sys (ℕ × Memory) × State
  pub fremovexattr : ℕ → String → State → Sys ℕ × State
  pub errno : State → ℕ
  pub prctl : ℕ → ℕ → State → Sys ℕ × State
  pub mlockall : State → Sys ℕ × State
  pub fsetxattr : ℕ → String → Memory → ℕ → ℕ → State → Sys ℕ × State
  pub sent : ℕ → State → ℕ
  pub sent_byte : ℕ → State → Memory

-- The count, or `none` for -1.
abbrev pub counted : {S : Type 0} → Sys ℕ × S → Option ℕ × S
counted (ok n, s) = (some n, s)
counted (error e, s) = (none, s)

-- The pipe behind a descriptor.
abbrev pub pipe : Kernel → ℕ → Pipe
pipe K fd = record {
  State = K.State;
  vmsplice = K.vmsplice fd;
  write = λ from n s. counted (K.write fd from n s);
  count = K.sent fd;
  byte = K.sent_byte fd;
}

-- The constants of Linux on x86-64. `s_ifmt` masks the type in a mode.
abbrev pub eperm : ℕ
eperm = 1

abbrev pub eintr : ℕ
eintr = 4

abbrev pub eio : ℕ
eio = 5

abbrev pub ebadf : ℕ
ebadf = 9

abbrev pub eacces : ℕ
eacces = 13

abbrev pub efault : ℕ
efault = 14

abbrev pub einval : ℕ
einval = 22

abbrev pub o_rdonly : ℕ
o_rdonly = 0

abbrev pub o_wronly : ℕ
o_wronly = 1

abbrev pub o_rdwr : ℕ
o_rdwr = 2

abbrev pub o_accmode : ℕ
o_accmode = 3

abbrev pub o_creat : ℕ
o_creat = 64

abbrev pub o_excl : ℕ
o_excl = 128

abbrev pub o_append : ℕ
o_append = 1024

abbrev pub o_cloexec : ℕ
o_cloexec = 524288

abbrev pub o_directory : ℕ
o_directory = 65536

abbrev pub o_path : ℕ
o_path = 2097152

abbrev pub s_ifmt : ℕ
s_ifmt = 61440

abbrev pub s_ifdir : ℕ
s_ifdir = 16384

abbrev pub pr_set_dumpable : ℕ
pr_set_dumpable = 4

abbrev pub r_ok : ℕ
r_ok = 4

abbrev pub at_removedir : ℕ
at_removedir = 512

abbrev pub at_symlink_nofollow : ℕ
at_symlink_nofollow = 256

-- `flags & flag` as a condition.
abbrev pub has : ℕ → ℕ → Bool
has flags flag = not (bit_and flags flag == 0)
