-- ===== src/Kernel/Idle.antt =====
-- A system for the tests, in which every call works, with constant results, and nothing changes.
use asymmetricfs.Prelude.{true, none, some, zeroes}
use asymmetricfs.Kernel.{Kernel, ok}

-- The type of the state is any type.
abbrev pub idle : Type 0 → Kernel
idle S = record {
  State = S;
  open_path = λ path flags s. (ok 3, s);
  openat = λ dir path flags mode s. (ok 3, s);
  close = λ fd s. (ok 0, s);
  fstat = λ fd s. (ok (record { st_mode = 0; st_size = 0 }), s);
  fstatat = λ dir path flags s. (ok (record { st_mode = 0; st_size = 0 }), s);
  fdopendir = λ fd s. (ok 9, s);
  closedir = λ dir s. (ok 0, s);
  ftruncate = λ fd n s. (ok 0, s);
  renameat = λ dir path dir' path' s. (ok 0, s);
  faccessat = λ dir path mode flags s. (ok 0, s);
  fchmodat = λ dir path mode flags s. (ok 0, s);
  fchownat = λ dir path u g flags s. (ok 0, s);
  mkdirat = λ dir path mode s. (ok 0, s);
  unlinkat = λ dir path flags s. (ok 0, s);
  symlinkat = λ path dir path' s. (ok 0, s);
  make_pipe = λ s. ((4, 5), s);
  fork_exec = λ input output file argv s. (ok 100, s);
  waitpid = λ pid s. (some 0, s);
  vmsplice = λ fd ios flags s. (none, s);
  write = λ fd from n s. (ok n, s);
  read = λ fd n s. (ok (0, zeroes), s);
  select = λ read out write input s. (ok (read, write), s);
  mmap = λ locked size. true;
  map_file = λ fd size s. (ok zeroes, s);
  munmap = λ m size s. s;
  lseek = λ fd offset s. s;
  read_dir = λ dir s. (ok none, s);
  fstatvfs = λ fd s. (ok zeroes, s);
  utimensat = λ dir path tv flags s. (ok 0, s);
  readlinkat = λ dir path n s. (ok (0, zeroes), s);
  flistxattr = λ fd n s. (ok (0, zeroes), s);
  fremovexattr = λ fd name s. (ok 0, s);
  errno = λ s. 0;
  prctl = λ option value s. (ok 0, s);
  mlockall = λ s. (ok 0, s);
  fsetxattr = λ fd name value n flags s. (ok 0, s);
  sent = λ fd s. 0;
  sent_byte = λ fd s. zeroes;
}
