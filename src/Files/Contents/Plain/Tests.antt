-- ===== src/Files/Contents/Plain/Tests.antt =====
-- A file of three bytes is closed, and read again from a file that is one block of gpg, on a system
-- that works and on one that does not.
use asymmetricfs.Prelude.{
  ℕ, ◌+◌, ◌-◌, ◌≡◌, refl, [], ◌∷◌, some, none, get_elem?, min, Memory, zeroes, ltb, if◌then◌else◌,
  true, false, arith, sub64, not64, done, pos, to_int, lookup, number_key,
}
use asymmetricfs.MemoryLock
use asymmetricfs.Kernel.{Kernel, ok, error, pipe}
use asymmetricfs.Kernel.Idle.{idle}
use asymmetricfs.Page.Blocks.Content.{content}
use asymmetricfs.Page.ByteFile.{file_read}
use asymmetricfs.Page.Buffer
use asymmetricfs.Page.Buffer.{PageBuffer, round_down_to_page, is_page_multiple}
use asymmetricfs.Page.Buffer.Invariant.{IsWellFormed}
use asymmetricfs.Page.Buffer.Refinement.{view}
use asymmetricfs.Page.Pipe.{IsOpen, Appended, total, iov_byte}
use asymmetricfs.Subprocess.Output.{IsSource}
use asymmetricfs.Files.{Options, Internal, Filesystem, FileInfo}
use asymmetricfs.Files.Handles.{close}
use asymmetricfs.Files.Closing.{Starts, closes}
use asymmetricfs.Files.Loading.{terminator}
use asymmetricfs.Files.Contents.{assign_file, read_file}
use asymmetricfs.Files.Contents.Failures.{read_file-communicate_failed}
use asymmetricfs.Files.Contents.Plain.{IsEncrypted, IsPaged, close-read_file}

-- How many bytes have gone into the pipe of a gpg, which, and how many were asked for from the
-- other one.
abbrev Traffic : Type 0
Traffic = ℕ × Memory × ℕ

abbrev put : Memory → ℕ → Traffic → Traffic
put from n s = (s.0 + n, λ i. if ltb i s.0 then s.1 i else from (i - s.0), s.2)

abbrev three_bytes : PageBuffer
three_bytes = record {
  page_allocations = (0, record { ptr = λ i. i + 65; size = 4 }) ∷ [];
  page_size = 4;
  buffer_size = 3;
  mlock = MemoryLock.none;
}

-- A block of gpg.
abbrev armored : Memory
armored i = elim (get_elem? terminator i) [ none ↦ 0 | some b ↦ b ]

abbrev system : Kernel
system = record (idle Traffic) {
  vmsplice = λ fd ios flags s. (some (total ios), put (iov_byte ios) (total ios) s);
  write = λ fd from n s. (ok n, put from n s);
  sent = λ fd s. s.0;
  sent_byte = λ fd s. s.1;
  fstat = λ fd s. (ok (record { st_mode = 33188; st_size = 26 }), s);
  map_file = λ fd n s. (ok armored, s);
  read = λ fd n s. (
    ok (min n (3 - s.2), λ i. content three_bytes.page_allocations (s.2 + i)),
    (s.0, s.1, s.2 + min n (3 - s.2)),
  );
}

abbrev idle_state : Traffic
idle_state = (0, zeroes, 0)

system-IsOpen : IsOpen (pipe system 5)
system-IsOpen = record {
  splices = λ ios flags s h.
      (total ios, put (iov_byte ios) (total ios) s, refl, h, omega arith, (refl, λ i hi. refl));
  writes = λ from n s. (put from n s, refl, (refl, λ i hi. refl));
}

three_bytes-IsWellFormed : IsWellFormed three_bytes
unfolding is_page_multiple round_down_to_page sub64 not64
three_bytes-IsWellFormed = record {
  page = (2, omega arith, refl);
  apart = omega arith;
  aligned = (refl, refl, tt);
  sized = omega arith;
}

abbrev options : Options
options = record { recipients = "alice" ∷ []; gpg_path = "gpg"; mlock = MemoryLock.none }

abbrev changed : Internal
changed = record {
  fd = 3;
  flags = 2;
  references = 0;
  path = "/a";
  buffer_set = true;
  dirty = true;
  buffer = three_bytes;
  is_open = true;
}

-- The same path, opened again.
abbrev opened : Internal
opened = record {
  fd = 3;
  flags = 2;
  references = 1;
  path = "/a";
  buffer_set = false;
  dirty = false;
  buffer = record {
    page_allocations = [];
    page_size = 4096;
    buffer_size = 0;
    mlock = MemoryLock.none;
  };
  is_open = true;
}

abbrev one_open : Filesystem
one_open = record {
  read = true;
  root_set = true;
  root = 7;
  options = options;
  next = 1;
  open_paths = ("/a", 0) ∷ [];
  open_fds = (0, opened) ∷ [];
  open_dirs = [];
  page_size = 4096;
}

encrypts : Starts system options changed idle_state 100 5 idle_state
encrypts = record {
  input = 4;
  unused = (4, 5);
  first = idle_state;
  second = idle_state;
  forked = idle_state;
  pipe_made = refl;
  unused_made = refl;
  child = refl;
  ends = refl;
}

source : IsSource system 4 3 (content three_bytes.page_allocations)
source = record {
  taken = λ s. min s.2 3;
  within = λ s. omega arith;
  selects = λ input s. (false, s, refl, refl);
  reads = λ n s h. (
    min n (3 - s.2),
    λ i. content three_bytes.page_allocations (s.2 + i),
    (s.0, s.1, s.2 + min n (3 - s.2)),
    refl,
    omega arith,
    omega arith,
    λ left. omega arith,
    λ i below. ground arith,
  );
}

opened-IsEncrypted :
    IsEncrypted system options opened 3 (content three_bytes.page_allocations) idle_state
unfolding source
opened-IsEncrypted = record {
  size = 26;
  mapping = armored;
  mapped = idle_state;
  pid = 100;
  from = 4;
  started = idle_state;
  source = source;
  maps = record {
    unset = refl;
    opened = refl;
    stat = (record { st_mode = 33188; st_size = 26 }, idle_state, refl, refl, refl);
  };
  small = omega arith;
  block = (omega arith, refl, λ j low high. absurd (omega arith));
  starts = record {
    output = 5;
    unused = (4, 5);
    first = idle_state;
    second = idle_state;
    forked = idle_state;
    unused_made = refl;
    pipe_made = refl;
    child = refl;
    ends = refl;
  };
  none_taken = refl;
  exits = λ u. refl;
}

opened-IsPaged : IsPaged system opened.buffer
unfolding is_page_multiple round_down_to_page sub64 not64
opened-IsPaged = record { page = (12, omega arith, refl); pages = refl; granted = λ n. refl }

abbrev handle : FileInfo
handle = record { flags = 2; fh = 0 }

close-read_file_example :
    let (count, memory) = file_read (view three_bytes) 2 1 zeroes in
    (u : Traffic) × (v : Traffic) × (b : PageBuffer) × (close system options changed idle_state
      ≡ closes system changed 100 5 u)
    × Appended (pipe system 5) idle_state u 3 (content three_bytes.page_allocations)
    × (read_file system 4 zeroes 2 (pos 1) handle one_open idle_state
        ≡ done (
          to_int count,
          memory,
          assign_file 0 (record opened { dirty = false; buffer_set = true; buffer = b }) one_open,
          v,
        ))
unfolding lookup
close-read_file_example =
    close-read_file system 4 changed 100 5 idle_state idle_state zeroes 2 1 handle one_open opened
      idle_state refl refl encrypts system-IsOpen (λ n. refl) three_bytes-IsWellFormed (omega arith)
      refl refl opened-IsEncrypted opened-IsPaged (omega arith) (omega arith) (omega arith)

-- The same system, in which `select` fails.
abbrev broken : Kernel
broken = record system { select = λ read out write input s. (error 9, s) }

read_file-communicate_failed_example :
    (v : Traffic) × (read_file broken 4 zeroes 2 (pos 1) handle one_open idle_state
      ≡ done (
        pos 9,
        zeroes,
        assign_file 0
            (record opened {
              dirty = false;
              buffer_set = true;
              buffer = Buffer.clear opened.buffer;
            })
            one_open,
        v,
      ))
unfolding lookup
read_file-communicate_failed_example =
    read_file-communicate_failed broken 3 zeroes 2 1 handle one_open opened 26 armored 100 4 8
      idle_state idle_state idle_state idle_state refl refl
      (record {
        unset = refl;
        opened = refl;
        stat = (record { st_mode = 33188; st_size = 26 }, idle_state, refl, refl, refl);
      })
      (omega arith) (omega arith, refl, λ j low high. absurd (omega arith))
      (record {
        output = 5;
        unused = (4, 5);
        first = idle_state;
        second = idle_state;
        forked = idle_state;
        unused_made = refl;
        pipe_made = refl;
        child = refl;
        ends = refl;
      })
      refl refl (λ v. refl)
