-- ===== src/Files/Closing/Tests.antt =====
-- The close of a file of three bytes, on a system that keeps what goes into the pipe.
use asymmetricfs.Prelude.{
  ℕ, ◌+◌, ◌-◌, ◌≡◌, refl, [], ◌∷◌, some, Memory, zeroes, ltb, if◌then◌else◌, true, arith, sub64,
  not64,
}
use asymmetricfs.MemoryLock
use asymmetricfs.Kernel.{Kernel, ok, pipe}
use asymmetricfs.Kernel.Idle.{idle}
use asymmetricfs.Page.Blocks.Content.{content}
use asymmetricfs.Page.Buffer.{PageBuffer, round_down_to_page, is_page_multiple}
use asymmetricfs.Page.Buffer.Invariant.{IsWellFormed}
use asymmetricfs.Page.Pipe.{IsOpen, Appended, total, iov_byte}
use asymmetricfs.Files.{Options, Internal}
use asymmetricfs.Files.Handles.{close}
use asymmetricfs.Files.Closing.{Starts, closes, close-content}

-- How many bytes have gone into the pipe, and which.
abbrev Sent : Type 0
Sent = ℕ × Memory

abbrev put : Memory → ℕ → Sent → Sent
put from n s = (s.0 + n, λ i. if ltb i s.0 then s.1 i else from (i - s.0))

abbrev keeps : Kernel
keeps = record (idle Sent) {
  vmsplice = λ fd ios flags s. (some (total ios), put (iov_byte ios) (total ios) s);
  write = λ fd from n s. (ok n, put from n s);
  sent = λ fd s. s.0;
  sent_byte = λ fd s. s.1;
}

keeps-IsOpen : IsOpen (pipe keeps 5)
keeps-IsOpen = record {
  splices = λ ios flags s h.
      (total ios, put (iov_byte ios) (total ios) s, refl, h, omega arith, (refl, λ i hi. refl));
  writes = λ from n s. (put from n s, refl, (refl, λ i hi. refl));
}

abbrev three_bytes : PageBuffer
three_bytes = record {
  page_allocations = (0, record { ptr = λ i. i + 65; size = 4 }) ∷ [];
  page_size = 4;
  buffer_size = 3;
  mlock = MemoryLock.none;
}

three_bytes-IsWellFormed : IsWellFormed three_bytes
unfolding is_page_multiple round_down_to_page sub64 not64
three_bytes-IsWellFormed = record {
  page = (2, omega arith, refl);
  apart = omega arith;
  aligned = (refl, refl, tt);
  sized = omega arith;
}

abbrev options : Options
options = record { recipients = "alice" ∷ []; gpg_path = "gpg"; mlock = MemoryLock.none }

abbrev file : Internal
file = record {
  fd = 3;
  flags = 2;
  references = 0;
  path = "/a";
  buffer_set = true;
  dirty = true;
  buffer = three_bytes;
  is_open = true;
}

file-Starts : Starts keeps options file (0, zeroes) 100 5 (0, zeroes)
file-Starts = record {
  input = 4;
  unused = (4, 5);
  first = (0, zeroes);
  second = (0, zeroes);
  forked = (0, zeroes);
  pipe_made = refl;
  unused_made = refl;
  child = refl;
  ends = refl;
}

close-content_example :
    (u : Sent) × Appended (pipe keeps 5) (0, zeroes) u 3 (content three_bytes.page_allocations)
    × (close keeps options file (0, zeroes) ≡ closes keeps file 100 5 u)
close-content_example =
    close-content keeps options file (0, zeroes) 100 5 (0, zeroes) refl refl file-Starts
      keeps-IsOpen (λ n. refl) three_bytes-IsWellFormed (omega arith)
