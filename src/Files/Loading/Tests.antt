-- ===== src/Files/Loading/Tests.antt =====
-- The theorems on the blocks of a file, on two blocks of 26 bytes with three bytes behind them.
use asymmetricfs.Prelude.{
  ℕ, ◌+◌, ◌-◌, min, sub64, not64, ◌%◌, ◌≤◌, ◌≡◌, refl, [], ◌∷◌, none, some, get_elem?, Memory, done,
  aborts, ◌>>=◌, pos, false, true, arith,
}
use asymmetricfs.MemoryLock
use asymmetricfs.Subprocess.Output.{IsSource}
use asymmetricfs.Page.Buffer.{PageBuffer, is_page_multiple, round_down_to_page}
use asymmetricfs.Page.Buffer
use asymmetricfs.Kernel.{Kernel, ok}
use asymmetricfs.Kernel.Idle.{idle}
use asymmetricfs.Files.{Options, Internal}
use asymmetricfs.Files.Loading.{terminator, chunk_size, block_end, load_buffer, unmap}
use asymmetricfs.Files.Loading.Terminator.{EndsBlock, block_end_lem}
use asymmetricfs.Files.Loading.Blocks.{
  IsBlock, AreBlocks, IsMapped, cleared, load_each, load_buffer-load_each, load_buffer_short,
}
use asymmetricfs.Files.Loading.Output.{Holds}
use asymmetricfs.Files.Loading.Whole.{Decrypts, load_buffer-Holds}

-- The terminator, again and again.
abbrev repeated : Memory
repeated i = elim (get_elem? terminator (i % 26)) [ none ↦ 0 | some b ↦ b ]

-- Every file has that many bytes.
abbrev system : ℕ → Kernel
system size = record (idle ℕ) {
  fstat = λ fd s. (ok (record { st_mode = 33188; st_size = size }), s);
  map_file = λ fd n s. (ok repeated, s);
}

abbrev options : Options
options = record { recipients = "alice" ∷ []; gpg_path = "gpg"; mlock = MemoryLock.none }

abbrev file : Internal
file = record {
  fd = 3;
  flags = 2;
  references = 1;
  path = "/a";
  buffer_set = false;
  dirty = false;
  buffer = record {
    page_allocations = [];
    page_size = 4096;
    buffer_size = 0;
    mlock = MemoryLock.none;
  };
  is_open = true;
}

mapped : (size : ℕ) → IsMapped (system size) file size repeated 8 8
mapped size = record {
  unset = refl;
  opened = refl;
  stat = (record { st_mode = 33188; st_size = size }, 8, refl, refl, refl);
}

two_blocks : AreBlocks repeated 0 (26 ∷ 26 ∷ []) 55
two_blocks = (
  (omega arith, refl, λ j low high. absurd (omega arith)),
  ((omega arith, refl, λ j low high. absurd (omega arith)), (omega arith, omega arith)),
)

load_buffer-load_each_example : load_buffer (system 55) 3 options file 8 ≡ (
    load_each
      (system 55)
      3
      options
      3
      repeated
      55
      (26 ∷ 26 ∷ [])
      0
      (pos 0)
      (Buffer.clear file.buffer)
      8
    >>= unmap (system 55) (cleared file) repeated 55)
load_buffer-load_each_example =
    load_buffer-load_each (system 55) 3 options file 55 repeated (26 ∷ 26 ∷ []) 8 8 (mapped 55)
      (omega arith) (omega arith) two_blocks

load_buffer_short_example : load_buffer (system 25) 3 options file 8 ≡ aborts
load_buffer_short_example =
    load_buffer_short (system 25) 3 options file 25 repeated 8 8 (mapped 25) (omega arith)
      (omega arith)

block_end_lem_example :
    (end : ℕ) × (block_end repeated 55 3 ≡ done end)
    × (3 ≤ end)
    × (end ≤ 55)
    × EndsBlock repeated 55 3 end
block_end_lem_example = block_end_lem repeated 55 3 (omega arith) (omega arith) (omega arith)

-- A gpg that gives five bytes for a file of 26. The state counts the bytes that were asked for.
abbrev plain_text : Memory
plain_text i = i + 65

abbrev with_gpg : Kernel
with_gpg = record (system 26) {
  select = λ read out write input s. (ok (read, write), s);
  read = λ fd n s. (ok (min n (5 - s), λ i. plain_text (s + i)), s + min n (5 - s));
}

gives_five : IsSource with_gpg 4 5 plain_text
gives_five = record {
  taken = λ s. min s 5;
  within = λ s. omega arith;
  selects = λ input s. (false, s, refl, refl);
  reads = λ n s h. (
    min n (5 - s),
    λ i. plain_text (s + i),
    s + min n (5 - s),
    refl,
    omega arith,
    omega arith,
    λ left. omega arith,
    λ i below. omega arith,
  );
}

maps_one : IsMapped with_gpg file 26 repeated 0 0
maps_one = record {
  unset = refl;
  opened = refl;
  stat = (record { st_mode = 33188; st_size = 26 }, 0, refl, refl, refl);
}

one-IsBlock : IsBlock repeated 0 26
one-IsBlock = (omega arith, refl, λ j low high. absurd (omega arith))

starts_gpg : Decrypts with_gpg options 3 0 100 4 0
starts_gpg = record {
  output = 5;
  unused = (4, 5);
  first = 0;
  second = 0;
  forked = 0;
  unused_made = refl;
  pipe_made = refl;
  child = refl;
  ends = refl;
}

chunk_pages : is_page_multiple 4096 chunk_size ≡ true
unfolding is_page_multiple round_down_to_page sub64 not64
chunk_pages = refl

load_buffer-Holds_example :
    (b : PageBuffer) × (u : ℕ) × (load_buffer with_gpg 6 options file 0
      ≡ done (pos 0, record file { dirty = false; buffer_set = true; buffer = b }, u))
    × Holds plain_text 5 b
unfolding gives_five
load_buffer-Holds_example =
    load_buffer-Holds with_gpg 6 options file 26 repeated 5 plain_text 100 4 0 0 0 gives_five
      maps_one (omega arith) one-IsBlock starts_gpg refl (λ u. refl) (12, omega arith, refl)
      chunk_pages (λ n. refl) (omega arith) (omega arith)
