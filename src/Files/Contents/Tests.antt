-- ===== src/Files/Contents/Tests.antt =====
-- The theorems on contents, on a file with two pages of four bytes, of which seven are in the file.
use asymmetricfs.Prelude.{
  ℕ, ◌+◌, ◌≡◌, refl, inl, some, done, true, false, pos, neg, [], ◌∷◌, zeroes, Memory, max, to_int,
  ltb, if◌then◌else◌, arith, sub64, not64, add64, lookup, assign, number_key, memcpy, text_key,
}
use asymmetricfs.MemoryLock
use asymmetricfs.Kernel.{Kernel, ok, eacces, eio}
use asymmetricfs.Kernel.Idle.{idle}
use asymmetricfs.Page.Blocks.{find, store, lower_bound, upper_bound, emplace}
use asymmetricfs.Page.Blocks.Content.{content}
use asymmetricfs.Page.ByteFile.{file_read, file_write, file_truncate}
use asymmetricfs.Page.Buffer.{
  PageBuffer, page_buffer, clear, round_down_to_page, round_up_to_page, is_page_multiple, write,
  resize, free_blocks, starts_from, new_block_end, allocate_block, new_block, locate_block,
  write_block, write_round, write_loop,
}
use asymmetricfs.Page.Buffer.Invariant.{IsWellFormed}
use asymmetricfs.Page.Buffer.Locating.{block_end}
use asymmetricfs.Page.Buffer.Refinement.{view, IsClean}
use asymmetricfs.Page.Allocation.{page_allocation, map_locked}
use asymmetricfs.Page.Splice.{
  splice, splice_loop, splice_round, splice_gap, zero_splice, zero_loop, flush, flush_iov,
  after_splice, advance, gather_zeroes, gather_blocks, splice_rest, splice_tail, write_rest,
}
use asymmetricfs.Subprocess.{subprocess, parent, wait, destroy_subprocess}
use asymmetricfs.Files.{Internal, Filesystem, FileInfo, internal}
use asymmetricfs.Files.Loading.{load_buffer, load_stat}
use asymmetricfs.Files.Handles.{
  write_file, write_at, open_file, open_flags, for_reading, encrypt, encrypt_args,
}
use asymmetricfs.Files.Table.{IsConsistent}
use asymmetricfs.Files.Contents.{read_file, fgetattr, ftruncate, truncate}
use asymmetricfs.Files.Contents.Written.{write_lost}
use asymmetricfs.Files.Contents.Sizes.{write_file_lem, ftruncate-read_file}
use asymmetricfs.Files.Contents.Errors.{open_file-read_denied, truncate-encrypt_failed}

-- Every file has ten bytes for the system, and gpg fails.
abbrev system : Kernel
system = record (idle ℕ) {
  fstat = λ fd s. (ok (record { st_mode = 33188; st_size = 10 }), s);
  waitpid = λ pid s. (some 2, s);
}

abbrev nines : Memory
nines i = 9

abbrev seven_bytes : Memory
seven_bytes i = if ltb i 7 then i + 1 else 0

abbrev two_pages : PageBuffer
two_pages = record {
  page_allocations = (0, record { ptr = seven_bytes; size = 8 }) ∷ [];
  page_size = 4;
  buffer_size = 7;
  mlock = MemoryLock.none;
}

two_pages-IsWellFormed : IsWellFormed two_pages
unfolding is_page_multiple round_down_to_page sub64 not64
two_pages-IsWellFormed = record {
  page = (2, omega arith, refl);
  apart = omega arith;
  aligned = (refl, refl, tt);
  sized = omega arith;
}

two_pages-IsClean : IsClean two_pages
unfolding content
two_pages-IsClean x h = ground arith

abbrev loaded : Internal
loaded = record {
  fd = 3;
  flags = 2;
  references = 1;
  path = "/a";
  buffer_set = true;
  dirty = false;
  buffer = two_pages;
  is_open = true;
}

abbrev table : Filesystem
table = record {
  read = true;
  root_set = true;
  root = 2;
  options = record { recipients = "alice" ∷ []; gpg_path = "gpg"; mlock = MemoryLock.none };
  next = 1;
  open_paths = ("/a", 0) ∷ [];
  open_fds = (0, loaded) ∷ [];
  open_dirs = [];
  page_size = 4;
}

-- The same, before the file has been loaded.
abbrev unloaded : Internal
unloaded = record loaded { buffer_set = false }

abbrev unloaded_table : Filesystem
unloaded_table = record table { open_fds = (0, unloaded) ∷ [] }

abbrev handle : FileInfo
handle = record { flags = 2; fh = 0 }

write_file_lem_example :
    let (count, bytes) = file_read (file_write (view two_pages) 5 2 nines) 4 1 zeroes in
    (fs' : Filesystem) × (write_file system nines 5 (pos 2) handle table 8
      ≡ done (to_int 5, fs', 8))
    × (read_file system 3 zeroes 4 (pos 1) handle fs' 8 ≡ done (to_int count, bytes, fs', 8))
    × (fgetattr system 3 (some (record { st_mode = 0; st_size = 0 })) handle fs' 8
        ≡ done (pos 0, some (record { st_mode = 33188; st_size = max 7 (2 + 5) }), fs', 8))
unfolding round_down_to_page block_end find sub64 not64 lookup
write_file_lem_example =
    write_file_lem system 3 nines 5 2 handle loaded table zeroes 4 1
      (record { st_mode = 0; st_size = 0 }) (record { st_mode = 33188; st_size = 10 }) 8 8 refl refl
      two_pages-IsWellFormed two_pages-IsClean (inl (record { ptr = seven_bytes; size = 8 }, refl))
      (omega arith) (omega arith) (omega arith) (omega arith) refl

ftruncate-read_file_example :
    let (count, bytes) = file_read (file_truncate (view two_pages) 12) 4 5 zeroes in
    (fs' : Filesystem) × (ftruncate system 3 (pos 12) handle table 8 ≡ done (pos 0, fs', 8))
    × (read_file system 3 zeroes 4 (pos 5) handle fs' 8 ≡ done (to_int count, bytes, fs', 8))
unfolding lookup
ftruncate-read_file_example =
    ftruncate-read_file system 3 11 handle loaded table zeroes 4 5 8 refl refl refl
      two_pages-IsWellFormed two_pages-IsClean (inl (omega arith)) (omega arith) (omega arith)

-- The table after five nines were written at two.
abbrev written_table : Filesystem
written_table = record unloaded_table {
  open_fds =
      (
        0,
        record unloaded {
          dirty = true;
          buffer = record two_pages {
            page_allocations = (0, record { ptr = memcpy seven_bytes 2 nines 0 5; size = 8 }) ∷ [];
          };
        },
      )
      ∷ [];
}

write_lost_example :
    read_file system 3 zeroes 4 (pos 1) handle written_table 8
    ≡ read_file system 3 zeroes 4 (pos 1) handle unloaded_table 8
unfolding write_file write_at write write_loop write_round write_block locate_block new_block
    allocate_block new_block_end round_down_to_page round_up_to_page is_page_multiple find emplace
    store lower_bound upper_bound add64 sub64 not64 lookup assign
write_lost_example =
    write_lost system 3 nines 5 (pos 2) handle unloaded unloaded_table written_table (pos 5) 8 8
      zeroes 4 1 refl refl refl refl

abbrev write_only : Filesystem
write_only = record table { read = false; open_paths = []; open_fds = [] }

write_only-IsConsistent : IsConsistent write_only
unfolding lookup
write_only-IsConsistent = (λ p h e. ground arith, λ h le. refl)

open_file-read_denied_example :
    (info' : FileInfo) × (fs' : Filesystem) × (open_file system "/b" handle write_only 8
      ≡ done (pos 0, info', fs', 8))
    × ((mem : Memory) (size at : ℕ) (v : ℕ)
        → read_file system 3 mem size (pos at) info' fs' v ≡ done (neg eacces, mem, fs', v))
unfolding lookup open_flags for_reading
open_file-read_denied_example =
    open_file-read_denied system 3 "/b" handle write_only 3
      (ok (record { st_mode = 33188; st_size = 10 })) 8 8 8 write_only-IsConsistent refl refl refl
      refl refl refl

-- Every file is empty for the system.
abbrev empty_system : Kernel
empty_system = record system { fstat = λ fd s. (ok (record { st_mode = 33188; st_size = 0 }), s) }

abbrev empty_buffer : PageBuffer
empty_buffer = record {
  page_allocations = [];
  page_size = 4;
  buffer_size = 0;
  mlock = MemoryLock.none;
}

abbrev empty_file : Internal
empty_file = record {
  fd = 3;
  flags = 2;
  references = 0;
  path = "/b";
  buffer_set = true;
  dirty = false;
  buffer = empty_buffer;
  is_open = true;
}

truncate-encrypt_failed_example :
    truncate empty_system 3 "/b" (pos 8) table 8 ≡ done (pos eio, table, 8)
unfolding lookup load_buffer load_stat internal page_buffer clear resize free_blocks starts_from
    lower_bound encrypt encrypt_args subprocess parent wait destroy_subprocess splice splice_loop
    splice_round splice_gap zero_splice zero_loop flush flush_iov after_splice advance gather_zeroes
    gather_blocks splice_rest splice_tail write_rest page_allocation map_locked is_page_multiple
    round_down_to_page add64 sub64 not64
truncate-encrypt_failed_example =
    truncate-encrypt_failed empty_system 3 "/b" 7 3 table empty_file
      (record empty_buffer { buffer_size = 8 }) 8 8 8 8 refl refl refl refl refl refl refl
