-- ===== src/Files/Contents/Plain.antt =====
-- `read` of a file that is not loaded yet: the bytes that gpg gives for it.
mod Tests
use mathlib.Core.Path.{fun_ext}
use asymmetricfs.Prelude.{
  ℕ, ◌+◌, ◌-◌, ◌<◌, ◌≡◌, refl, sym, ap, ◌∙◌, inl, inr, Bool, true, false, not, if_false, min, some,
  done, ◌>>=◌, ltb, if◌then◌else◌, Memory, ℤ, pos, to_int, lookup, number_key, u64_mod, arith,
  Bool-cases,
}
use asymmetricfs.Page.Allocation.{map_locked}
use asymmetricfs.Page.Blocks.Content.{content}
use asymmetricfs.Page.ByteFile.{ByteFile, file_read}
use asymmetricfs.Page.Buffer
use asymmetricfs.Page.Buffer.{PageBuffer, is_page_multiple}
use asymmetricfs.Page.Buffer.Rounding.{IsPageSize}
use asymmetricfs.Page.Buffer.Refinement.{view, read-file_read}
use asymmetricfs.Page.Buffer.Invariant.{IsWellFormed}
use asymmetricfs.Page.Pipe.{IsOpen, Appended}
use asymmetricfs.Page.Splice.Gathering.{Reaches}
use asymmetricfs.Files.Handles.{close}
use asymmetricfs.Files.Closing.{Starts, closes, close-content}
use asymmetricfs.Kernel.{Kernel, pipe}
use asymmetricfs.Subprocess.Output.{IsSource}
use asymmetricfs.Files.{Options, Internal, Filesystem, FileInfo}
use asymmetricfs.Files.Loading.{chunk_size, load_buffer}
use asymmetricfs.Files.Loading.Blocks.{IsBlock, IsMapped}
use asymmetricfs.Files.Loading.Output.{Holds}
use asymmetricfs.Files.Loading.Whole.{Decrypts, load_buffer-Holds}
use asymmetricfs.Files.Contents.{assign_file, read_buffer, read_loaded, read_at, read_file}

-- The file of `d` is one block of gpg, not loaded yet, and a gpg for it gives the `total` bytes.
pub record IsEncrypted (K : Kernel) (options : Options) (d : Internal) (total : ℕ) (bytes : Memory)
    (s : K.State) : Type 0 where
  pub size : ℕ
  pub mapping : Memory
  pub mapped : K.State
  pub pid : ℕ
  pub from : ℕ
  pub started : K.State
  pub source : IsSource K from total bytes
  pub maps : IsMapped K d size mapping s mapped
  pub small : size < u64_mod
  pub block : IsBlock mapping 0 size
  pub starts : Decrypts K options d.fd mapped pid from started
  pub none_taken : source.taken started ≡ 0
  pub exits : (u : K.State) → (K.waitpid pid u).0 ≡ some 0

-- Pages that load_buffer can fill: of a size that divides 2 ^ 20, and there is memory.
pub record IsPaged (K : Kernel) (b : PageBuffer) : Type 0 where
  pub page : IsPageSize b.page_size
  pub pages : is_page_multiple b.page_size chunk_size ≡ true
  pub granted : (n : ℕ) → K.mmap (map_locked b.mlock) n ≡ true

file_read-Holds :
    (bytes : Memory) (total : ℕ) (b : PageBuffer) (n offset : ℕ) (buffer : Memory)
    → Holds bytes total b
    → file_read (view b) n offset buffer
      ≡ file_read (record { size = total; byte = bytes }) n offset buffer
file_read-Holds bytes total b n offset buffer (sized, held, v, c) =
    rw sized (ap (λ m. (min n (total - offset), m)) (fun_ext same))
  where
    same :
        (i : ℕ)
        → (if ltb i (min n (total - offset))
            then content b.page_allocations (offset + i)
            else buffer i)
          ≡ (if ltb i (min n (total - offset)) then bytes (offset + i) else buffer i)
    same i = elim (Bool-cases (ltb i (min n (total - offset)))) [
      | inl below ↦ rw below (held (offset + i) (ground arith))
      | inr above ↦ rw above refl
    ]

module _ (K : Kernel) (fuel : ℕ) where
  open K use {State}

  read_buffer-Holds :
      (bytes : Memory) (total : ℕ) (buffer : Memory) (n offset : ℕ) (d : Internal) (fs : Filesystem)
      (s : State)
      → Holds bytes total d.buffer
      → offset < u64_mod
      → let (count, memory) = file_read (record { size = total; byte = bytes }) n offset buffer in
        read_buffer K buffer n offset d fs s ≡ done (to_int count, memory, fs, s)
  unfolding read_buffer
  read_buffer-Holds bytes total buffer n offset d fs s holds t =
      rw (read-file_read d.buffer n offset buffer holds.2 t) (
        ap (λ (r : ℕ × Memory). done (to_int r.0, r.1, fs, s))
          (file_read-Holds bytes total d.buffer n offset buffer holds))

  read_file-file_read :
      (buffer : Memory) (n offset : ℕ) (info : FileInfo) (fs : Filesystem) (d : Internal)
      (s : State) (total : ℕ) (bytes : Memory)
      → fs.read ≡ true
      → lookup info.fh fs.open_fds ≡ some d
      → IsEncrypted K fs.options d total bytes s
      → IsPaged K d.buffer
      → offset < u64_mod
      → total + d.buffer.page_size < u64_mod
      → total < fuel
      → let (count, memory) = file_read (record { size = total; byte = bytes }) n offset buffer in
        (b : PageBuffer) × (t : State) × (read_file K fuel buffer n (pos offset) info fs s
          ≡ done (
            to_int count,
            memory,
            assign_file info.fh (record d { dirty = false; buffer_set = true; buffer = b }) fs,
            t,
          ))
        × Holds bytes total b
  unfolding read_file read_at read_loaded
  read_file-file_read buffer n offset info fs d s total bytes reads there x pages h room f =
      let (b, t, e, holds) =
        load_buffer-Holds K fuel fs.options d x.size x.mapping total bytes x.pid x.from s x.mapped
          x.started x.source x.maps x.small x.block x.starts x.none_taken x.exits pages.page
          pages.pages pages.granted room f in
      let d' = record d { dirty = false; buffer_set = true; buffer = b } in
      (
        b,
        t,
        rw (there, read_file)
            (if_false (not fs.read) _ _ (ap not reads)
              ∙ ap (λ o. o >>= read_loaded K buffer n offset info.fh fs) e
              ∙ read_buffer-Holds bytes total buffer n offset d' (assign_file info.fh d' fs) t holds
                  h),
        holds,
      )

  -- Let a dirty file be closed as for close-content: open, with a well-formed buffer whose blocks
  -- all begin below its size and whose last block reaches it, a gpg that starts with an open pipe
  -- as its input, and memory. Let a file be open, with reading allowed, that is not loaded yet, and
  -- whose contents the system maps as one block that ends with the only terminator in it, of fewer
  -- than 2 ^ 64 bytes. Let a gpg start for it, give the contents of the closed file's buffer up to
  -- its size, however few bytes at a time, and exit with 0. Let the page size of the second file be
  -- a power of two that divides 2 ^ 20, memory be there, the size stay below 2 ^ 64 by a page and
  -- below the fuel, and the offset below 2 ^ 64. Then close has given gpg the contents of the
  -- buffer up to its size, and a read of the second file gives what a read of the first file's
  -- buffer gives, and loads the file.
  pub close-read_file :
      (d : Internal) (pid fed : ℕ) (s started : State) (buffer : Memory) (n offset : ℕ)
      (info : FileInfo) (fs : Filesystem) (e : Internal) (t : State)
      → d.is_open ≡ true
      → d.dirty ≡ true
      → Starts K fs.options d s pid fed started
      → IsOpen (pipe K fed)
      → ((n : ℕ) → K.mmap false n ≡ true)
      → IsWellFormed d.buffer
      → Reaches 0 d.buffer.buffer_size d.buffer.page_allocations
      → fs.read ≡ true
      → lookup info.fh fs.open_fds ≡ some e
      → IsEncrypted K fs.options e d.buffer.buffer_size (content d.buffer.page_allocations) t
      → IsPaged K e.buffer
      → offset < u64_mod
      → d.buffer.buffer_size + e.buffer.page_size < u64_mod
      → d.buffer.buffer_size < fuel
      → let (count, memory) = file_read (view d.buffer) n offset buffer in
        (u : State) × (v : State) × (b : PageBuffer) × (close K fs.options d s
          ≡ closes K d pid fed u)
        × Appended (pipe K fed) started u d.buffer.buffer_size (content d.buffer.page_allocations)
        × (read_file K fuel buffer n (pos offset) info fs t
            ≡ done (
              to_int count,
              memory,
              assign_file info.fh (record e { dirty = false; buffer_set = true; buffer = b }) fs,
              v,
            ))
  close-read_file d pid fed s started buffer n offset info fs e t opened written starts lawful
        memory formed reaches reads there x pages h room f =
      let (u, sent, closed) =
        close-content K fs.options d s pid fed started opened written starts lawful memory formed
          reaches in
      let (b, v, found, holds) =
        read_file-file_read buffer n offset info fs e t d.buffer.buffer_size
          (content d.buffer.page_allocations) reads there x pages h room f in
      (u, v, b, closed, sent, found)
