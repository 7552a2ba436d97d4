-- ===== src/Files/Contents/Failures.antt =====
-- `read` of a file that is not loaded yet, when the exchange with gpg fails.
use asymmetricfs.Prelude.{
  ℕ, suc, ◌+◌, ◌<◌, ◌≡◌, refl, ap, ◌∙◌, true, false, not, if_false, [], ◌∷◌, some, none, done,
  ◌>>=◌, ◌==◌, Memory, zeroes, pos, neg, lookup, number_key, u64_mod, arith,
}
use asymmetricfs.Page.Buffer
use asymmetricfs.Page.Buffer.{PageBuffer}
use asymmetricfs.Kernel.{Kernel, error, eintr}
use asymmetricfs.Subprocess.{Subprocess}
use asymmetricfs.Subprocess.Output.{communicate_failed}
use asymmetricfs.Files.{Options, Internal, Filesystem, FileInfo}
use asymmetricfs.Files.Loading.{load_buffer, receive, received, chunk_size, bytes_from}
use asymmetricfs.Files.Loading.Output.{transfer}
use asymmetricfs.Files.Loading.Blocks.{IsBlock, AreBlocks, IsMapped, load_buffer-load_each}
use asymmetricfs.Files.Loading.Whole.{Decrypts, gpg, decrypt_lem, load_each_whole}
use asymmetricfs.Files.Contents.{assign_file, read_loaded, read_at, read_file}

module _ (K : Kernel) (fuel : ℕ) where
  open K use {State}

  receive_failed :
      (m mem : Memory) (b : PageBuffer) (p : Subprocess) (e : ℕ) (s t : State)
      → K.select true p.out_fd false p.in_fd s ≡ (error (suc e), t)
      → (suc e == eintr) ≡ false
      → receive K (suc fuel) m (pos 0) (transfer mem b p) s
        ≡ done (neg (suc e), transfer mem b p, t)
  unfolding receive received
  receive_failed m mem b p e s t failed other =
      rw
        (communicate_failed K p (chunk_size + 0) chunk_size (suc e) mem (bytes_from m none) s t
          (omega arith) failed other)
        refl

  load_buffer_failed :
      (options : Options) (d : Internal) (size : ℕ) (m : Memory) (pid from e : ℕ)
      (s t started u : State)
      → IsMapped K d size m s t
      → size < u64_mod
      → IsBlock m 0 size
      → Decrypts K options d.fd t pid from started
      → K.select true from false d.fd started ≡ (error (suc e), u)
      → (suc e == eintr) ≡ false
      → ((v : State) → (K.waitpid pid v).0 ≡ some 0)
      → (v : State) × (load_buffer K (suc fuel) options d s
          ≡ done (
            neg (suc e),
            record d { dirty = false; buffer_set = true; buffer = Buffer.clear d.buffer },
            v,
          ))
  load_buffer_failed options d size m pid from e s t started u maps small block starts failed other
        exits =
      let b = Buffer.clear d.buffer in
      let ends = receive_failed m zeroes b (gpg K d.fd pid from) e started u failed other in
      let decrypts =
        decrypt_lem K (suc fuel) options m zeroes d.fd pid from b b (neg (suc e)) t started u starts
          ends exits in
      let blocks : AreBlocks m 0 (size ∷ []) size = (block, (omega arith, omega arith)) in
      (
        _,
        load_buffer-load_each K (suc fuel) options d size m (size ∷ []) s t maps block.0 small
              blocks
            ∙ load_each_whole K (suc fuel) options d size m b b (neg (suc e)) t _ decrypts,
      )

  -- With reading allowed, let an open file not be loaded yet, and let the system map its contents
  -- as one block that ends with the only terminator in it, of fewer than 2 ^ 64 bytes. Let gpg
  -- start, let select fail with an error other than an interruption, and let gpg exit with 0. Then
  -- read returns the number of the error, which is positive and stands for a count of bytes, leaves
  -- the caller's memory, and marks the file as loaded with an empty buffer.
  pub read_file-communicate_failed :
      (buffer : Memory) (n offset : ℕ) (info : FileInfo) (fs : Filesystem) (d : Internal) (size : ℕ)
      (m : Memory) (pid from e : ℕ) (s t started u : State)
      → fs.read ≡ true
      → lookup info.fh fs.open_fds ≡ some d
      → IsMapped K d size m s t
      → size < u64_mod
      → IsBlock m 0 size
      → Decrypts K fs.options d.fd t pid from started
      → K.select true from false d.fd started ≡ (error (suc e), u)
      → (suc e == eintr) ≡ false
      → ((v : State) → (K.waitpid pid v).0 ≡ some 0)
      → (v : State) × (read_file K (suc fuel) buffer n (pos offset) info fs s
          ≡ done (
            pos (suc e),
            buffer,
            assign_file info.fh
                (record d { dirty = false; buffer_set = true; buffer = Buffer.clear d.buffer })
                fs,
            v,
          ))
  unfolding read_file read_at read_loaded
  read_file-communicate_failed buffer n offset info fs d size m pid from e s t started u reads there
        maps small block starts failed other exits =
      let (v, loads) =
        load_buffer_failed fs.options d size m pid from e s t started u maps small block starts
          failed other exits in
      (
        v,
        rw (there, read_file)
            (if_false (not fs.read) _ _ (ap not reads)
              ∙ ap (λ o. o >>= read_loaded K buffer n offset info.fh fs) loads),
      )
