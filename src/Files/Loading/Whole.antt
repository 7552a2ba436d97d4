-- ===== src/Files/Loading/Whole.antt =====
-- `load_buffer` of a file that is one block of gpg.
use asymmetricfs.Prelude.{
  ℕ, ◌*◌, subst, ◌+◌, ◌<◌, ◌≡◌, refl, ◌∙◌, true, false, [], ◌∷◌, some, none, done, ◌>>=◌, ◌==◌,
  Memory, zeroes, ℤ, pos, arith, u64_mod,
}
use asymmetricfs.Page.Buffer.{PageBuffer, is_page_multiple, clear}
use asymmetricfs.Page.Buffer.Appending.{IsAppendable}
use asymmetricfs.Page.Allocation.{map_locked}
use asymmetricfs.Page.Blocks.Content.{content}
use asymmetricfs.Page.Buffer.Rounding.{IsPageSize, is_page_multiple-mul}
use asymmetricfs.Kernel.{Kernel, ok}
use asymmetricfs.Subprocess.{Subprocess, subprocess, parent, wait, destroy_subprocess}
use asymmetricfs.Subprocess.Output.{IsSource}
use asymmetricfs.Files.{Options, Internal}
use asymmetricfs.Files.Loading.{
  decrypt_args, chunk_size, receive, decrypt, decrypted, after_gpg, unmap, load_buffer,
}
use asymmetricfs.Files.Loading.Blocks.{
  IsBlock, AreBlocks, load_each, cleared, IsMapped, load_buffer-load_each,
}
use asymmetricfs.Files.Loading.Output.{Holds, transfer, receive-all}

module _ (K : Kernel) where
  open K use {State}

  -- The system starts a gpg whose input is the file and whose output is a pipe. `from` is the end of
  -- the pipe that the program keeps, and `started` the state after it has closed the other ends.
  pub record Decrypts (options : Options) (fd : ℕ) (s : State) (pid from : ℕ) (started : State)
      : Type 0 where
    pub output : ℕ
    pub unused : ℕ × ℕ
    pub first : State
    pub second : State
    pub forked : State
    pub unused_made : K.make_pipe s ≡ (unused, first)
    pub pipe_made : K.make_pipe first ≡ ((from, output), second)
    pub child : K.fork_exec fd output options.gpg_path decrypt_args second ≡ (ok pid, forked)
    pub ends : (K.close output (K.close unused.0 (K.close unused.1 forked).1).1).1 ≡ started

  abbrev pub gpg : ℕ → ℕ → ℕ → Subprocess
  gpg fd pid from = record {
    pid = pid;
    in_fd = fd;
    in_owned = false;
    out_fd = from;
    out_owned = true;
    finished = false;
  }

  pub decrypt_lem :
      (fuel : ℕ) (options : Options) (m mem : Memory) (fd pid from : ℕ) (b b' : PageBuffer)
      (ret : ℤ) (s started u : State)
      → Decrypts options fd s pid from started
      → receive K fuel m (pos 0) (transfer zeroes b (gpg fd pid from)) started
        ≡ done (ret, transfer mem b' (gpg fd pid from), u)
      → ((v : State) → (K.waitpid pid v).0 ≡ some 0)
      → decrypt K fuel options m (some fd) none 0 (pos 0) b s
        ≡ done (pos 0, ret, b', (K.waitpid pid (K.close from u).1).1)
  unfolding decrypt decrypted subprocess parent wait destroy_subprocess
  decrypt_lem fuel options m mem fd pid from b b' ret s started u starts e exits =
      rw
        (
          starts.unused_made,
          starts.pipe_made,
          starts.child,
          starts.ends,
          e,
          exits (K.close from u).1,
        )
        refl

  clear-IsAppendable :
      (b : PageBuffer)
      → IsPageSize b.page_size
      → ((n : ℕ) → K.mmap (map_locked b.mlock) n ≡ true)
      → IsAppendable K.mmap (clear b)
  unfolding clear content
  clear-IsAppendable b page granted = record {
    formed = record { page = page; apart = tt; aligned = tt; sized = omega arith };
    clean = λ x above. refl;
    whole =
        subst (λ n. is_page_multiple b.page_size n ≡ true) {x = 0 * b.page_size} (omega arith)
          (is_page_multiple-mul b.page_size 0 page (omega arith));
    below = tt;
    granted = granted;
  }

  clear-Holds :
      (bytes : Memory) (b : PageBuffer) → IsAppendable K.mmap (clear b) → Holds bytes 0 (clear b)
  unfolding clear
  clear-Holds bytes b able = (refl, λ x below. absurd (omega arith), able.formed, able.clean)

  pub load_each_whole :
      (fuel : ℕ) (options : Options) (d : Internal) (size : ℕ) (m : Memory) (b b' : PageBuffer)
      (ret : ℤ) (t v : State)
      → decrypt K fuel options m (some d.fd) none 0 (pos 0) b t ≡ done (pos 0, ret, b', v)
      → (load_each K fuel options d.fd m size (size ∷ []) 0 (pos 0) b t
          >>= unmap K (cleared d) m size)
        ≡ done (ret, record d { dirty = false; buffer_set = true; buffer = b' }, K.munmap m size v)
  unfolding after_gpg unmap
  load_each_whole fuel options d size m b b' ret t v e =
      let same : (size == size) ≡ true = ground arith in rw (same, e) refl

  -- Let a file of fewer than 2 ^ 64 bytes be one block that ends with the only terminator in it,
  -- not be loaded yet, and be mapped by the system. Let the system start gpg with the file as its
  -- input, and let gpg give some bytes, however few at a time, and exit with 0. Let the page size
  -- be a power of two that divides 2 ^ 20, memory be there, the bytes be fewer than 2 ^ 64 by a
  -- page, and the fuel be above their number. Then load_buffer returns 0, changes only the flags
  -- and the buffer, and the buffer is loaded, well-formed and clean, and holds the bytes of gpg,
  -- each once and in order.
  pub load_buffer-Holds :
      (fuel : ℕ) (options : Options) (d : Internal) (size : ℕ) (m : Memory) (total : ℕ)
      (bytes : Memory) (pid from : ℕ) (s t started : State) (source : IsSource K from total bytes)
      → IsMapped K d size m s t
      → size < u64_mod
      → IsBlock m 0 size
      → Decrypts options d.fd t pid from started
      → source.taken started ≡ 0
      → ((u : State) → (K.waitpid pid u).0 ≡ some 0)
      → IsPageSize d.buffer.page_size
      → is_page_multiple d.buffer.page_size chunk_size ≡ true
      → ((n : ℕ) → K.mmap (map_locked d.buffer.mlock) n ≡ true)
      → total + d.buffer.page_size < u64_mod
      → total < fuel
      → (b : PageBuffer) × (u : State) × (load_buffer K fuel options d s
          ≡ done (pos 0, record d { dirty = false; buffer_set = true; buffer = b }, u))
        × Holds bytes total b
  unfolding clear
  load_buffer-Holds fuel options d size m total bytes pid from s t started source maps small block
        starts none_taken exits page pages granted room f =
      let able = clear-IsAppendable d.buffer page granted in
      let (mem, b, u, e, holds) =
        receive-all K (gpg d.fd pid from) total bytes source fuel m (pos 0) (clear d.buffer) started
          none_taken (clear-Holds bytes d.buffer able) able pages room f in
      let decrypts =
        decrypt_lem fuel options m mem d.fd pid from (clear d.buffer) b (pos 0) t started u starts e
          exits in
      let blocks : AreBlocks m 0 (size ∷ []) size = (block, (omega arith, omega arith)) in
      (
        b,
        _,
        load_buffer-load_each K fuel options d size m (size ∷ []) s t maps block.0 small blocks
            ∙ load_each_whole fuel options d size m (clear d.buffer) b (pos 0) t _ decrypts,
        holds,
      )
