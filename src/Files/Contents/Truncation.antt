-- ===== src/Files/Contents/Truncation.antt =====
-- `ftruncate` and `truncate` keep an invariant of the table of open files.
use Prim.Native.String.{String}
use asymmetricfs.Prelude.{
  ℕ, true, zero, suc, ◌≡◌, refl, not, some, Outcome, done, assert, ◌>>=◌, IfDone, then-IfDone,
  bind-IfDone, if-IfDone, option-IfDone, ℤ, pos, negsuc, is_zero, lookup, text_key, number_key,
}
use asymmetricfs.Page.Buffer
use asymmetricfs.Kernel.{Kernel, Sys, ok, error}
use asymmetricfs.Files.{Internal, Filesystem, FileInfo}
use asymmetricfs.Files.Handles.{destroy, close}
use asymmetricfs.Files.Loading.{load_buffer}
use asymmetricfs.Files.Loading.Results.{IsSameFile, IsSame, load_buffer-IsSame}
use asymmetricfs.Files.Invariant.{IsInvariant}
use asymmetricfs.Files.Contents.{
  resize_file, truncate_loaded, emptied, truncate_open, truncatefd, ftruncate, truncate_to_zero,
  rewrite, closed_again, truncate_closed, truncate_path, truncate,
}

module _ (K : Kernel) (fuel : ℕ) (P G : Filesystem → Type 0) (inv : IsInvariant K P G) where
  open K use {State}

  abbrev pub Kept : ℤ × Filesystem × State → Type 0
  Kept (ret, fs, s) = P fs

  resize_file-Kept :
      (handle n : ℕ) (d d' : Internal) (fs : Filesystem) (s : State)
      → P fs
      → lookup handle fs.open_fds ≡ some d
      → IsSameFile d d'
      → IfDone (λ r. Kept r) (resize_file K handle n d' fs s)
  unfolding resize_file
  resize_file-Kept handle n d d' fs s c there e =
      then-IfDone (λ r. Kept r) (Buffer.resize d'.buffer n) _
        (λ b. inv.assigned handle d (record d' { buffer = b; dirty = true }) fs c there e)

  truncate_loaded-Kept :
      (handle n : ℕ) (d : Internal) (fs : Filesystem) (r : ℤ × Internal × State)
      → P fs
      → lookup handle fs.open_fds ≡ some d
      → IsSame d r
      → IfDone (λ r. Kept r) (truncate_loaded K handle n fs r)
  unfolding truncate_loaded
  truncate_loaded-Kept handle n d fs (ret, d', t) c there same =
      if-IfDone (λ r. Kept r) (not (is_zero ret)) _ _
        (λ failed. inv.assigned handle d d' fs c there same)
        (λ loaded. resize_file-Kept handle n d d' fs t c there same)

  emptied-Kept :
      (handle : ℕ) (d : Internal) (fs : Filesystem) (o : Sys ℕ × State)
      → P fs
      → lookup handle fs.open_fds ≡ some d
      → IfDone (λ r. Kept r) (emptied K handle d fs o)
  unfolding emptied
  emptied-Kept handle d fs (error e, s) c there = c
  emptied-Kept handle d fs (ok n, s) c there =
      resize_file-Kept handle 0 d d fs s c there (refl, refl, refl, refl, refl)

  truncate_open-Kept :
      (handle : ℕ) (offset : ℤ) (d : Internal) (fs : Filesystem) (s : State)
      → P fs
      → lookup handle fs.open_fds ≡ some d
      → IfDone (λ r. Kept r) (truncate_open K fuel handle offset d fs s)
  unfolding truncate_open
  truncate_open-Kept handle (negsuc n) d fs s c there = c
  truncate_open-Kept handle (pos zero) d fs s c there = emptied-Kept handle d fs _ c there
  truncate_open-Kept handle (pos (suc n)) d fs s c there =
      if-IfDone (λ r. Kept r) fs.read _ _
        (λ reads.
          bind-IfDone (λ r. Kept r) (λ r. IsSame d r) _ _ (load_buffer-IsSame K fuel fs.options d s)
            (λ r same. truncate_loaded-Kept handle (suc n) d fs r c there same))
        (λ hidden. c)

  truncatefd-Kept :
      (handle : ℕ) (offset : ℤ) (fs : Filesystem) (s : State)
      → P fs
      → IfDone (λ r. Kept r) (truncatefd K fuel handle offset fs s)
  unfolding truncatefd
  truncatefd-Kept handle offset fs s c =
      option-IfDone (λ r. Kept r) (lookup handle fs.open_fds) _ _ (λ closed. c)
        (λ d there. truncate_open-Kept handle offset d fs s c there)

  -- If `ftruncate` returns where the property holds, it holds.
  pub ftruncate-Kept :
      (offset : ℤ) (info : FileInfo) (fs : Filesystem) (s : State)
      → P fs
      → IfDone (λ r. Kept r) (ftruncate K fuel offset info fs s)
  unfolding ftruncate
  ftruncate-Kept offset info fs s c = truncatefd-Kept info.fh offset fs s c

  destroyed-Kept :
      (ret : ℤ) (fs : Filesystem) (o : Outcome State)
      → P fs
      → IfDone (λ r. Kept r) (o >>= λ t. done (ret, fs, t))
  destroyed-Kept ret fs o c = then-IfDone (λ r. Kept r) o _ (λ t. c)

  rewrite-Kept :
      (n : ℕ) (fs : Filesystem) (r : ℤ × Internal × State)
      → P fs
      → IfDone (λ r. Kept r) (rewrite K n fs r)
  unfolding rewrite closed_again
  rewrite-Kept n fs (ret, d, s) c =
      if-IfDone (λ r. Kept r) (not (is_zero ret)) _ _
        (λ failed. destroyed-Kept _ fs (destroy K fs.options d s) c)
        (λ loaded.
          then-IfDone (λ r. Kept r) (assert d.buffer_set) _
            (λ u.
              then-IfDone (λ r. Kept r) (Buffer.resize d.buffer n) _
                (λ b.
                  then-IfDone (λ r. Kept r) (close K fs.options _ _) _
                    (λ (ret', d', t). destroyed-Kept _ fs (destroy K fs.options d' t) c))))

  truncate_closed-Kept :
      (path : String) (n : ℕ) (fs : Filesystem) (o : Sys ℕ × State)
      → P fs
      → IfDone (λ r. Kept r) (truncate_closed K fuel path n fs o)
  unfolding truncate_closed
  truncate_closed-Kept path n fs (error e, s) c = c
  truncate_closed-Kept path n fs (ok fd, s) c =
      then-IfDone (λ r. Kept r) (load_buffer K fuel fs.options _ s) (rewrite K n fs)
        (λ r. rewrite-Kept n fs r c)

  truncate_to_zero-Kept :
      (fs : Filesystem) (o : Sys ℕ × State) → P fs → IfDone (λ r. Kept r) (truncate_to_zero K fs o)
  unfolding truncate_to_zero
  truncate_to_zero-Kept fs (error e, s) c = c
  truncate_to_zero-Kept fs (ok fd, s) c = c

  truncate_path-Kept :
      (path : String) (n : ℕ) (fs : Filesystem) (s : State)
      → P fs
      → IfDone (λ r. Kept r) (truncate_path K fuel path n fs s)
  unfolding truncate_path
  truncate_path-Kept path zero fs s c = truncate_to_zero-Kept fs _ c
  truncate_path-Kept path (suc n) fs s c =
      if-IfDone (λ r. Kept r) fs.read _ _ (λ reads. truncate_closed-Kept path (suc n) fs _ c)
        (λ hidden. c)

  -- If `truncate` returns where the property holds, it holds.
  pub truncate-Kept :
      (path : String) (offset : ℤ) (fs : Filesystem) (s : State)
      → P fs
      → IfDone (λ r. Kept r) (truncate K fuel path offset fs s)
  unfolding truncate
  truncate-Kept path (negsuc n) fs s c = c
  truncate-Kept path (pos offset) fs s c =
      option-IfDone (λ r. Kept r) (lookup path fs.open_paths) _ _
        (λ closed. truncate_path-Kept path offset fs s c)
        (λ handle listed. truncatefd-Kept handle (pos offset) fs s c)
