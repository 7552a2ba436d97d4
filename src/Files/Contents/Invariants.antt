-- ===== src/Files/Contents/Invariants.antt =====
-- `read`, `fgetattr` and `getattr` keep an invariant of the table of open files.
use Prim.Native.String.{String}
use asymmetricfs.Prelude.{
  ℕ, ◌≡◌, not, Option, none, some, assert, IfDone, then-IfDone, bind-IfDone, if-IfDone,
  option-IfDone, Memory, ℤ, pos, negsuc, is_zero, lookup, text_key, number_key, ◌||◌,
}
use asymmetricfs.Page.Buffer
use asymmetricfs.Kernel.{Kernel, Sys, ok, error, Stat}
use asymmetricfs.Files.{Internal, Filesystem, FileInfo}
use asymmetricfs.Files.Loading.Results.{IsSame, load_buffer-IsSame}
use asymmetricfs.Files.Invariant.{IsInvariant}
use asymmetricfs.Files.Contents.{
  assign_file, is_unreadable, read_buffer, read_loaded, read_at, read_file, stat_sized, stat_loaded,
  stat_open, statfd, fgetattr, stat_closed, stat_path, getattr,
}

module _ (K : Kernel) (fuel : ℕ) (P G : Filesystem → Type 0) (inv : IsInvariant K P G) where
  open K use {State}

  -- What an operation returns has the property.
  abbrev pub Fine : {A : Type 0} → ℤ × A × Filesystem × State → Type 0
  Fine (ret, x, fs, s) = P fs

  read_buffer-Fine :
      (buffer : Memory) (size offset : ℕ) (d : Internal) (fs : Filesystem) (s : State)
      → P fs
      → IfDone (λ r. Fine r) (read_buffer K buffer size offset d fs s)
  unfolding read_buffer
  read_buffer-Fine buffer size offset d fs s c =
      then-IfDone (λ r. Fine r) (Buffer.read d.buffer size offset buffer) _ (λ r. c)

  read_loaded-Fine :
      (buffer : Memory) (size offset handle : ℕ) (d : Internal) (fs : Filesystem)
      (r : ℤ × Internal × State)
      → P fs
      → lookup handle fs.open_fds ≡ some d
      → IsSame d r
      → IfDone (λ r. Fine r) (read_loaded K buffer size offset handle fs r)
  unfolding read_loaded
  read_loaded-Fine buffer size offset handle d fs (ret, d', t) c there same =
      let c' = inv.assigned handle d d' fs c there same in
      if-IfDone (λ r. Fine r) (not (is_zero ret)) _ _ (λ failed. c')
        (λ loaded.
          then-IfDone (λ r. Fine r) (assert d'.buffer_set) _
            (λ u. read_buffer-Fine buffer size offset d' (assign_file handle d' fs) t c'))

  read_at-Fine :
      (buffer : Memory) (size : ℕ) (offset : ℤ) (handle : ℕ) (d : Internal) (fs : Filesystem)
      (s : State)
      → P fs
      → lookup handle fs.open_fds ≡ some d
      → IfDone (λ r. Fine r) (read_at K fuel buffer size offset handle d fs s)
  unfolding read_at
  read_at-Fine buffer size (negsuc n) handle d fs s c there = c
  read_at-Fine buffer size (pos offset) handle d fs s c there =
      if-IfDone (λ r. Fine r) (not fs.read) _ _
        (λ hidden.
          if-IfDone (λ r. Fine r) (is_unreadable d) _ _ (λ denied. c)
            (λ shown. read_buffer-Fine buffer size offset d fs s c))
        (λ reads.
          bind-IfDone (λ r. Fine r) (λ r. IsSame d r) _ _ (load_buffer-IsSame K fuel fs.options d s)
            (λ r same. read_loaded-Fine buffer size offset handle d fs r c there same))

  -- If `read` returns where the property holds, it holds.
  pub read_file-Fine :
      (buffer : Memory) (size : ℕ) (offset : ℤ) (info : FileInfo) (fs : Filesystem) (s : State)
      → P fs
      → IfDone (λ r. Fine r) (read_file K fuel buffer size offset info fs s)
  unfolding read_file
  read_file-Fine buffer size offset info fs s c =
      option-IfDone (λ r. Fine r) (lookup info.fh fs.open_fds) _ _ (λ closed. c)
        (λ d there. read_at-Fine buffer size offset info.fh d fs s c there)

  stat_sized-Fine :
      (st : Stat) (d : Internal) (fs : Filesystem) (s : State)
      → P fs
      → IfDone (λ r. Fine r) (stat_sized K st d fs s)
  unfolding stat_sized
  stat_sized-Fine st d fs s c =
      then-IfDone (λ r. Fine r) (assert (not fs.read || d.buffer_set)) _ (λ u. c)

  stat_loaded-Fine :
      (buf st : Stat) (handle : ℕ) (d : Internal) (fs : Filesystem) (r : ℤ × Internal × State)
      → P fs
      → lookup handle fs.open_fds ≡ some d
      → IsSame d r
      → IfDone (λ r. Fine r) (stat_loaded K buf st handle fs r)
  unfolding stat_loaded
  stat_loaded-Fine buf st handle d fs (ret, d', t) c there same =
      let c' = inv.assigned handle d d' fs c there same in
      if-IfDone (λ r. Fine r) (not (is_zero ret)) _ _ (λ failed. c')
        (λ loaded. stat_sized-Fine st d' (assign_file handle d' fs) t c')

  stat_open-Fine :
      (buf : Stat) (handle : ℕ) (d : Internal) (fs : Filesystem) (o : Sys Stat × State)
      → P fs
      → lookup handle fs.open_fds ≡ some d
      → IfDone (λ r. Fine r) (stat_open K fuel buf handle d fs o)
  unfolding stat_open
  stat_open-Fine buf handle d fs (error e, s) c there = c
  stat_open-Fine buf handle d fs (ok st, s) c there =
      if-IfDone (λ r. Fine r) fs.read _ _
        (λ reads.
          bind-IfDone (λ r. Fine r) (λ r. IsSame d r) _ _ (load_buffer-IsSame K fuel fs.options d s)
            (λ r same. stat_loaded-Fine buf st handle d fs r c there same))
        (λ hidden. stat_sized-Fine st d fs s c)

  statfd-Fine :
      (handle : ℕ) (buf : Option Stat) (fs : Filesystem) (s : State)
      → P fs
      → IfDone (λ r. Fine r) (statfd K fuel handle buf fs s)
  unfolding statfd
  statfd-Fine handle none fs s c = c
  statfd-Fine handle (some buf) fs s c =
      option-IfDone (λ r. Fine r) (lookup handle fs.open_fds) _ _ (λ closed. c)
        (λ d there. stat_open-Fine buf handle d fs _ c there)

  -- If `fgetattr` returns where the property holds, it holds.
  pub fgetattr-Fine :
      (buf : Option Stat) (info : FileInfo) (fs : Filesystem) (s : State)
      → P fs
      → IfDone (λ r. Fine r) (fgetattr K fuel buf info fs s)
  unfolding fgetattr
  fgetattr-Fine buf info fs s c = statfd-Fine info.fh buf fs s c

  stat_closed-Fine :
      (buf : Stat) (fs : Filesystem) (o : Sys Stat × State)
      → P fs
      → IfDone (λ r. Fine r) (stat_closed K buf fs o)
  unfolding stat_closed
  stat_closed-Fine buf fs (error e, s) c = c
  stat_closed-Fine buf fs (ok st, s) c = c

  stat_path-Fine :
      (path : String) (buf : Option Stat) (fs : Filesystem) (s : State)
      → P fs
      → IfDone (λ r. Fine r) (stat_path K path buf fs s)
  unfolding stat_path
  stat_path-Fine path none fs s c = c
  stat_path-Fine path (some st) fs s c = stat_closed-Fine st fs _ c

  -- If `getattr` returns where the property holds, it holds.
  pub getattr-Fine :
      (path : String) (buf : Option Stat) (fs : Filesystem) (s : State)
      → P fs
      → IfDone (λ r. Fine r) (getattr K fuel path buf fs s)
  unfolding getattr
  getattr-Fine path buf fs s c =
      option-IfDone (λ r. Fine r) (lookup path fs.open_paths) _ _
        (λ closed. stat_path-Fine path buf fs s c) (λ handle listed. statfd-Fine handle buf fs s c)
