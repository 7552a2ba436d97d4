-- ===== src/Files/Calls/Invariants.antt =====
-- Every call of FUSE keeps an invariant of the table of open files.
use Prim.Native.Nat.{bit_or}
use Prim.Native.String.{String}
use asymmetricfs.Prelude.{
  ℕ, Bool, Option, ◌≡◌, refl, none, some, ℤ, pos, negsuc, Memory, ◌==◌, lookup, IfDone, bind-IfDone,
  then-IfDone, if-IfDone, option-IfDone, number_key,
}
use asymmetricfs.Page.Buffer
use asymmetricfs.Kernel.{Kernel, Sys, ok, error, o_cloexec, o_directory}
use asymmetricfs.Files.{Internal, Filesystem, FileInfo, relpath}
use asymmetricfs.Files.Handles.{create, open_file, rename, release, write_at, write_file}
use asymmetricfs.Files.Directories.{
  opendir, directory_opened, stream_opened, releasedir, directory_closed,
}
use asymmetricfs.Files.Directories.Listing.{Entry, readdir}
use asymmetricfs.Files.Invariant.{IsInvariant}
use asymmetricfs.Files.Calls.{
  Call, Output, serve, helper_access, helper_chmod, helper_chown, helper_create, helper_ftruncate,
  helper_getattr, helper_link, helper_mkdir, helper_open, helper_opendir, helper_read,
  helper_readdir, helper_readlink, helper_release, helper_releasedir, helper_rename, helper_rmdir,
  helper_statfs, helper_symlink, helper_truncate, helper_unlink, helper_utimens, helper_write,
  helper_listxattr, helper_removexattr, helper_setxattr,
}
use asymmetricfs.Files.Contents.{read_file, ftruncate, truncate, getattr}
use asymmetricfs.Files.Contents.Invariants.{read_file-Fine, getattr-Fine}
use asymmetricfs.Files.Contents.Truncation.{ftruncate-Kept, truncate-Kept}

module _ (K : Kernel) (P G : Filesystem → Type 0) (inv : IsInvariant K P G) where
  open K use {State}

  write_at-Kept :
      (buffer : Memory) (size : ℕ) (offset : ℤ) (handle : ℕ) (d : Internal) (fs : Filesystem)
      (s : State)
      → P fs
      → lookup handle fs.open_fds ≡ some d
      → IfDone (λ r. P r.1) (write_at K buffer size offset handle d fs s)
  unfolding write_at
  write_at-Kept buffer size (negsuc n) handle d fs s c there = c
  write_at-Kept buffer size (pos offset) handle d fs s c there =
      then-IfDone (λ r. P r.1) (Buffer.write K.mmap d.buffer size offset buffer) _
        (λ b. inv.assigned handle d _ fs c there (refl, refl, refl, refl, refl))

  write_file-Kept :
      (buffer : Memory) (size : ℕ) (offset : ℤ) (info : FileInfo) (fs : Filesystem) (s : State)
      → P fs
      → IfDone (λ r. P r.1) (write_file K buffer size offset info fs s)
  unfolding write_file
  write_file-Kept buffer size offset info fs s c =
      option-IfDone (λ r. P r.1) (lookup info.fh fs.open_fds) _ _ (λ closed. c)
        (λ d there.
          if-IfDone (λ r. P r.1) (size == 0) _ _ (λ nothing. c)
            (λ some_bytes. write_at-Kept buffer size offset info.fh d fs s c there))

  opendir-Kept :
      (path : String) (i : FileInfo) (fs : Filesystem) (s : State)
      → P fs
      → P (opendir K path i fs s).2
  unfolding opendir directory_opened stream_opened
  opendir-Kept path i fs s c =
      by_descriptor (K.openat fs.root (relpath path) (bit_or o_cloexec o_directory) none s)
    where
      by_stream : (o : Sys ℕ × State) → P (stream_opened K path i fs o).2
      by_stream (error e, t) = c
      by_stream (ok dir, t) = inv.of_table fs _ c (refl, refl, refl)

      by_descriptor : (o : Sys ℕ × State) → P (directory_opened K path i fs o).2
      by_descriptor (error e, t) = c
      by_descriptor (ok fd, t) = by_stream (K.fdopendir fd t)

  releasedir-Kept : (i : FileInfo) (fs : Filesystem) (s : State) → P fs → P (releasedir K i fs s).1
  unfolding releasedir directory_closed
  releasedir-Kept i fs s c = by_handle (lookup i.fh fs.open_dirs) refl
    where
      by_close : (o : Sys ℕ × State) → P (directory_closed K i.fh fs o).1
      by_close (error e, t) = c
      by_close (ok n, t) = inv.of_table fs _ c (refl, refl, refl)

      by_handle : (o : Option String) → lookup i.fh fs.open_dirs ≡ o → P (releasedir K i fs s).1
      by_handle none e = rw (e, releasedir) c
      by_handle (some path) e = rw (e, releasedir) (by_close (K.closedir i.fh s))

module _ (K : Kernel) (B : Type 0) (filler : B → Entry → B × Bool) (P G : Filesystem → Type 0)
    (inv : IsInvariant K P G) where
  open K use {State}

  -- What a call returns has the property.
  abbrev pub Holds : ℤ × Output B × Filesystem × State → Type 0
  Holds (ret, out, fs, t) = P fs

  -- Every call that returns where the property and the condition hold leaves the property.
  pub serve-Holds :
      (fuel : ℕ) (b : B) (call : Call) (fs : Filesystem) (s : State)
      → P fs
      → G fs
      → IfDone (λ a. Holds a) (serve K B filler fuel b call fs s)
  unfolding serve
  serve-Holds fuel b (helper_access path mode) fs s c h = c
  serve-Holds fuel b (helper_chmod path mode) fs s c h = c
  serve-Holds fuel b (helper_chown path u g) fs s c h = c
  serve-Holds fuel b (helper_create path mode i) fs s c h =
      bind-IfDone (λ a. Holds a) (λ r. P r.2) (create K path mode i fs s) _
        (inv.created path mode i fs s c h) (λ (ret, i', fs', t) c'. c')
  serve-Holds fuel b (helper_ftruncate path offset i) fs s c h =
      bind-IfDone (λ a. Holds a) (λ r. P r.1) (ftruncate K fuel offset i fs s) _
        (ftruncate-Kept K fuel P G inv offset i fs s c) (λ (ret, fs', t) c'. c')
  serve-Holds fuel b (helper_getattr path st) fs s c h =
      bind-IfDone (λ a. Holds a) (λ r. P r.2) (getattr K fuel path st fs s) _
        (getattr-Fine K fuel P G inv path st fs s c) (λ (ret, st', fs', t) c'. c')
  serve-Holds fuel b (helper_link oldpath newpath) fs s c h = c
  serve-Holds fuel b (helper_mkdir path mode) fs s c h = c
  serve-Holds fuel b (helper_open path i) fs s c h =
      bind-IfDone (λ a. Holds a) (λ r. P r.2) (open_file K path i fs s) _
        (inv.opened path i fs s c h) (λ (ret, i', fs', t) c'. c')
  serve-Holds fuel b (helper_opendir path i) fs s c h = opendir-Kept K P G inv path i fs s c
  serve-Holds fuel b (helper_read path buffer size offset i) fs s c h =
      bind-IfDone (λ a. Holds a) (λ r. P r.2) (read_file K fuel buffer size offset i fs s) _
        (read_file-Fine K fuel P G inv buffer size offset i fs s c) (λ (ret, m, fs', t) c'. c')
  serve-Holds fuel b (helper_readdir path offset i) fs s c h =
      then-IfDone (λ a. Holds a) (readdir K B filler fuel b i fs s) _ (λ (ret, b', t). c)
  serve-Holds fuel b (helper_readlink path buffer size) fs s c h = c
  serve-Holds fuel b (helper_release path i) fs s c h =
      bind-IfDone (λ a. Holds a) (λ r. P r.1) (release K i fs s) _ (inv.released i fs s c)
        (λ (ret, fs', t) c'. c')
  serve-Holds fuel b (helper_releasedir path i) fs s c h = releasedir-Kept K P G inv i fs s c
  serve-Holds fuel b (helper_rename oldpath newpath) fs s c h =
      bind-IfDone (λ a. Holds a) (λ r. P r.1) (rename K oldpath newpath fs s) _
        (inv.renamed oldpath newpath fs s c) (λ (ret, fs', t) c'. c')
  serve-Holds fuel b (helper_rmdir path) fs s c h = c
  serve-Holds fuel b (helper_statfs path buf) fs s c h = c
  serve-Holds fuel b (helper_symlink oldpath newpath) fs s c h = c
  serve-Holds fuel b (helper_truncate path offset) fs s c h =
      bind-IfDone (λ a. Holds a) (λ r. P r.1) (truncate K fuel path offset fs s) _
        (truncate-Kept K fuel P G inv path offset fs s c) (λ (ret, fs', t) c'. c')
  serve-Holds fuel b (helper_unlink path) fs s c h = c
  serve-Holds fuel b (helper_utimens path tv) fs s c h = c
  serve-Holds fuel b (helper_write path buffer size offset i) fs s c h =
      bind-IfDone (λ a. Holds a) (λ r. P r.1) (write_file K buffer size offset i fs s) _
        (write_file-Kept K P G inv buffer size offset i fs s c) (λ (ret, fs', t) c'. c')
  serve-Holds fuel b (helper_listxattr path buffer size) fs s c h = c
  serve-Holds fuel b (helper_removexattr path name) fs s c h = c
  serve-Holds fuel b (helper_setxattr path name value size flags) fs s c h = c
