-- ===== src/Files/Directories.antt =====
-- `opendir` and `releasedir`, and the map of open directories.
pub mod Listing
use Prim.Native.Nat.{bit_or}
use Prim.Native.String.{String}
use asymmetricfs.Prelude.{
  ℕ, ◌≡◌, refl, none, some, ℤ, pos, neg, lookup, erase, put, erase-put, lookup-put_self, number_key,
  ap,
}
use asymmetricfs.Kernel.{Kernel, Sys, ok, error, ebadf, o_cloexec, o_directory}
use asymmetricfs.Files.{Filesystem, FileInfo, relpath}

module _ (K : Kernel) where
  open K use {State}

  -- A directory stream is its handle. If there is none, the descriptor stays open.
  unfoldable pub stream_opened :
      String → FileInfo → Filesystem → Sys ℕ × State → ℤ × FileInfo × Filesystem × State
  stream_opened path info fs (error e, s) = (neg e, info, fs, s)
  stream_opened path info fs (ok dir, s) = (
    pos 0,
    record info { fh = dir },
    record fs { open_dirs = put dir (relpath path) fs.open_dirs },
    s,
  )

  unfoldable pub directory_opened :
      String → FileInfo → Filesystem → Sys ℕ × State → ℤ × FileInfo × Filesystem × State
  directory_opened path info fs (error e, s) = (neg e, info, fs, s)
  directory_opened path info fs (ok fd, s) = stream_opened path info fs (K.fdopendir fd s)

  unfoldable pub opendir :
      String → FileInfo → Filesystem → State → ℤ × FileInfo × Filesystem × State
  opendir path info fs s =
      directory_opened path info fs
        (K.openat fs.root (relpath path) (bit_or o_cloexec o_directory) none s)

  unfoldable pub directory_closed : ℕ → Filesystem → Sys ℕ × State → ℤ × Filesystem × State
  directory_closed handle fs (error e, s) = (neg e, fs, s)
  directory_closed handle fs (ok n, s) =
      (pos 0, record fs { open_dirs = erase handle fs.open_dirs }, s)

  unfoldable pub releasedir : FileInfo → Filesystem → State → ℤ × Filesystem × State
  releasedir info fs s = elim (lookup info.fh fs.open_dirs) [
    | none ↦ (neg ebadf, fs, s)
    | some path ↦ directory_closed info.fh fs (K.closedir info.fh s)
  ]

  releasedir-put :
      (path : String) (info : FileInfo) (fs : Filesystem) (dir n : ℕ) (s t : State)
      → K.closedir dir s ≡ (ok n, t)
      → lookup dir fs.open_dirs ≡ none
      → releasedir
          (record info { fh = dir })
          (record fs { open_dirs = put dir path fs.open_dirs })
          s
        ≡ (pos 0, fs, t)
  unfolding releasedir directory_closed
  releasedir-put path info fs dir n s t e h =
      rw (lookup-put_self dir path fs.open_dirs, releasedir, e)
        (ap (λ m. (pos 0, record fs { open_dirs = m }, t)) (erase-put dir path fs.open_dirs h))

  -- Let the system open a directory under a handle that is not in use, and close it. Then opendir
  -- returns 0, and releasedir of the handle that it gives returns 0 and leaves the file system as
  -- it was.
  pub opendir-releasedir :
      (path : String) (info : FileInfo) (fs : Filesystem) (fd dir n : ℕ) (s s1 s2 s3 : State)
      → K.openat fs.root (relpath path) (bit_or o_cloexec o_directory) none s ≡ (ok fd, s1)
      → K.fdopendir fd s1 ≡ (ok dir, s2)
      → K.closedir dir s2 ≡ (ok n, s3)
      → lookup dir fs.open_dirs ≡ none
      → (info' : FileInfo) × (fs' : Filesystem) × (opendir path info fs s ≡ (pos 0, info', fs', s2))
        × (releasedir info' fs' s2 ≡ (pos 0, fs, s3))
  unfolding opendir directory_opened stream_opened
  opendir-releasedir path info fs fd dir n s s1 s2 s3 e1 e2 e3 h = (
    record info { fh = dir },
    record fs { open_dirs = put dir (relpath path) fs.open_dirs },
    rw (e1, directory_opened, e2) refl,
    releasedir-put (relpath path) info fs dir n s2 s3 e3 h,
  )
