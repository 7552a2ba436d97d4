-- ===== src/Files/Invariant.antt =====
-- What a property of the table of open files needs to be an invariant: the operations that change
-- the table keep it, where a condition holds before.
use Prim.Native.String.{String}
use asymmetricfs.Prelude.{ℕ, ◌≡◌, some, IfDone, lookup, number_key}
use asymmetricfs.Kernel.{Kernel}
use asymmetricfs.Files.{Internal, Filesystem, FileInfo}
use asymmetricfs.Files.Handles.{create, open_file, release, rename}
use asymmetricfs.Files.Loading.Results.{IsSameFile}
use asymmetricfs.Files.Contents.{assign_file}

-- The two have the same table and the same counter.
abbrev pub HasTable : Filesystem → Filesystem → Type 0
HasTable fs fs' =
    (fs'.open_paths ≡ fs.open_paths) × (fs'.open_fds ≡ fs.open_fds) × (fs'.next ≡ fs.next)

-- `P` is the invariant, and `G` the condition before a call that opens a file.
pub record IsInvariant (K : Kernel) (P G : Filesystem → Type 0) : Type 0 where
  pub of_table : (fs fs' : Filesystem) → P fs → HasTable fs fs' → P fs'
  pub assigned :
      (handle : ℕ) (d d' : Internal) (fs : Filesystem)
      → P fs
      → lookup handle fs.open_fds ≡ some d
      → IsSameFile d d'
      → P (assign_file handle d' fs)
  pub created :
      (path : String) (mode : ℕ) (info : FileInfo) (fs : Filesystem) (s : K.State)
      → P fs
      → G fs
      → IfDone (λ r. P r.2) (create K path mode info fs s)
  pub opened :
      (path : String) (info : FileInfo) (fs : Filesystem) (s : K.State)
      → P fs
      → G fs
      → IfDone (λ r. P r.2) (open_file K path info fs s)
  pub released :
      (info : FileInfo) (fs : Filesystem) (s : K.State)
      → P fs
      → IfDone (λ r. P r.1) (release K info fs s)
  pub renamed :
      (oldpath newpath : String) (fs : Filesystem) (s : K.State)
      → P fs
      → IfDone (λ r. P r.1) (rename K oldpath newpath fs s)
