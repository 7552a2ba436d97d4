-- ===== src/Files/Live.antt =====
-- The files of the table are open and have a reference.
use Prim.Native.String.{String}
use asymmetricfs.Prelude.{
  ℕ, ◌+◌, ◌<◌, ◌≡◌, refl, ◌∙◌, Bool, true, some, ◌==◌, arith, IfDone, bind-IfDone, then-IfDone,
  if-IfDone, option-IfDone, add32, sub32, u32_mod, lookup, text_key, number_key,
}
use asymmetricfs.Kernel.{Kernel, Sys, ok, error}
use asymmetricfs.Files.{Options, Internal, Filesystem, FileInfo, filesystem, internal, next_fd}
use asymmetricfs.Files.Handles.{
  add_file, create_as, create, open_as, open_again, open_file, destroy, release_file, release,
  rename_open, rename_as, rename,
}
use asymmetricfs.Files.Loading.Results.{IsSameFile}
use asymmetricfs.Files.Contents.{assign_file}
use asymmetricfs.Files.Invariant.{HasTable, IsInvariant}
use asymmetricfs.Files.Directories.Listing.{Entry}
use asymmetricfs.Files.Steps.{Reachable, Reachable-Holds}
use asymmetricfs.Files.Every.{Every, insert-Every, assign-Every, erase-Every}

abbrev pub IsLive : Internal → Type 0
IsLive d = (0 < d.references) × (d.is_open ≡ true)

abbrev pub AreLive : Filesystem → Type 0
AreLive fs = Every IsLive fs.open_fds

-- No count of references is at its end.
abbrev pub HasReferencesLeft : Filesystem → Type 0
HasReferencesLeft fs = Every (λ d. d.references + 1 < u32_mod) fs.open_fds

add_file-AreLive :
    (path : String) (flags fd : ℕ) (buffer_set : Bool) (info : FileInfo) (fs : Filesystem)
    → AreLive fs
    → AreLive (add_file path flags fd buffer_set info fs).1
unfolding add_file internal next_fd
add_file-AreLive path flags fd buffer_set info fs live =
    insert-Every IsLive fs.next _ fs.open_fds live (omega arith, refl)

module _ (K : Kernel) where
  open K use {State}

  create_as-AreLive :
      (path : String) (info : FileInfo) (fs : Filesystem) (o : Sys ℕ × State)
      → AreLive fs
      → IfDone (λ r. AreLive r.2) (create_as K path info fs o)
  unfolding create_as
  create_as-AreLive path info fs (error e, t) live = live
  create_as-AreLive path info fs (ok fd, t) live =
      add_file-AreLive path info.flags fd true info fs live

  create-AreLive :
      (path : String) (mode : ℕ) (info : FileInfo) (fs : Filesystem) (s : State)
      → AreLive fs
      → HasReferencesLeft fs
      → IfDone (λ r. AreLive r.2) (create K path mode info fs s)
  unfolding create
  create-AreLive path mode info fs s live left = create_as-AreLive path _ fs _ live

  open_as-AreLive :
      (path : String) (flags : ℕ) (info : FileInfo) (fs : Filesystem) (o : Sys ℕ × State)
      → AreLive fs
      → IfDone (λ r. AreLive r.2) (open_as K path flags info fs o)
  unfolding open_as
  open_as-AreLive path flags info fs (error e, t) live = live
  open_as-AreLive path flags info fs (ok fd, t) live = add_file-AreLive path flags fd _ info fs live

  open_again-AreLive :
      (handle : ℕ) (info : FileInfo) (fs : Filesystem) (s : State)
      → AreLive fs
      → HasReferencesLeft fs
      → IfDone (λ r. AreLive r.2) (open_again K handle info fs s)
  unfolding open_again add32
  open_again-AreLive handle info fs s live left =
      option-IfDone (λ r. AreLive r.2) (lookup handle fs.open_fds) _ _ (λ closed. tt)
        (λ d there.
          let few = left handle d there in
          assign-Every IsLive handle d _ fs.open_fds live there
            (omega arith, (live handle d there).1))

  open_file-AreLive :
      (path : String) (info : FileInfo) (fs : Filesystem) (s : State)
      → AreLive fs
      → HasReferencesLeft fs
      → IfDone (λ r. AreLive r.2) (open_file K path info fs s)
  unfolding open_file
  open_file-AreLive path info fs s live left =
      option-IfDone (λ r. AreLive r.2) (lookup path fs.open_paths) _ _
        (λ closed. open_as-AreLive path _ info fs _ live)
        (λ handle listed. open_again-AreLive handle info fs s live left)

  release_file-AreLive :
      (handle : ℕ) (d : Internal) (fs : Filesystem) (s : State)
      → AreLive fs
      → lookup handle fs.open_fds ≡ some d
      → IfDone (λ r. AreLive r.0) (release_file K handle d fs s)
  unfolding release_file
  release_file-AreLive handle d fs s live there =
      if-IfDone (λ r. AreLive r.0) (sub32 d.references 1 == 0) _ _
        (λ final.
          then-IfDone (λ r. AreLive r.0) (destroy K fs.options _ s) _
            (λ t. erase-Every IsLive handle fs.open_fds live))
        (λ more.
          assign-Every IsLive handle d _ fs.open_fds live there
            (ground arith, (live handle d there).1))

  release-AreLive :
      (info : FileInfo) (fs : Filesystem) (s : State)
      → AreLive fs
      → IfDone (λ r. AreLive r.1) (release K info fs s)
  unfolding release
  release-AreLive info fs s live =
      option-IfDone (λ r. AreLive r.1) (lookup info.fh fs.open_fds) _ _ (λ closed. live)
        (λ d there.
          bind-IfDone (λ r. AreLive r.1) (λ r. AreLive r.0) (release_file K info.fh d fs s) _
            (release_file-AreLive info.fh d fs s live there) (λ (fs', t) live'. live'))

  rename_open-AreLive :
      (oldpath newpath : String) (handle : ℕ) (fs : Filesystem)
      → AreLive fs
      → IfDone (λ fs'. AreLive fs') (rename_open K oldpath newpath handle fs)
  unfolding rename_open
  rename_open-AreLive oldpath newpath handle fs live =
      option-IfDone (λ fs'. AreLive fs') (lookup handle fs.open_fds) _ _ (λ closed. tt)
        (λ d there. assign-Every IsLive handle d _ fs.open_fds live there (live handle d there))

  rename_as-AreLive :
      (oldpath newpath : String) (fs : Filesystem) (o : Sys ℕ × State)
      → AreLive fs
      → IfDone (λ r. AreLive r.1) (rename_as K oldpath newpath fs o)
  unfolding rename_as
  rename_as-AreLive oldpath newpath fs (error e, t) live = live
  rename_as-AreLive oldpath newpath fs (ok n, t) live =
      option-IfDone (λ r. AreLive r.1) (lookup oldpath fs.open_paths) _ _ (λ closed. live)
        (λ handle found.
          bind-IfDone (λ r. AreLive r.1) (λ fs'. AreLive fs')
            (rename_open K oldpath newpath handle fs) _
            (rename_open-AreLive oldpath newpath handle fs live) (λ fs' live'. live'))

  rename-AreLive :
      (oldpath newpath : String) (fs : Filesystem) (s : State)
      → AreLive fs
      → IfDone (λ r. AreLive r.1) (rename K oldpath newpath fs s)
  unfolding rename
  rename-AreLive oldpath newpath fs s live = rename_as-AreLive oldpath newpath fs _ live

  assign_file-AreLive :
      (handle : ℕ) (d d' : Internal) (fs : Filesystem)
      → AreLive fs
      → lookup handle fs.open_fds ≡ some d
      → IsSameFile d d'
      → AreLive (assign_file handle d' fs)
  assign_file-AreLive handle d d' fs live there (a, b, references, c, is_open) =
      let before = live handle d there in
      assign-Every IsLive handle d d' fs.open_fds live there (omega arith, is_open ∙ before.1)

  of_table-AreLive : (fs fs' : Filesystem) → AreLive fs → HasTable fs fs' → AreLive fs'
  of_table-AreLive fs fs' live (paths, fds, next) = rw fds live

  AreLive-IsInvariant : IsInvariant K AreLive HasReferencesLeft
  AreLive-IsInvariant = record {
    of_table = of_table-AreLive;
    assigned = assign_file-AreLive;
    created = create-AreLive;
    opened = open_file-AreLive;
    released = release-AreLive;
    renamed = rename-AreLive;
  }

  constructed-AreLive : (options : Options) (page_size : ℕ) → AreLive (filesystem options page_size)
  unfolding filesystem lookup
  constructed-AreLive options page_size handle d found = ground arith

  -- In every state that calls of FUSE and changes of the configuration lead to from the
  -- constructor, with other programs between them and while no count of references is at its end,
  -- every file of the table is open and has a reference.
  pub Reachable-AreLive :
      (B : Type 0) (filler : B → Entry → B × Bool) (fs : Filesystem) (s : State)
      → Reachable K B filler HasReferencesLeft fs s
      → AreLive fs
  Reachable-AreLive B filler fs s r =
      Reachable-Holds K B filler HasReferencesLeft AreLive AreLive-IsInvariant constructed-AreLive
        fs s r
