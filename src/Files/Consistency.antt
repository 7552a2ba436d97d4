-- ===== src/Files/Consistency.antt =====
-- The operations keep the table of open files consistent, and `create`, `open` and `rename` never
-- fail an assertion on one that is.
use Prim.Native.String.{String}
use asymmetricfs.Prelude.{
  ℕ, ◌+◌, ◌<◌, ◌≡◌, refl, sym, subst, IfDone, inl, inr, Bool, true, some, Option-cases, Outcome,
  done, throws, aborts, out_of_fuel, ◌>>=◌, Bool-cases, ◌==◌, sub32, ℤ, pos, neg, u64_mod,
  add64_lem, lookup, text_key, number_key,
}
use asymmetricfs.Kernel.{Kernel, Sys, ok, error}
use asymmetricfs.Files.{Internal, Filesystem, FileInfo, internal, next_fd}
use asymmetricfs.Files.Handles.{
  add_file, create_as, create, open_as, open_again, open_file, rename_open, rename_as, rename,
  release, release_file,
}
use asymmetricfs.Files.Invariant.{HasTable, IsInvariant}
use asymmetricfs.Files.Loading.Results.{IsSameFile}
use asymmetricfs.Files.Contents.{assign_file}
use asymmetricfs.Files.Table.{
  IsConsistent, insert-IsListed, insert-IsFresh, assign-IsListed, assign-IsFresh, erase-IsListed,
  erase-IsFresh, rename-IsListed,
}

add_file-IsConsistent :
    (path : String) (flags fd : ℕ) (buffer_set : Bool) (info : FileInfo) (fs : Filesystem)
    → IsConsistent fs
    → fs.next + 1 < u64_mod
    → IsConsistent (add_file path flags fd buffer_set info fs).1
unfolding add_file internal next_fd
add_file-IsConsistent path flags fd buffer_set info fs (listed, fresh) h = (
  insert-IsListed path fs.next _ fs.open_paths fs.open_fds listed fresh refl,
  rw (add64_lem fs.next 1 h) (insert-IsFresh fs.next _ fs.open_fds fresh),
)

-- The counter has not come to its end.
abbrev pub HasHandle : Filesystem → Type 0
HasHandle fs = fs.next + 1 < u64_mod

module _ (K : Kernel) where
  open K use {State}

  -- An operation returns, with a consistent table.
  abbrev pub Returns : Outcome (ℤ × FileInfo × Filesystem × State) → Type 0
  Returns r =
      (ret : ℤ) × (info : FileInfo) × (fs : Filesystem) × (t : State) × (r
        ≡ done (ret, info, fs, t))
      × IsConsistent fs

  create_as-Returns :
      (path : String) (info : FileInfo) (fs : Filesystem) (o : Sys ℕ × State)
      → IsConsistent fs
      → fs.next + 1 < u64_mod
      → Returns (create_as K path info fs o)
  unfolding create_as
  create_as-Returns path info fs (error e, t) c h = (neg e, info, fs, t, refl, c)
  create_as-Returns path info fs (ok fd, t) c h =
      let added = add_file path info.flags fd true info fs in
      (pos 0, added.0, added.1, t, refl, add_file-IsConsistent path info.flags fd true info fs c h)

  -- On a consistent table, with a handle left, `create` returns and the table is consistent.
  pub create-Returns :
      (path : String) (mode : ℕ) (info : FileInfo) (fs : Filesystem) (s : State)
      → IsConsistent fs
      → fs.next + 1 < u64_mod
      → Returns (create K path mode info fs s)
  unfolding create
  create-Returns path mode info fs s c h = create_as-Returns path _ fs _ c h

  open_as-Returns :
      (path : String) (flags : ℕ) (info : FileInfo) (fs : Filesystem) (o : Sys ℕ × State)
      → IsConsistent fs
      → fs.next + 1 < u64_mod
      → Returns (open_as K path flags info fs o)
  unfolding open_as
  open_as-Returns path flags info fs (error e, t) c h = (neg e, info, fs, t, refl, c)
  open_as-Returns path flags info fs (ok fd, t) c h =
      (pos 0, _, _, _, refl, add_file-IsConsistent path flags fd _ info fs c h)

  open_again-Returns :
      (handle : ℕ) (d : Internal) (info : FileInfo) (fs : Filesystem) (s : State)
      → IsConsistent fs
      → lookup handle fs.open_fds ≡ some d
      → Returns (open_again K handle info fs s)
  unfolding open_again
  open_again-Returns handle d info fs s (listed, fresh) there =
      rw (there, open_again)
        (
          pos 0,
          _,
          _,
          s,
          refl,
          (
            assign-IsListed handle d _ fs.open_paths fs.open_fds listed there refl,
            assign-IsFresh fs.next handle d _ fs.open_fds fresh there,
          ),
        )

  -- On a consistent table, with a handle left, open returns (its assertion holds) and leaves the
  -- table consistent, whatever the system answers.
  pub open_file-Returns :
      (path : String) (info : FileInfo) (fs : Filesystem) (s : State)
      → IsConsistent fs
      → fs.next + 1 < u64_mod
      → Returns (open_file K path info fs s)
  unfolding open_file
  open_file-Returns path info fs s c h = elim (Option-cases (lookup path fs.open_paths)) [
    | inl closed ↦ rw (closed, open_file) (open_as-Returns path _ info fs _ c h)
    | inr (handle, listed) ↦
        let (d, there, e) = c.0 path handle listed in
        rw (listed, open_file) (open_again-Returns handle d info fs s c there)
  ]

  -- A renaming returns, with a consistent table.
  abbrev pub Renames : Outcome (ℤ × Filesystem × State) → Type 0
  Renames r =
      (ret : ℤ) × (fs : Filesystem) × (t : State) × (r ≡ done (ret, fs, t)) × IsConsistent fs

  rename_open-IsConsistent :
      (oldpath newpath : String) (handle : ℕ) (fs : Filesystem)
      → IsConsistent fs
      → lookup oldpath fs.open_paths ≡ some handle
      → (fs' : Filesystem) × (rename_open K oldpath newpath handle fs ≡ done fs') × IsConsistent fs'
  unfolding rename_open
  rename_open-IsConsistent oldpath newpath handle fs (listed, fresh) found =
      let (d, there, e) = listed oldpath handle found in
      rw (there, rename_open)
        (
          _,
          refl,
          (
            rename-IsListed oldpath newpath handle d _ fs.open_paths fs.open_fds listed there e
                refl,
            assign-IsFresh fs.next handle d _ fs.open_fds fresh there,
          ),
        )

  rename_as-Renames :
      (oldpath newpath : String) (fs : Filesystem) (o : Sys ℕ × State)
      → IsConsistent fs
      → Renames (rename_as K oldpath newpath fs o)
  unfolding rename_as
  rename_as-Renames oldpath newpath fs (error e, t) c = (neg e, fs, t, refl, c)
  rename_as-Renames oldpath newpath fs (ok n, t) c =
      elim (Option-cases (lookup oldpath fs.open_paths)) [
        | inl closed ↦ rw (closed, rename_as) (pos 0, fs, t, refl, c)
        | inr (handle, found) ↦
            let (fs', e, c') = rename_open-IsConsistent oldpath newpath handle fs c found in
            rw (found, rename_as, e) (pos 0, fs', t, refl, c')
      ]

  -- On a consistent table rename returns (its assertion holds) and leaves the table consistent,
  -- whatever the system answers.
  pub rename-Renames :
      (oldpath newpath : String) (fs : Filesystem) (s : State)
      → IsConsistent fs
      → Renames (rename K oldpath newpath fs s)
  unfolding rename
  rename-Renames oldpath newpath fs s c = rename_as-Renames oldpath newpath fs _ c

  -- If the operation returns, then with a consistent table.
  abbrev pub Keeps : Outcome (ℤ × Filesystem × State) → Type 0
  Keeps (done (ret, fs, t)) = IsConsistent fs
  Keeps r = Unit

  abbrev KeepsFile : Outcome (Filesystem × State) → Type 0
  KeepsFile (done (fs, t)) = IsConsistent fs
  KeepsFile r = Unit

  after_destroy :
      (fs : Filesystem) (o : Outcome State) → IsConsistent fs → KeepsFile (o >>= λ t. done (fs, t))
  after_destroy fs (done t) c = c
  after_destroy fs (throws e) c = tt
  after_destroy fs aborts c = tt
  after_destroy fs out_of_fuel c = tt

  release_file-KeepsFile :
      (handle : ℕ) (d : Internal) (fs : Filesystem) (s : State)
      → IsConsistent fs
      → lookup handle fs.open_fds ≡ some d
      → KeepsFile (release_file K handle d fs s)
  unfolding release_file
  release_file-KeepsFile handle d fs s (listed, fresh) there =
      elim (Bool-cases (sub32 d.references 1 == 0)) [
        | inl final ↦
            rw (final, release_file)
              (after_destroy _ _ (
                erase-IsListed handle d fs.open_paths fs.open_fds listed there,
                erase-IsFresh fs.next handle fs.open_fds fresh,
              ))
        | inr more ↦
            rw (more, release_file)
              (
                assign-IsListed handle d _ fs.open_paths fs.open_fds listed there refl,
                assign-IsFresh fs.next handle d _ fs.open_fds fresh there,
              )
      ]

  after_release :
      (o : Outcome (Filesystem × State))
      → KeepsFile o
      → Keeps (o >>= λ (fs, t). done (pos 0, fs, t))
  after_release (done (fs, t)) c = c
  after_release (throws e) c = tt
  after_release aborts c = tt
  after_release out_of_fuel c = tt

  -- If `release` returns on a consistent table, the table is consistent.
  pub release-Keeps :
      (info : FileInfo) (fs : Filesystem) (s : State)
      → IsConsistent fs
      → Keeps (release K info fs s)
  unfolding release
  release-Keeps info fs s c = elim (Option-cases (lookup info.fh fs.open_fds)) [
    | inl closed ↦ rw (closed, release) c
    | inr (d, there) ↦
        rw (there, release) (after_release _ (release_file-KeepsFile info.fh d fs s c there))
  ]

  IsConsistent-of_table :
      (fs fs' : Filesystem) → IsConsistent fs → HasTable fs fs' → IsConsistent fs'
  IsConsistent-of_table fs fs' c (paths, fds, next) = rw (paths, fds, next) c

  assign_file-IsConsistent :
      (handle : ℕ) (d d' : Internal) (fs : Filesystem)
      → IsConsistent fs
      → lookup handle fs.open_fds ≡ some d
      → IsSameFile d d'
      → IsConsistent (assign_file handle d' fs)
  assign_file-IsConsistent handle d d' fs (listed, fresh) there (a, b, c, path, o) = (
    assign-IsListed handle d d' fs.open_paths fs.open_fds listed there path,
    assign-IsFresh fs.next handle d d' fs.open_fds fresh there,
  )

  from_Returns :
      (r : Outcome (ℤ × FileInfo × Filesystem × State))
      → Returns r
      → IfDone (λ a. IsConsistent a.2) r
  from_Returns r (ret, info, fs, t, e, c) =
      subst (λ o. IfDone (λ a. IsConsistent a.2) o) {x = done (ret, info, fs, t)} (sym e) c

  from_Renames :
      (r : Outcome (ℤ × Filesystem × State)) → Renames r → IfDone (λ a. IsConsistent a.1) r
  from_Renames r (ret, fs, t, e, c) =
      subst (λ o. IfDone (λ a. IsConsistent a.1) o) {x = done (ret, fs, t)} (sym e) c

  from_Keeps : (r : Outcome (ℤ × Filesystem × State)) → Keeps r → IfDone (λ a. IsConsistent a.1) r
  from_Keeps (done (ret, fs, t)) c = c
  from_Keeps aborts c = tt
  from_Keeps (throws e) c = tt
  from_Keeps out_of_fuel c = tt

  -- Consistency is an invariant while handles are left.
  pub IsConsistent-IsInvariant : IsInvariant K IsConsistent HasHandle
  IsConsistent-IsInvariant = record {
    of_table = IsConsistent-of_table;
    assigned = assign_file-IsConsistent;
    created = λ path mode info fs s c h.
        from_Returns (create K path mode info fs s) (create-Returns path mode info fs s c h);
    opened = λ path info fs s c h.
        from_Returns (open_file K path info fs s) (open_file-Returns path info fs s c h);
    released = λ info fs s c. from_Keeps (release K info fs s) (release-Keeps info fs s c);
    renamed = λ oldpath newpath fs s c.
        from_Renames (rename K oldpath newpath fs s) (rename-Renames oldpath newpath fs s c);
  }
