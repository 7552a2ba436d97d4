-- ===== src/Files/Renaming.antt =====
-- What `rename` does to the paths of open files, and what `access` and the flags of `open` do in
-- the two modes.
use Prim.Native.Nat.{bit_and, bit_or}
use Prim.Native.String.{String}
use asymmetricfs.Prelude.{
  ℕ, ◌-◌, ◌^◌, ◌≡◌, refl, ap, ◌∙◌, ◌≢◌, ◌<◌, ◌/◌, ◌%◌, inl, inr, done, pos, neg, true, false, some,
  none, ◌==◌, lookup, insert, erase, text_key, number_key, lookup-insert_old, lookup-assign_self,
  lookup-erase_self, lookup-erase_other, ◌⊎◌, Option-cases, Bool-cases, bit_and-zero,
  bit_and-ones32, bit_and-even32, bit_or-two, ◌*◌, ◌+◌, arith,
}
use asymmetricfs.Kernel.{Kernel, ok, has, r_ok, eacces, o_append, o_creat, o_rdwr}
use asymmetricfs.Files.{Internal, Filesystem, relpath, make_rdwr}
use asymmetricfs.Files.Handles.{
  rename_open, rename_as, rename, access_denied, access_open, access, answer,
}
use asymmetricfs.Files.Table.{IsConsistent}

module _ (K : Kernel) where
  open K use {State}

  -- The handle leads to a file with that path.
  abbrev pub IsOpenAs : ℕ → String → Filesystem → Type 0
  IsOpenAs handle path fs = (d : Internal) × (lookup handle fs.open_fds ≡ some d) × (d.path ≡ path)

  -- The paths after a renaming that the system has made.
  rename-paths :
      (oldpath newpath : String) (handle : ℕ) (fs : Filesystem) (s t : State) (n : ℕ)
      → IsConsistent fs
      → K.renameat fs.root (relpath oldpath) fs.root (relpath newpath) s ≡ (ok n, t)
      → lookup oldpath fs.open_paths ≡ some handle
      → (fs' : Filesystem) × (rename K oldpath newpath fs s ≡ done (pos 0, fs', t))
        × (fs'.open_paths ≡ erase oldpath (insert newpath handle fs.open_paths))
        × IsOpenAs handle newpath fs'
  unfolding rename rename_as rename_open
  rename-paths oldpath newpath handle fs s t n c e found =
      let (d, there, q) = c.0 oldpath handle found in
      rw (e, rename_as, found, rename_open, there)
        (
          _,
          refl,
          refl,
          (
            record d { path = newpath },
            lookup-assign_self handle (record d { path = newpath }) d fs.open_fds there,
            refl,
          ),
        )

  -- On a consistent table, let the system rename an open file onto another path that is open. Then
  -- rename returns 0, the old path is not in the map of open paths, the new one still leads to the
  -- handle of the file that was replaced, and the handle of the renamed one to a file with the new
  -- path.
  pub rename_onto_open :
      (oldpath newpath : String) (handle replaced : ℕ) (fs : Filesystem) (s t : State) (n : ℕ)
      → IsConsistent fs
      → K.renameat fs.root (relpath oldpath) fs.root (relpath newpath) s ≡ (ok n, t)
      → lookup oldpath fs.open_paths ≡ some handle
      → lookup newpath fs.open_paths ≡ some replaced
      → oldpath ≢ newpath
      → (fs' : Filesystem) × (rename K oldpath newpath fs s ≡ done (pos 0, fs', t))
        × (lookup oldpath fs'.open_paths ≡ none)
        × (lookup newpath fs'.open_paths ≡ some replaced)
        × IsOpenAs handle newpath fs'
  rename_onto_open oldpath newpath handle replaced fs s t n c e found there apart =
      let (fs', r, paths, opened) = rename-paths oldpath newpath handle fs s t n c e found in
      let same = lookup-insert_old newpath handle replaced fs.open_paths there in
      (
        fs',
        r,
        ap (lookup oldpath) paths ∙ lookup-erase_self oldpath (insert newpath handle fs.open_paths),
        ap (lookup newpath) paths
            ∙ lookup-erase_other oldpath newpath (insert newpath handle fs.open_paths) apart
            ∙ ap (lookup newpath) same
            ∙ there,
        opened,
      )

  -- On a consistent table, let the system rename an open file to its own path. Then rename returns
  -- 0, the path is not in the map of open paths, and the handle still leads to a file with that
  -- path.
  pub rename_self :
      (path : String) (handle : ℕ) (fs : Filesystem) (s t : State) (n : ℕ)
      → IsConsistent fs
      → K.renameat fs.root (relpath path) fs.root (relpath path) s ≡ (ok n, t)
      → lookup path fs.open_paths ≡ some handle
      → (fs' : Filesystem) × (rename K path path fs s ≡ done (pos 0, fs', t))
        × (lookup path fs'.open_paths ≡ none)
        × IsOpenAs handle path fs'
  rename_self path handle fs s t n c e found =
      let (fs', r, paths, opened) = rename-paths path path handle fs s t n c e found in
      (
        fs',
        r,
        ap (lookup path) paths ∙ lookup-erase_self path (insert path handle fs.open_paths),
        opened,
      )

  -- When `access` in write-only mode lets a question for reading through to the system: the path
  -- is open, with a file that was created here and is not for appending.
  abbrev pub IsReadable : String → Filesystem → Type 0
  IsReadable path fs =
      (handle : ℕ) × (d : Internal) × (lookup path fs.open_paths ≡ some handle)
      × (lookup handle fs.open_fds ≡ some d)
      × (has d.flags o_append ≡ false)
      × ((bit_and d.flags o_creat == 0) ≡ false)

  access_open_lem :
      (path : String) (handle : ℕ) (d : Internal) (fs : Filesystem)
      → lookup path fs.open_paths ≡ some handle
      → lookup handle fs.open_fds ≡ some d
      → ((access_open K handle fs ≡ some (neg eacces)) × ¬ IsReadable path fs)
        ⊎ ((access_open K handle fs ≡ none) × IsReadable path fs)
  unfolding access_open
  access_open_lem path handle d fs found there = elim (Bool-cases (has d.flags o_append)) [
    | inl append ↦ inl (rw (there, access_open, append) refl, λ (h, e, f, g, plain, new). cc)
    | inr plain ↦ elim (Bool-cases (bit_and d.flags o_creat == 0)) [
      | inl old ↦ inl (rw (there, access_open, plain, old) refl, λ (h, e, f, g, p, new). cc)
      | inr new ↦
          inr (rw (there, access_open, plain, new) refl, (handle, d, found, there, plain, new))
    ]
  ]

  access_denied-open :
      (path : String) (mode handle : ℕ) (fs : Filesystem)
      → fs.read ≡ false
      → has mode r_ok ≡ true
      → lookup path fs.open_paths ≡ some handle
      → access_denied K path mode fs ≡ access_open K handle fs
  unfolding access_denied access_open
  access_denied-open path mode handle fs h m found = rw (h, m, found) refl

  -- On a consistent table in write-only mode, let access be asked for reading. If the path is open
  -- with a file that was opened with O_CREAT and without O_APPEND, access gives the answer of the
  -- system. If not, access gives -EACCES and does not ask the system.
  pub access_lem :
      (path : String) (mode : ℕ) (fs : Filesystem) (s : State)
      → IsConsistent fs
      → fs.read ≡ false
      → has mode r_ok ≡ true
      → ((access K path mode fs s ≡ (neg eacces, s)) × ¬ IsReadable path fs)
        ⊎ ((access K path mode fs s ≡ answer K (K.faccessat fs.root (relpath path) mode 0 s))
            × IsReadable path fs)
  unfolding access access_denied access_open
  access_lem path mode fs s c h m = elim (Option-cases (lookup path fs.open_paths)) [
    | inl closed ↦
        let denied : access_denied K path mode fs ≡ some (neg eacces) = rw (h, m, closed) refl in
        inl (rw (denied, access) refl, λ (handle, d, found, there, plain, new). cc)
    | inr (handle, found) ↦
        let (d, there, q) = c.0 path handle found in
        let asked = access_denied-open path mode handle fs h m found in
        elim (access_open_lem path handle d fs found there) [
          | inl (denied, other) ↦ inl (rw (asked ∙ denied, access) refl, other)
          | inr (granted, readable) ↦ inr (rw (asked ∙ granted, access) refl, readable)
        ]
  ]

-- Let the flags be below 2 ^ 32. With reading allowed, make_rdwr gives flags whose access mode, the
-- lowest two bits, is O_RDWR, whatever it was, reading only too, and whose other bits are those of
-- the flags. With reading not allowed it gives the flags.
pub make_rdwr_lem :
    (flags : ℕ)
    → flags < 2 ^ 32
    → (make_rdwr true flags % 4 ≡ o_rdwr)
      × (make_rdwr true flags / 4 ≡ flags / 4)
      × (make_rdwr false flags ≡ flags)
unfolding make_rdwr
make_rdwr_lem flags h =
    let cleared = bit_and (bit_and flags (2 ^ 32 - 1)) (2 ^ 32 - 2) in
    let moded : make_rdwr true flags ≡ bit_or cleared o_rdwr = rw (bit_and-zero flags) refl in
    let even : cleared ≡ flags / 2 * 2 =
      ap (λ x. bit_and x (2 ^ 32 - 2)) (bit_and-ones32 flags h) ∙ bit_and-even32 flags h in
    let whole : make_rdwr true flags ≡ flags / 2 * 2 / 4 * 4 + 2 + flags / 2 * 2 % 2 =
      moded ∙ ap (λ x. bit_or x o_rdwr) even ∙ bit_or-two (flags / 2 * 2) in
    (omega (arith, whole), omega (arith, whole), refl)
