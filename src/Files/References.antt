-- ===== src/Files/References.antt =====
-- `open` of an open file takes a reference and `release` gives it back.
use Prim.Native.String.{String}
use asymmetricfs.Prelude.{
  ℕ, ◌+◌, ◌<◌, ◌≡◌, refl, ap, ◌∙◌, done, pos, false, some, ◌==◌, arith, add32, sub32, u32_mod,
  lookup, assign, text_key, number_key, lookup-assign_self, assign-assign, assign-same,
}
use asymmetricfs.Kernel.{Kernel}
use asymmetricfs.Files.{Internal, Filesystem, FileInfo}
use asymmetricfs.Files.Handles.{open_again, open_file, release, release_file}

add32_lem : (n k : ℕ) → n + k < u32_mod → add32 n k ≡ n + k
unfolding add32
add32_lem n k h = omega arith

add-sub32 : (n : ℕ) → n + 1 < u32_mod → sub32 (add32 n 1) 1 ≡ n
unfolding add32 sub32
add-sub32 n h = omega arith

module _ (K : Kernel) where
  open K use {State}

  -- With a reference that is not the last one, the table is as it was before it.
  release_file-again :
      (handle : ℕ) (d d' : Internal) (fs : Filesystem) (s : State)
      → lookup handle fs.open_fds ≡ some d
      → d' ≡ record d { references = add32 d.references 1 }
      → 0 < d.references
      → d.references + 1 < u32_mod
      → release_file K handle d' (record fs { open_fds = assign handle d' fs.open_fds }) s
        ≡ done (fs, s)
  unfolding release_file
  release_file-again handle d d' fs s there e h t =
      let back = add-sub32 d.references t in
      let more : (d.references == 0) ≡ false = ground arith in
      let same : assign handle d
            (assign handle (record d { references = add32 d.references 1 }) fs.open_fds)
          ≡ fs.open_fds =
        assign-assign handle d _ fs.open_fds ∙ assign-same handle d fs.open_fds there in
      rw (e, back, more, same) refl

  -- Let a path be open with from 1 to 2 ^ 32 - 2 references. Then open of the path returns 0 with
  -- the handle of the path, and the file has one more reference; release of the handle that it
  -- gives returns 0, and the table and the system are as they were before the open.
  pub open_file-release :
      (path : String) (info : FileInfo) (fs : Filesystem) (handle : ℕ) (d : Internal) (s : State)
      → lookup path fs.open_paths ≡ some handle
      → lookup handle fs.open_fds ≡ some d
      → 0 < d.references
      → d.references + 1 < u32_mod
      → (info' : FileInfo) × (fs' : Filesystem) × (open_file K path info fs s
          ≡ done (pos 0, info', fs', s))
        × (info'.fh ≡ handle)
        × (lookup handle fs'.open_fds ≡ some (record d { references = d.references + 1 }))
        × (release K info' fs' s ≡ done (pos 0, fs, s))
  unfolding open_file open_again release
  open_file-release path info fs handle d s listed there h t =
      let d' = record d { references = add32 d.references 1 } in
      let known = lookup-assign_self handle d' d fs.open_fds there in
      let counted : add32 d.references 1 ≡ d.references + 1 = add32_lem d.references 1 t in
      let back = release_file-again handle d d' fs s there refl h t in
      (
        record info { fh = handle },
        record fs { open_fds = assign handle d' fs.open_fds },
        rw (listed, open_file, there, open_again) refl,
        refl,
        known ∙ ap (λ n. some (record d { references = n })) counted,
        rw (known, release) (rw back refl),
      )
