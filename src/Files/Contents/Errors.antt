-- ===== src/Files/Contents/Errors.antt =====
-- How the operations that decrypt fail.
use Prim.Native.Nat.{bit_or}
use Prim.Native.String.{String}
use asymmetricfs.Prelude.{
  ℕ, suc, ◌≡◌, refl, ◌∙◌, ap, subst, Bool, if◌then◌else◌, true, false, none, ◌&&◌, not, Outcome,
  done, ◌>>=◌, ◌==◌, Memory, ℤ, pos, neg, lookup, text_key, number_key, lookup-insert_new, if_true,
  if_false, assert-true, IfDone, arith,
}
use asymmetricfs.Page.Buffer
use asymmetricfs.Page.Buffer.{PageBuffer}
use asymmetricfs.Kernel.{Kernel, Sys, ok, error, Stat, has, eio, eacces, o_creat, o_rdwr, o_cloexec}
use asymmetricfs.Files.{Internal, Filesystem, FileInfo, relpath, internal, next_fd, make_rdwr}
use asymmetricfs.Files.Handles.{
  is_empty, open_flags, add_file, openat_retry, open_as, open_file, close, destroy, encrypt,
  for_writing, close_result,
}
use asymmetricfs.Files.Table.{IsConsistent}
use asymmetricfs.Files.Loading.{load_buffer}
use asymmetricfs.Files.Loading.Results.{load_buffer-IsSame, IsSame}
use asymmetricfs.Files.Contents.{
  is_unreadable, read_at, read_file, transient, closed_again, rewrite, truncate_closed,
  truncate_path, truncate,
}
use asymmetricfs.Files.Contents.Written.{read_file_found}

module _ (K : Kernel) (fuel : ℕ) where
  open K use {State}

  read_at_denied :
      (mem : Memory) (size at handle : ℕ) (fs : Filesystem) (d : Internal) (s : State)
      → fs.read ≡ false
      → d.buffer_set ≡ false
      → has d.flags o_creat ≡ false
      → read_at K fuel mem size (pos at) handle d fs s ≡ done (neg eacces, mem, fs, s)
  unfolding read_at is_unreadable
  read_at_denied mem size at handle fs d s hidden unset old =
      if_true (not fs.read) _ _ (ap not hidden)
      ∙ if_true (is_unreadable d) _ _ (ground (arith, unset, old))

  open_file_closed :
      (path : String) (info : FileInfo) (fs : Filesystem) (s : State)
      → lookup path fs.open_paths ≡ none
      → let flags = open_flags fs.read info.flags in
        open_file K path info fs s
        ≡ open_as K path flags info fs
            (openat_retry K (fs.read && not (for_writing info.flags)) path flags none fs s)
  unfolding open_file
  open_file_closed path info fs s closed = rw (closed, open_file) refl

  openat_retry_ok :
      (retry : Bool) (path : String) (flags fd : ℕ) (fs : Filesystem) (s t : State)
      → fs.read ≡ false
      → K.openat fs.root (relpath path) flags none s ≡ (ok fd, t)
      → openat_retry K retry path flags none fs s ≡ (ok fd, t)
  unfolding openat_retry make_rdwr
  openat_retry_ok retry path flags fd fs s t hidden e =
      let plain : make_rdwr fs.read flags ≡ flags = if_true (not fs.read) _ _ (ap not hidden) in
      let same = ap (λ f. K.openat fs.root (relpath path) f none s) plain ∙ e in
      ap
        (λ (first : Sys ℕ × State). elim first.0 [
          | ok fd' ↦ first
          | error e ↦
              if retry && e == eacces
              then K.openat fs.root (relpath path) flags none first.1
              else first
        ])
        same

  -- In write-only mode, let a path that is not open be opened, on a consistent table, with flags
  -- for the system that lack O_CREAT, and let the file not be empty, or its size not be known. Then
  -- open returns 0, and every read of the handle that it gives, at an offset that is not negative,
  -- is answered -EACCES, without a call of the system, and the memory of the caller is as it was.
  pub open_file-read_denied :
      (path : String) (info : FileInfo) (fs : Filesystem) (fd : ℕ) (st : Sys Stat) (s t u : State)
      → IsConsistent fs
      → fs.read ≡ false
      → lookup path fs.open_paths ≡ none
      → has (open_flags fs.read info.flags) o_creat ≡ false
      → K.openat fs.root (relpath path) (open_flags fs.read info.flags) none s ≡ (ok fd, t)
      → K.fstat fd t ≡ (st, u)
      → is_empty st ≡ false
      → (info' : FileInfo) × (fs' : Filesystem) × (open_file K path info fs s
          ≡ done (pos 0, info', fs', u))
        × ((mem : Memory) (size at : ℕ) (v : State)
            → read_file K fuel mem size (pos at) info' fs' v ≡ done (neg eacces, mem, fs', v))
  unfolding open_file openat_retry open_as add_file next_fd internal
  open_file-read_denied path info fs fd st s t u c hidden closed old opened told filled =
      let flags = open_flags fs.read info.flags in
      let d = internal (next_fd fs).1 fd flags path (is_empty st) in
      let (info', fs') = add_file path flags fd (is_empty st) info fs in
      (
        info',
        fs',
        open_file_closed path info fs s closed
            ∙ ap (λ o. open_as K path flags info fs o)
                (openat_retry_ok _ path flags fd fs s t hidden opened)
            ∙ ap
                (λ (r : Sys Stat × State).
                  let (info'', fs'') = add_file path flags fd (is_empty r.0) info fs in
                  done (pos 0, info'', fs'', r.1))
                told,
        λ mem size at v.
            read_file_found K fuel mem size (pos at) info' fs' d v
              (lookup-insert_new fs.next d fs.open_fds (c.1 fs.next (omega arith)))
            ∙ read_at_denied mem size at fs.next fs' d v hidden filled old,
      )

  -- The file that gpg could not encrypt is closed.
  close_failed :
      (d : Internal) (fs : Filesystem) (s v : State)
      → d.is_open ≡ true
      → d.dirty ≡ true
      → encrypt K fs.options d s ≡ done (neg eio, v)
      → close K fs.options d s
        ≡ done (neg eio, record d { dirty = false; is_open = false }, (K.close d.fd v).1)
  unfolding close
  close_failed d fs s v opened changed failed =
      if_false (not d.is_open) _ _ (ap not opened)
      ∙ ap
          (λ (o : Outcome (ℤ × State)). o >>= λ (ret, t).
            let closed = K.close d.fd t in
            done
              (close_result K ret closed.0, record d { dirty = false; is_open = false }, closed.1))
          (if_true d.dirty _ _ changed ∙ failed)

  -- It is destroyed without another call of the system.
  closed_again_failed :
      (d : Internal) (fs : Filesystem) (s : State)
      → d.is_open ≡ false
      → d.references ≡ 0
      → closed_again K fs (neg eio, d, s) ≡ done (pos eio, fs, s)
  unfolding closed_again destroy close
  closed_again_failed d fs s shut none_left =
      rw (closed_again, destroy, close, shut, none_left) refl

  rewrite_failed :
      (n : ℕ) (fs : Filesystem) (d : Internal) (b : PageBuffer) (u v : State)
      → d.is_open ≡ true
      → d.references ≡ 0
      → d.buffer_set ≡ true
      → Buffer.resize d.buffer n ≡ done b
      → encrypt K fs.options (record d { buffer = b; dirty = true }) (K.lseek d.fd 0 u)
        ≡ done (neg eio, v)
      → rewrite K n fs (pos 0, d, u) ≡ done (pos eio, fs, (K.close d.fd v).1)
  unfolding rewrite
  rewrite_failed n fs d b u v opened none_left set cut failed =
      let changed = record d { buffer = b; dirty = true } in
      assert-true d.buffer_set _ set
      ∙ ap
          (λ o. o >>= λ b.
            close K fs.options (record d { buffer = b; dirty = true }) (K.lseek d.fd 0 u)
            >>= closed_again K fs)
          cut
      ∙ ap (λ o. o >>= closed_again K fs)
          (close_failed changed fs (K.lseek d.fd 0 u) v opened refl failed)
      ∙ closed_again_failed (record changed { dirty = false; is_open = false }) fs _ refl none_left

  -- Let truncate, with reading allowed, open and load a file that is not open in the table, and let
  -- its gpg for the encryption fail. Then truncate returns 5, which is not negative and so no error
  -- to the caller, and the file is closed.
  pub truncate-encrypt_failed :
      (path : String) (n fd : ℕ) (fs : Filesystem) (d : Internal) (b : PageBuffer) (s t u v : State)
      → fs.read ≡ true
      → lookup path fs.open_paths ≡ none
      → K.openat fs.root (relpath path) (bit_or o_cloexec o_rdwr) none s ≡ (ok fd, t)
      → load_buffer K fuel fs.options (transient K fs fd path) t ≡ done (pos 0, d, u)
      → d.buffer_set ≡ true
      → Buffer.resize d.buffer (suc n) ≡ done b
      → encrypt K fs.options (record d { buffer = b; dirty = true }) (K.lseek fd 0 u)
        ≡ done (neg eio, v)
      → truncate K fuel path (pos (suc n)) fs s ≡ done (pos eio, fs, (K.close fd v).1)
  unfolding truncate truncate_path truncate_closed rewrite closed_again close destroy internal
  truncate-encrypt_failed path n fd fs d b s t u v reads closed opened loaded set cut failed =
      let (same_fd, x, none_left, y, still_open) =
        subst (λ o. IfDone (λ r. IsSame (transient K fs fd path) r) o) loaded
          (load_buffer-IsSame K fuel fs.options (transient K fs fd path) t) in
      rw (closed, truncate)
        (if_true fs.read _ _ reads
          ∙ ap (truncate_closed K fuel path (suc n) fs) opened
          ∙ ap (λ o. o >>= rewrite K (suc n) fs) loaded
          ∙ rewrite_failed (suc n) fs d b u v still_open none_left set cut (
              ap (λ f. encrypt K fs.options (record d { buffer = b; dirty = true }) (K.lseek f 0 u))
                same_fd
              ∙ failed)
          ∙ ap (λ f. done (pos eio, fs, (K.close f v).1)) same_fd)
