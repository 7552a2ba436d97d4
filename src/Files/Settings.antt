-- ===== src/Files/Settings.antt =====
-- The configuration of the class `asymmetricfs`, and the operations that only pass a call on to the
-- system.
use Prim.Native.Nat.{bit_or}
use Prim.Native.String.{String}
use text.Mathlib.Text.{◌==◌}
use asymmetricfs.Prelude.{
  ℕ, ◌≡◌, ◌≢◌, refl, ◌⊎◌, inl, inr, Bool, true, false, ◌&&◌, not, List, [], ◌∷◌, Outcome, done,
  throws, runtime_error, ℤ, pos, neg, if◌then◌else◌,
}
use asymmetricfs.MemoryLock.{MemoryLock}
use asymmetricfs.Kernel.{Kernel, Sys, ok, error, eperm, at_removedir, o_cloexec, o_directory}
use asymmetricfs.Files.{Internal, Filesystem, relpath}

abbrev pub is_nil {ℓ} : {A : Type ℓ} → List A → Bool
is_nil [] = true
is_nil (x ∷ xs) = false

unfoldable pub ready : Filesystem → Bool
ready fs = fs.root_set && not (is_nil fs.options.recipients)

unfoldable pub set_gpg : String → Filesystem → Filesystem
set_gpg gpg_path fs = record fs { options = record fs.options { gpg_path = gpg_path } }

unfoldable pub set_mlock : MemoryLock → Filesystem → Filesystem
set_mlock m fs = record fs { options = record fs.options { mlock = m } }

unfoldable pub set_read : Bool → Filesystem → Filesystem
set_read r fs = record fs { read = r }

-- Recipients cannot change while files are open.
unfoldable pub set_recipients : List String → Filesystem → Outcome Filesystem
set_recipients recipients fs =
    if not (is_nil fs.open_fds)
    then throws runtime_error
    else done (record fs { options = record fs.options { recipients = recipients } })

module _ (K : Kernel) where
  open K use {State}

  unfoldable pub target_opened : Filesystem → Sys ℕ × State → Bool × Filesystem × State
  target_opened fs (ok fd, s) = (true, record fs { root = fd; root_set = true }, s)
  target_opened fs (error e, s) = (false, record fs { root_set = false }, s)

  -- The former root is closed first. After a failure the descriptor of the root is not looked at.
  unfoldable pub set_target : String → Filesystem → State → Bool × Filesystem × State
  set_target target fs s =
      let s' = if fs.root_set then (K.close fs.root s).1 else s in
      if target == ""
      then (false, fs, s)
      else target_opened fs (K.open_path target (bit_or o_cloexec o_directory) s')

  -- `return ret != 0 ? -errno : 0`
  abbrev pub reply : Sys ℕ × State → ℤ × State
  reply (ok n, s) = (pos 0, s)
  reply (error e, s) = (neg e, s)

  unfoldable pub chmod : String → ℕ → Filesystem → State → ℤ × State
  chmod path mode fs s = reply (K.fchmodat fs.root (relpath path) mode 0 s)

  unfoldable pub chown : String → ℕ → ℕ → Filesystem → State → ℤ × State
  chown path u g fs s = reply (K.fchownat fs.root (relpath path) u g 0 s)

  unfoldable pub link : String → String → State → ℤ × State
  link oldpath newpath s = (neg eperm, s)

  unfoldable pub mkdir : String → ℕ → Filesystem → State → ℤ × State
  mkdir path mode fs s = reply (K.mkdirat fs.root (relpath path) mode s)

  unfoldable pub rmdir : String → Filesystem → State → ℤ × State
  rmdir path fs s = reply (K.unlinkat fs.root (relpath path) at_removedir s)

  unfoldable pub symlink : String → String → Filesystem → State → ℤ × State
  symlink oldpath newpath fs s = reply (K.symlinkat oldpath fs.root (relpath newpath) s)

  unfoldable pub unlink : String → Filesystem → State → ℤ × State
  unlink path fs s = reply (K.unlinkat fs.root (relpath path) 0 s)

-- If no file is open, set_recipients sets the recipients, and the file system is ready if it has a
-- root and a recipient; if one is open, it throws.
set_recipients_lem :
    (recipients : List String) (fs : Filesystem)
    → ((fs.open_fds ≡ [])
        × (set_recipients recipients fs
            ≡ done (record fs { options = record fs.options { recipients = recipients } }))
        × (ready (record fs { options = record fs.options { recipients = recipients } })
            ≡ (fs.root_set && not (is_nil recipients))))
      ⊎ ((fs.open_fds ≢ []) × (set_recipients recipients fs ≡ throws runtime_error))
unfolding set_recipients ready
set_recipients_lem recipients fs = by_files fs.open_fds refl
  where
    by_files :
        (fds : List (ℕ × Internal))
        → fs.open_fds ≡ fds
        → ((fs.open_fds ≡ [])
            × (set_recipients recipients fs
                ≡ done (record fs { options = record fs.options { recipients = recipients } }))
            × (ready (record fs { options = record fs.options { recipients = recipients } })
                ≡ (fs.root_set && not (is_nil recipients))))
          ⊎ ((fs.open_fds ≢ []) × (set_recipients recipients fs ≡ throws runtime_error))
    by_files [] e = inl (e, rw e refl, refl)
    by_files (x ∷ xs) e = inr (λ none_open. cc, rw e refl)
