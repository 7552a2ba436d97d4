-- ===== src/Files/Steps.antt =====
-- The calls of the file system as steps, one after the other, with changes of the configuration and
-- other programs between them. The condition holds before every call.
use Prim.Native.String.{String}
use text.Mathlib.Text.{◌==◌}
use asymmetricfs.Prelude.{
  ℕ, inl, inr, Bool-cases, not, Bool, List, ◌≡◌, subst, refl, done, ℤ, arith, lookup, IfDone,
  if-IfDone, number_key,
}
use asymmetricfs.MemoryLock.{MemoryLock}
use asymmetricfs.Kernel.{Kernel, Sys, ok, error}
use asymmetricfs.Files.{Options, Filesystem, filesystem}
use asymmetricfs.Files.Settings.{
  set_gpg, set_mlock, set_read, set_recipients, set_target, target_opened, is_nil,
}
use asymmetricfs.Files.Directories.Listing.{Entry}
use asymmetricfs.Files.Calls.{Call, Output, serve}
use asymmetricfs.Files.Invariant.{IsInvariant}
use asymmetricfs.Files.Consistency.{HasHandle, IsConsistent-IsInvariant}
use asymmetricfs.Files.Calls.Invariants.{Holds, serve-Holds}
use asymmetricfs.Files.Table.{IsConsistent}

module _ (K : Kernel) (B : Type 0) (filler : B → Entry → B × Bool) (G : Filesystem → Type 0) where
  open K use {State}

  -- One call that returns, a change of the configuration, or of the system by another program.
  pub data Step : Filesystem → State → Filesystem → State → Type 0 where
    served :
        (fuel : ℕ) (b : B) (call : Call) (ret : ℤ) (out : Output B) {fs fs' : Filesystem}
        {s t : State}
        → G fs
        → serve K B filler fuel b call fs s ≡ done (ret, out, fs', t)
        → Step fs s fs' t
    target_set :
        (target : String) (success : Bool) {fs fs' : Filesystem} {s t : State}
        → set_target K target fs s ≡ (success, fs', t)
        → Step fs s fs' t
    recipients_set :
        (recipients : List String) {fs fs' : Filesystem} {s : State}
        → set_recipients recipients fs ≡ done fs'
        → Step fs s fs' s
    read_set : (r : Bool) {fs : Filesystem} {s : State} → Step fs s (set_read r fs) s
    gpg_set : (gpg_path : String) {fs : Filesystem} {s : State} → Step fs s (set_gpg gpg_path fs) s
    mlock_set : (m : MemoryLock) {fs : Filesystem} {s : State} → Step fs s (set_mlock m fs) s
    elsewhere : {fs : Filesystem} {s t : State} → Step fs s fs t

  -- The states after the constructor and any steps.
  pub data Reachable : Filesystem → State → Type 0 where
    constructed :
        (options : Options) (page_size : ℕ) {s : State} → Reachable (filesystem options page_size) s
    after : {fs fs' : Filesystem} {s t : State} → Reachable fs s → Step fs s fs' t → Reachable fs' t

  module _ (P : Filesystem → Type 0) (inv : IsInvariant K P G) where
    abbrev HoldsSet : Bool × Filesystem × State → Type 0
    HoldsSet (success, fs, t) = P fs

    set_target-Holds :
        (target : String) (fs : Filesystem) (s : State) → P fs → HoldsSet (set_target K target fs s)
    unfolding set_target target_opened
    set_target-Holds target fs s c = elim (Bool-cases (target == "")) [
      | inl empty ↦ rw (empty, set_target) c
      | inr named ↦ rw (named, set_target) (by_root _)
    ]
      where
        by_root : (o : Sys ℕ × State) → HoldsSet (target_opened K fs o)
        by_root (ok fd, t) = inv.of_table fs _ c (refl, refl, refl)
        by_root (error e, t) = inv.of_table fs _ c (refl, refl, refl)

    set_recipients-Holds :
        (recipients : List String) (fs : Filesystem)
        → P fs
        → IfDone (λ fs'. P fs') (set_recipients recipients fs)
    unfolding set_recipients
    set_recipients-Holds recipients fs c =
        if-IfDone (λ fs'. P fs') (not (is_nil fs.open_fds)) _ _ (λ files. tt)
          (λ none_open. inv.of_table fs _ c (refl, refl, refl))

    Step-Holds : (fs fs' : Filesystem) (s t : State) → Step fs s fs' t → P fs → P fs'
    unfolding set_read set_gpg set_mlock
    Step-Holds fs fs' s t (served fuel b call ret out h e) c =
        subst (λ o. IfDone (λ a. Holds K B filler P G inv a) o) e
          (serve-Holds K B filler P G inv fuel b call fs s c h)
    Step-Holds fs fs' s t (target_set target success e) c =
        subst (λ r. HoldsSet r) e (set_target-Holds target fs s c)
    Step-Holds fs fs' s t (recipients_set recipients e) c =
        subst (λ o. IfDone (λ fs''. P fs'') o) e (set_recipients-Holds recipients fs c)
    Step-Holds fs fs' s t (read_set r) c = inv.of_table fs fs' c (refl, refl, refl)
    Step-Holds fs fs' s t (gpg_set gpg_path) c = inv.of_table fs fs' c (refl, refl, refl)
    Step-Holds fs fs' s t (mlock_set m) c = inv.of_table fs fs' c (refl, refl, refl)
    Step-Holds fs fs' s t elsewhere c = c

    -- An invariant that holds after the constructor holds in every state that is reached.
    pub Reachable-Holds :
        ((options : Options) (page_size : ℕ) → P (filesystem options page_size))
        → (fs : Filesystem) (s : State) → Reachable fs s
        → P fs
    Reachable-Holds start fs s (constructed options page_size) = start options page_size
    Reachable-Holds start fs s (after r step) =
        Step-Holds _ fs _ s step (Reachable-Holds start _ _ r)

module _ (K : Kernel) (B : Type 0) (filler : B → Entry → B × Bool) where
  open K use {State}

  constructed-IsConsistent :
      (options : Options) (page_size : ℕ) → IsConsistent (filesystem options page_size)
  unfolding filesystem lookup
  constructed-IsConsistent options page_size = (λ p h e. ground arith, λ h le. refl)

  -- In every state that calls of FUSE and changes of the configuration lead to from the
  -- constructor, with other programs between them and while handles are left, every open path leads
  -- to an open file that has that path, and no handle from the counter up is in use.
  pub Reachable-IsConsistent :
      (fs : Filesystem) (s : State) → Reachable K B filler HasHandle fs s → IsConsistent fs
  Reachable-IsConsistent fs s r =
      Reachable-Holds K B filler HasHandle IsConsistent (IsConsistent-IsInvariant K)
        constructed-IsConsistent fs s r
