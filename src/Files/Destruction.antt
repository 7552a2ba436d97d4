-- ===== src/Files/Destruction.antt =====
-- The destructor of the class `asymmetricfs`.
use asymmetricfs.Prelude.{
  ℕ, Bool, ◌<◌, ◌≡◌, ◌≢◌, refl, ◌⊎◌, inl, inr, List, [], ◌∷◌, some, Outcome, done, aborts, throws,
  out_of_fuel, ◌>>=◌, ◌==◌, if◌then◌else◌, not, ℤ, pos, arith, lookup, eqb_self, number_key, IfDone,
  bind-IfDone, then-IfDone, if-IfDone, assert-IfDone,
}
use asymmetricfs.Kernel.{Kernel}
use asymmetricfs.Files.{Options, Internal, Filesystem}
use asymmetricfs.Files.Directories.Listing.{Entry}
use asymmetricfs.Files.Steps.{Reachable}
use asymmetricfs.Files.Live.{HasReferencesLeft, Reachable-AreLive}
use asymmetricfs.Files.Handles.{encrypt, close, terminates, destroy}

module _ (K : Kernel) where
  open K use {State}

  -- The loop over the open files. The files are in some order in the map of the program.
  unfoldable pub destroy_files : Options → List (ℕ × Internal) → State → Outcome State
  destroy_files options [] s = done s
  destroy_files options ((handle, d) ∷ fds) s =
      destroy K options d s >>= λ t. destroy_files options fds t

  -- `~asymmetricfs`
  unfoldable pub destroy_filesystem : Filesystem → State → Outcome State
  destroy_filesystem fs s =
      destroy_files fs.options fs.open_fds (if fs.root_set then (K.close fs.root s).1 else s)

  -- `close` leaves the number of the references.
  abbrev Refers : Internal → ℤ × Internal × State → Type 0
  Refers d (ret, d', t) = d'.references ≡ d.references

  close-Refers :
      (options : Options) (d : Internal) (s : State)
      → IfDone (λ r. Refers d r) (close K options d s)
  unfolding close
  close-Refers options d s =
      if-IfDone (λ r. Refers d r) (not d.is_open) (done (pos 0, d, s)) _ (λ closed. refl)
        (λ opened.
          then-IfDone (λ r. Refers d r) (if d.dirty then encrypt K options d s else done (pos 0, s))
            _ (λ r. refl))

  terminates-IfDone :
      (P : ℤ × Internal × State → Type 0) (r : Outcome (ℤ × Internal × State))
      → IfDone P r
      → IfDone P (terminates K r)
  terminates-IfDone P (done x) p = p
  terminates-IfDone P aborts p = tt
  terminates-IfDone P (throws e) p = tt
  terminates-IfDone P out_of_fuel p = tt

  -- A file with a reference is not destroyed: the assertion fails, if nothing else does before.
  destroy-referred :
      (options : Options) (d : Internal) (s : State)
      → 0 < d.references
      → IfDone (λ t. ⊥) (destroy K options d s)
  unfolding destroy
  destroy-referred options d s h =
      bind-IfDone (λ t. ⊥) (λ r. Refers d r) _ _
        (terminates-IfDone (λ r. Refers d r) _ (close-Refers options d s))
        (λ (ret, d', t) same.
          assert-IfDone (λ t. ⊥) (d'.references == 0) (done t)
            (λ none_left. absurd (ground (arith, same, none_left, h))))

  never : (r : Outcome State) → IfDone (λ t. ⊥) r → ¬ ((t : State) × (r ≡ done t))
  never (done t) p q = absurd p
  never aborts p (t, e) = cc
  never (throws x) p (t, e) = cc
  never out_of_fuel p (t, e) = cc

  -- If no file is open, the destructor closes the root if it is set, and does nothing else; if one is
  -- open, it does not return.
  abbrev pub Destroys : Filesystem → State → Type 0
  Destroys fs s =
      ((fs.open_fds ≡ [])
        × (destroy_filesystem fs s ≡ done (if fs.root_set then (K.close fs.root s).1 else s)))
      ⊎ ((fs.open_fds ≢ []) × ¬ ((t : State) × (destroy_filesystem fs s ≡ done t)))

  -- In every state that calls of FUSE and changes of the configuration lead to from the
  -- constructor, with other programs between them and while no count of references is at its end:
  -- if no file is open, the destructor closes the root if it is set, and does nothing else; if one
  -- is open, it does not return.
  pub destroy_filesystem_lem :
      (B : Type 0) (filler : B → Entry → B × Bool) (fs : Filesystem) (s t : State)
      → Reachable K B filler HasReferencesLeft fs s
      → Destroys fs t
  unfolding destroy_filesystem destroy_files lookup
  destroy_filesystem_lem B filler fs s t r = by_files fs.open_fds refl
    where
      by_files : (fds : List (ℕ × Internal)) → fs.open_fds ≡ fds → Destroys fs t
      by_files [] e = inl (e, rw e refl)
      by_files ((handle, d) ∷ fds) e =
          let found : lookup handle fs.open_fds ≡ some d = rw (e, lookup, eqb_self handle) refl in
          let t' = if fs.root_set then (K.close fs.root t).1 else t in
          let live = Reachable-AreLive K B filler fs s r handle d found in
          inr (
            λ nothing. cc,
            rw e (
                never (destroy_files fs.options ((handle, d) ∷ fds) t') (
                  bind-IfDone (λ u. ⊥) (λ u. ⊥) (destroy K fs.options d t') _
                    (destroy-referred fs.options d t' live.0) (λ u no. absurd no))),
          )
