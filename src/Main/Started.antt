-- ===== src/Main/Started.antt =====
-- When `main` starts FUSE, and with what.
use Prim.Native.String.{String}
use text.Mathlib.Text.{◌==◌}
use asymmetricfs.Prelude.{
  ℕ, suc, ◌+◌, ◌≡◌, refl, sym, ◌∙◌, ap, subst, Bool, true, false, ◌||◌, ◌&&◌, not, List, [], ◌∷◌,
  ◌++◌, map, length, length-append, Option, none, some, done, assert-true, if◌then◌else◌, if_true,
  if_false, IfDone, by_branch, assert-IfDone, if-IfDone, Bool-cases, inl, inr, Exception, arith,
}
use asymmetricfs.MemoryLock.{MemoryLock}
use asymmetricfs.Kernel.{Kernel, Sys, ok, error, pr_set_dumpable}
use asymmetricfs.Files.{Filesystem, Options}
use asymmetricfs.Files.Settings.{is_nil, ready, set_target}
use asymmetricfs.Main.{
  Parsed, Exit, Tried, passed, caught, mode_errors, mount_errors, fuse_argc, fuse_argv,
  check_recipients, checked, try_options, target_error, target_errors, memory_locked, lock_memory,
  conclude, after_try, main, start, usage_shown, failed, started,
}
use asymmetricfs.Main.Total.{
  configured, main-after_try, elim_none, IsRooted, Tries, try_options-Tries, target_errors-IsRooted,
  is_nil-append,
}

-- What the command line says of a run that starts FUSE.
pub record IsRequest (p : Parsed) : Type 0 where
  pub parsed : p.exception ≡ none
  pub no_help : p.help ≡ false
  pub one_mode : p.wo ≡ not p.rw
  pub mount : (p.mount_point == "") ≡ false

-- FUSE is started for a request, with the file system ready in the mode that was asked for, and
-- with the name of the program, the options that are left, the mount point and the null pointer as
-- its arguments, of which all but the last are counted.
abbrev pub StartsRight : {S : Type 0} → Parsed → String → Exit S → Type 0
StartsRight p argv0 (usage_shown errors) = Unit
StartsRight p argv0 (failed message) = Unit
StartsRight p argv0 (started argc argv fs t) =
    IsRequest p
    × (ready fs ≡ true)
    × (fs.read ≡ p.rw)
    × (argv ≡ fuse_argv argv0 p.unrecognized p.mount_point)
    × (length argv ≡ suc argc)

length-map : (xs : List String) → length (map {B = Option String} some xs) ≡ length xs
length-map [] = refl
length-map (x ∷ xs) = ap suc (length-map xs)

length-fuse_argv :
    (argv0 : String) (xs : List String) (mount_point : String)
    → length (fuse_argv argv0 xs mount_point) ≡ suc (fuse_argc xs)
length-fuse_argv argv0 xs mount_point =
    ap suc
      (length-append (map some xs) (some mount_point ∷ none ∷ []) ∙ ap (λ n. n + 2) (length-map xs))

mode_errors-none : (rw wo : Bool) → is_nil (mode_errors rw wo) ≡ true → wo ≡ not rw
unfolding mode_errors
mode_errors-none true true h = cc
mode_errors-none true false h = refl
mode_errors-none false true h = refl
mode_errors-none false false h = cc

mode_errors-one : (rw wo : Bool) → wo ≡ not rw → mode_errors rw wo ≡ []
unfolding mode_errors
mode_errors-one true true h = cc
mode_errors-one true false h = refl
mode_errors-one false true h = refl
mode_errors-one false false h = cc

mount_errors-none :
    (mount_point : String) → is_nil (mount_errors mount_point) ≡ true → (mount_point == "") ≡ false
unfolding mount_errors
mount_errors-none mount_point h = elim (Bool-cases (mount_point == "")) [
  | inl empty ↦
      let shown : mount_errors mount_point ≡ "Mount point not specified." ∷ [] =
        if_true (mount_point == "") _ _ empty in
      let some_error = ap is_nil shown in cc
  | inr named ↦ named
]

module _ (K : Kernel) (what : Exception → String) where
  open K use {State}

  start-StartsRight :
      (p : Parsed) (argv0 : String) (fs : Filesystem) (s : State)
      → IsRequest p
      → ready fs ≡ true
      → fs.read ≡ p.rw
      → StartsRight p argv0 (start K what p argv0 fs s)
  unfolding start lock_memory memory_locked
  start-StartsRight p argv0 fs s request rdy mode =
      by_dump (if p.enable_core_dumps then (ok 0, s) else K.prctl pr_set_dumpable 0 s)
    where
      argv : List (Option String)
      argv = fuse_argv argv0 p.unrecognized p.mount_point

      by_lock : (o : Sys ℕ × State) → StartsRight p argv0 (memory_locked K what p argv fs o)
      by_lock (error e, t) = tt
      by_lock (ok n, t) =
          (request, rdy, mode, refl, length-fuse_argv argv0 p.unrecognized p.mount_point)

      by_dump : (o : Sys ℕ × State) → StartsRight p argv0 (lock_memory K what p argv fs o)
      by_dump (error e, t) = tt
      by_dump (ok n, t) = by_lock _

  conclude-StartsRight :
      (p : Parsed) (argv0 : String) (usage : Bool) (errors : List String) (fs : Filesystem)
      (s : State)
      → (is_nil errors ≡ true → usage ≡ false → IsRequest p)
      → (is_nil errors ≡ true → fs.read ≡ p.rw)
      → IfDone (λ e. StartsRight p argv0 e) (conclude K what p argv0 usage errors fs s)
  unfolding conclude
  conclude-StartsRight p argv0 usage errors fs s request mode =
      assert-IfDone (λ e. StartsRight p argv0 e) (usage || (not (is_nil errors) || ready fs)) _
        (λ held.
          by_branch (λ e. StartsRight p argv0 e) (if not (is_nil errors) then true else usage)
            (usage_shown errors) (start K what p argv0 fs s) (λ shown. tt)
            (λ hidden.
              let clean : is_nil errors ≡ true =
                ground (arith, hidden, Bool-cases (is_nil errors)) in
              let quiet : usage ≡ false = ground (arith, hidden, clean, Bool-cases usage) in
              start-StartsRight p argv0 fs s (request clean quiet)
                (ground (arith, held, clean, quiet, Bool-cases (ready fs))) (mode clean)))

  targets-StartsRight :
      (p : Parsed) (argv0 : String) (usage : Bool) (fs : Filesystem)
      (r : List String × Filesystem × State)
      → p.exception ≡ none
      → usage ≡ p.help
      → p.wo ≡ not p.rw
      → fs.read ≡ p.rw
      → IsRooted fs r
      → IfDone
          (λ e. StartsRight p argv0 e)
          (conclude K what p argv0 usage (r.0 ++ mount_errors p.mount_point) r.1 r.2)
  targets-StartsRight p argv0 usage fs (errors, fs', t) e same one mode rooted =
      conclude-StartsRight p argv0 usage (errors ++ mount_errors p.mount_point) fs' t
        (λ clean quiet. record {
          parsed = e;
          no_help = sym same ∙ quiet;
          one_mode = one;
          mount = mount_errors-none p.mount_point (is_nil-append errors _ clean).1;
        })
        (λ clean. (rooted (is_nil-append errors _ clean).0).2 ∙ mode)

  after_try-StartsRight :
      (p : Parsed) (argv0 : String) (usage : Bool) (fs : Filesystem) (t : Tried State)
      → fs.read ≡ p.rw
      → Tries K what p t
      → IfDone (λ e. StartsRight p argv0 e) (after_try K what p argv0 usage fs t)
  unfolding after_try
  after_try-StartsRight p argv0 usage fs (caught x) mode tries =
      assert-IfDone (λ e. StartsRight p argv0 e) (usage || (true || ready fs)) _ (λ held. tt)
  after_try-StartsRight p argv0 usage fs (passed help s) mode (e, h) =
      if-IfDone (λ e. StartsRight p argv0 e) (is_nil (mode_errors p.rw p.wo)) _ _
        (λ one.
          targets-StartsRight p argv0 help fs (target_errors K what p.target fs s) e h
            (mode_errors-none p.rw p.wo one) mode (target_errors-IsRooted K what p.target fs s))
        (λ wrong.
          conclude-StartsRight p argv0 help (mode_errors p.rw p.wo) fs s (λ clean quiet. cc)
            (λ clean. mode))

  -- If main starts FUSE, and no file is open before, then boost has thrown no exception, help was
  -- not asked for, exactly one of --rw and --wo and a mount point were given, the file system has
  -- its root and a recipient, it reads exactly for --rw, and FUSE gets the name of the program, the
  -- options that boost does not know, the mount point and the null pointer, which is not counted.
  pub main-StartsRight :
      (p : Parsed) (argv0 : String) (usage : Bool) (fs : Filesystem) (s : State) (exit : Exit State)
      → is_nil fs.open_fds ≡ true
      → main K what p argv0 usage fs s ≡ done exit
      → StartsRight p argv0 exit
  main-StartsRight p argv0 usage fs s exit unused e =
      let (t, f, tries) = try_options-Tries K what p s in
      subst (λ o. IfDone (λ x. StartsRight p argv0 x) o)
        (sym (main-after_try K what p argv0 usage fs s t unused f) ∙ e)
        (after_try-StartsRight p argv0 usage (configured p fs) t refl tries)

  conclude_starts :
      (p : Parsed) (argv0 : String) (fs : Filesystem) (s : State)
      → ready fs ≡ true
      → conclude K what p argv0 false [] fs s ≡ done (start K what p argv0 fs s)
  unfolding conclude
  conclude_starts p argv0 fs s rdy = assert-true (ready fs) _ rdy

  targets_start :
      (p : Parsed) (argv0 : String) (usage : Bool) (fs fs' : Filesystem) (s u : State)
      → IsRequest p
      → (p.target == "") ≡ false
      → is_nil fs.options.recipients ≡ false
      → set_target K p.target fs s ≡ (true, fs', u)
      → after_try K what p argv0 usage fs (passed false s) ≡ done (start K what p argv0 fs' u)
  unfolding after_try target_errors target_error mode_errors mount_errors ready
  targets_start p argv0 usage fs fs' s u request named given e =
      let seen : target_errors K what p.target fs s ≡ ([], fs', u) =
        if_false (p.target == "") _ _ named ∙ ap (target_error K what) e in
      let rooted = subst (λ r. IsRooted fs r) seen (target_errors-IsRooted K what p.target fs s) in
      let (set, same, x) = rooted refl in
      let rdy : ready fs' ≡ true =
        ap (λ b. b && not (is_nil fs'.options.recipients)) set
        ∙ ap (λ (o : Options). not (is_nil o.recipients)) same
        ∙ ap not given in
      if_true (is_nil (mode_errors p.rw p.wo)) _ _
        (ap is_nil (mode_errors-one p.rw p.wo request.one_mode))
      ∙ ap
          (λ (r : List String × Filesystem × State).
            conclude K what p argv0 false (r.0 ++ mount_errors p.mount_point) r.1 r.2)
          seen
      ∙ ap (λ xs. conclude K what p argv0 false xs fs' u)
          (if_false (p.mount_point == "") _ _ request.mount)
      ∙ conclude_starts p argv0 fs' u rdy

  -- Let boost throw no exception, no help be asked for, exactly one mode, a target and a mount
  -- point be given, gpg accept every recipient, of which there is one, and let the target open, the
  -- core dumps be disabled where that was not turned off, and the memory be locked where that was
  -- asked for. Then main, with no file open before, starts FUSE.
  pub main_starts :
      (p : Parsed) (argv0 : String) (usage : Bool) (fs fs' : Filesystem) (s t u v w : State)
      (n m : ℕ)
      → IsRequest p
      → is_nil fs.open_fds ≡ true
      → is_nil p.recipients ≡ false
      → (p.target == "") ≡ false
      → check_recipients K what p.gpg_path p.recipients s ≡ done t
      → set_target K p.target (configured p fs) t ≡ (true, fs', u)
      → (if p.enable_core_dumps then (ok 0, u) else K.prctl pr_set_dumpable 0 u) ≡ (ok n, v)
      → (elim p.mlock_value [
        | MemoryLock.all ↦ K.mlockall v
        | MemoryLock.buffers ↦ (ok 0, v)
        | MemoryLock.none ↦ (ok 0, v)
      ])
        ≡ (ok m, w)
      → main K what p argv0 usage fs s
        ≡ done (
            started (fuse_argc p.unrecognized) (fuse_argv argv0 p.unrecognized p.mount_point) fs' w)
  unfolding start lock_memory memory_locked try_options checked
  main_starts p argv0 usage fs fs' s t u v w n m request unused given named valid opened dumps
        locks =
      let argv = fuse_argv argv0 p.unrecognized p.mount_point in
      let tried : try_options K what p s ≡ done (passed p.help t) =
        elim_none p.exception _ _ request.parsed ∙ ap (checked K what p) valid in
      main-after_try K what p argv0 usage fs s (passed p.help t) unused tried
      ∙ ap (λ help. after_try K what p argv0 usage (configured p fs) (passed help t))
          request.no_help
      ∙ targets_start p argv0 usage (configured p fs) fs' t u request named given opened
      ∙ ap (λ o. done (lock_memory K what p argv fs' o)) dumps
      ∙ ap (λ o. done (memory_locked K what p argv fs' o)) locks
