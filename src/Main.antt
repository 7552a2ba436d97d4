-- ===== src/Main.antt =====
-- `main` (main.cpp), from the options that boost has parsed to the call of `fuse_main`.
pub mod Total
pub mod Started
mod Tests
use Prim.Native.String.{String}
use text.Mathlib.Text.{◌==◌}
use asymmetricfs.Prelude.{
  ℕ, ◌+◌, Bool, true, false, ◌||◌, ◌&&◌, not, List, [], ◌∷◌, ◌++◌, map, length, Option, none, some,
  Outcome, done, aborts, throws, out_of_fuel, Exception, assert, ◌>>=◌, ◌>>◌, if◌then◌else◌,
}
use asymmetricfs.MemoryLock
use asymmetricfs.MemoryLock.{MemoryLock}
use asymmetricfs.Kernel.{Kernel, Sys, ok, error, pr_set_dumpable}
use asymmetricfs.Recipient.{validate_recipient}
use asymmetricfs.Files.{Filesystem}
use asymmetricfs.Files.Settings.{
  is_nil, ready, set_gpg, set_mlock, set_read, set_recipients, set_target,
}

-- What boost has stored of the command line, and the message of an exception that it has thrown.
-- A value that it has not stored is any value.
pub record Parsed : Type 0 where
  pub exception : Option String
  pub rw : Bool
  pub wo : Bool
  pub help : Bool
  pub enable_core_dumps : Bool
  pub gpg_path : String
  pub mlock_value : MemoryLock
  pub recipients : List String
  pub target : String
  pub mount_point : String
  pub unrecognized : List String

-- How `main` ends before `fuse_main`, with the errors that are printed, or starts it, with its
-- arguments (the last one is the null pointer).
pub data Exit (S : Type 0) : Type 0 where
  usage_shown : List String → Exit S
  failed : String → Exit S
  started : ℕ → List (Option String) → Filesystem → S → Exit S

-- The end of the `try` block: `usage`, or the message of the exception.
pub data Tried (S : Type 0) : Type 0 where
  passed : Bool → S → Tried S
  caught : String → Tried S

unfoldable pub mode_errors : Bool → Bool → List String
mode_errors read wo =
    if read && wo
    then "--rw and --wo are mutually exclusive." ∷ []
    else if not (read || wo)
    then "--rw or --wo must be specified." ∷ []
    else []

unfoldable pub mount_errors : String → List String
mount_errors mount_point = if mount_point == "" then "Mount point not specified." ∷ [] else []

-- The configuration of the file system.
unfoldable pub configure : Parsed → Filesystem → Outcome Filesystem
configure p fs =
    set_recipients p.recipients (set_read p.rw (set_mlock p.mlock_value (set_gpg p.gpg_path fs)))

abbrev pub fuse_argc : List String → ℕ
fuse_argc unrecognized = length unrecognized + 2

abbrev pub fuse_argv : String → List String → String → List (Option String)
fuse_argv argv0 unrecognized mount_point =
    some argv0 ∷ (map some unrecognized ++ (some mount_point ∷ none ∷ []))

-- The messages of the exceptions are a parameter.
module _ (K : Kernel) (what : Exception → String) where
  open K use {State}

  unfoldable pub check_recipients : String → List String → State → Outcome State
  check_recipients gpg_path [] s = done s
  check_recipients gpg_path (r ∷ rs) s =
      validate_recipient K gpg_path r s >>= check_recipients gpg_path rs

  unfoldable pub checked : Parsed → Outcome State → Outcome (Tried State)
  checked p (done t) = done (passed p.help t)
  checked p (throws e) = done (caught (what e))
  checked p aborts = aborts
  checked p out_of_fuel = out_of_fuel

  -- The `try` block.
  unfoldable pub try_options : Parsed → State → Outcome (Tried State)
  try_options p s = elim p.exception [
    | some e ↦ done (caught e)
    | none ↦ checked p (check_recipients p.gpg_path p.recipients s)
  ]

  unfoldable pub target_error : Bool × Filesystem × State → List String × Filesystem × State
  target_error (true, fs, s) = ([], fs, s)
  target_error (false, fs, s) = ("Target is invalid." ∷ [], fs, s)

  unfoldable pub target_errors : String → Filesystem → State → List String × Filesystem × State
  target_errors target fs s =
      if target == ""
      then ("Target not specified." ∷ [], fs, s)
      else target_error (set_target K target fs s)

  unfoldable pub memory_locked :
      Parsed → List (Option String) → Filesystem → Sys ℕ × State → Exit State
  memory_locked p argv fs (error e, s) = failed "Unable to lock memory"
  memory_locked p argv fs (ok n, s) = started (fuse_argc p.unrecognized) argv fs s

  unfoldable pub lock_memory :
      Parsed → List (Option String) → Filesystem → Sys ℕ × State → Exit State
  lock_memory p argv fs (error e, s) = failed "Unable to disable core dumps."
  lock_memory p argv fs (ok n, s) = memory_locked p argv fs (elim p.mlock_value [
    | MemoryLock.all ↦ K.mlockall s
    | MemoryLock.buffers ↦ (ok 0, s)
    | MemoryLock.none ↦ (ok 0, s)
  ])

  -- From the arguments for FUSE on.
  unfoldable pub start : Parsed → String → Filesystem → State → Exit State
  start p argv0 fs s =
      lock_memory p (fuse_argv argv0 p.unrecognized p.mount_point) fs
        (if p.enable_core_dumps then (ok 0, s) else K.prctl pr_set_dumpable 0 s)

  -- From the assertion on, after the `try` block has ended well.
  unfoldable pub conclude :
      Parsed → String → Bool → List String → Filesystem → State → Outcome (Exit State)
  conclude p argv0 usage errors fs s =
      let usage' = if not (is_nil errors) then true else usage in
      assert (usage || (not (is_nil errors) || ready fs))
      >> done (if usage' then usage_shown errors else start p argv0 fs s)

  -- The target is looked at if there is no error yet.
  unfoldable pub after_try :
      Parsed → String → Bool → Filesystem → Tried State → Outcome (Exit State)
  after_try p argv0 usage fs (caught e) =
      let errors = e ∷ mode_errors p.rw p.wo in
      assert (usage || (not (is_nil errors) || ready fs)) >> done (usage_shown errors)
  after_try p argv0 usage fs (passed help s) =
      let modes = mode_errors p.rw p.wo in
      let (errors, fs', t) = target_errors p.target fs s in
      if is_nil modes
      then conclude p argv0 help (errors ++ mount_errors p.mount_point) fs' t
      else conclude p argv0 help modes fs s

  -- `main`, with `impl` and with what `usage` holds before it is set. Where an exception was caught
  -- there is an error, so that the usage is shown.
  unfoldable pub main : Parsed → String → Bool → Filesystem → State → Outcome (Exit State)
  main p argv0 usage fs s = do
    tried ← try_options p s
    fs' ← configure p fs
    after_try p argv0 usage fs' tried
