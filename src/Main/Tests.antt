-- ===== src/Main/Tests.antt =====
-- The theorems on `main`, on a command line that starts FUSE.
use Prim.Native.String.{String}
use asymmetricfs.Prelude.{ℕ, ◌≡◌, refl, Bool, true, false, [], ◌∷◌, none, some, done, Exception}
use asymmetricfs.MemoryLock
use asymmetricfs.Kernel.Idle.{idle}
use asymmetricfs.Subprocess.{subprocess, parent, wait, destroy_subprocess}
use asymmetricfs.Recipient.{
  judged, list_keys, with_output, with_input, key_status, validate_recipient,
}
use asymmetricfs.Files.{Filesystem}
use asymmetricfs.Files.Settings.{set_target, target_opened}
use asymmetricfs.Main.{Parsed, Exit, started, check_recipients, main}
use asymmetricfs.Main.Total.{configured, main_returns}
use asymmetricfs.Main.Started.{IsRequest, StartsRight, main-StartsRight, main_starts}

abbrev what : Exception → String
what e = "error"

abbrev command : Parsed
command = record {
  exception = none;
  rw = true;
  wo = false;
  help = false;
  enable_core_dumps = false;
  gpg_path = "gpg";
  mlock_value = MemoryLock.all;
  recipients = "alice" ∷ [];
  target = "/target";
  mount_point = "/mnt";
  unrecognized = "-f" ∷ [];
}

abbrev impl : Filesystem
impl = record {
  read = false;
  root_set = false;
  root = 0;
  options = record { recipients = []; gpg_path = "gpg"; mlock = MemoryLock.all };
  next = 0;
  open_paths = [];
  open_fds = [];
  open_dirs = [];
  page_size = 4096;
}

-- The file system that FUSE gets.
abbrev served : Filesystem
served = record (configured command impl) { root_set = true; root = 3 }

command-IsRequest : IsRequest command
command-IsRequest = record { parsed = refl; no_help = refl; one_mode = refl; mount = refl }

main_returns_example :
    (exit : Exit ℕ) × ((usage : Bool)
      → main (idle ℕ) what command "asymmetricfs" usage impl 8 ≡ done exit)
main_returns_example = main_returns (idle ℕ) what command "asymmetricfs" impl 8 (λ e. refl) refl

main_starts_example :
    main (idle ℕ) what command "asymmetricfs" false impl 8
    ≡ done (started 3 (some "asymmetricfs" ∷ some "-f" ∷ some "/mnt" ∷ none ∷ []) served 8)
unfolding check_recipients validate_recipient judged key_status with_input with_output list_keys
    subprocess parent wait destroy_subprocess set_target target_opened
main_starts_example =
    main_starts (idle ℕ) what command "asymmetricfs" false impl served 8 8 8 8 8 0 0
      command-IsRequest refl refl refl refl refl refl refl

-- The same run, again.
command_starts :
    main (idle ℕ) what command "asymmetricfs" false impl 8
    ≡ done (started 3 (some "asymmetricfs" ∷ some "-f" ∷ some "/mnt" ∷ none ∷ []) served 8)
unfolding check_recipients validate_recipient judged key_status with_input with_output list_keys
    subprocess parent wait destroy_subprocess set_target target_opened
command_starts =
    main_starts (idle ℕ) what command "asymmetricfs" false impl served 8 8 8 8 8 0 0
      command-IsRequest refl refl refl refl refl refl refl

main-StartsRight_example :
    StartsRight {S = ℕ} command "asymmetricfs"
      (started 3 (some "asymmetricfs" ∷ some "-f" ∷ some "/mnt" ∷ none ∷ []) served 8)
main-StartsRight_example =
    main-StartsRight (idle ℕ) what command "asymmetricfs" false impl 8
      (started 3 (some "asymmetricfs" ∷ some "-f" ∷ some "/mnt" ∷ none ∷ []) served 8) refl
      command_starts
