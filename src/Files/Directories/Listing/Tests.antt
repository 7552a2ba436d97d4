-- ===== src/Files/Directories/Listing/Tests.antt =====
-- The theorem on `readdir`, on a directory with a file, itself and a pipe.
use Prim.Native.String.{String}
use asymmetricfs.Prelude.{
  ℕ, zero, suc, ◌≡◌, refl, List, [], ◌∷◌, ◌++◌, map, none, some, done, pos, not, Bool, true, false,
  arith, lookup, number_key,
}
use asymmetricfs.MemoryLock
use asymmetricfs.Kernel.{Kernel, ok, Dirent}
use asymmetricfs.Kernel.Idle.{idle}
use asymmetricfs.Files.{Filesystem}
use asymmetricfs.Files.Directories.Listing.{Entry, readdir}
use asymmetricfs.Files.Directories.Listing.Shown.{
  shown, is_named, keep, filled_in, dots, fill, readdir_lem,
}

abbrev regular : Dirent
regular = record { d_name = "a"; d_ino = 7; d_type = 8 }

abbrev itself : Dirent
itself = record { d_name = "."; d_ino = 2; d_type = 4 }

abbrev fifo : Dirent
fifo = record { d_name = "b"; d_ino = 9; d_type = 1 }

-- The state is the number of entries that were read.
abbrev system : Kernel
system = record (idle ℕ) {
  read_dir = λ dir s. elim s [
    | zero ↦ (ok (some regular), 1)
    | suc zero ↦ (ok (some itself), 2)
    | suc (suc zero) ↦ (ok (some fifo), 3)
    | suc (suc (suc n)) ↦ (ok none, suc (suc (suc n)))
  ];
}

abbrev open_directory : Filesystem
open_directory = record {
  read = false;
  root_set = true;
  root = 2;
  options = record { recipients = []; gpg_path = "gpg"; mlock = MemoryLock.none };
  next = 0;
  open_paths = [];
  open_fds = [];
  open_dirs = (9, "./d") ∷ [];
  page_size = 4096;
}

abbrev collects : List String → Entry → List String × Bool
collects names e = (names ++ (e.name ∷ []), false)

readdir_lem_example :
    readdir system (List String) collects 4 [] (record { flags = 0; fh = 9 }) open_directory 0
    ≡ done (
      pos 0,
      fill system
          (List String)
          collects
          (fill system (List String) collects [] (shown (regular ∷ itself ∷ fifo ∷ [])))
          (map filled_in (keep (λ x. not (is_named (regular ∷ itself ∷ fifo ∷ []) x)) dots)),
      3,
    )
unfolding lookup
readdir_lem_example =
    readdir_lem system (List String) collects 4 [] (record { flags = 0; fh = 9 }) open_directory
      "./d" (regular ∷ itself ∷ fifo ∷ []) 0 3 (λ b e. refl) refl (refl, (refl, (refl, tt)))
      (1, refl, (2, refl, (3, refl, refl))) (omega arith)

-- The file, the directory itself, and the parent that is filled in.
names_shown :
    fill system
      (List String)
      collects
      (fill system (List String) collects [] (shown (regular ∷ itself ∷ fifo ∷ [])))
      (map filled_in (keep (λ x. not (is_named (regular ∷ itself ∷ fifo ∷ []) x)) dots))
    ≡ "a" ∷ "." ∷ ".." ∷ []
names_shown = refl
