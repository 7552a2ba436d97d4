-- ===== src/Files/Tests.antt =====
-- Runs of the operations on a system in which every call works, and the theorems at concrete data.
use Prim.Native.String.{String}
use asymmetricfs.Prelude.{
  false, ℕ, ◌+◌, ◌/◌, ◌%◌, ◌≡◌, refl, ap, ◌⊎◌, done, pos, neg, true, false, some, none, arith,
  lookup, insert, text_key, number_key, List, Bool, [], ◌∷◌, add64, Bool-cases, ◌==◌, aborts,
}
use asymmetricfs.MemoryLock
use asymmetricfs.Kernel.{Kernel, ok, eacces, o_rdwr}
use asymmetricfs.Kernel.Idle.{idle}
use asymmetricfs.Page.Buffer.{page_buffer}
use asymmetricfs.Files.{
  Options, Internal, Filesystem, FileInfo, make_rdwr, filesystem, internal, next_fd, relpath,
}
use asymmetricfs.Files.Handles.{
  close, destroy, add_file, openat_retry, create_as, create, open_file, rename, release, access,
  answer,
}
use asymmetricfs.Files.Calls.{serve, helper_create, info}
use asymmetricfs.Files.Directories.Listing.{Entry}
use asymmetricfs.Files.Table.{IsConsistent}
use asymmetricfs.Files.Consistency.{
  HasHandle, create-Returns, open_file-Returns, rename-Renames, Returns, Renames,
}
use asymmetricfs.Files.Steps.{Reachable, served, constructed, after, Reachable-IsConsistent}
use asymmetricfs.Files.Destruction.{
  destroy_files, destroy_filesystem, destroy_filesystem_lem, Destroys,
}
use asymmetricfs.Files.Live.{AreLive, HasReferencesLeft, Reachable-AreLive}
use asymmetricfs.Files.References.{open_file-release}
use asymmetricfs.Files.Renaming.{
  rename_onto_open, rename_self, access_lem, make_rdwr_lem, IsReadable, IsOpenAs,
}

-- The state is the next free descriptor.
abbrev works : Kernel
works = record (idle ℕ) {
  open_path = λ path flags s. (ok s, s + 1);
  openat = λ dir path flags mode s. (ok s, s + 1);
  make_pipe = λ s. ((s, s + 1), s + 2);
  waitpid = λ pid s. (some 2, s);
}

abbrev options : Options
options = record { recipients = "alice" ∷ []; gpg_path = "gpg"; mlock = MemoryLock.none }

abbrev ask : FileInfo
ask = record { flags = o_rdwr; fh = 0 }

-- A file of the table that `create` has made.
abbrev file : ℕ → String → Internal
file fd path = record {
  fd = fd;
  flags = 524354;
  references = 1;
  path = path;
  buffer_set = true;
  dirty = false;
  buffer = record {
    page_allocations = [];
    page_size = 4096;
    buffer_size = 0;
    mlock = MemoryLock.none;
  };
  is_open = true;
}

abbrev one_open : Filesystem
one_open = record {
  read = false;
  root_set = false;
  root = 0;
  options = options;
  next = 1;
  open_paths = ("/a", 0) ∷ [];
  open_fds = (0, file 3 "/a") ∷ [];
  open_dirs = [];
  page_size = 4096;
}

abbrev two_open : Filesystem
two_open = record one_open {
  next = 2;
  open_paths = ("/a", 0) ∷ ("/b", 1) ∷ [];
  open_fds = (0, file 3 "/a") ∷ (1, file 4 "/b") ∷ [];
}

-- A caller that keeps the entries of a directory in a list.
abbrev collects : List Entry → Entry → List Entry × Bool
collects es e = (e ∷ es, false)

abbrev named : ℕ → FileInfo
named handle = record { flags = 524354; fh = handle }

two-Reachable : Reachable works (List Entry) collects HasHandle two_open 5
unfolding serve create create_as openat_retry add_file next_fd internal page_buffer make_rdwr insert
    filesystem add64
two-Reachable =
    after
      (after (constructed options 4096)
        (served 0 [] (helper_create "/a" 384 ask) (pos 0) (info (named 0)) (omega arith) refl))
      (served 0 [] (helper_create "/b" 384 ask) (pos 0) (info (named 1)) (omega arith) refl)

Reachable-IsConsistent_example : IsConsistent two_open
Reachable-IsConsistent_example =
    Reachable-IsConsistent works (List Entry) collects two_open 5 two-Reachable

two_open-IsConsistent : IsConsistent two_open
two_open-IsConsistent = Reachable-IsConsistent works (List Entry) collects two_open 5 two-Reachable

create-Returns_example : Returns works (create works "/c" 384 ask two_open 5)
create-Returns_example =
    create-Returns works "/c" 384 ask two_open 5 two_open-IsConsistent (omega arith)

open_file-Returns_example : Returns works (open_file works "/b" ask two_open 5)
open_file-Returns_example =
    open_file-Returns works "/b" ask two_open 5 two_open-IsConsistent (omega arith)

rename-Renames_example : Renames works (rename works "/a" "/c" two_open 5)
rename-Renames_example = rename-Renames works "/a" "/c" two_open 5 two_open-IsConsistent

open_file-release_example :
    (info' : FileInfo) × (fs' : Filesystem) × (open_file works "/b" ask two_open 5
      ≡ done (pos 0, info', fs', 5))
    × (info'.fh ≡ 1)
    × (lookup 1 fs'.open_fds ≡ some (record (file 4 "/b") { references = 1 + 1 }))
    × (release works info' fs' 5 ≡ done (pos 0, two_open, 5))
unfolding lookup
open_file-release_example =
    open_file-release works "/b" ask two_open 1 (file 4 "/b") 5 refl refl (omega arith)
      (omega arith)

rename_onto_open_example :
    (fs' : Filesystem) × (rename works "/a" "/b" two_open 5 ≡ done (pos 0, fs', 5))
    × (lookup "/a" fs'.open_paths ≡ none)
    × (lookup "/b" fs'.open_paths ≡ some 1)
    × IsOpenAs works 0 "/b" fs'
unfolding lookup
rename_onto_open_example =
    rename_onto_open works "/a" "/b" 0 1 two_open 5 5 0 two_open-IsConsistent refl refl refl
      (λ p. ground (arith, ap (λ (x : String). text_key.eqb x "/b") p))

rename_self_example :
    (fs' : Filesystem) × (rename works "/a" "/a" two_open 5 ≡ done (pos 0, fs', 5))
    × (lookup "/a" fs'.open_paths ≡ none)
    × IsOpenAs works 0 "/a" fs'
unfolding lookup
rename_self_example = rename_self works "/a" 0 two_open 5 5 0 two_open-IsConsistent refl refl

access_lem_example :
    ((access works "/a" 4 two_open 5 ≡ (neg eacces, 5)) × ¬ IsReadable works "/a" two_open)
    ⊎ ((access works "/a" 4 two_open 5
          ≡ answer works (works.faccessat two_open.root (relpath "/a") 4 0 5))
        × IsReadable works "/a" two_open)
access_lem_example = access_lem works "/a" 4 two_open 5 two_open-IsConsistent refl refl

make_rdwr_lem_example :
    (make_rdwr true 1025 % 4 ≡ o_rdwr)
    × (make_rdwr true 1025 / 4 ≡ 1025 / 4)
    × (make_rdwr false 1025 ≡ 1025)
make_rdwr_lem_example = make_rdwr_lem 1025 (omega arith)

one_open-HasReferencesLeft : HasReferencesLeft one_open
unfolding lookup
one_open-HasReferencesLeft handle d found = ground (arith, Bool-cases (0 == handle))

none_open-HasReferencesLeft : HasReferencesLeft (filesystem options 4096)
unfolding filesystem lookup
none_open-HasReferencesLeft handle d found = ground arith

two-Reachable_counted : Reachable works (List Entry) collects HasReferencesLeft two_open 5
unfolding serve create create_as openat_retry add_file next_fd internal page_buffer make_rdwr insert
    filesystem add64
two-Reachable_counted =
    after
      (after (constructed options 4096) (
        served 0 [] (helper_create "/a" 384 ask) (pos 0) (info (named 0))
          none_open-HasReferencesLeft refl))
      (served 0 [] (helper_create "/b" 384 ask) (pos 0) (info (named 1)) one_open-HasReferencesLeft
        refl)

Reachable-AreLive_example : AreLive two_open
Reachable-AreLive_example =
    Reachable-AreLive works (List Entry) collects two_open 5 two-Reachable_counted

destroy_filesystem_lem_example : Destroys works two_open 5
destroy_filesystem_lem_example =
    destroy_filesystem_lem works (List Entry) collects two_open 5 5 two-Reachable_counted

-- The file of the table has a reference, so that the assertion of its destructor fails.
destroyed_open : destroy_filesystem works one_open 5 ≡ aborts
unfolding destroy_filesystem destroy_files destroy close
destroyed_open = refl
