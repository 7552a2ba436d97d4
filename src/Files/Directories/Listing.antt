-- ===== src/Files/Directories/Listing.antt =====
-- `readdir`: the entries of a directory, and the two that every directory has.
pub mod Shown
mod Tests
use Prim.Native.Nat.{bit_and}
use Prim.Native.String.{String, ◌++◌}
use asymmetricfs.Prelude.{
  ℕ, zero, suc, ◌*◌, ◌/◌, ◌^◌, Bool, true, false, ◌||◌, List, [], ◌∷◌, Option, none, some, Outcome,
  done, out_of_fuel, ◌==◌, if◌then◌else◌, ℤ, pos, neg, lookup, text_key, number_key,
}
use asymmetricfs.Kernel.{
  Kernel, Sys, ok, error, Stat, Dirent, ebadf, at_symlink_nofollow, s_ifmt, s_ifdir,
}
use asymmetricfs.Files.{Filesystem, FileInfo}

-- What is told of an entry.
pub record Entry : Type 0 where
  pub name : String
  pub st_ino : ℕ
  pub st_mode : ℕ

abbrev pub dt_unknown : ℕ
dt_unknown = 0

abbrev pub dt_dir : ℕ
dt_dir = 4

abbrev pub dt_reg : ℕ
dt_reg = 8

abbrev pub dt_lnk : ℕ
dt_lnk = 10

-- `IFTODT` and `DTTOIF`
abbrev pub mode_to_type : ℕ → ℕ
mode_to_type st_mode = bit_and st_mode s_ifmt / 2 ^ 12

abbrev pub type_to_mode : ℕ → ℕ
type_to_mode d_type = d_type * 2 ^ 12

-- Links, files and directories are shown, and nothing else.
abbrev pub is_shown : ℕ → Bool
is_shown d_type = d_type == dt_lnk || (d_type == dt_reg || d_type == dt_dir)

-- `fill_in.erase(name)`
unfoldable pub erase_name : String → List String → List String
erase_name name [] = []
erase_name name (x ∷ xs) =
    if text_key.eqb x name then erase_name name xs else x ∷ erase_name name xs

-- The caller's function for an entry: the buffer after it, and whether it is full. The buffer is of
-- any type.
module _ (K : Kernel) (B : Type 0) (filler : B → Entry → B × Bool) where
  open K use {State}

  -- The entries that were not seen, until the buffer is full.
  unfoldable pub fill_rest : List String → B → B × Bool
  fill_rest [] b = (b, false)
  fill_rest (name ∷ names) b =
      let (b', full) = filler b (record { name = name; st_ino = 0; st_mode = s_ifdir }) in
      if full then (b', true) else fill_rest names b'

  abbrev pub ListReply : Type 0
  ListReply = Outcome (ℤ × B × State)

  -- The type of an entry, from the system if the directory does not tell it. The name follows the
  -- path without a separator.
  unfoldable pub entry_type : ℕ → String → Dirent → State → Sys ℕ × State
  entry_type root path d s =
      if d.d_type == dt_unknown
      then (let r = K.fstatat root (path ++ d.d_name) at_symlink_nofollow s in
          elim r.0 [ ok st ↦ (ok (mode_to_type st.st_mode), r.1) | error e ↦ (error e, r.1) ])
      else (ok d.d_type, s)

  -- One entry: it is shown or skipped. The rest of the loop takes the names to fill in.
  unfoldable pub list_entry :
      (List String → B → State → ListReply) → List String → B → Dirent → Sys ℕ × State → ListReply
  list_entry loop fill_in b d (error e, s) = done (neg e, b, s)
  list_entry loop fill_in b d (ok d_type, s) =
      let entry : Entry = record {
        name = d.d_name;
        st_ino = d.d_ino;
        st_mode = type_to_mode d_type;
      } in
      let (b', full) = filler b entry in
      let rest = loop (erase_name d.d_name fill_in) b' s in
      if is_shown d_type then (if full then done (pos 0, b', s) else rest) else loop fill_in b s

  -- The end of the loop, with `errno`: it was 0 before the loop.
  unfoldable pub list_end : ℕ → List String → B → State → ListReply
  list_end errno fill_in b s =
      let (b', full) = fill_rest fill_in b in done (if full then pos 0 else neg errno, b', s)

  unfoldable pub list_next :
      (List String → B → State → ListReply)
      → ℕ
      → String
      → List String
      → B
      → Sys (Option Dirent) × State
      → ListReply
  list_next loop root path fill_in b (error e, s) = list_end e fill_in b s
  list_next loop root path fill_in b (ok none, s) = list_end 0 fill_in b s
  list_next loop root path fill_in b (ok (some d), s) =
      list_entry loop fill_in b d (entry_type root path d s)

  -- The loop over the entries, with fuel.
  unfoldable pub list_loop : ℕ → ℕ → String → ℕ → List String → B → State → ListReply
  list_loop zero root path dir fill_in b s = out_of_fuel
  list_loop (suc fuel) root path dir fill_in b s =
      list_next (list_loop fuel root path dir) root path fill_in b (K.read_dir dir s)

  -- `readdir`. The fuel is for the entries of the directory, which have no bound.
  unfoldable pub readdir : ℕ → B → FileInfo → Filesystem → State → ListReply
  readdir fuel b info fs s = elim (lookup info.fh fs.open_dirs) [
    | none ↦ done (neg ebadf, b, s)
    | some path ↦ list_loop fuel fs.root path info.fh ("." ∷ ".." ∷ []) b s
  ]
