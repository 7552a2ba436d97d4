-- ===== src/Files/Directories/Listing/Shown.antt =====
-- What `readdir` shows of a directory.
use Prim.Native.String.{String}
use asymmetricfs.Prelude.{
  ℕ, zero, suc, ◌<◌, ◌≡◌, refl, sym, ◌∙◌, ap, inl, inr, Bool, true, false, ◌||◌, ◌&&◌, none, not,
  List, [], ◌∷◌, map, some, done, length, Bool-cases, if◌then◌else◌, ◌==◌, pos, lookup, text_key,
  number_key, if_true, if_false, arith,
}
use asymmetricfs.Kernel.{Kernel, ok, Dirent, s_ifdir}
use asymmetricfs.Files.{Filesystem, FileInfo}
use asymmetricfs.Files.Directories.Listing.{
  Entry, dt_unknown, type_to_mode, is_shown, erase_name, fill_rest, entry_type, list_entry,
  ListReply, list_end, list_next, list_loop, readdir,
}

-- The entries of a directory that are shown, in order.
abbrev pub shown : List Dirent → List Entry
shown [] = []
shown (d ∷ ds) =
    if is_shown d.d_type
    then (record { name = d.d_name; st_ino = d.d_ino; st_mode = type_to_mode d.d_type }) ∷ shown ds
    else shown ds

-- Is the name one of an entry that is shown?
abbrev pub is_named : List Dirent → String → Bool
is_named [] name = false
is_named (d ∷ ds) name = (is_shown d.d_type && text_key.eqb name d.d_name) || is_named ds name

abbrev pub keep : (String → Bool) → List String → List String
keep p [] = []
keep p (x ∷ xs) = if p x then x ∷ keep p xs else keep p xs

-- The entry that stands for a name which the directory has not shown.
abbrev pub filled_in : String → Entry
filled_in name = record { name = name; st_ino = 0; st_mode = s_ifdir }

-- Every directory has these names.
abbrev pub dots : List String
dots = "." ∷ ".." ∷ []

abbrev pub IsTyped : List Dirent → Type 0
IsTyped [] = Unit
IsTyped (d ∷ ds) = ((d.d_type == dt_unknown) ≡ false) × IsTyped ds

keep-erase_name :
    (ds : List Dirent) (name : String) (names : List String)
    → keep (λ x. not (is_named ds x)) (erase_name name names)
      ≡ keep (λ x. not (text_key.eqb x name || is_named ds x)) names
unfolding erase_name
keep-erase_name ds name [] = refl
keep-erase_name ds name (x ∷ names) = elim (Bool-cases (text_key.eqb x name)) [
  | inl same ↦ rw same (keep-erase_name ds name names)
  | inr other ↦ rw other (ground (arith, keep-erase_name ds name names))
]

keep_same :
    (p q : String → Bool) (names : List String)
    → ((x : String) → p x ≡ q x)
    → keep p names ≡ keep q names
keep_same p q [] h = refl
keep_same p q (x ∷ names) h = rw (h x, keep_same p q names h) refl

keep_all : (names : List String) → keep (λ x. true) names ≡ names
keep_all [] = refl
keep_all (x ∷ names) = ap (λ xs. x ∷ xs) (keep_all names)

-- The names that are left after a shown entry, and after one that is skipped.
keep_shown :
    (d : Dirent) (ds : List Dirent) (names : List String)
    → is_shown d.d_type ≡ true
    → keep (λ x. not (is_named (d ∷ ds) x)) names
      ≡ keep (λ x. not (is_named ds x)) (erase_name d.d_name names)
keep_shown d ds names h =
    keep_same _ _ names (λ x. ap (λ b. not ((b && text_key.eqb x d.d_name) || is_named ds x)) h)
    ∙ sym (keep-erase_name ds d.d_name names)

keep_skipped :
    (d : Dirent) (ds : List Dirent) (names : List String)
    → is_shown d.d_type ≡ false
    → keep (λ x. not (is_named (d ∷ ds) x)) names ≡ keep (λ x. not (is_named ds x)) names
keep_skipped d ds names h =
    keep_same _ _ names (λ x. ap (λ b. not ((b && text_key.eqb x d.d_name) || is_named ds x)) h)

abbrev entry : Dirent → Entry
entry d = record { name = d.d_name; st_ino = d.d_ino; st_mode = type_to_mode d.d_type }

module _ (K : Kernel) where
  open K use {State}

  -- The system gives these entries, and then the end.
  abbrev pub Lists : ℕ → List Dirent → State → State → Type 0
  Lists dir [] s t = K.read_dir dir s ≡ (ok none, t)
  Lists dir (d ∷ ds) s t = (u : State) × (K.read_dir dir s ≡ (ok (some d), u)) × Lists dir ds u t

  module _ (B : Type 0) (filler : B → Entry → B × Bool) where
    -- The entries go into the buffer, one after the other.
    abbrev pub fill : B → List Entry → B
    fill b [] = b
    fill b (e ∷ es) = fill (filler b e).0 es

    fill_rest_lem :
        (names : List String) (b : B)
        → ((b : B) (e : Entry) → (filler b e).1 ≡ false)
        → fill_rest K B filler names b ≡ (fill b (map filled_in names), false)
    unfolding fill_rest
    fill_rest_lem [] b room = refl
    fill_rest_lem (name ∷ names) b room =
        if_false (filler b (filled_in name)).1 _ _ (room b (filled_in name))
        ∙ fill_rest_lem names (filler b (filled_in name)).0 room

    reply_same :
        (es es' : List Entry) (names names' : List String) (b : B) (t : State)
        → es ≡ es'
        → names ≡ names'
        → ◌≡◌ {A = ListReply K B filler}
            (done (pos 0, fill (fill b es) (map filled_in names), t))
            (done (pos 0, fill (fill b es') (map filled_in names'), t))
    reply_same es es' names names' b t e f = rw (e, f) refl

    list_end_lem :
        (names : List String) (b : B) (t : State)
        → ((b : B) (e : Entry) → (filler b e).1 ≡ false)
        → list_end K B filler 0 names b t ≡ done (pos 0, fill b (map filled_in names), t)
    unfolding list_end
    list_end_lem names b t room =
        ap (λ (r : B × Bool). done (if r.1 then pos 0 else pos 0, r.0, t))
          (fill_rest_lem names b room)

    list_entry_shown :
        (loop : List String → B → State → ListReply K B filler) (names : List String) (b : B)
        (d : Dirent) (s : State)
        → (filler b (entry d)).1 ≡ false
        → is_shown d.d_type ≡ true
        → list_entry K B filler loop names b d (ok d.d_type, s)
          ≡ loop (erase_name d.d_name names) (filler b (entry d)).0 s
    unfolding list_entry
    list_entry_shown loop names b d s room h =
        if_true (is_shown d.d_type) _ _ h ∙ if_false (filler b (entry d)).1 _ _ room

    list_entry_skipped :
        (loop : List String → B → State → ListReply K B filler) (names : List String) (b : B)
        (d : Dirent) (s : State)
        → is_shown d.d_type ≡ false
        → list_entry K B filler loop names b d (ok d.d_type, s) ≡ loop names b s
    unfolding list_entry
    list_entry_skipped loop names b d s h = if_false (is_shown d.d_type) _ _ h

    list_next_known :
        (loop : List String → B → State → ListReply K B filler) (root : ℕ) (path : String)
        (names : List String) (b : B) (d : Dirent) (s : State)
        → (d.d_type == dt_unknown) ≡ false
        → list_next K B filler loop root path names b (ok (some d), s)
          ≡ list_entry K B filler loop names b d (ok d.d_type, s)
    unfolding list_next entry_type
    list_next_known loop root path names b d s known =
        ap (list_entry K B filler loop names b d) (if_false (d.d_type == dt_unknown) _ _ known)

    list_loop_lem :
        (fuel root : ℕ) (path : String) (dir : ℕ) (ds : List Dirent) (names : List String) (b : B)
        (s t : State)
        → ((b : B) (e : Entry) → (filler b e).1 ≡ false)
        → IsTyped ds
        → Lists dir ds s t
        → length ds < fuel
        → list_loop K B filler fuel root path dir names b s
          ≡ done (
            pos 0,
            fill (fill b (shown ds)) (map filled_in (keep (λ x. not (is_named ds x)) names)),
            t,
          )
    unfolding list_loop list_next list_end
    list_loop_lem zero root path dir ds names b s t room typed lists h = absurd (omega arith)
    list_loop_lem (suc fuel) root path dir [] names b s t room typed lists h =
        let loop = list_loop K B filler fuel root path dir in
        ap (list_next K B filler loop root path names b) lists
        ∙ list_end_lem names b t room
        ∙ ap (λ xs. done (pos 0, fill b (map filled_in xs), t)) (sym (keep_all names))
    list_loop_lem (suc fuel) root path dir (d ∷ ds) names b s t room (known, typed) (u, e, lists)
          h =
        let loop = list_loop K B filler fuel root path dir in
        ap (list_next K B filler loop root path names b) e
        ∙ list_next_known loop root path names b d u known
        ∙ elim (Bool-cases (is_shown d.d_type)) [
          | inl visible ↦
              list_entry_shown loop names b d u (room b (entry d)) visible
              ∙ list_loop_lem fuel root path dir ds (erase_name d.d_name names)
                  (filler b (entry d)).0 u t room typed lists (omega arith)
              ∙ sym (
                  reply_same (shown (d ∷ ds)) (entry d ∷ shown ds) _ _ b t
                    (if_true (is_shown d.d_type) _ _ visible) (keep_shown d ds names visible))
          | inr skipped ↦
              list_entry_skipped loop names b d u skipped
              ∙ list_loop_lem fuel root path dir ds names b u t room typed lists (omega arith)
              ∙ sym (
                  reply_same (shown (d ∷ ds)) (shown ds) _ _ b t
                    (if_false (is_shown d.d_type) _ _ skipped) (keep_skipped d ds names skipped))
        ]

  -- Let an open directory have entries whose types it tells, and let the caller's buffer never be
  -- full. Then readdir returns 0, with its fuel above the number of the entries, and has given to
  -- the caller the links, files and directories among them, in order, and then . and .. if they
  -- were not among these.
  pub readdir_lem :
      (B : Type 0) (filler : B → Entry → B × Bool) (fuel : ℕ) (b : B) (info : FileInfo)
      (fs : Filesystem) (path : String) (ds : List Dirent) (s t : State)
      → ((b : B) (e : Entry) → (filler b e).1 ≡ false)
      → lookup info.fh fs.open_dirs ≡ some path
      → IsTyped ds
      → Lists info.fh ds s t
      → length ds < fuel
      → readdir K B filler fuel b info fs s
        ≡ done (
          pos 0,
          fill B filler
              (fill B filler b (shown ds))
              (map filled_in (keep (λ x. not (is_named ds x)) dots)),
          t,
        )
  unfolding readdir
  readdir_lem B filler fuel b info fs path ds s t room there typed lists h =
      rw (there, readdir)
        (list_loop_lem B filler fuel fs.root path info.fh ds dots b s t room typed lists h)
