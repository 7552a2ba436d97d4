-- ===== src/Files/Table.antt =====
-- The table of open files agrees with itself: every path that is open leads to an open file that
-- has that path, and the handles to come are not in use.
use Prim.Native.String.{String}
use asymmetricfs.Prelude.{
  ℕ, ◌+◌, ◌≤◌, ◌≡◌, sym, ap, subst, ◌∙◌, ◌≢◌, inl, inr, List, Option, none, some, Option-cases,
  arith, lookup, insert, assign, erase, text_key, number_key, eqb-cases, lookup-insert_new,
  lookup-insert_old, lookup-insert_other, lookup-assign_self, lookup-assign_other,
  lookup-erase_self, lookup-erase_other,
}
use asymmetricfs.Files.{Internal, Filesystem}

abbrev pub Paths : Type 0
Paths = List (String × ℕ)

abbrev pub Files : Type 0
Files = List (ℕ × Internal)

abbrev pub IsListed : Paths → Files → Type 0
IsListed paths fds =
    (p : String) (h : ℕ)
    → lookup p paths ≡ some h
    → (d : Internal) × (lookup h fds ≡ some d) × (d.path ≡ p)

abbrev pub IsFresh : ℕ → Files → Type 0
IsFresh next fds = (h : ℕ) → next ≤ h → lookup h fds ≡ none

abbrev pub IsConsistent : Filesystem → Type 0
IsConsistent fs = IsListed fs.open_paths fs.open_fds × IsFresh fs.next fs.open_fds

some-none {ℓ} : {A : Type ℓ} (o : Option A) (a : A) → o ≡ some a → o ≡ none → ⊥
some-none o a e f = cc

some-same {ℓ} : {A : Type ℓ} (o : Option A) (a b : A) → o ≡ some a → o ≡ some b → a ≡ b
some-same o a b e f = cc

-- A new file under a handle that is not in use.
pub insert-IsListed :
    (path : String) (next : ℕ) (d : Internal) (paths : Paths) (fds : Files)
    → IsListed paths fds
    → IsFresh next fds
    → d.path ≡ path
    → IsListed (insert path next paths) (insert next d fds)
insert-IsListed path next d paths fds w fresh e p h found = elim (eqb-cases path p) [
  | inr other ↦ old p h (sym (lookup-insert_other path p next paths other) ∙ found)
  | inl same ↦ elim (Option-cases (lookup path paths)) [
    | inl new ↦
        let there = lookup-insert_new path next paths new in
        let at : h ≡ next =
          some-same _ h next found
            (subst (λ q. lookup q (insert path next paths) ≡ some next) same there) in
        (
          d,
          subst (λ n. lookup n (insert next d fds) ≡ some d) (sym at)
              (lookup-insert_new next d fds (fresh next (omega arith))),
          e ∙ same,
        )
    | inr (h', before) ↦
        old p h
          (subst (λ m. lookup p m ≡ some h) (lookup-insert_old path next h' paths before) found)
  ]
]
  where
    old :
        (p : String) (h : ℕ)
        → lookup p paths ≡ some h
        → (c : Internal) × (lookup h (insert next d fds) ≡ some c) × (c.path ≡ p)
    old p h found =
        let (c, there, at) = w p h found in
        (
          c,
          lookup-insert_other next h d fds (λ q. some-none _ c there (fresh h (omega arith)))
              ∙ there,
          at,
        )

pub insert-IsFresh :
    (next : ℕ) (d : Internal) (fds : Files)
    → IsFresh next fds
    → IsFresh (next + 1) (insert next d fds)
insert-IsFresh next d fds fresh h le =
    lookup-insert_other next h d fds (λ q. ground (arith, q)) ∙ fresh h (omega arith)

-- A change to an open file that leaves its path.
pub assign-IsListed :
    (handle : ℕ) (d d' : Internal) (paths : Paths) (fds : Files)
    → IsListed paths fds
    → lookup handle fds ≡ some d
    → d'.path ≡ d.path
    → IsListed paths (assign handle d' fds)
assign-IsListed handle d d' paths fds w there e p h found =
    let (c, at, q) = w p h found in
    elim (eqb-cases handle h) [
      | inl same ↦
          let at' = subst (λ n. lookup n fds ≡ some c) (sym same) at in
          let one : d ≡ c = some-same _ d c there at' in
          (
            d',
            subst (λ n. lookup n (assign handle d' fds) ≡ some d') same
                (lookup-assign_self handle d' d fds there),
            e ∙ ap (λ (x : Internal). x.path) one ∙ q,
          )
      | inr other ↦ (c, lookup-assign_other handle h d' fds other ∙ at, q)
    ]

pub assign-IsFresh :
    (next handle : ℕ) (d d' : Internal) (fds : Files)
    → IsFresh next fds
    → lookup handle fds ≡ some d
    → IsFresh next (assign handle d' fds)
assign-IsFresh next handle d d' fds fresh there h le = elim (eqb-cases handle h) [
  | inl same ↦
      absurd (some-none _ d there (subst (λ n. lookup n fds ≡ none) (sym same) (fresh h le)))
  | inr other ↦ lookup-assign_other handle h d' fds other ∙ fresh h le
]

erased : (p q : String) (h : ℕ) (paths : Paths) → lookup q (erase p paths) ≡ some h → p ≢ q
erased p q h paths found same =
    some-none _ h found
      (subst (λ r. lookup r (erase p paths) ≡ none) same (lookup-erase_self p paths))

-- The last reference goes, and with it the path.
pub erase-IsListed :
    (handle : ℕ) (d : Internal) (paths : Paths) (fds : Files)
    → IsListed paths fds
    → lookup handle fds ≡ some d
    → IsListed (erase d.path paths) (erase handle fds)
erase-IsListed handle d paths fds w there p h found =
    let other = erased d.path p h paths found in
    let (c, at, q) = w p h (sym (lookup-erase_other d.path p paths other) ∙ found) in
    let apart : handle ≢ h = λ same. other (
      ap (λ (x : Internal). x.path)
        (some-same _ d c (subst (λ n. lookup n fds ≡ some d) same there) at)
      ∙ q) in
    (c, lookup-erase_other handle h fds apart ∙ at, q)

pub erase-IsFresh :
    (next handle : ℕ) (fds : Files) → IsFresh next fds → IsFresh next (erase handle fds)
erase-IsFresh next handle fds fresh h le = elim (eqb-cases handle h) [
  | inl same ↦ subst (λ n. lookup n (erase handle fds) ≡ none) same (lookup-erase_self handle fds)
  | inr other ↦ lookup-erase_other handle h fds other ∙ fresh h le
]

-- The path of an open file changes.
pub rename-IsListed :
    (oldpath newpath : String) (handle : ℕ) (d d' : Internal) (paths : Paths) (fds : Files)
    → IsListed paths fds
    → lookup handle fds ≡ some d
    → d.path ≡ oldpath
    → d'.path ≡ newpath
    → IsListed (erase oldpath (insert newpath handle paths)) (assign handle d' fds)
rename-IsListed oldpath newpath handle d d' paths fds w there e e' p h found =
    elim (eqb-cases newpath p) [
      | inr other ↦
          kept p h different (sym (lookup-insert_other newpath p handle paths other) ∙ inserted)
      | inl same ↦ elim (Option-cases (lookup newpath paths)) [
        | inl new ↦
            let one : handle ≡ h =
              some-same _ handle h
                (subst (λ q. lookup q (insert newpath handle paths) ≡ some handle) same
                  (lookup-insert_new newpath handle paths new))
                inserted in
            (
              d',
              subst (λ n. lookup n (assign handle d' fds) ≡ some d') one
                  (lookup-assign_self handle d' d fds there),
              e' ∙ same,
            )
        | inr (h', before) ↦ kept p h different (
            subst (λ m. lookup p m ≡ some h) (lookup-insert_old newpath handle h' paths before)
              inserted)
      ]
    ]
  where
    different : oldpath ≢ p
    different = erased oldpath p h (insert newpath handle paths) found

    inserted : lookup p (insert newpath handle paths) ≡ some h
    inserted = sym (lookup-erase_other oldpath p (insert newpath handle paths) different) ∙ found

    kept :
        (p : String) (h : ℕ)
        → oldpath ≢ p
        → lookup p paths ≡ some h
        → (c : Internal) × (lookup h (assign handle d' fds) ≡ some c) × (c.path ≡ p)
    kept p h different found =
        let (c, at, q) = w p h found in
        let apart : handle ≢ h = λ same. different (
          sym e
          ∙ ap (λ (x : Internal). x.path)
              (some-same _ d c (subst (λ n. lookup n fds ≡ some d) same there) at)
          ∙ q) in
        (c, lookup-assign_other handle h d' fds apart ∙ at, q)
