-- ===== src/Page/Ownership/Tests.antt =====
-- A run of a map of allocations, and the theorem at concrete data.
use asymmetricfs.Prelude.{
  ℕ, zero, suc, ◌+◌, ◌<◌, ◌≡◌, refl, Bool, List, [], ◌∷◌, Option, none, some, ltb, ◌==◌,
  if◌then◌else◌, Bool-cases, arith, ap, sym, inl, inr, ◌∙◌,
}
use asymmetricfs.MemoryLock
use asymmetricfs.Page.Allocation.{map_locked}
use asymmetricfs.Page.Ownership.{
  Mappings, Change, ask, shrink, has_key, emplace_owner, move_allocation, mapped, make_allocation,
  destroy_allocation, place, entry_at, destroy_allocations, erase_from, kept, change, changes,
}
use asymmetricfs.Page.Ownership.Accounting.{IsAccounted, held, IsApart, changes-Unmaps}

-- The sizes of the mappings by their addresses; 0 stands for one that has gone.
unfoldable size_at : List ℕ → ℕ → ℕ
size_at [] x = 0
size_at (n ∷ s) zero = n
size_at (n ∷ s) (suc x) = size_at s x

unfoldable next_address : List ℕ → ℕ
next_address [] = 0
next_address (n ∷ s) = suc (next_address s)

unfoldable mapped_too : List ℕ → ℕ → List ℕ
mapped_too [] n = n ∷ []
mapped_too (k ∷ s) n = k ∷ mapped_too s n

unfoldable unmapped : List ℕ → ℕ → List ℕ
unmapped [] x = []
unmapped (n ∷ s) zero = 0 ∷ s
unmapped (n ∷ s) (suc x) = n ∷ unmapped s x

size_at-next_address : (s : List ℕ) → size_at s (next_address s) ≡ 0
unfolding size_at next_address
size_at-next_address [] = refl
size_at-next_address (n ∷ s) = size_at-next_address s

size_at-mapped_too :
    (s : List ℕ) (n x : ℕ)
    → size_at (mapped_too s n) x ≡ (if x == next_address s then n else size_at s x)
unfolding size_at mapped_too next_address
size_at-mapped_too [] n zero = ground (arith, Bool-cases (0 == 0))
size_at-mapped_too [] n (suc x) = ground (arith, Bool-cases (suc x == 0))
size_at-mapped_too (k ∷ s) n zero = ground (arith, Bool-cases (0 == suc (next_address s)))
size_at-mapped_too (k ∷ s) n (suc x) = ground (
  arith,
  size_at-mapped_too s n x,
  Bool-cases (suc x == suc (next_address s)),
  Bool-cases (x == next_address s),
)

size_at-unmapped :
    (s : List ℕ) (p x : ℕ) → size_at (unmapped s p) x ≡ (if x == p then 0 else size_at s x)
unfolding size_at unmapped
size_at-unmapped [] p x = ground (arith, Bool-cases (x == p))
size_at-unmapped (n ∷ s) zero zero = ground (arith, Bool-cases (0 == 0))
size_at-unmapped (n ∷ s) zero (suc x) = ground (arith, Bool-cases (suc x == 0))
size_at-unmapped (n ∷ s) (suc p) zero = ground (arith, Bool-cases (0 == suc p))
size_at-unmapped (n ∷ s) (suc p) (suc x) =
    ground (arith, size_at-unmapped s p x, Bool-cases (suc x == suc p), Bool-cases (x == p))

-- A system that grants from 1 to 100 bytes.
abbrev granting : Bool → ℕ → List ℕ → Option ℕ × List ℕ
granting locked zero s = (none, s)
granting locked (suc n) s =
    if ltb n 100 then (some (next_address s), mapped_too s (suc n)) else (none, s)

abbrev small : Mappings
small = record { State = List ℕ; mmap = granting; munmap = λ p n s. unmapped s p }

granting-maps :
    (locked : Bool) (n p : ℕ) (s t : List ℕ)
    → granting locked n s ≡ (some p, t)
    → (0 < n) × ((size_at s p ≡ 0) × ((x : ℕ) → size_at t x ≡ (if x == p then n else size_at s x)))
granting-maps locked zero p s t e = ground (arith, ap (λ r. r.0) e)
granting-maps locked (suc n) p s t e = elim (Bool-cases (ltb n 100)) [
  | inl granted ↦
      let found : Path (Option ℕ × List ℕ) (some (next_address s), mapped_too s (suc n))
          (some p, t) =
        rw granted at e in
      let at_end : next_address s ≡ p = ground (arith, ap (λ r. r.0) found) in
      let ends : mapped_too s (suc n) ≡ t = ap (λ r. r.1) found in
      (
        omega arith,
        (
          ap (size_at s) (sym at_end) ∙ size_at-next_address s,
          λ x.
              ap (λ u. size_at u x) (sym ends)
              ∙ size_at-mapped_too s (suc n) x
              ∙ ap (λ (q : ℕ). if x == q then suc n else size_at s x) at_end,
        ),
      )
  | inr refused ↦ ground (arith, refused, ap (λ r. r.0) e)
]

granting-maps_not :
    (locked : Bool) (n : ℕ) (s t : List ℕ)
    → granting locked n s ≡ (none, t)
    → (x : ℕ) → size_at t x ≡ size_at s x
granting-maps_not locked zero s t e x = ap (λ r. size_at r.1 x) (sym e)
granting-maps_not locked (suc n) s t e x = elim (Bool-cases (ltb n 100)) [
  | inl granted ↦ ground (arith, granted, ap (λ r. r.0) e)
  | inr refused ↦
      let found : Path (Option ℕ × List ℕ) (none, s) (none, t) = rw refused at e in
      ap (λ r. size_at r.1 x) (sym found)
]

small-IsAccounted : IsAccounted small
small-IsAccounted = record {
  live = size_at;
  maps = granting-maps;
  maps_not = granting-maps_not;
  unmaps = λ p n s h x. size_at-unmapped s p x;
}

abbrev some_changes : List Change
some_changes = ask 4 8 ∷ ask 0 4 ∷ ask 4 8 ∷ ask 16 200 ∷ ask 12 4 ∷ shrink 10 ∷ []

some_changes_run : changes small MemoryLock.none some_changes ([], []) ≡ (
  (0, record { ptr = some 1; size = 4 }) ∷ (4, record { ptr = some 0; size = 8 }) ∷ [],
  8 ∷ 4 ∷ 0 ∷ [],
)
unfolding changes change kept entry_at place make_allocation mapped map_locked has_key emplace_owner
    move_allocation destroy_allocation destroy_allocations erase_from mapped_too unmapped
    next_address
some_changes_run = refl

changes-Unmaps_example :
    let (m, t) = changes small MemoryLock.none some_changes ([], []) in
    ((x : ℕ) → size_at t x ≡ 0 + held m x)
    × (IsApart (λ x. 0) m × ((x : ℕ) → size_at (destroy_allocations small m t) x ≡ 0))
unfolding size_at small-IsAccounted
changes-Unmaps_example = changes-Unmaps small small-IsAccounted MemoryLock.none some_changes []
