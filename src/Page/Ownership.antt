-- ===== src/Page/Ownership.antt =====
-- `page_allocation` as the owner of a mapping: the constructor, the destructor and the move
-- constructor, and how the map of `page_buffer` makes, moves and destroys its allocations
-- (page_buffer.cpp). An address stands for the mapping that begins there.
pub mod Accounting
mod Tests
use asymmetricfs.Prelude.{
  ℕ, Bool, true, false, ◌||◌, List, [], ◌∷◌, Option, none, some, ltb, ◌==◌, if◌then◌else◌,
}
use asymmetricfs.MemoryLock.{MemoryLock}
use asymmetricfs.Page.Allocation.{map_locked}

-- `mmap` gives `none` for MAP_FAILED.
pub record Mappings : Type 1 where
  pub State : Type 0
  pub mmap : Bool → ℕ → State → Option ℕ × State
  pub munmap : ℕ → ℕ → State → State

-- The fields of `page_allocation`; `none` is the null pointer.
pub record Owner : Type 0 where
  pub ptr : Option ℕ
  pub size : ℕ

-- The entries of `page_allocations_` by ascending key.
abbrev pub Owners : Type 0
Owners = List (ℕ × Owner)

-- The move constructor: the new allocation, and what is left of the old one.
unfoldable pub move_allocation : Owner → Owner × Owner
move_allocation rhs = (record { ptr = rhs.ptr; size = rhs.size }, record { ptr = none; size = 0 })

unfoldable pub has_key : ℕ → Owners → Bool
has_key key [] = false
has_key key ((k, o) ∷ m) = (k == key) || has_key key m

-- `map::emplace` of a key that is not there
unfoldable pub emplace_owner : ℕ → Owner → Owners → Owners
emplace_owner key b [] = (key, b) ∷ []
emplace_owner key b ((k, o) ∷ m) =
    if ltb key k then (key, b) ∷ (k, o) ∷ m else (k, o) ∷ emplace_owner key b m

-- What calls do with the allocations: a write asks for one at a key, resize shrinks the buffer, and
-- clear empties it.
pub data Change : Type 0 where
  ask : ℕ → ℕ → Change
  shrink : ℕ → Change
  empty : Change

module _ (M : Mappings) where
  open M use {State}

  unfoldable pub mapped : ℕ → Option ℕ × State → Option Owner × State
  mapped sz (none, s) = (none, s)
  mapped sz (some p, s) = (some (record { ptr = some p; size = sz }), s)

  -- The constructor; `none` is bad_alloc.
  unfoldable pub make_allocation : ℕ → MemoryLock → State → Option Owner × State
  make_allocation sz m s = mapped sz (M.mmap (map_locked m) sz s)

  -- The destructor
  unfoldable pub destroy_allocation : Owner → State → State
  destroy_allocation o s = elim o.ptr [ none ↦ s | some p ↦ M.munmap p o.size s ]

  -- The temporary moves into the map, and is destroyed.
  unfoldable pub place : ℕ → Owners → Option Owner × State → Option Owners × State
  place base m (none, s) = (none, s)
  place base m (some tmp, s) =
      let (o, rest) = move_allocation tmp in
      (some (emplace_owner base o m), destroy_allocation rest s)

  -- The search of a write for the entry at a key, with the allocation if it is missing; `none` is
  -- bad_alloc.
  unfoldable pub entry_at : MemoryLock → ℕ → ℕ → Owners → State → Option Owners × State
  entry_at mlock base len m s =
      if has_key base m then (some m, s) else place base m (make_allocation len mlock s)

  -- `map::clear`, and the destructor of the map
  unfoldable pub destroy_allocations : Owners → State → State
  destroy_allocations [] s = s
  destroy_allocations ((k, o) ∷ m) s = destroy_allocations m (destroy_allocation o s)

  -- `erase` from the first key at `n` or above to the end
  unfoldable pub erase_from : ℕ → Owners → State → Owners × State
  erase_from n [] s = ([], s)
  erase_from n ((k, o) ∷ m) s =
      let rest = erase_from n m s in
      if ltb k n then ((k, o) ∷ rest.0, rest.1) else ([], destroy_allocations ((k, o) ∷ m) s)

  -- After an exception the map is as it was.
  unfoldable pub kept : Owners → Option Owners × State → Owners × State
  kept m (none, s) = (m, s)
  kept m (some m', s) = (m', s)

  unfoldable pub change : MemoryLock → Change → Owners × State → Owners × State
  change mlock (ask base len) (m, s) = kept m (entry_at mlock base len m s)
  change mlock (shrink n) (m, s) = erase_from n m s
  change mlock empty (m, s) = ([], destroy_allocations m s)

  unfoldable pub changes : MemoryLock → List Change → Owners × State → Owners × State
  changes mlock [] x = x
  changes mlock (c ∷ cs) x = changes mlock cs (change mlock c x)
