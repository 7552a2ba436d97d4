-- ===== src/Page/Blocks.antt =====
-- The map from offsets to allocations, as the list of its entries by ascending key, and
-- `find_block`. An iterator is a position in the list; `end()` is the list's length.
pub mod Content
pub mod Update
pub mod Position
use asymmetricfs.Prelude.{
  ℕ, zero, suc, ◌+◌, ◌-◌, Bool, true, false, List, [], ◌∷◌, Option, none, some, length, get_elem?,
  Memory, Outcome, done, aborts, assert, ◌>>=◌, ◌>>◌, ltb, leb, ◌==◌, if◌then◌else◌, not,
}
use asymmetricfs.Page.Allocation.{PageAllocation}

abbrev pub Blocks : Type 0
Blocks = List (ℕ × PageAllocation)

-- `map::find`
unfoldable pub find : ℕ → Blocks → Option PageAllocation
find key [] = none
find key ((k, a) ∷ m) = if k == key then some a else find key m

-- `map::lower_bound`: the first entry with its key at `key` or above.
unfoldable pub lower_bound : ℕ → Blocks → ℕ
lower_bound key [] = 0
lower_bound key ((k, a) ∷ m) = if ltb k key then suc (lower_bound key m) else 0

-- `map::upper_bound`: the first entry with its key above `key`.
unfoldable pub upper_bound : ℕ → Blocks → ℕ
upper_bound key [] = 0
upper_bound key ((k, a) ∷ m) = if leb k key then suc (upper_bound key m) else 0

-- `map::emplace`: an entry that is there stays.
unfoldable pub emplace : ℕ → PageAllocation → Blocks → Blocks
emplace key b [] = (key, b) ∷ []
emplace key b ((k, a) ∷ m) =
    if k == key
    then (k, a) ∷ m
    else if ltb key k
    then (key, b) ∷ (k, a) ∷ m
    else (k, a) ∷ emplace key b m

-- A write through an iterator at `key`.
unfoldable pub store : ℕ → PageAllocation → Blocks → Blocks
store key b [] = []
store key b ((k, a) ∷ m) = if k == key then (k, b) ∷ m else (k, a) ∷ store key b m

-- `--it` and the assertions round it.
unfoldable pub step_back : Blocks → ℕ → ℕ → Outcome ℕ
step_back m key it = do
  assert (not (it == 0))
  elim (get_elem? m (it - 1)) [
    | none ↦ aborts
    | some (k, a) ↦ if leb k key then done (it - 1) else aborts
  ]

-- The search in a map that is not empty, from `it = m.lower_bound(key)`.
unfoldable pub find_from : Blocks → ℕ → ℕ → Outcome ℕ
unfolding step_back
find_from m key it = elim (get_elem? m it) [
  | none ↦ step_back m key it
  | some (k, a) ↦ if leb k key then done it else if it == 0 then done it else step_back m key it
]

unfoldable pub find_block : Blocks → ℕ → Outcome ℕ
unfolding find_from lower_bound
find_block [] key = done 0
find_block (b ∷ m) key = find_from (b ∷ m) key (lower_bound key (b ∷ m))
