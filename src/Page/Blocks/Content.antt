-- ===== src/Page/Blocks/Content.antt =====
-- The byte that a map of blocks holds at an address, and what `find_block` finds.
use asymmetricfs.Prelude.{
  ℕ, zero, suc, ◌+◌, ◌-◌, ◌≤◌, ◌<◌, ◌≡◌, refl, ◌≢◌, [], ◌∷◌, some, get_elem?, drop, Outcome, done,
  leb, in_range, if◌then◌else◌, arith, u64_mod, Option-cases, Bool-cases, inl, inr,
}
use asymmetricfs.Page.Allocation.{PageAllocation}
use asymmetricfs.Page.Blocks.{Blocks, lower_bound, find_block, find_from, step_back}

-- The first block over the address has the byte; no block has a zero.
unfoldable pub content : Blocks → ℕ → ℕ
content [] x = 0
content ((k, a) ∷ m) x = if in_range k (k + a.size) x then a.ptr (x - k) else content m x

-- From `low` up the blocks lie one after the other, none is empty, and all end below 2 ^ 64.
abbrev pub Apart : ℕ → Blocks → Type 0
Apart low [] = Unit
Apart low ((k, a) ∷ m) = (low ≤ k) × (0 < a.size) × (k + a.size < u64_mod) × Apart (k + a.size) m

pub Apart-mono : (low high : ℕ) (m : Blocks) → low ≤ high → Apart high m → Apart low m
Apart-mono low high [] h w = tt
Apart-mono low high ((k, a) ∷ m) h w = (omega arith, w.1, w.2, w.3)

-- Below its first key a map has zeroes.
pub content_below : (low x : ℕ) (m : Blocks) → Apart low m → x < low → content m x ≡ 0
unfolding content
content_below low x [] w h = refl
content_below low x ((k, a) ∷ m) w h = ground (arith, content_below (k + a.size) x m w.3)

pub get_elem?-Apart :
    (low i k : ℕ) (a : PageAllocation) (m : Blocks)
    → Apart low m
    → get_elem? m i ≡ some (k, a)
    → low ≤ k
get_elem?-Apart low i k a [] w e = ground arith
get_elem?-Apart low zero k a ((j, b) ∷ m) w e = ground arith
get_elem?-Apart low (suc i) k a ((j, b) ∷ m) w e =
    omega (arith, get_elem?-Apart (j + b.size) i k a m w.3 e)

pub get_elem?-below :
    (low i k : ℕ) (a : PageAllocation) (m : Blocks)
    → Apart low m
    → get_elem? m i ≡ some (k, a)
    → k < u64_mod
get_elem?-below low i k a [] w e = ground arith
get_elem?-below low zero k a ((j, b) ∷ m) w e = ground arith
get_elem?-below low (suc i) k a ((j, b) ∷ m) w e = get_elem?-below (j + b.size) i k a m w.3 e

pub drop-Apart : (low i : ℕ) (m : Blocks) → Apart low m → Apart low (drop i m)
drop-Apart low zero m w = w
drop-Apart low (suc i) [] w = tt
drop-Apart low (suc i) ((k, a) ∷ m) w =
    drop-Apart low i m (Apart-mono low (k + a.size) m (omega arith) w.3)

-- From the key of an entry up, the entries before it do not matter.
pub content-drop :
    (low i k x : ℕ) (a : PageAllocation) (m : Blocks)
    → Apart low m
    → get_elem? m i ≡ some (k, a)
    → k ≤ x
    → content (drop i m) x ≡ content m x
unfolding content
content-drop low zero k x a m w e h = refl
content-drop low (suc i) k x a [] w e h = refl
content-drop low (suc i) k x a ((j, b) ∷ m) w e h =
    ground (
      arith,
      content-drop (j + b.size) i k x a m w.3 e h,
      get_elem?-Apart (j + b.size) i k a m w.3 e,
    )

lower_bound_before :
    (key i : ℕ) (m : Blocks)
    → lower_bound key m ≡ suc i
    → (k : ℕ) × (a : PageAllocation) × (get_elem? m i ≡ some (k, a)) × (k < key)
unfolding lower_bound
lower_bound_before key i [] e = absurd (omega arith)
lower_bound_before key zero ((k, a) ∷ m) e = (k, a, refl, ground arith)
lower_bound_before key (suc i) ((k, a) ∷ m) e = lower_bound_before key i m (ground arith)

-- `find_block` always returns, and the blocks before the one that it finds lie below the key.
abbrev Finds : Blocks → ℕ → Outcome ℕ → Type 0
Finds m key r = (i : ℕ) × (r ≡ done i) × ((x : ℕ) → key ≤ x → content (drop i m) x ≡ content m x)

step_back-Finds :
    (low key i : ℕ) (m : Blocks)
    → Apart low m
    → lower_bound key m ≡ suc i
    → Finds m key (step_back m key (suc i))
unfolding step_back
step_back-Finds low key i m w e =
    let (k, a, found, h) = lower_bound_before key i m e in
    (i, ground arith, λ x hx. content-drop low i k x a m w found (omega arith))

find_from-Finds :
    (low key it : ℕ) (m : Blocks)
    → Apart low m
    → m ≢ []
    → lower_bound key m ≡ it
    → Finds m key (find_from m key it)
unfolding find_from
find_from-Finds low key zero [] w h e = absurd (h refl)
find_from-Finds low key zero ((k, a) ∷ m) w h e = (0, ground arith, λ x hx. refl)
find_from-Finds low key (suc i) m w h e = elim (Option-cases (get_elem? m (suc i))) [
  | inl missing ↦ rw (missing, find_from) (step_back-Finds low key i m w e)
  | inr ((k, a), found) ↦ elim (Bool-cases (leb k key)) [
    | inl hit ↦ (
      suc i,
      rw (found, find_from) (rw hit),
      λ x hx. content-drop low (suc i) k x a m w found (ground arith),
    )
    | inr miss ↦
        let (j, back, same) = step_back-Finds low key i m w e in
        (j, rw (found, find_from) (rw miss (ground (arith, back))), same)
  ]
]

pub find_block-Finds : (low key : ℕ) (m : Blocks) → Apart low m → Finds m key (find_block m key)
unfolding find_block
find_block-Finds low key [] w = (0, refl, λ x h. refl)
find_block-Finds low key (b ∷ m) w =
    find_from-Finds low key (lower_bound key (b ∷ m)) (b ∷ m) w (λ e. cc) refl
