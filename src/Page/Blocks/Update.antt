-- ===== src/Page/Blocks/Update.antt =====
-- What the updates of a map of blocks do to the bytes that it holds.
use asymmetricfs.Prelude.{
  ℕ, ◌+◌, ◌-◌, ◌≤◌, ◌<◌, ◌≡◌, refl, [], ◌∷◌, none, some, get_elem?, take, zeroes, arith, in_range,
  if◌then◌else◌, ◌⊎◌, inl, inr, u64_mod,
}
use asymmetricfs.Page.Allocation.{PageAllocation}
use asymmetricfs.Page.Blocks.{Blocks, find, lower_bound, upper_bound, emplace, store}
use asymmetricfs.Page.Blocks.Content.{content, Apart, content_below}

-- A new block of `size` zeroes fits in at `base`: the blocks before it end there, those after it
-- begin behind it, and none has the key.
abbrev pub Fits : ℕ → ℕ → Blocks → Type 0
Fits base size [] = Unit
Fits base size ((k, a) ∷ m) = ((k + a.size ≤ base) × Fits base size m) ⊎ (base + size ≤ k)

-- No block lies over `base`.
abbrev pub Uncovered : ℕ → Blocks → Type 0
Uncovered base [] = Unit
Uncovered base ((k, a) ∷ m) = ((k + a.size ≤ base) × Uncovered base m) ⊎ (base < k)

-- What `mmap` gives.
abbrev pub fresh : ℕ → PageAllocation
fresh size = record { ptr = zeroes; size = size }

pub store-Apart :
    (low key : ℕ) (b a : PageAllocation) (m : Blocks)
    → find key m ≡ some a
    → b.size ≡ a.size
    → Apart low m
    → Apart low (store key b m)
unfolding find store
store-Apart low key b a [] e s w = tt
store-Apart low key b a ((k, c) ∷ m) e s w = ground (arith, store-Apart (k + c.size) key b a m)

pub find-Apart :
    (low key : ℕ) (a : PageAllocation) (m : Blocks)
    → Apart low m
    → find key m ≡ some a
    → (low ≤ key) × (0 < a.size) × (key + a.size < u64_mod)
unfolding find
find-Apart low key a [] w e = ground arith
find-Apart low key a ((k, c) ∷ m) w e = ground (arith, find-Apart (k + c.size) key a m w.3)

pub content-store :
    (low key x : ℕ) (b a : PageAllocation) (m : Blocks)
    → Apart low m
    → find key m ≡ some a
    → b.size ≡ a.size
    → content (store key b m) x
      ≡ (if in_range key (key + a.size) x then b.ptr (x - key) else content m x)
unfolding find store content
content-store low key x b a [] w e s = ground arith
content-store low key x b a ((k, c) ∷ m) w e s =
    ground (arith, content-store (k + c.size) key x b a m w.3, find-Apart (k + c.size) key a m w.3)

pub find-store :
    (key : ℕ) (b a : PageAllocation) (m : Blocks)
    → find key m ≡ some a
    → find key (store key b m) ≡ some b
unfolding find store
find-store key b a [] e = ground arith
find-store key b a ((k, c) ∷ m) e = ground (arith, find-store key b a m)

pub content-emplace :
    (low base size x : ℕ) (m : Blocks)
    → Apart low m
    → Fits base size m
    → content (emplace base (fresh size) m) x ≡ content m x
unfolding emplace content
content-emplace low base size x [] w f = ground arith
content-emplace low base size x ((k, a) ∷ m) w (inl (before, f)) =
    ground (arith, content-emplace (k + a.size) base size x m w.3 f)
content-emplace low base size x ((k, a) ∷ m) w (inr after) =
    ground (arith, content_below (k + a.size) x m w.3)

pub emplace-Apart :
    (low base size : ℕ) (m : Blocks)
    → Apart low m
    → Fits base size m
    → low ≤ base
    → 0 < size
    → base + size < u64_mod
    → Apart low (emplace base (fresh size) m)
unfolding emplace
emplace-Apart low base size [] w f h j t = (h, j, t, tt)
emplace-Apart low base size ((k, a) ∷ m) w (inl (before, f)) h j t =
    ground (arith, emplace-Apart (k + a.size) base size m w.3 f before j t)
emplace-Apart low base size ((k, a) ∷ m) w (inr after) h j t = ground arith

pub find-emplace :
    (low base size : ℕ) (m : Blocks)
    → Apart low m
    → Fits base size m
    → 0 < size
    → find base (emplace base (fresh size) m) ≡ some (fresh size)
unfolding emplace find
find-emplace low base size [] w f h = ground arith
find-emplace low base size ((k, a) ∷ m) w (inl (before, f)) h =
    ground (arith, find-emplace (k + a.size) base size m w.3 f h)
find-emplace low base size ((k, a) ∷ m) w (inr after) h = ground arith

-- With no block over `base`, a new block fits in up to the next key.
pub Uncovered-Fits :
    (low base k : ℕ) (a : PageAllocation) (m : Blocks)
    → Apart low m
    → Uncovered base m
    → get_elem? m (upper_bound base m) ≡ some (k, a)
    → (base < k) × Fits base (k - base) m
unfolding upper_bound
Uncovered-Fits low base k a [] w u e = ground arith
Uncovered-Fits low base k a ((j, c) ∷ m) w (inl (before, u)) e =
    let (h, f) = Uncovered-Fits (j + c.size) base k a m w.3 u (ground arith) in (h, inl (before, f))
Uncovered-Fits low base k a ((j, c) ∷ m) w (inr after) e = (ground arith, inr (ground arith))

pub Uncovered-Fits_end :
    (low base size : ℕ) (m : Blocks)
    → Apart low m
    → Uncovered base m
    → get_elem? m (upper_bound base m) ≡ none
    → Fits base size m
unfolding upper_bound
Uncovered-Fits_end low base size [] w u e = tt
Uncovered-Fits_end low base size ((j, c) ∷ m) w (inl (before, u)) e =
    inl (before, Uncovered-Fits_end (j + c.size) base size m w.3 u (ground arith))
Uncovered-Fits_end low base size ((j, c) ∷ m) w (inr after) e = absurd (ground arith)

pub find_below : (low key : ℕ) (m : Blocks) → Apart low m → key < low → find key m ≡ none
unfolding find
find_below low key [] w h = refl
find_below low key ((k, a) ∷ m) w h = ground (arith, find_below (k + a.size) key m w.3)

pub find-Uncovered :
    (low base : ℕ) (m : Blocks) → Apart low m → Uncovered base m → find base m ≡ none
unfolding find
find-Uncovered low base [] w u = refl
find-Uncovered low base ((k, a) ∷ m) w (inl (before, u)) =
    ground (arith, find-Uncovered (k + a.size) base m w.3 u)
find-Uncovered low base ((k, a) ∷ m) w (inr after) =
    ground (arith, find_below (k + a.size) base m w.3)

pub upper_bound_above :
    (key k : ℕ) (a : PageAllocation) (m : Blocks)
    → get_elem? m (upper_bound key m) ≡ some (k, a)
    → key < k
unfolding upper_bound
upper_bound_above key k a [] e = ground arith
upper_bound_above key k a ((j, c) ∷ m) e = ground (arith, upper_bound_above key k a m)

-- Where no entry has the key, the lower bound is above it.
pub lower_bound_above :
    (key k : ℕ) (a : PageAllocation) (m : Blocks)
    → find key m ≡ none
    → get_elem? m (lower_bound key m) ≡ some (k, a)
    → key < k
unfolding find lower_bound
lower_bound_above key k a [] f e = ground arith
lower_bound_above key k a ((j, c) ∷ m) f e = ground (arith, lower_bound_above key k a m)

-- The blocks that start below `n`.
pub take-lower_bound-Apart :
    (low n : ℕ) (m : Blocks) → Apart low m → Apart low (take (lower_bound n m) m)
unfolding lower_bound
take-lower_bound-Apart low n [] w = tt
take-lower_bound-Apart low n ((k, a) ∷ m) w =
    ground (arith, take-lower_bound-Apart (k + a.size) n m w.3)

-- They hold what was there below `n`.
pub content-take-lower_bound :
    (low n x : ℕ) (m : Blocks)
    → Apart low m
    → x < n
    → content (take (lower_bound n m) m) x ≡ content m x
unfolding lower_bound content
content-take-lower_bound low n x [] w h = refl
content-take-lower_bound low n x ((k, a) ∷ m) w h =
    ground
      (arith, content-take-lower_bound (k + a.size) n x m w.3 h, content_below (k + a.size) x m w.3)

-- A block holds its bytes.
pub content-find :
    (low key x : ℕ) (a : PageAllocation) (m : Blocks)
    → Apart low m
    → find key m ≡ some a
    → key ≤ x
    → x < key + a.size
    → content m x ≡ a.ptr (x - key)
unfolding find content
content-find low key x a [] w e h j = ground arith
content-find low key x a ((k, c) ∷ m) w e h j =
    ground (arith, content-find (k + c.size) key x a m w.3, find-Apart (k + c.size) key a m w.3)

-- They hold nothing from `n` on, if none of them lies over `n`.
pub content-take-Uncovered :
    (low n x : ℕ) (m : Blocks)
    → Apart low m
    → Uncovered n m
    → n ≤ x
    → content (take (lower_bound n m) m) x ≡ 0
unfolding lower_bound content
content-take-Uncovered low n x [] w u h = refl
content-take-Uncovered low n x ((k, a) ∷ m) w (inl (before, u)) h =
    ground (arith, content-take-Uncovered (k + a.size) n x m w.3 u h)
content-take-Uncovered low n x ((k, a) ∷ m) w (inr after) h = ground arith

-- A block that begins below `n` is kept whole.
pub content-take_within :
    (low n key x : ℕ) (a : PageAllocation) (m : Blocks)
    → Apart low m
    → find key m ≡ some a
    → key < n
    → key ≤ x
    → x < key + a.size
    → content (take (lower_bound n m) m) x ≡ content m x
unfolding find lower_bound content
content-take_within low n key x a [] w e h j t = ground arith
content-take_within low n key x a ((k, c) ∷ m) w e h j t =
    ground
      (arith, content-take_within (k + c.size) n key x a m w.3, find-Apart (k + c.size) key a m w.3)

pub find-emplace_new :
    (base : ℕ) (b : PageAllocation) (m : Blocks)
    → find base m ≡ none
    → find base (emplace base b m) ≡ some b
unfolding find emplace
find-emplace_new base b [] e = ground arith
find-emplace_new base b ((k, a) ∷ m) e = ground (arith, find-emplace_new base b m)
