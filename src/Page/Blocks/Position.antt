-- ===== src/Page/Blocks/Position.antt =====
-- Where an entry stands in a map of blocks, and when `find_block` finds it.
use asymmetricfs.Prelude.{
  ℕ, zero, suc, ◌+◌, ◌-◌, ◌≤◌, ◌<◌, ◌≡◌, refl, ap, ◌∙◌, subst, [], ◌∷◌, some, get_elem?, drop, done,
  leb, ltb, ◌==◌, if◌then◌else◌, arith, Bool-cases, inl, inr, false, le→leb, if_false,
}
use asymmetricfs.Page.Allocation.{PageAllocation}
use asymmetricfs.Page.Blocks.{
  Blocks, find, lower_bound, emplace, store, find_block, find_from, step_back,
}
use asymmetricfs.Page.Blocks.Content.{Apart}
use asymmetricfs.Page.Blocks.Update.{fresh, find-Apart}

-- The entry stands at the index, all before it have smaller keys, and the rest follows.
abbrev pub Leads : ℕ → ℕ → PageAllocation → Blocks → Blocks → Type 0
Leads i key a rest [] = ⊥
Leads zero key a rest ((k, c) ∷ m) = (k ≡ key) × (c ≡ a) × (m ≡ rest)
Leads (suc i) key a rest ((k, c) ∷ m) = (k < key) × Leads i key a rest m

pub find-Leads :
    (low key : ℕ) (a : PageAllocation) (m : Blocks)
    → Apart low m
    → find key m ≡ some a
    → (i : ℕ) × (rest : Blocks) × Leads i key a rest m × Apart (key + a.size) rest
unfolding find
find-Leads low key a [] w e = cc
find-Leads low key a ((k, c) ∷ m) w e = elim (Bool-cases (k == key)) [
  | inl here ↦
      let at : k ≡ key = ground arith in
      let found : some c ≡ some a = rw here at e in
      let same : c ≡ a = cc in
      let behind = ap (λ (q : ℕ). q + c.size) at ∙ ap (λ (d : PageAllocation). key + d.size) same in
      (0, m, (at, same, refl), subst (λ n. Apart n m) behind w.3)
  | inr further ↦
      let found : find key m ≡ some a = rw further at e in
      let (i, rest, l, apart) = find-Leads (k + c.size) key a m w.3 found in
      let after = (find-Apart (k + c.size) key a m w.3 found).0 in
      (suc i, rest, (omega arith, l), apart)
]

-- A new block behind the entry changes the rest only.
pub Leads-store :
    (i key base size : ℕ) (a new : PageAllocation) (rest m : Blocks)
    → key < base
    → Leads i key a rest m
    → Leads i key a
        (store base new (emplace base (fresh size) rest))
        (store base new (emplace base (fresh size) m))
unfolding store emplace
Leads-store i key base size a new rest [] h l = absurd l
Leads-store zero key base size a new rest ((k, c) ∷ m) h (e, f, g) =
    let other : (k == base) ≡ false = ground arith in
    let before : ltb base k ≡ false = ground arith in
    rw (other, before, store)
      (rw other (e, f, ap (λ n. store base new (emplace base (fresh size) n)) g))
Leads-store (suc i) key base size a new rest ((k, c) ∷ m) h (low, l) =
    let other : (k == base) ≡ false = ground arith in
    let before : ltb base k ≡ false = ground arith in
    rw (other, before, store) (rw other (low, Leads-store i key base size a new rest m h l))

-- The first key, if there is one, is above.
abbrev pub StartsAbove : ℕ → Blocks → Type 0
StartsAbove x [] = Unit
StartsAbove x ((k, a) ∷ m) = x < k

lower_bound-StartsAbove : (x : ℕ) (m : Blocks) → StartsAbove x m → lower_bound x m ≡ 0
unfolding lower_bound
lower_bound-StartsAbove x [] h = refl
lower_bound-StartsAbove x ((k, a) ∷ m) h = ground arith

lower_bound-Leads :
    (i key x : ℕ) (a : PageAllocation) (rest m : Blocks)
    → Leads i key a rest m
    → key ≤ x
    → StartsAbove x rest
    → lower_bound x m ≡ (if key == x then i else suc i)
unfolding lower_bound
lower_bound-Leads i key x a rest [] l h above = absurd l
lower_bound-Leads zero key x a rest ((k, c) ∷ m) (e, f, g) h above =
    let none_below = ap (lower_bound x) g ∙ lower_bound-StartsAbove x rest above in
    ground (arith, none_below, Bool-cases (key == x))
lower_bound-Leads (suc i) key x a rest ((k, c) ∷ m) (low, l) h above =
    ground (arith, lower_bound-Leads i key x a rest m l h above, Bool-cases (key == x))

pub drop-Leads :
    (i key : ℕ) (a : PageAllocation) (rest m : Blocks)
    → Leads i key a rest m
    → drop i m ≡ (key, a) ∷ rest
drop-Leads i key a rest [] l = absurd l
drop-Leads zero key a rest ((k, c) ∷ m) (e, f, g) = cc
drop-Leads (suc i) key a rest ((k, c) ∷ m) (low, l) = drop-Leads i key a rest m l

get_elem?-Leads :
    (i key : ℕ) (a : PageAllocation) (rest m : Blocks)
    → Leads i key a rest m
    → (get_elem? m i ≡ some (key, a)) × (get_elem? m (suc i) ≡ get_elem? rest 0)
get_elem?-Leads i key a rest [] l = absurd l
get_elem?-Leads zero key a rest ((k, c) ∷ m) (e, f, g) = (cc, ap (λ n. get_elem? n 0) g)
get_elem?-Leads (suc i) key a rest ((k, c) ∷ m) (low, l) = get_elem?-Leads i key a rest m l

step_back-Leads :
    (i key x : ℕ) (a : PageAllocation) (m : Blocks)
    → get_elem? m i ≡ some (key, a)
    → key ≤ x
    → step_back m x (suc i) ≡ done i
unfolding step_back
step_back-Leads i key x a m here h =
    let more : (suc i == 0) ≡ false = ground arith in
    let back : suc i - 1 ≡ i = omega arith in rw (more, back, here, le→leb key x h) (ap done back)

find_from-Leads :
    (i key x : ℕ) (a : PageAllocation) (rest m : Blocks)
    → get_elem? m i ≡ some (key, a)
    → get_elem? m (suc i) ≡ get_elem? rest 0
    → key < x
    → StartsAbove x rest
    → find_from m x (suc i) ≡ done i
unfolding find_from
find_from-Leads i key x a [] m here next h above =
    rw (next, find_from) (step_back-Leads i key x a m here (omega arith))
find_from-Leads i key x a ((k, c) ∷ rest) m here next h above =
    let miss : leb k x ≡ false = ground arith in
    let more : (suc i == 0) ≡ false = ground arith in
    rw (next, find_from)
      (rw miss (if_false (suc i == 0) _ _ more ∙ step_back-Leads i key x a m here (omega arith)))

pub find_block-Leads :
    (i key x : ℕ) (a : PageAllocation) (rest m : Blocks)
    → Leads i key a rest m
    → key ≤ x
    → StartsAbove x rest
    → find_block m x ≡ done i
unfolding find_block
find_block-Leads i key x a rest [] l h above = absurd l
find_block-Leads i key x a rest (b ∷ m) l h above =
    let (here, next) = get_elem?-Leads i key a rest (b ∷ m) l in
    let bound = lower_bound-Leads i key x a rest (b ∷ m) l h above in
    elim (Bool-cases (key == x)) [
      | inl same ↦
          let at : lower_bound x (b ∷ m) ≡ i = rw same at bound in
          ap (find_from (b ∷ m) x) at ∙ rw (here, find_from) (rw (le→leb key x h) refl)
      | inr other ↦
          let at : lower_bound x (b ∷ m) ≡ suc i = rw other at bound in
          ap (find_from (b ∷ m) x) at
          ∙ find_from-Leads i key x a rest (b ∷ m) here next (ground (arith, other)) above
    ]
