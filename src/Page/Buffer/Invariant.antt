-- ===== src/Page/Buffer/Invariant.antt =====
-- The invariant of a page buffer, and the operations other than `write` that keep it.
use asymmetricfs.Prelude.{
  ℕ, ◌+◌, ◌≤◌, ◌-◌, ◌*◌, ◌/◌, ◌<◌, ◌≡◌, subst, zero, suc, [], ◌∷◌, some, true, arith, u64_mod,
  get_elem?,
}
use native.Mathlib.Nat.{mul-sub, add-mul, mul-le-mul_right, le-div_iff_mul-le}
use asymmetricfs.Page.Allocation.{PageAllocation}
use asymmetricfs.Page.Blocks.{Blocks, find, emplace, store}
use asymmetricfs.Page.Blocks.Content.{Apart}
use asymmetricfs.Page.Blocks.Update.{fresh}
use asymmetricfs.Page.Buffer.{PageBuffer, is_page_multiple, round_down_to_page}
use asymmetricfs.Page.Buffer.Rounding.{
  IsPageSize, is_page_multiple→eq, is_page_multiple-mul, round_down_to_page-eq, IsPageSize-bounds,
}

-- Every block begins and ends on a page boundary.
abbrev pub Aligned : ℕ → Blocks → Type 0
Aligned p [] = Unit
Aligned p ((k, a) ∷ m) =
    (is_page_multiple p k ≡ true) × (is_page_multiple p a.size ≡ true) × Aligned p m

pub record IsWellFormed (b : PageBuffer) : Type 0 where
  pub page : IsPageSize b.page_size
  pub apart : Apart 0 b.page_allocations
  pub aligned : Aligned b.page_size b.page_allocations
  pub sized : b.buffer_size < u64_mod

pub is_page_multiple-sub :
    (p n m : ℕ)
    → IsPageSize p
    → n < u64_mod
    → m < u64_mod
    → is_page_multiple p n ≡ true
    → is_page_multiple p m ≡ true
    → is_page_multiple p (n - m) ≡ true
is_page_multiple-sub p n m w h k e f =
    let q = n / p - m / p in
    let whole : q * p ≡ n - m = omega (
      arith,
      mul-sub p (n / p) (m / p),
      is_page_multiple→eq p n w h e,
      is_page_multiple→eq p m w k f,
    ) in
    subst (λ t. is_page_multiple p t ≡ true) whole (is_page_multiple-mul p q w (omega arith))

pub is_page_multiple-add :
    (p n m : ℕ)
    → IsPageSize p
    → n + m < u64_mod
    → is_page_multiple p n ≡ true
    → is_page_multiple p m ≡ true
    → is_page_multiple p (n + m) ≡ true
is_page_multiple-add p n m w h e f =
    let q = n / p + m / p in
    let whole : q * p ≡ n + m = omega (
      arith,
      add-mul (n / p) (m / p) p,
      is_page_multiple→eq p n w (omega arith) e,
      is_page_multiple→eq p m w (omega arith) f,
    ) in
    subst (λ t. is_page_multiple p t ≡ true) whole (is_page_multiple-mul p q w (omega arith))

-- No page boundary lies between the last one up to a size and the size.
pub is_page_multiple-le :
    (p k size : ℕ)
    → IsPageSize p
    → size < u64_mod
    → is_page_multiple p k ≡ true
    → k ≤ size
    → k ≤ round_down_to_page p size
is_page_multiple-le p k size w h e le =
    let exact = is_page_multiple→eq p k w (omega arith) e in
    let below : k / p ≤ size / p = (le-div_iff_mul-le (IsPageSize-bounds p w).0).1 (omega arith) in
    rw (round_down_to_page-eq p size w h) (omega (arith, exact, mul-le-mul_right p below))

pub get_elem?-Aligned :
    (p i k : ℕ) (a : PageAllocation) (m : Blocks)
    → Aligned p m
    → get_elem? m i ≡ some (k, a)
    → is_page_multiple p k ≡ true
get_elem?-Aligned p i k a [] w e = cc
get_elem?-Aligned p zero k a ((j, c) ∷ m) w e = ground arith
get_elem?-Aligned p (suc i) k a ((j, c) ∷ m) w e = get_elem?-Aligned p i k a m w.2 e

pub emplace-Aligned :
    (p base size : ℕ) (m : Blocks)
    → Aligned p m
    → is_page_multiple p base ≡ true
    → is_page_multiple p size ≡ true
    → Aligned p (emplace base (fresh size) m)
unfolding emplace
emplace-Aligned p base size [] w h k = (h, k, tt)
emplace-Aligned p base size ((k, a) ∷ m) w h s =
    ground (arith, emplace-Aligned p base size m w.2 h s)

pub store-Aligned :
    (p key : ℕ) (b a : PageAllocation) (m : Blocks)
    → find key m ≡ some a
    → b.size ≡ a.size
    → Aligned p m
    → Aligned p (store key b m)
unfolding store find
store-Aligned p key b a [] e s w = tt
store-Aligned p key b a ((k, c) ∷ m) e s w = ground (arith, store-Aligned p key b a m)
