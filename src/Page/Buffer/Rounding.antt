-- ===== src/Page/Buffer/Rounding.antt =====
-- Rounding to pages, for page sizes that are powers of two.
use native.Mathlib.Nat.{
  div-mul-le_self, lt-div-mul-add, one-le-pow, pow-le-pow_right, mul-div_cancel,
}
use Prim.Native.Nat.{bit_and}
use asymmetricfs.Prelude.{
  ℕ, ◌+◌, ◌-◌, ◌*◌, ◌/◌, ◌^◌, ◌≤◌, ◌<◌, ◌≡◌, ap, true, arith, u64_mod, not64, sub64, sub64_lem,
  add64_lem,
}
use asymmetricfs.Prelude.Words.{bit_and-not64}
use asymmetricfs.Page.Buffer.{round_down_to_page, round_up_to_page, is_page_multiple}

-- A page size is a power of two below 2 ^ 64.
abbrev pub IsPageSize : ℕ → Type 0
IsPageSize p = (k : ℕ) × (k < 64) × (p ≡ 2 ^ k)

pub IsPageSize-bounds : (p : ℕ) → IsPageSize p → (0 < p) × (p < u64_mod)
IsPageSize-bounds p (k, h, e) =
    (omega (arith, one-le-pow k 2 (omega arith)), omega (arith, largest))
  where
    largest : 2 ^ k ≤ 2 ^ 63
    largest = pow-le-pow_right (omega arith) {j = 63} (omega arith)

mask-eq : (p a : ℕ) → IsPageSize p → a < u64_mod → bit_and a (not64 (sub64 p 1)) ≡ a / p * p
mask-eq p a (k, h, e) b =
    let (pos, top) = IsPageSize-bounds p (k, h, e) in
    rw (sub64_lem p 1 pos top, e) (bit_and-not64 k a (omega arith) b)

pub round_down_to_page-eq :
    (p sz : ℕ) → IsPageSize p → sz < u64_mod → round_down_to_page p sz ≡ sz / p * p
unfolding round_down_to_page
round_down_to_page-eq p sz w h = mask-eq p sz w h

pub round_up_to_page-eq :
    (p sz : ℕ) → IsPageSize p → sz + p < u64_mod → round_up_to_page p sz ≡ (sz + p - 1) / p * p
unfolding round_up_to_page
round_up_to_page-eq p sz w h =
    let (pos, top) = IsPageSize-bounds p w in
    rw (add64_lem sz p h, sub64_lem (sz + p) 1 (omega arith) h)
      (mask-eq p (sz + p - 1) w (omega arith))

pub is_page_multiple-mul :
    (p c : ℕ) → IsPageSize p → c * p < u64_mod → is_page_multiple p (c * p) ≡ true
unfolding is_page_multiple
is_page_multiple-mul p c w h =
    let (pos, top) = IsPageSize-bounds p w in
    ground
      (arith, round_down_to_page-eq p (c * p) w h, ap (λ (t : ℕ). t * p) (mul-div_cancel c pos))

pub is_page_multiple→eq :
    (p n : ℕ) → IsPageSize p → n < u64_mod → is_page_multiple p n ≡ true → n / p * p ≡ n
unfolding is_page_multiple
is_page_multiple→eq p n w h e = ground (arith, round_down_to_page-eq p n w h)

-- For a page size that is a power of two and a size below 2 ^ 64, rounding down gives a page
-- multiple that is at most the size and less than a page below it.
pub round_down_to_page_bounds :
    (p sz : ℕ)
    → IsPageSize p
    → sz < u64_mod
    → (round_down_to_page p sz ≤ sz)
      × (sz < round_down_to_page p sz + p)
      × (is_page_multiple p (round_down_to_page p sz) ≡ true)
round_down_to_page_bounds p sz w h = rw (round_down_to_page-eq p sz w h) (
  div-mul-le_self sz p,
  lt-div-mul-add (IsPageSize-bounds p w).0,
  is_page_multiple-mul p (sz / p) w (omega (arith, div-mul-le_self sz p)),
)

-- For a page size that is a power of two and a size that stays below 2 ^ 64 with a page added,
-- rounding up gives a page multiple that is at least the size and less than a page above it.
pub round_up_to_page_bounds :
    (p sz : ℕ)
    → IsPageSize p
    → sz + p < u64_mod
    → (sz ≤ round_up_to_page p sz)
      × (round_up_to_page p sz < sz + p)
      × (is_page_multiple p (round_up_to_page p sz) ≡ true)
round_up_to_page_bounds p sz w h =
    let low = div-mul-le_self (sz + p - 1) p in
    let high = lt-div-mul-add {a = sz + p - 1} (IsPageSize-bounds p w).0 in
    rw (round_up_to_page-eq p sz w h) (
      omega arith,
      omega (arith, (IsPageSize-bounds p w).0),
      is_page_multiple-mul p ((sz + p - 1) / p) w (omega arith),
    )
