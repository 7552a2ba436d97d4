-- ===== src/Page/Buffer/Below.antt =====
-- Blocks that all end below an address, and rounding at page boundaries.
use asymmetricfs.Prelude.{
  ℕ, ◌+◌, ◌-◌, ◌≤◌, ◌<◌, ◌≡◌, refl, ◌∙◌, inl, inr, true, [], ◌∷◌, some, none, get_elem?, ltb, arith,
  u64_mod, Bool-cases,
}
use asymmetricfs.Page.Allocation.{PageAllocation}
use asymmetricfs.Page.Blocks.{Blocks, find, upper_bound, emplace, store}
use asymmetricfs.Page.Blocks.Update.{Uncovered, fresh}
use asymmetricfs.Page.Buffer.{round_down_to_page, round_up_to_page, is_page_multiple}
use asymmetricfs.Page.Buffer.Rounding.{
  IsPageSize, is_page_multiple→eq, round_down_to_page-eq, round_up_to_page_bounds,
}
use asymmetricfs.Page.Buffer.Invariant.{is_page_multiple-sub}
use asymmetricfs.Page.Buffer.Locating.{page-le-size}

-- Every block ends at `n` or below.
abbrev pub EndsBelow : ℕ → Blocks → Type 0
EndsBelow n [] = Unit
EndsBelow n ((k, a) ∷ m) = (k + a.size ≤ n) × EndsBelow n m

pub EndsBelow-mono : (n p : ℕ) (m : Blocks) → n ≤ p → EndsBelow n m → EndsBelow p m
EndsBelow-mono n p [] h w = tt
EndsBelow-mono n p ((k, a) ∷ m) h w = (omega arith, EndsBelow-mono n p m h w.1)

pub EndsBelow-Uncovered : (n : ℕ) (m : Blocks) → EndsBelow n m → Uncovered n m
EndsBelow-Uncovered n [] w = tt
EndsBelow-Uncovered n ((k, a) ∷ m) w = inl (w.0, EndsBelow-Uncovered n m w.1)

pub EndsBelow-last : (n : ℕ) (m : Blocks) → EndsBelow n m → get_elem? m (upper_bound n m) ≡ none
unfolding upper_bound
EndsBelow-last n [] w = refl
EndsBelow-last n ((k, a) ∷ m) w = ground (arith, EndsBelow-last n m w.1)

pub emplace-EndsBelow :
    (n base size : ℕ) (m : Blocks)
    → EndsBelow n m
    → base + size ≤ n
    → EndsBelow n (emplace base (fresh size) m)
unfolding emplace
emplace-EndsBelow n base size [] w h = (h, tt)
emplace-EndsBelow n base size ((k, a) ∷ m) w h = ground (arith, emplace-EndsBelow n base size m w.1)

pub store-EndsBelow :
    (n key : ℕ) (b a : PageAllocation) (m : Blocks)
    → find key m ≡ some a
    → b.size ≡ a.size
    → EndsBelow n m
    → EndsBelow n (store key b m)
unfolding store find
store-EndsBelow n key b a [] e s w = tt
store-EndsBelow n key b a ((k, c) ∷ m) e s w = ground (arith, store-EndsBelow n key b a m)

-- Rounding does not move a page boundary.
pub round_down_to_page_same :
    (p n : ℕ)
    → IsPageSize p
    → n < u64_mod
    → is_page_multiple p n ≡ true
    → round_down_to_page p n ≡ n
round_down_to_page_same p n w h e = round_down_to_page-eq p n w h ∙ is_page_multiple→eq p n w h e

pub round_up_to_page_same :
    (p n : ℕ)
    → IsPageSize p
    → n + p < u64_mod
    → is_page_multiple p n ≡ true
    → round_up_to_page p n ≡ n
round_up_to_page_same p n w h e =
    let (low, high, whole) = round_up_to_page_bounds p n w h in
    let up = round_up_to_page p n in
    let over = is_page_multiple-sub p up n w (omega arith) (omega arith) whole e in
    elim (Bool-cases (ltb n up)) [
      | inr same ↦ ground arith
      | inl more ↦
          absurd
            (omega (arith, page-le-size p (up - n) w (omega arith) over (ground arith), low, high))
    ]
