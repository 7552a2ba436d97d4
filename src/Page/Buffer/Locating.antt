-- ===== src/Page/Buffer/Locating.antt =====
-- The block that a write copies into: found, or new.
use asymmetricfs.Prelude.{
  ℕ, ◌+◌, ◌-◌, ◌*◌, ◌/◌, ◌≤◌, ◌<◌, ◌≡◌, refl, ap, ◌⊎◌, inl, inr, true, [], ◌∷◌, some, none, Outcome,
  done, ltb, arith, u64_mod, add64_lem, sub64_lem, sub64-zero, add64, sub64, Bool, Bool-cases,
  Option-cases, lt→ltb, get_elem?,
}
use asymmetricfs.Page.Allocation.{PageAllocation, page_allocation, map_locked}
use asymmetricfs.Page.Blocks.{Blocks, find, upper_bound, lower_bound, emplace}
use asymmetricfs.Page.Blocks.Content.{content, get_elem?-below}
use asymmetricfs.Page.Blocks.Update
use native.Mathlib.Nat.{div-eq_of_lt}
use asymmetricfs.Page.Blocks.Update.{Uncovered, Fits, fresh}
use asymmetricfs.Page.Buffer.{
  PageBuffer, new_block_end, allocate_block, new_block, locate_block, round_down_to_page,
  is_page_multiple,
}
use asymmetricfs.Page.Buffer.Rounding.{
  IsPageSize, is_page_multiple→eq, round_down_to_page_bounds, round_up_to_page_bounds,
}
use asymmetricfs.Page.Buffer.Invariant.{
  IsWellFormed, Aligned, is_page_multiple-sub, get_elem?-Aligned, emplace-Aligned,
}

pub new_block_end_rest : (base n : ℕ) → base + n < u64_mod → sub64 (add64 base n) 0 ≡ base + n
new_block_end_rest base n h = rw (add64_lem base n h) (sub64-zero (base + n) h)

-- Where the new block for a write at `base` ends: above `base`, and on a page boundary.
pub new_block_end_bounds :
    (b : PageBuffer) (base n : ℕ)
    → IsWellFormed b
    → 0 < n
    → base + n + b.page_size < u64_mod
    → let end = new_block_end b base n 0 in
      (base < end) × (end < u64_mod) × (is_page_multiple b.page_size end ≡ true)
unfolding new_block_end
new_block_end_bounds b base n v h t =
    elim (Option-cases (get_elem? b.page_allocations (upper_bound base b.page_allocations))) [
      | inl last ↦
          let (up1, up2, up3) =
            round_up_to_page_bounds b.page_size (base + n) v.page (omega arith) in
          rw (last, new_block_end, new_block_end_rest base n (omega arith))
            (omega arith, omega arith, up3)
      | inr ((k, a), next) ↦
          rw (next, new_block_end)
            (
              Update.upper_bound_above base k a b.page_allocations next,
              get_elem?-below 0 _ k a b.page_allocations v.apart next,
              get_elem?-Aligned b.page_size _ k a b.page_allocations v.aligned next,
            )
    ]

-- If no block lies over `base`, the new block fits in.
pub new_block_end-Fits :
    (b : PageBuffer) (base n : ℕ)
    → IsWellFormed b
    → Uncovered base b.page_allocations
    → Fits base (new_block_end b base n 0 - base) b.page_allocations
unfolding new_block_end
new_block_end-Fits b base n v u =
    elim (Option-cases (get_elem? b.page_allocations (upper_bound base b.page_allocations))) [
      | inl last ↦ Update.Uncovered-Fits_end 0 base _ b.page_allocations v.apart u last
      | inr ((k, a), next) ↦
          rw (next, new_block_end)
            (Update.Uncovered-Fits 0 base k a b.page_allocations v.apart u next).1
    ]

-- A new block at `base`, when the next one is near enough and the kernel grants the memory.
allocate_block_lem :
    (mmap : Bool → ℕ → Bool) (b : PageBuffer) (base n : ℕ)
    → IsWellFormed b
    → is_page_multiple b.page_size base ≡ true
    → 0 < n
    → base + n + b.page_size < u64_mod
    → let end = new_block_end b base n 0 in
      end < base + n + b.page_size
      → mmap (map_locked b.mlock) (end - base) ≡ true
      → allocate_block mmap b base n 0
        ≡ done
            (record b { page_allocations = emplace base (fresh (end - base)) b.page_allocations })
unfolding allocate_block page_allocation
allocate_block_lem mmap b base n v m h t near granted =
    let (e1, e2, e3) = new_block_end_bounds b base n v h t in
    let end = new_block_end b base n 0 in
    let multiple = is_page_multiple-sub b.page_size end base v.page e2 (omega arith) e3 m in
    rw (
      lt→ltb base end e1,
      sub64_lem end base (omega arith) e2,
      sub64-zero n (omega arith),
      add64_lem n b.page_size (omega arith),
      lt→ltb (end - base) (n + b.page_size) (omega arith),
      multiple,
      granted,
    )

-- The write has a block from `base` to `top`, and the bytes and the size are as they were.
abbrev pub Located : PageBuffer → ℕ → ℕ → Outcome (ℕ × PageBuffer) → Type 0
Located b base top r =
    (b' : PageBuffer) × (a : PageAllocation) × (r ≡ done (base, b'))
    × IsWellFormed b'
    × (find base b'.page_allocations ≡ some a)
    × (base + a.size ≡ top)
    × ((x : ℕ) → content b'.page_allocations x ≡ content b.page_allocations x)
    × (b'.buffer_size ≡ b.buffer_size)
    × (b'.page_size ≡ b.page_size)

pub locate_found :
    (mmap : Bool → ℕ → Bool) (b : PageBuffer) (base n : ℕ) (a : PageAllocation)
    → IsWellFormed b
    → find base b.page_allocations ≡ some a
    → Located b base (base + a.size) (locate_block mmap b base n 0)
unfolding locate_block
locate_found mmap b base n a v e = (b, a, rw (e, locate_block), v, e, refl, λ x. refl, refl, refl)

locate_block-new_block :
    (mmap : Bool → ℕ → Bool) (b : PageBuffer) (base n : ℕ)
    → find base b.page_allocations ≡ none
    → locate_block mmap b base n 0 ≡ new_block mmap b base n 0
unfolding locate_block
locate_block-new_block mmap b base n missing =
    rw (missing, locate_block)
      (elim (Option-cases (get_elem? b.page_allocations (lower_bound base b.page_allocations))) [
        | inl last ↦ rw last
        | inr ((k, a), next) ↦ rw (
          next,
          lt→ltb base k (Update.lower_bound_above base k a b.page_allocations missing next),
        )
      ])

-- The iterator and the buffer after a new block.
pub locate_block_new :
    (mmap : Bool → ℕ → Bool) (b : PageBuffer) (base n : ℕ)
    → IsWellFormed b
    → is_page_multiple b.page_size base ≡ true
    → find base b.page_allocations ≡ none
    → 0 < n
    → base + n + b.page_size < u64_mod
    → let end = new_block_end b base n 0 in
      end < base + n + b.page_size
      → mmap (map_locked b.mlock) (end - base) ≡ true
      → locate_block mmap b base n 0
        ≡ done (
          base,
          record b { page_allocations = emplace base (fresh (end - base)) b.page_allocations },
        )
unfolding new_block
locate_block_new mmap b base n v m missing h t near granted = rw (
  locate_block-new_block mmap b base n missing,
  allocate_block_lem mmap b base n v m h t near granted,
  new_block,
)

pub locate_new :
    (mmap : Bool → ℕ → Bool) (b : PageBuffer) (base n : ℕ)
    → IsWellFormed b
    → is_page_multiple b.page_size base ≡ true
    → Uncovered base b.page_allocations
    → 0 < n
    → base + n + b.page_size < u64_mod
    → let end = new_block_end b base n 0 in
      end < base + n + b.page_size
      → mmap (map_locked b.mlock) (end - base) ≡ true
      → Located b base end (locate_block mmap b base n 0)
locate_new mmap b base n v m u h t near granted =
    let end = new_block_end b base n 0 in
    let (e1, e2, e3) = new_block_end_bounds b base n v h t in
    let fits = new_block_end-Fits b base n v u in
    let w = v.apart in
    let missing = Update.find-Uncovered 0 base b.page_allocations w u in
    let size = end - base in
    (
      record b { page_allocations = emplace base (fresh size) b.page_allocations },
      fresh size,
      locate_block_new mmap b base n v m missing h t near granted,
      record {
        page = v.page;
        apart =
            Update.emplace-Apart 0 base size b.page_allocations w fits (omega arith) (omega arith)
              (omega arith);
        aligned =
            emplace-Aligned b.page_size base size b.page_allocations v.aligned m
              (is_page_multiple-sub b.page_size end base v.page e2 (omega arith) e3 m);
        sized = v.sized;
      },
      Update.find-emplace 0 base size b.page_allocations w fits (omega arith),
      omega arith,
      λ x. Update.content-emplace 0 base size x b.page_allocations w fits,
      refl,
      refl,
    )

-- A block that is there reaches from its page boundary to the end of that page at least.
pub page-le-size :
    (p size : ℕ)
    → IsPageSize p
    → size < u64_mod
    → is_page_multiple p size ≡ true
    → 0 < size
    → p ≤ size
page-le-size p size w h e pos = elim (Bool-cases (ltb size p)) [
  | inl short ↦
      let none_fit : size / p ≡ 0 = div-eq_of_lt (ground arith) in
      absurd (omega (arith, is_page_multiple→eq p size w h e, ap (λ (t : ℕ). t * p) none_fit))
  | inr long ↦ ground arith
]

-- The address where the block that a write at `offset` goes to ends.
unfoldable pub block_end : PageBuffer → ℕ → ℕ → ℕ
block_end b n offset =
    let base = round_down_to_page b.page_size offset in
    elim (find base b.page_allocations) [ some a ↦ base + a.size | none ↦ new_block_end b base n 0 ]

-- A block begins at the page of `offset`, or a new one can: none lies over the page, the next one
-- is near enough for the assertion on the length, and the kernel grants the memory.
abbrev pub IsReady : (Bool → ℕ → Bool) → PageBuffer → ℕ → ℕ → Type 0
IsReady mmap b n offset =
    let base = round_down_to_page b.page_size offset in
    let end = new_block_end b base n 0 in
    ((a : PageAllocation) × (find base b.page_allocations ≡ some a))
    ⊎ (Uncovered base b.page_allocations
        × (end < base + n + b.page_size)
        × (mmap (map_locked b.mlock) (end - base) ≡ true))

pub IsReady-Located :
    (mmap : Bool → ℕ → Bool) (b : PageBuffer) (n offset : ℕ)
    → IsWellFormed b
    → IsReady mmap b n offset
    → 0 < n
    → offset + n + b.page_size < u64_mod
    → let base = round_down_to_page b.page_size offset in
      Located b base (block_end b n offset) (locate_block mmap b base n 0)
unfolding block_end
IsReady-Located mmap b n offset v (inl (a, e)) h t =
    rw (e, block_end) (locate_found mmap b (round_down_to_page b.page_size offset) n a v e)
IsReady-Located mmap b n offset v (inr (u, near, granted)) h t =
    let base = round_down_to_page b.page_size offset in
    let (r1, r2, r3) = round_down_to_page_bounds b.page_size offset v.page (omega arith) in
    rw (Update.find-Uncovered 0 base b.page_allocations v.apart u, block_end)
      (locate_new mmap b base n v r3 u h (omega arith) near granted)

find-Aligned :
    (p key : ℕ) (a : PageAllocation) (m : Blocks)
    → Aligned p m
    → find key m ≡ some a
    → is_page_multiple p a.size ≡ true
unfolding find
find-Aligned p key a [] w e = ground arith
find-Aligned p key a ((k, c) ∷ m) w e = ground (arith, find-Aligned p key a m w.2)

-- The offset lies in the block that was located.
pub Located-above :
    (b : PageBuffer) (offset top : ℕ) (r : Outcome (ℕ × PageBuffer))
    → IsWellFormed b
    → offset < u64_mod
    → Located b (round_down_to_page b.page_size offset) top r
    → (round_down_to_page b.page_size offset ≤ offset) × (offset < top) × (top < u64_mod)
Located-above b offset top r v t (b', a, e, v', found, ends, same, s, p) =
    let base = round_down_to_page b.page_size offset in
    let (r1, r2, r3) = round_down_to_page_bounds b.page_size offset v.page t in
    let (_, pos, lt) = Update.find-Apart 0 base a b'.page_allocations v'.apart found in
    let room =
      page-le-size b'.page_size a.size v'.page (omega arith)
        (find-Aligned b'.page_size base a b'.page_allocations v'.aligned found) pos in
    (r1, omega arith, omega arith)
