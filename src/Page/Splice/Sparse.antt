-- ===== src/Page/Splice/Sparse.antt =====
-- `splice` on a buffer whose blocks do not reach its size, as one is after a growing `resize`.
use asymmetricfs.Prelude.{
  ℕ, suc, ◌+◌, ◌-◌, ◌^◌, ◌≤◌, ◌<◌, ◌≡◌, refl, ap, subst, ◌∙◌, inl, inr, Bool, true, false, [], ◌∷◌,
  Option, some, min, length, Outcome, done, aborts, ltb, arith, u64_mod, add64, add64_lem,
  sub64_lem, Bool-cases, lt→ltb, le→ltb,
}
use asymmetricfs.Page.Allocation.{PageAllocation}
use asymmetricfs.Page.Blocks.{Blocks}
use asymmetricfs.Page.Blocks.Content.{Apart}
use asymmetricfs.Page.Buffer.{PageBuffer, is_page_multiple, round_down_to_page}
use asymmetricfs.Page.Buffer.Rounding.{round_down_to_page_bounds}
use asymmetricfs.Page.Buffer.Invariant.{IsWellFormed, Aligned, is_page_multiple-sub}
use asymmetricfs.Page.Pipe.{Pipe, IsOpen}
use asymmetricfs.Page.Splice.{
  iov_max, gather_blocks, splice_loop, splice_rest, splice_tail, splice, zero_splice,
  max_allocation, goes_on,
}
use asymmetricfs.Page.Splice.Flushing.{flush-Sends}
use asymmetricfs.Page.Splice.Zeroes.{zero_splice-SendsZeroes}
use asymmetricfs.Page.Splice.Gathering.{vec, gather_blocks-next}
use asymmetricfs.Page.Splice.Sending.{splice_gap-none, splice_round-eq, splice_loop-next}
use asymmetricfs.Page.Splice.Remainder.{splice_tail-done}

splice_loop-end :
    (P : Pipe) (mmap : Bool → ℕ → Bool) (fuel page_size last flags position : ℕ) (s : P.State)
    → splice_loop P mmap (suc fuel) page_size [] last flags position s
      ≡ done (some (position, []), s)
unfolding splice_loop
splice_loop-end P mmap fuel page_size last flags position s = refl

splice_rest-none :
    (P : Pipe) (mmap : Bool → ℕ → Bool) (page_size last position flags : ℕ) (s : P.State)
    → last ≤ position
    → splice_rest P mmap page_size last position flags s ≡ done (goes_on position, s)
unfolding splice_rest
splice_rest-none P mmap page_size last position flags s h = rw (le→ltb position last h) refl

-- The zeroes at the end are as many as the last whole page has bytes before it.
splice_rest-filled :
    (P : Pipe) (mmap : Bool → ℕ → Bool) (page_size last position flags : ℕ) (s t : P.State)
    → position < last
    → last < 2 ^ 63
    → last + position < u64_mod
    → is_page_multiple page_size (last - position) ≡ true
    → zero_splice P mmap last flags s ≡ done (some last, t)
    → splice_rest P mmap page_size last position flags s ≡ done (goes_on (position + last), t)
unfolding splice_rest
splice_rest-filled P mmap page_size last position flags s t h low top whole e =
    let sum : add64 position last ≡ position + last = add64_lem position last (omega arith) in
    rw
      (
        lt→ltb position last h,
        sub64_lem last position (omega arith) (omega arith),
        whole,
        e,
        lt→ltb last (2 ^ 63) low,
      )
      (ap (λ n. done (goes_on n, t)) sum)

-- On an open pipe, and if memory is there, splice of a well-formed buffer without a block, with a
-- size below 2 ^ 63, fails an assertion if the size is not a multiple of the page size.
pub splice_no_block :
    (P : Pipe) (mmap : Bool → ℕ → Bool) (b : PageBuffer) (flags : ℕ) (s : P.State)
    → IsOpen P
    → ((n : ℕ) → mmap false n ≡ true)
    → IsWellFormed b
    → b.page_allocations ≡ []
    → b.buffer_size < 2 ^ 63
    → round_down_to_page b.page_size b.buffer_size < b.buffer_size
    → splice P mmap b flags s ≡ aborts
unfolding splice splice_tail
splice_no_block P mmap b flags s lawful granted v e top h =
    let last = round_down_to_page b.page_size b.buffer_size in
    let (low, high, whole) = round_down_to_page_bounds b.page_size b.buffer_size v.page v.sized in
    elim (Bool-cases (ltb 0 last)) [
      | inl far ↦
          let (t, f, b') =
            zero_splice-SendsZeroes P mmap lawful last flags s (ground arith)
              (omega (arith, v.sized)) (granted (min last max_allocation)) in
          let zeroes_sent : splice_rest P mmap b.page_size last 0 flags s
              ≡ done (goes_on (0 + last), t) =
            splice_rest-filled P mmap b.page_size last 0 flags s t (ground arith) (omega arith)
              (omega (arith, v.sized))
              (subst (λ n. is_page_multiple b.page_size n ≡ true) {x = last} (omega arith) whole)
              f in
          rw
            (
              e,
              splice_loop-end P mmap 0 b.page_size last flags 0 s,
              zeroes_sent,
              lt→ltb last b.buffer_size h,
            )
            refl
      | inr near ↦
          rw
            (
              e,
              splice_loop-end P mmap 0 b.page_size last flags 0 s,
              splice_rest-none P mmap b.page_size last 0 flags s (ground arith),
              lt→ltb last b.buffer_size h,
            )
            refl
    ]

gather_single :
    (a : PageAllocation) (n : ℕ)
    → 0 < a.size
    → a.size < n
    → n < u64_mod
    → gather_blocks iov_max ((0, a) ∷ []) n 0 ≡ done (vec a a.size ∷ [], a.size, [])
unfolding gather_blocks
gather_single a n pos h t =
    gather_blocks-next 1023 0 n a [] pos (omega arith) t
    ∙ ap (λ p. done (vec a a.size ∷ [], p, [])) {x = 0 + a.size} (omega arith)

splice-eq :
    (P : Pipe) (mmap : Bool → ℕ → Bool) (b : PageBuffer) (m it : Blocks) (last p q flags : ℕ)
    (s t u : P.State) (r : Outcome (Option ℕ × P.State))
    → b.page_allocations ≡ m
    → round_down_to_page b.page_size b.buffer_size ≡ last
    → splice_loop P mmap (suc (length m)) b.page_size m last flags 0 s ≡ done (some (p, it), t)
    → splice_rest P mmap b.page_size last p flags t ≡ done (goes_on q, u)
    → splice_tail P mmap it last b.buffer_size q u ≡ r
    → splice P mmap b flags s ≡ r
unfolding splice
splice-eq P mmap b m it last p q flags s t u r e1 e2 e3 e4 e5 = rw (e1, e2, e3, e2, e4, e2) e5

single :
    (p : ℕ) (a : PageAllocation) (m : Blocks)
    → Apart 0 m
    → Aligned p m
    → m ≡ (0, a) ∷ []
    → (0 < a.size) × (is_page_multiple p a.size ≡ true)
single p a m w al e =
    let w' = subst (λ m. Apart 0 m) e w in let al' = subst (λ m. Aligned p m) e al in (w'.1, al'.1)

-- On an open pipe, and if memory is there, let a well-formed buffer have one block, at 0, that ends
-- before its size, a multiple of the page size below 2 ^ 63. Then splice returns the length of the
-- block and the size together, and has sent that many bytes.
pub splice_excess :
    (P : Pipe) (mmap : Bool → ℕ → Bool) (b : PageBuffer) (flags : ℕ) (a : PageAllocation)
    (s : P.State)
    → IsOpen P
    → ((n : ℕ) → mmap false n ≡ true)
    → IsWellFormed b
    → b.page_allocations ≡ (0, a) ∷ []
    → a.size < b.buffer_size
    → b.buffer_size < 2 ^ 63
    → round_down_to_page b.page_size b.buffer_size ≡ b.buffer_size
    → (t : P.State) × (splice P mmap b flags s ≡ done (some (a.size + b.buffer_size), t))
      × (P.count t ≡ P.count s + a.size + b.buffer_size)
splice_excess P mmap b flags a s lawful granted v e h top full =
    let n = b.buffer_size in
    let p = b.page_size in
    let (pos, al) = single p a b.page_allocations v.apart v.aligned e in
    let boundary : is_page_multiple p n ≡ true =
      subst (λ m. is_page_multiple p m ≡ true) full
        (round_down_to_page_bounds p n v.page v.sized).2 in
    let gap_whole =
      is_page_multiple-sub p n a.size v.page v.sized (omega (arith, v.sized)) boundary al in
    let (t, f, sent) =
      flush-Sends P mmap lawful (vec a a.size ∷ []) flags s (pos, omega (arith, v.sized), tt)
        (omega (arith, v.sized)) in
    let round =
      splice_round-eq P mmap p 0 ((0, a) ∷ []) [] n flags 0 a.size (vec a a.size ∷ []) s s t
        (splice_gap-none P mmap p 0 flags 0 s refl) (gather_single a n pos h v.sized) f in
    let loop = splice_loop-next P mmap 1 p 0 a [] [] n flags 0 a.size s t (omega arith) round in
    let (u, k, zeroes_sent) =
      zero_splice-SendsZeroes P mmap lawful n flags t (omega arith) v.sized
        (granted (min n max_allocation)) in
    let rest = splice_rest-filled P mmap p n a.size flags t u h top (omega arith) gap_whole k in
    (
      u,
      splice-eq P mmap b ((0, a) ∷ []) [] n a.size (a.size + n) flags s t u _ e full
          (loop ∙ splice_loop-end P mmap 0 p n flags a.size t) rest
          (splice_tail-done P mmap [] n n (a.size + n) u (omega arith)),
      omega (arith, sent.0, zeroes_sent.0),
    )
