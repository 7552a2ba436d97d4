-- ===== src/Page/Splice/Contents.antt =====
-- `splice` sends the contents of a buffer whose blocks reach its size.
use asymmetricfs.Prelude.{
  ℕ, zero, suc, ◌+◌, ◌-◌, ◌*◌, ◌≤◌, ◌<◌, ◌≡◌, refl, ap, sym, subst, ◌∙◌, inl, inr, Bool, true,
  false, [], ◌∷◌, Option, some, length, Memory, Outcome, done, arith, le→ltb,
}
use asymmetricfs.Page.Blocks.{Blocks}
use asymmetricfs.Page.Blocks.Content.{content}
use asymmetricfs.Page.Buffer.{PageBuffer, is_page_multiple, round_down_to_page}
use asymmetricfs.Page.Buffer.Rounding.{round_down_to_page_bounds, is_page_multiple-mul}
use asymmetricfs.Page.Buffer.Invariant.{IsWellFormed, is_page_multiple-le}
use asymmetricfs.Page.Pipe.{Pipe, IsOpen, Appended}
use asymmetricfs.Page.Splice.{splice_loop, splice_rest, splice, goes_on}
use asymmetricfs.Page.Splice.Flushing.{Appended-nil, Appended-trans, Appended-same}
use asymmetricfs.Page.Splice.Gathering.{Reaches, IsLastPage, IsTail, Continues, pending-Continues}
use asymmetricfs.Page.Splice.Remainder.{splice_tail-WritesRest}
use asymmetricfs.Page.Splice.Sending.{splice_round-Rounds, splice_loop-next, splice_loop-done}

splice_rest-done :
    (P : Pipe) (mmap : Bool → ℕ → Bool) (page_size last flags : ℕ) (s : P.State)
    → splice_rest P mmap page_size last last flags s ≡ done (goes_on last, s)
unfolding splice_rest
splice_rest-done P mmap page_size last flags s = rw (le→ltb last last (omega arith)) refl

module _ (P : Pipe) (mmap : Bool → ℕ → Bool) (lawful : IsOpen P)
    (granted : (n : ℕ) → mmap false n ≡ true) (page_size size last : ℕ)
    (ends : IsLastPage page_size size last) where
  open P use {State}

  -- The loop ends at the last whole page, with everything up to there sent.
  abbrev LoopEnds : Memory → ℕ → State → Outcome (Option (ℕ × Blocks) × State) → Type 0
  LoopEnds bytes position s r =
      (it : Blocks) × (t : State) × (r ≡ done (some (last, it), t))
      × Appended P s t (last - position) (λ i. bytes (position + i))
      × IsTail page_size size last ends it
      × ((x : ℕ) → last ≤ x → content it x ≡ bytes x)

  loop_after :
      (bytes bytes' : Memory) (position p : ℕ) (s t : State)
      (r : Outcome (Option (ℕ × Blocks) × State))
      → position ≤ p
      → p ≤ last
      → ((x : ℕ) → position ≤ x → bytes' x ≡ bytes x)
      → Appended P s t (p - position) (λ i. bytes' (position + i))
      → LoopEnds bytes' p t r
      → LoopEnds bytes position s r
  loop_after bytes bytes' position p s t r h j same b (it, u, e, b', tail, rest) =
      let far : p - position + (last - p) ≡ last - position = omega arith in
      (
        it,
        u,
        e,
        Appended-same P s u (last - position) (λ i. bytes' (position + i))
            (λ i. bytes (position + i))
            (subst (λ n. Appended P s u n (λ i. bytes' (position + i))) far
              (Appended-trans P s t u (p - position) (last - p) (λ i. bytes' (position + i))
                (λ i. bytes' (p + i)) b b' (λ i. ap bytes' (omega arith))))
            (λ i hi. same (position + i) (omega arith)),
        tail,
        λ x hx. rest x hx ∙ same x (omega arith),
      )

  splice_loop-LoopEnds :
      (fuel bound position flags : ℕ) (bytes : Memory) (m : Blocks) (s : State)
      → Continues page_size size last ends bound bytes position m
      → bound < fuel
      → LoopEnds bytes position s (splice_loop P mmap fuel page_size m last flags position s)
  splice_loop-LoopEnds zero bound position flags bytes m s c f = absurd (omega arith)
  splice_loop-LoopEnds (suc fuel) bound position flags bytes m s (same, inr (e, tail)) f =
      subst (λ n. LoopEnds bytes n s (splice_loop P mmap (suc fuel) page_size m last flags n s))
        (sym e)
        (
          m,
          s,
          splice_loop-done P mmap fuel page_size m last flags s,
          subst (λ n. Appended P s s n (λ i. bytes (last + i))) {x = 0} (omega arith)
              (Appended-nil P s (λ i. bytes (last + i))),
          tail,
          λ x hx. same x (omega arith),
        )
  splice_loop-LoopEnds (suc fuel) bound position flags bytes [] s (same, inl (h, w, n)) f =
      absurd (omega (arith, w.2, ends.0))
  splice_loop-LoopEnds (suc fuel) bound position flags bytes ((k, a) ∷ m) s (same, inl (h, w, n))
        f =
      let (p, it, t, e, j, le, b, next) =
        splice_round-Rounds P mmap lawful granted page_size size last ends k a m flags position s
          w in
      rw (splice_loop-next P mmap fuel page_size k a m it last flags position p s t h e) (
        loop_after bytes (content ((k, a) ∷ m)) position p s t _ j le same b (
          splice_loop-LoopEnds fuel (length m) p flags (content ((k, a) ∷ m)) it t next
            (omega arith)))

round_down_to_page-IsLastPage :
    (b : PageBuffer)
    → IsWellFormed b
    → IsLastPage b.page_size b.buffer_size (round_down_to_page b.page_size b.buffer_size)
round_down_to_page-IsLastPage b v =
    let (low, high, whole) = round_down_to_page_bounds b.page_size b.buffer_size v.page v.sized in
    (
      low,
      v.sized,
      λ k e h. is_page_multiple-le b.page_size k b.buffer_size v.page v.sized e h,
      v.page,
      whole,
    )

-- The three parts of `splice` one after the other.
splice_after :
    (P : Pipe) (mmap : Bool → ℕ → Bool) (lawful : IsOpen P)
    (granted : (n : ℕ) → mmap false n ≡ true) (b : PageBuffer) (flags : ℕ) (s : P.State)
    (v : IsWellFormed b)
    → let last = round_down_to_page b.page_size b.buffer_size in
      let m = b.page_allocations in
      LoopEnds P mmap lawful granted b.page_size b.buffer_size last
        (round_down_to_page-IsLastPage b v)
        (content m)
        0
        s
        (splice_loop P mmap (suc (length m)) b.page_size m last flags 0 s)
      → (t : P.State) × (splice P mmap b flags s ≡ done (some b.buffer_size, t))
        × Appended P s t b.buffer_size (content m)
unfolding splice
splice_after P mmap lawful granted b flags s v (it, t, e, sent, tail, same) =
    let last = round_down_to_page b.page_size b.buffer_size in
    let ends = round_down_to_page-IsLastPage b v in
    let (u, f, written) =
      splice_tail-WritesRest P mmap lawful b.page_size b.buffer_size last ends it t tail in
    let file = content b.page_allocations in
    let rest = splice_rest-done P mmap b.page_size last flags t in
    let all : last + (b.buffer_size - last) ≡ b.buffer_size = omega (arith, ends.0) in
    let start =
      Appended-same P s t last (λ i. file (0 + i)) file
        (subst (λ n. Appended P s t n (λ i. file (0 + i))) {x = last - 0} (omega arith) sent)
        (λ i hi. ap file (omega arith)) in
    let end =
      Appended-same P t u (b.buffer_size - last) (λ i. content it (last + i)) (λ i. file (last + i))
        written (λ i hi. same (last + i) (omega arith)) in
    (
      u,
      rw (e, rest) f,
      subst (λ n. Appended P s u n file) all
          (Appended-trans P s t u last (b.buffer_size - last) file (λ i. file (last + i)) start end
            (λ i. ap file (omega arith))),
    )

-- On an open pipe, and if memory is there, splice of a well-formed buffer whose blocks all begin
-- below the size, and whose last block reaches it, returns the size and has sent the contents of
-- the buffer up to the size, each byte once and in order.
pub splice-content :
    (P : Pipe) (mmap : Bool → ℕ → Bool) (b : PageBuffer) (flags : ℕ) (s : P.State)
    → IsOpen P
    → ((n : ℕ) → mmap false n ≡ true)
    → IsWellFormed b
    → Reaches 0 b.buffer_size b.page_allocations
    → (t : P.State) × (splice P mmap b flags s ≡ done (some b.buffer_size, t))
      × Appended P s t b.buffer_size (content b.page_allocations)
splice-content P mmap b flags s lawful granted v r =
    let last = round_down_to_page b.page_size b.buffer_size in
    let m = b.page_allocations in
    let ends = round_down_to_page-IsLastPage b v in
    let start : is_page_multiple b.page_size 0 ≡ true =
      subst (λ n. is_page_multiple b.page_size n ≡ true) {x = 0 * b.page_size} (omega arith)
        (is_page_multiple-mul b.page_size 0 v.page (omega arith)) in
    splice_after P mmap lawful granted b flags s v (
      splice_loop-LoopEnds P mmap lawful granted b.page_size b.buffer_size last ends
        (suc (length m)) (length m) 0 flags (content m) m s
        (pending-Continues b.page_size b.buffer_size last ends 0 m (omega arith)
          (v.apart, v.aligned, r, start))
        (omega arith))
