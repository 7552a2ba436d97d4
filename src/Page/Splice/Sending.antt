-- ===== src/Page/Splice/Sending.antt =====
-- A round of `splice`: the gap before a block, and the blocks that follow one another from there.
use asymmetricfs.Prelude.{
  ℕ, suc, ◌+◌, ◌-◌, ◌≤◌, ◌<◌, ◌≡◌, refl, ap, sym, subst, ◌∙◌, inl, inr, Bool, true, false, List, [],
  ◌∷◌, Option, some, length, Memory, zeroes, Outcome, done, ltb, arith, u64_mod, add64, sub64,
  add64_lem, sub64_lem, Bool-cases, lt→ltb, le→ltb,
}
use asymmetricfs.Page.Allocation.{PageAllocation}
use asymmetricfs.Page.Blocks.{Blocks}
use asymmetricfs.Page.Blocks.Content.{content, content_below}
use asymmetricfs.Page.Buffer.{is_page_multiple}
use asymmetricfs.Page.Buffer.Invariant.{is_page_multiple-sub}
use asymmetricfs.Page.Pipe.{Iovec, Pipe, IsOpen, Appended, total, iov_byte}
use asymmetricfs.Page.Splice.{
  gather_blocks, iov_max, flush, zero_splice, splice_gap, splice_round, splice_loop,
}
use asymmetricfs.Page.Splice.Flushing.{flush-Sends, Appended-nil, Appended-trans, Appended-same}
use asymmetricfs.Page.Splice.Zeroes.{zero_splice-SendsZeroes}
use asymmetricfs.Page.Splice.Gathering.{
  IsLastPage, IsPending, Continues, Gathers, gather_blocks-Gathers, gather_head, IsPending-at,
  IsPending-next,
}

module _ (P : Pipe) (mmap : Bool → ℕ → Bool) where
  open P use {State}

  pub splice_gap-none :
      (page_size k flags position : ℕ) (s : State)
      → k ≡ position
      → splice_gap P mmap page_size k flags position s ≡ done (some k, s)
  unfolding splice_gap
  splice_gap-none page_size k flags position s e =
      rw (le→ltb position k (omega arith), splice_gap) (ap (λ n. done (some n, s)) (sym e))

  splice_gap-filled :
      (page_size k flags position : ℕ) (s t : State)
      → position < k
      → k < u64_mod
      → is_page_multiple page_size (k - position) ≡ true
      → zero_splice P mmap (k - position) flags s ≡ done (some (k - position), t)
      → splice_gap P mmap page_size k flags position s ≡ done (some k, t)
  unfolding splice_gap
  splice_gap-filled page_size k flags position s t h top whole e =
      let gap = sub64_lem k position (omega arith) top in
      let there : add64 position (sub64 k position) ≡ k =
        ap (add64 position) gap ∙ add64_lem position (k - position) (omega arith) ∙ omega arith in
      rw (lt→ltb position k h, gap, whole, e) (ap (λ n. done (some n, t)) there)

  pub splice_round-eq :
      (page_size k : ℕ) (m it : Blocks) (last flags position p : ℕ) (ios : List Iovec)
      (s t u : State)
      → splice_gap P mmap page_size k flags position s ≡ done (some k, t)
      → gather_blocks iov_max m last k ≡ done (ios, p, it)
      → flush P mmap ios flags t ≡ done (some 0, u)
      → splice_round P mmap page_size k m last flags position s ≡ done (some (p, it), u)
  unfolding splice_round
  splice_round-eq page_size k m it last flags position p ios s t u e f g = rw (e, f, g)

  pub splice_loop-next :
      (fuel page_size k : ℕ) (a : PageAllocation) (m it : Blocks) (last flags position p : ℕ)
      (s t : State)
      → position < last
      → splice_round P mmap page_size k ((k, a) ∷ m) last flags position s ≡ done (some (p, it), t)
      → splice_loop P mmap (suc fuel) page_size ((k, a) ∷ m) last flags position s
        ≡ splice_loop P mmap fuel page_size it last flags p t
  unfolding splice_loop
  splice_loop-next fuel page_size k a m it last flags position p s t h e =
      rw (lt→ltb position last h, e, splice_loop)

  pub splice_loop-done :
      (fuel page_size : ℕ) (m : Blocks) (last flags : ℕ) (s : State)
      → splice_loop P mmap (suc fuel) page_size m last flags last s ≡ done (some (last, m), s)
  unfolding splice_loop
  splice_loop-done fuel page_size [] last flags s = refl
  splice_loop-done fuel page_size ((k, a) ∷ m) last flags s =
      rw (le→ltb last last (omega arith), splice_loop)

module _ (P : Pipe) (mmap : Bool → ℕ → Bool) (lawful : IsOpen P)
    (granted : (n : ℕ) → mmap false n ≡ true) (page_size size last : ℕ)
    (ends : IsLastPage page_size size last) where
  open P use {State}

  abbrev pub from : Memory → ℕ → Memory
  from bytes position i = bytes (position + i)

  -- The gap before the pending block goes out as zeroes, and the map has zeroes there.
  abbrev FillsGap : ℕ → Memory → ℕ → State → Outcome (Option ℕ × State) → Type 0
  FillsGap k bytes position s r =
      (t : State) × (r ≡ done (some k, t)) × Appended P s t (k - position) (from bytes position)

  splice_gap-FillsGap :
      (k : ℕ) (a : PageAllocation) (m : Blocks) (flags position : ℕ) (s : State)
      → IsPending page_size size last ends position ((k, a) ∷ m)
      → FillsGap k
          (content ((k, a) ∷ m))
          position
          s
          (splice_gap P mmap page_size k flags position s)
  splice_gap-FillsGap k a m flags position s w = elim (Bool-cases (ltb position k)) [
    | inr none_left ↦
        let e : k ≡ position = ground arith in
        (
          s,
          splice_gap-none P mmap page_size k flags position s e,
          subst (λ n. Appended P s s n (from (content ((k, a) ∷ m)) position)) {x = 0} (omega arith)
              (Appended-nil P s (from (content ((k, a) ∷ m)) position)),
        )
    | inl gap ↦
        let short : position < k = ground arith in
        let (t, e, b) =
          zero_splice-SendsZeroes P mmap lawful (k - position) flags s (omega arith)
            (omega (arith, w.0.2)) (granted _) in
        (
          t,
          splice_gap-filled P mmap page_size k flags position s t short (omega (arith, w.0.2))
              (is_page_multiple-sub page_size k position ends.3 (omega (arith, w.0.2))
                (omega (arith, w.0.2)) w.1.0 w.3)
              e,
          Appended-same P s t (k - position) zeroes _ b (λ i hi. sym (
              content_below k (position + i) ((k, a) ∷ m) (omega arith, w.0.1, w.0.2, w.0.3)
                (omega arith))),
        )
  ]

  -- A round sends the bytes up to where the loop goes on.
  abbrev pub Rounds : ℕ → Memory → ℕ → State → Outcome (Option (ℕ × Blocks) × State) → Type 0
  Rounds bound bytes position s r =
      (p : ℕ) × (it : Blocks) × (t : State) × (r ≡ done (some (p, it), t))
      × (position ≤ p)
      × (p ≤ last)
      × Appended P s t (p - position) (from bytes position)
      × Continues page_size size last ends bound bytes p it

  round_after :
      (bound k : ℕ) (a : PageAllocation) (m : Blocks) (flags position : ℕ) (s t : State)
      → let bytes = content ((k, a) ∷ m) in
        position ≤ k
        → splice_gap P mmap page_size k flags position s ≡ done (some k, t)
        → Appended P s t (k - position) (from bytes position)
        → Gathers page_size size last ends bound bytes k (gather_blocks iov_max ((k, a) ∷ m) last k)
        → Rounds bound bytes position s
            (splice_round P mmap page_size k ((k, a) ∷ m) last flags position s)
  round_after bound k a m flags position s t h e b (ios, p, it, g, pos, sum, le, same, next) =
      let bytes = content ((k, a) ∷ m) in
      let (u, f, b') = flush-Sends P mmap lawful ios flags t pos (omega (arith, ends.0, ends.1)) in
      let length_sum : k - position + total ios ≡ p - position = omega arith in
      (
        p,
        it,
        u,
        splice_round-eq P mmap page_size k ((k, a) ∷ m) it last flags position p ios s t u e g f,
        omega arith,
        le,
        subst (λ n. Appended P s u n (from bytes position)) length_sum
            (Appended-trans P s t u (k - position) (total ios) (from bytes position) (from bytes k)
              b (Appended-same P t u (total ios) (iov_byte ios) (from bytes k) b' same)
              (λ i. ap bytes (omega arith))),
        next,
      )

  pub splice_round-Rounds :
      (k : ℕ) (a : PageAllocation) (m : Blocks) (flags position : ℕ) (s : State)
      → IsPending page_size size last ends position ((k, a) ∷ m)
      → Rounds
          (length m)
          (content ((k, a) ∷ m))
          position
          s
          (splice_round P mmap page_size k ((k, a) ∷ m) last flags position s)
  splice_round-Rounds k a m flags position s w =
      let (t, e, b) = splice_gap-FillsGap k a m flags position s w in
      let at = IsPending-at page_size size last ends position k a m w in
      let low : k ≤ last = ends.2 k w.1.0 (omega (arith, w.2.0)) in
      round_after (length m) k a m flags position s t (w.0.0) e b (
        gather_head page_size size last ends 1023 k a m low at (λ on.
          gather_blocks-Gathers page_size size last ends 1023 (k + a.size) m (omega arith)
            (IsPending-next page_size size last ends k a m at)))
