-- ===== src/Page/Splice/Remainder.antt =====
-- The bytes after the last whole page, which `splice` writes.
use asymmetricfs.Prelude.{
  ℕ, ◌+◌, ◌-◌, ◌≤◌, ◌<◌, ◌≡◌, refl, ap, subst, ◌∙◌, inl, inr, Bool, true, false, [], ◌∷◌, Option,
  some, Memory, Outcome, done, ltb, ◌==◌, arith, u64_mod, add64, sub64, add64_lem, sub64_lem,
  Bool-cases, lt→ltb, le→ltb, le→leb,
}
use asymmetricfs.Page.Allocation.{PageAllocation}
use asymmetricfs.Page.Blocks.{Blocks}
use asymmetricfs.Page.Blocks.Content.{content}
use asymmetricfs.Page.Buffer.Invariant.{is_page_multiple-add}
use asymmetricfs.Page.Pipe.{Pipe, IsOpen, Appended}
use asymmetricfs.Page.Splice.{splice_tail, write_rest}
use asymmetricfs.Page.Splice.Flushing.{Appended-nil, Appended-same}
use asymmetricfs.Page.Splice.Gathering.{IsLastPage, IsPending, IsTail, IsPending-at, IsPending-next}

-- The offset at the end of the write, whose sum may wrap around.
write_rest_end :
    (k last size : ℕ)
    → k ≤ last
    → last < size
    → size < u64_mod
    → sub64 (add64 (last - k) size) last ≡ size - k
unfolding add64 sub64
write_rest_end k last size h j t = omega arith

write_rest-eq :
    (P : Pipe) (mmap : Bool → ℕ → Bool) (k : ℕ) (a : PageAllocation) (last size : ℕ) (s : P.State)
    → k ≤ last
    → last < size
    → size < k + a.size
    → k + a.size < u64_mod
    → write_rest P mmap k a last size last s
      ≡ done (some size, (P.write (λ i. a.ptr (i + (last - k))) (size - last) s).1)
unfolding write_rest
write_rest-eq P mmap k a last size s h j inside top =
    let short : size - k < a.size = omega arith in
    let all : last + (size - last) ≡ size = omega arith in
    rw (
      le→leb k last h,
      sub64_lem last k h (omega arith),
      write_rest_end k last size h j (omega arith),
      lt→ltb (size - k) a.size short,
      sub64_lem size last (omega arith) (omega arith),
      add64_lem last (size - last) (omega arith),
      all,
    )

pub splice_tail-done :
    (P : Pipe) (mmap : Bool → ℕ → Bool) (it : Blocks) (last size position : ℕ) (s : P.State)
    → size ≤ last
    → splice_tail P mmap it last size position s ≡ done (some position, s)
unfolding splice_tail
splice_tail-done P mmap [] last size position s h = rw (le→ltb last size h) refl
splice_tail-done P mmap ((k, a) ∷ []) last size position s h = rw (le→ltb last size h) refl
splice_tail-done P mmap ((k, a) ∷ (k', a') ∷ m) last size position s h =
    rw (le→ltb last size h) refl

splice_tail-this :
    (P : Pipe) (mmap : Bool → ℕ → Bool) (k : ℕ) (a : PageAllocation) (m : Blocks)
    (last size position : ℕ) (s : P.State)
    → last < size
    → last < k + a.size
    → k + a.size < u64_mod
    → splice_tail P mmap ((k, a) ∷ m) last size position s
      ≡ write_rest P mmap k a last size position s
unfolding splice_tail
splice_tail-this P mmap k a [] last size position s h j t =
    let other : (last == k + a.size) ≡ false = ground arith in
    rw (lt→ltb last size h, add64_lem k a.size t, other) refl
splice_tail-this P mmap k a ((k', a') ∷ m) last size position s h j t =
    let other : (last == k + a.size) ≡ false = ground arith in
    rw (lt→ltb last size h, add64_lem k a.size t, other) refl

splice_tail-next :
    (P : Pipe) (mmap : Bool → ℕ → Bool) (k k' : ℕ) (a a' : PageAllocation) (m : Blocks)
    (last size position : ℕ) (s : P.State)
    → last < size
    → last ≡ k + a.size
    → k + a.size < u64_mod
    → splice_tail P mmap ((k, a) ∷ (k', a') ∷ m) last size position s
      ≡ write_rest P mmap k' a' last size position s
unfolding splice_tail
splice_tail-next P mmap k k' a a' m last size position s h e t =
    let same : (last == k + a.size) ≡ true = ground arith in
    rw (lt→ltb last size h, add64_lem k a.size t, same) refl

module _ (P : Pipe) (mmap : Bool → ℕ → Bool) (lawful : IsOpen P) (page_size size last : ℕ)
    (ends : IsLastPage page_size size last) where
  open P use {State}

  -- What is left of a block goes out, from the last whole page up to the size.
  abbrev pub WritesRest : Memory → State → Outcome (Option ℕ × State) → Type 0
  WritesRest bytes s r =
      (t : State) × (r ≡ done (some size, t)) × Appended P s t (size - last) (λ i. bytes (last + i))

  write_rest-WritesRest :
      (k : ℕ) (a : PageAllocation) (m : Blocks) (s : State)
      → k ≤ last
      → last < size
      → size < k + a.size
      → k + a.size < u64_mod
      → WritesRest (content ((k, a) ∷ m)) s (write_rest P mmap k a last size last s)
  unfolding content
  write_rest-WritesRest k a m s h j inside top =
      let (t, e, b) = lawful.writes (λ i. a.ptr (i + (last - k))) (size - last) s in
      (
        t,
        write_rest-eq P mmap k a last size s h j inside top ∙ ap (λ r. done (some size, r.1)) e,
        Appended-same P s t (size - last) (λ i. a.ptr (i + (last - k)))
            (λ i. content ((k, a) ∷ m) (last + i)) b
            (λ i hi.
              let at : i + (last - k) ≡ last + i - k = omega arith in ap a.ptr at ∙ ground arith),
      )

  -- A block over the last whole page reaches beyond the size.
  beyond :
      (k : ℕ) (a : PageAllocation) (m : Blocks)
      → last < k + a.size
      → IsPending page_size size last ends k ((k, a) ∷ m)
      → size < k + a.size
  beyond k a m h w = elim (Bool-cases (ltb size (k + a.size))) [
    | inl out ↦ ground arith
    | inr inside ↦ absurd (
        omega (
          arith,
          ends.2 (k + a.size) (is_page_multiple-add page_size k a.size ends.3 w.0.2 w.1.0 w.1.1)
              (ground arith),
        ))
  ]

  -- The bytes behind a block are those of the blocks after it.
  skip :
      (k : ℕ) (a : PageAllocation) (m : Blocks) (s t : State)
      → last ≡ k + a.size
      → Appended P s t (size - last) (λ i. content m (last + i))
      → Appended P s t (size - last) (λ i. content ((k, a) ∷ m) (last + i))
  unfolding content
  skip k a m s t e b =
      Appended-same P s t (size - last) (λ i. content m (last + i))
        (λ i. content ((k, a) ∷ m) (last + i)) b (λ i hi. ground arith)

  left_over :
      (it : Blocks) (s : State)
      → IsTail page_size size last ends it
      → last < size
      → WritesRest (content it) s (splice_tail P mmap it last size last s)
  left_over [] s w h = absurd (omega arith)
  left_over ((k, a) ∷ []) s (low, high, w) h =
      rw (splice_tail-this P mmap k a [] last size last s h (omega (arith, w.2.1)) w.0.2)
        (write_rest-WritesRest k a [] s low h (beyond k a [] (omega (arith, w.2.1)) w) w.0.2)
  left_over ((k, a) ∷ (k', a') ∷ m) s (low, high, w) h = elim (Bool-cases (ltb last (k + a.size))) [
    | inl inside ↦
        rw (splice_tail-this P mmap k a ((k', a') ∷ m) last size last s h (ground arith) w.0.2) (
          write_rest-WritesRest k a ((k', a') ∷ m) s low h
            (beyond k a ((k', a') ∷ m) (ground arith) w) w.0.2)
    | inr used ↦
        let e : last ≡ k + a.size = ground arith in
        let next =
          IsPending-at page_size size last ends (k + a.size) k' a' m
            (IsPending-next page_size size last ends k a ((k', a') ∷ m) w) in
        let low' : k' ≤ last = ends.2 k' next.1.0 (omega (arith, next.2.0)) in
        let (t, r, b) =
          write_rest-WritesRest k' a' m s low' h
            (beyond k' a' m (omega (arith, next.0.1, w.0.3.0)) next) next.0.2 in
        rw (splice_tail-next P mmap k k' a a' m last size last s h e w.0.2)
          (t, r, skip k a ((k', a') ∷ m) s t e b)
  ]

  pub splice_tail-WritesRest :
      (it : Blocks) (s : State)
      → IsTail page_size size last ends it
      → WritesRest (content it) s (splice_tail P mmap it last size last s)
  splice_tail-WritesRest it s w = elim (Bool-cases (ltb last size)) [
    | inr full ↦
        let over : size ≤ last = ground arith in
        let e : last ≡ size = omega (arith, ends.0) in
        (
          s,
          splice_tail-done P mmap it last size last s over ∙ ap (λ n. done (some n, s)) e,
          subst (λ n. Appended P s s n (λ i. content it (last + i))) {x = 0} (omega arith)
              (Appended-nil P s (λ i. content it (last + i))),
        )
    | inl more ↦ left_over it s w (ground arith)
  ]
