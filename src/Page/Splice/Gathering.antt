-- ===== src/Page/Splice/Gathering.antt =====
-- The vector that the inner loop of `splice` gathers, and where it leaves the iterator.
use asymmetricfs.Prelude.{
  ℕ, zero, suc, ◌+◌, ◌-◌, ◌≤◌, ◌<◌, ◌≡◌, refl, ap, subst, ◌∙◌, ◌⊎◌, inl, inr, true, false, List, [],
  ◌∷◌, min, length, Memory, Outcome, done, ltb, ◌==◌, arith, u64_mod, add64_lem, sub64_lem,
  Bool-cases, lt→ltb, le→ltb, le→leb, ◌>>=◌,
}
use asymmetricfs.Page.Allocation.{PageAllocation}
use asymmetricfs.Page.Blocks.{Blocks}
use asymmetricfs.Page.Blocks.Content.{content, Apart}
use asymmetricfs.Page.Buffer.{is_page_multiple}
use asymmetricfs.Page.Buffer.Rounding.{IsPageSize}
use asymmetricfs.Page.Buffer.Invariant.{Aligned, is_page_multiple-add}
use asymmetricfs.Page.Pipe.{Iovec, total, iov_byte}
use asymmetricfs.Page.Splice.{gather_blocks}
use asymmetricfs.Page.Splice.Flushing.{AllPositive}

-- Every block begins below the size, and the last one reaches it.
abbrev pub Reaches : ℕ → ℕ → Blocks → Type 0
Reaches low size [] = size ≤ low
Reaches low size ((k, a) ∷ m) = (k < size) × Reaches (k + a.size) size m

abbrev pub vec : PageAllocation → ℕ → Iovec
vec a len = record { iov_base = a.ptr; iov_len = len }

abbrev pub Gathered : Type 0
Gathered = Outcome (List Iovec × ℕ × Blocks)

abbrev pub consing : Iovec → List Iovec × ℕ × Blocks → Gathered
consing v (ios, p, it) = done (v ∷ ios, p, it)

gather_blocks-gap :
    (slots k last position : ℕ) (a : PageAllocation) (m : Blocks)
    → position < k
    → gather_blocks (suc slots) ((k, a) ∷ m) last position ≡ done ([], position, (k, a) ∷ m)
unfolding gather_blocks
gather_blocks-gap slots k last position a m h =
    rw (le→leb position k (omega arith), lt→ltb position k h)

gather_blocks-full :
    (slots k : ℕ) (a : PageAllocation) (m : Blocks)
    → k < u64_mod
    → gather_blocks (suc slots) ((k, a) ∷ m) k k ≡ done ([], k, (k, a) ∷ m)
unfolding gather_blocks
gather_blocks-full slots k a m t =
    let e : min a.size (k - k) ≡ 0 = omega arith in
    rw (le→leb k k (omega arith), le→ltb k k (omega arith), sub64_lem k k (omega arith) t, e)

gather_blocks-last :
    (slots k last : ℕ) (a : PageAllocation) (m : Blocks)
    → k < last
    → last ≤ k + a.size
    → last < u64_mod
    → gather_blocks (suc slots) ((k, a) ∷ m) last k ≡ done (vec a (last - k) ∷ [], last, (k, a) ∷ m)
unfolding gather_blocks
gather_blocks-last slots k last a m h r t =
    let e : min a.size (last - k) ≡ last - k = omega arith in
    let n : (last - k == 0) ≡ false = ground arith in
    let p : k + (last - k) ≡ last = omega arith in
    let q : (last == last) ≡ true = ground arith in
    rw (
      le→leb k k (omega arith),
      le→ltb k k (omega arith),
      sub64_lem last k (omega arith) t,
      e,
      n,
      add64_lem k (last - k) (omega arith),
      p,
      q,
    )

pub gather_blocks-next :
    (slots k last : ℕ) (a : PageAllocation) (m : Blocks)
    → 0 < a.size
    → k + a.size < last
    → last < u64_mod
    → gather_blocks (suc slots) ((k, a) ∷ m) last k
      ≡ (gather_blocks slots m last (k + a.size) >>= consing (vec a a.size))
unfolding gather_blocks
gather_blocks-next slots k last a m pos h t =
    let e : min a.size (last - k) ≡ a.size = omega arith in
    let n : (a.size == 0) ≡ false = ground arith in
    let q : (k + a.size == last) ≡ false = ground arith in
    rw
      (
        le→leb k k (omega arith),
        le→ltb k k (omega arith),
        sub64_lem last k (omega arith) t,
        e,
        n,
        add64_lem k a.size (omega arith),
        q,
      )
      refl

-- The last page boundary up to the size.
abbrev pub IsLastPage : ℕ → ℕ → ℕ → Type 0
IsLastPage p size last =
    (last ≤ size)
    × (size < u64_mod)
    × ((k : ℕ) → is_page_multiple p k ≡ true → k ≤ size → k ≤ last)
    × IsPageSize p
    × (is_page_multiple p last ≡ true)

module _ (page_size size last : ℕ) (ends : IsLastPage page_size size last) where
  -- The blocks from the iterator on lie from the position on.
  abbrev pub IsPending : ℕ → Blocks → Type 0
  IsPending position it =
      Apart position it
      × Aligned page_size it
      × Reaches position size it
      × (is_page_multiple page_size position ≡ true)

  -- The iterator stands where the bytes after the last whole page are to be looked for.
  abbrev pub IsTail : Blocks → Type 0
  IsTail [] = size ≡ last
  IsTail ((k, a) ∷ m) = (k ≤ last) × (last ≤ k + a.size) × IsPending k ((k, a) ∷ m)

  -- Where a loop goes on from, with `bound` blocks at most, and what the blocks there hold.
  abbrev pub Continues : ℕ → Memory → ℕ → Blocks → Type 0
  Continues bound bytes p it =
      ((x : ℕ) → p ≤ x → content it x ≡ bytes x)
      × (((p < last) × IsPending p it × (length it ≤ bound)) ⊎ ((p ≡ last) × IsTail it))

  -- A block that is pending is pending at its own key, and the blocks after it at its end.
  pub IsPending-at :
      (position k : ℕ) (a : PageAllocation) (m : Blocks)
      → IsPending position ((k, a) ∷ m)
      → IsPending k ((k, a) ∷ m)
  IsPending-at position k a m w = ((omega arith, w.0.1, w.0.2, w.0.3), w.1, w.2, w.1.0)

  pub IsPending-next :
      (k : ℕ) (a : PageAllocation) (m : Blocks)
      → IsPending k ((k, a) ∷ m)
      → IsPending (k + a.size) m
  IsPending-next k a m w =
      (w.0.3, w.1.2, w.2.1, is_page_multiple-add page_size k a.size ends.3 w.0.2 w.1.0 w.1.1)

  pending-IsTail : (m : Blocks) → IsPending last m → IsTail m
  pending-IsTail [] w = omega (arith, ends.0, w.2)
  pending-IsTail ((k, a) ∷ m) w =
      let first : k ≤ last = ends.2 k w.1.0 (omega (arith, w.2.0)) in
      (first, omega (arith, w.0.0), IsPending-at last k a m w)

  pub pending-Continues :
      (position : ℕ) (m : Blocks)
      → position ≤ last
      → IsPending position m
      → Continues (length m) (content m) position m
  pending-Continues position m h w = elim (Bool-cases (ltb position last)) [
    | inl short ↦ (λ x hx. refl, inl (ground arith, w, omega arith))
    | inr full ↦
        let e : position ≡ last = ground arith in
        (λ x hx. refl, inr (e, pending-IsTail m (subst (λ n. IsPending n m) e w)))
  ]

  -- The vector has the bytes from `position` up to where the loop goes on.
  abbrev pub Gathers : ℕ → Memory → ℕ → Gathered → Type 0
  Gathers bound bytes position r =
      (ios : List Iovec) × (p : ℕ) × (it : Blocks) × (r ≡ done (ios, p, it))
      × AllPositive ios
      × (position + total ios ≡ p)
      × (p ≤ last)
      × ((i : ℕ) → i < total ios → iov_byte ios i ≡ bytes (position + i))
      × Continues bound bytes p it

  Gathers-none :
      (position : ℕ) (m : Blocks)
      → position ≤ last
      → IsPending position m
      → Gathers (length m) (content m) position (done ([], position, m))
  Gathers-none position m h w = (
    [],
    position,
    m,
    refl,
    tt,
    omega arith,
    h,
    λ i hi. ground arith,
    pending-Continues position m h w,
  )

  Gathers-last :
      (k : ℕ) (a : PageAllocation) (m : Blocks)
      → k < last
      → last ≤ k + a.size
      → IsPending k ((k, a) ∷ m)
      → Gathers (length m) (content ((k, a) ∷ m)) k (done (vec a (last - k) ∷ [], last, (k, a) ∷ m))
  unfolding content
  Gathers-last k a m h r w = (
    vec a (last - k) ∷ [],
    last,
    (k, a) ∷ m,
    refl,
    (omega arith, omega (arith, ends.0, ends.1), tt),
    omega arith,
    omega arith,
    λ i hi. ground arith,
    (λ x hx. refl, inr (refl, (omega arith, r, w))),
  )

  Gathers-next :
      (k : ℕ) (a : PageAllocation) (m : Blocks) (r : Gathered)
      → k + a.size < last
      → IsPending k ((k, a) ∷ m)
      → Gathers (length m) (content m) (k + a.size) r
      → Gathers (length m) (content ((k, a) ∷ m)) k (r >>= consing (vec a a.size))
  unfolding content
  Gathers-next k a m r h w (ios, p, it, e, pos, sum, le, bytes, (same, next)) = (
    vec a a.size ∷ ios,
    p,
    it,
    ap (λ (r : Gathered). r >>= consing (vec a a.size)) e,
    (w.0.1, omega (arith, ends.0, ends.1), pos),
    omega arith,
    le,
    λ i hi. ground (arith, bytes (i - a.size)),
    (λ x hx. same x hx ∙ ground arith, next),
  )

  Gathers-full :
      (k : ℕ) (a : PageAllocation) (m : Blocks)
      → k ≡ last
      → IsPending k ((k, a) ∷ m)
      → Gathers (length m) (content ((k, a) ∷ m)) k (done ([], k, (k, a) ∷ m))
  Gathers-full k a m e w = (
    [],
    k,
    (k, a) ∷ m,
    refl,
    tt,
    omega arith,
    omega arith,
    λ i hi. absurd (omega arith),
    (λ x hx. refl, inr (e, (omega arith, omega arith, w))),
  )

  Gathers-weaken :
      (b c : ℕ) (bytes : Memory) (position : ℕ) (r : Gathered)
      → b ≤ c
      → Gathers b bytes position r
      → Gathers c bytes position r
  Gathers-weaken b c bytes position r h (ios, p, it, e, pos, sum, le, bytes', (same, next)) = (
    ios,
    p,
    it,
    e,
    pos,
    sum,
    le,
    bytes',
    (same, elim next [ inl (short, w, n) ↦ inl (short, w, omega arith) | inr full ↦ inr full ]),
  )

  -- A block at the position is used up, or the loop is at its end.
  pub gather_head :
      (slots k : ℕ) (a : PageAllocation) (m : Blocks)
      → k ≤ last
      → IsPending k ((k, a) ∷ m)
      → (k + a.size < last
          → Gathers (length m) (content m) (k + a.size) (gather_blocks slots m last (k + a.size)))
      → Gathers (length m) (content ((k, a) ∷ m)) k (gather_blocks (suc slots) ((k, a) ∷ m) last k)
  gather_head slots k a m h w go = elim (Bool-cases (ltb k last)) [
    | inr full ↦
        let e : k ≡ last = ground arith in
        subst
          (λ n.
            Gathers (length m) (content ((k, a) ∷ m)) k
              (gather_blocks (suc slots) ((k, a) ∷ m) n k))
          e
          (rw (gather_blocks-full slots k a m (omega (arith, ends.0, ends.1)))
            (Gathers-full k a m e w))
    | inl short ↦ elim (Bool-cases (ltb (k + a.size) last)) [
      | inl next ↦
          let on : k + a.size < last = ground arith in
          rw (gather_blocks-next slots k last a m w.0.1 on (omega (arith, ends.0, ends.1)))
            (Gathers-next k a m _ on w (go on))
      | inr stop ↦
          rw
            (gather_blocks-last slots k last a m (ground arith) (ground arith)
              (omega (arith, ends.0, ends.1)))
            (Gathers-last k a m (ground arith) (ground arith) w)
    ]
  ]

  pub gather_blocks-Gathers :
      (slots position : ℕ) (m : Blocks)
      → position ≤ last
      → IsPending position m
      → Gathers (length m) (content m) position (gather_blocks slots m last position)
  gather_blocks-Gathers zero position m h w = unfold gather_blocks in Gathers-none position m h w
  gather_blocks-Gathers (suc slots) position [] h w =
      unfold gather_blocks in Gathers-none position [] h w
  gather_blocks-Gathers (suc slots) position ((k, a) ∷ m) h w = elim (Bool-cases (ltb position k)) [
    | inl gap ↦
        rw (gather_blocks-gap slots k last position a m (ground arith))
          (Gathers-none position ((k, a) ∷ m) h w)
    | inr head ↦
        let e : k ≡ position = ground arith in
        subst
          (λ n.
            Gathers (suc (length m)) (content ((k, a) ∷ m)) n
              (gather_blocks (suc slots) ((k, a) ∷ m) last n))
          e
          (Gathers-weaken (length m) (suc (length m)) (content ((k, a) ∷ m)) k _ (omega arith) (
            gather_head slots k a m (omega arith) (IsPending-at position k a m w) (λ on.
              gather_blocks-Gathers slots (k + a.size) m (omega arith)
                (IsPending-next k a m (IsPending-at position k a m w)))))
  ]
