-- ===== src/Page/Splice/Zeroes.antt =====
-- `zero_splice` sends zeroes.
use Prim.Native.Nat.{bit_and}
use asymmetricfs.Prelude.{
  ℕ, zero, suc, ◌+◌, ◌-◌, ◌^◌, ◌≤◌, ◌<◌, ◌≡◌, refl, subst, inl, inr, Bool, true, false, List, ◌∷◌,
  Option, some, min, zeroes, Outcome, done, ltb, arith, u64_mod, add64_lem, sub64_lem, Bool-cases,
  lt→ltb, le→ltb, le→leb,
}
use asymmetricfs.Page.Allocation.{PageAllocation, page_allocation, map_locked}
use asymmetricfs.Page.Blocks.Update.{fresh}
use asymmetricfs.Page.Pipe.{Iovec, Pipe, IsOpen, Appended, total, iov_byte}
use asymmetricfs.Page.Splice.{
  gather_zeroes, zero_loop, zero_splice, flush, iov_max, max_allocation, splice_f_gift,
}
use asymmetricfs.Page.Splice.Flushing.{
  AllPositive, flush-Sends, Appended-nil, Appended-trans, Appended-same,
}

-- A vector of zeroes from `position` up to `g.1`.
abbrev GathersZeroes : ℕ → ℕ → List Iovec × ℕ → Type 0
GathersZeroes size position g =
    AllPositive g.0 × (position + total g.0 ≡ g.1) × (g.1 ≤ size) × ((i : ℕ) → iov_byte g.0 i ≡ 0)

gather_zeroes-next :
    (slots length size position : ℕ)
    → position < size
    → size < u64_mod
    → let len = min length (size - position) in
      let rest = gather_zeroes slots (fresh length) size (position + len) in
      gather_zeroes (suc slots) (fresh length) size position
      ≡ (record { iov_base = zeroes; iov_len = len } ∷ rest.0, rest.1)
unfolding gather_zeroes
gather_zeroes-next slots length size position h t = rw (
  lt→ltb position size h,
  sub64_lem size position (omega arith) t,
  add64_lem position (min length (size - position)) (omega arith),
)

gather_zeroes-GathersZeroes :
    (slots length size position : ℕ)
    → 0 < length
    → position ≤ size
    → size < u64_mod
    → GathersZeroes size position (gather_zeroes slots (fresh length) size position)
gather_zeroes-GathersZeroes zero length size position h j t =
    unfold gather_zeroes in (tt, omega arith, j, λ i. refl)
gather_zeroes-GathersZeroes (suc slots) length size position h j t =
    elim (Bool-cases (ltb position size)) [
      | inl more ↦
          let short : position < size = ground arith in
          let len = min length (size - position) in
          let (w, sum, le, zero_bytes) =
            gather_zeroes-GathersZeroes slots length size (position + len) h (omega arith) t in
          rw (gather_zeroes-next slots length size position short t) (
            (omega arith, omega arith, w),
            omega arith,
            le,
            λ i. ground (arith, zero_bytes (i - len)),
          )
      | inr full ↦ unfold gather_zeroes in rw full (tt, omega arith, j, λ i. refl)
    ]

gather_zeroes-lt :
    (slots length size position : ℕ)
    → 0 < length
    → position < size
    → size < u64_mod
    → position < (gather_zeroes (suc slots) (fresh length) size position).1
gather_zeroes-lt slots length size position h j t =
    let len = min length (size - position) in
    let (w, sum, le, zero_bytes) =
      gather_zeroes-GathersZeroes slots length size (position + len) h (omega arith) t in
    rw (gather_zeroes-next slots length size position j t) (omega arith)

module _ (P : Pipe) (mmap : Bool → ℕ → Bool) (lawful : IsOpen P) where
  open P use {State, count, byte}

  -- What a call that sends `n` zeroes and returns `ret` has to bring about.
  abbrev pub SendsZeroes : ℕ → ℕ → State → Outcome (Option ℕ × State) → Type 0
  SendsZeroes n ret s r = (t : State) × (r ≡ done (some ret, t)) × Appended P s t n zeroes

  zero_loop-done :
      (fuel flags size position : ℕ) (tmp : PageAllocation) (s : State)
      → position ≡ size
      → zero_loop P mmap (suc fuel) tmp size flags position s ≡ done (some size, s)
  unfolding zero_loop
  zero_loop-done fuel flags size position tmp s e =
      rw (le→ltb position size (omega arith), zero_loop) (cc e)

  zero_loop-next :
      (fuel length flags size position : ℕ) (s t : State)
      → let g = gather_zeroes iov_max (fresh length) size position in
        position < size
        → g.1 ≤ size
        → flush P mmap g.0 flags s ≡ done (some 0, t)
        → zero_loop P mmap (suc fuel) (fresh length) size flags position s
          ≡ zero_loop P mmap fuel (fresh length) size flags g.1 t
  unfolding zero_loop
  zero_loop-next fuel length flags size position s t h j e =
      let g = gather_zeroes iov_max (fresh length) size position in
      rw (lt→ltb position size h, le→leb g.1 size j, e, zero_loop)

  -- Zeroes after the zeroes of a vector.
  zeroes_after :
      (size position : ℕ) (g : List Iovec × ℕ) (s t : State) (r : Outcome (Option ℕ × State))
      → GathersZeroes size position g
      → Appended P s t (total g.0) (iov_byte g.0)
      → SendsZeroes (size - g.1) size t r
      → SendsZeroes (size - position) size s r
  zeroes_after size position g s t r (w, sum, le, zero_bytes) b (u, e, b') =
      let whole : total g.0 + (size - g.1) ≡ size - position = omega arith in
      (
        u,
        e,
        subst (λ m. Appended P s u m zeroes) whole
            (Appended-trans P s t u (total g.0) (size - g.1) zeroes zeroes
              (Appended-same P s t (total g.0) (iov_byte g.0) zeroes b (λ i h. zero_bytes i)) b'
              (λ i. refl)),
      )

  zero_loop-SendsZeroes :
      (fuel length flags size position : ℕ) (s : State)
      → 0 < length
      → position ≤ size
      → size < u64_mod
      → size - position < fuel
      → SendsZeroes
          (size - position)
          size
          s
          (zero_loop P mmap fuel (fresh length) size flags position s)
  zero_loop-SendsZeroes zero length flags size position s h j t f = absurd (omega arith)
  zero_loop-SendsZeroes (suc fuel) length flags size position s h j t f =
      elim (Bool-cases (ltb position size)) [
        | inl more ↦
            let short : position < size = ground arith in
            let g = gather_zeroes iov_max (fresh length) size position in
            let (w, sum, le, zero_bytes) =
              gather_zeroes-GathersZeroes iov_max length size position h j t in
            let (s1, e1, b1) = flush-Sends P mmap lawful g.0 flags s w (omega arith) in
            rw (zero_loop-next fuel length flags size position s s1 short le e1) (
              zeroes_after size position g s s1 _ (w, sum, le, zero_bytes) b1
                (zero_loop-SendsZeroes fuel length flags size g.1 s1 h le t
                  (omega (arith, gather_zeroes-lt 1023 length size position h short t))))
        | inr full ↦ (
          s,
          zero_loop-done fuel flags size position (fresh length) s (ground arith),
          subst (λ m. Appended P s s m zeroes) {x = 0} (ground arith) (Appended-nil P s zeroes),
        )
      ]

  -- On an open pipe zero_splice of a size from 1 to 2 ^ 64 - 1, whose allocation is granted,
  -- returns the size and has sent that many zeroes.
  pub zero_splice-SendsZeroes :
      (size flags : ℕ) (s : State)
      → 0 < size
      → size < u64_mod
      → mmap false (min size max_allocation) ≡ true
      → SendsZeroes size size s (zero_splice P mmap size flags s)
  unfolding zero_splice page_allocation map_locked
  zero_splice-SendsZeroes size flags s h t granted =
      let length = min size max_allocation in
      let flags' = bit_and flags (2 ^ 32 - 1 - splice_f_gift) in
      rw granted (
        subst
          (λ n. SendsZeroes n size s (zero_loop P mmap (suc size) (fresh length) size flags' 0 s))
          {x = size - 0} (omega arith)
          (zero_loop-SendsZeroes (suc size) length flags' size 0 s (omega arith) (omega arith) t
            (omega arith)))
