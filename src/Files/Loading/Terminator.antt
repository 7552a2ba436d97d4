-- ===== src/Files/Loading/Terminator.antt =====
-- Where the search for the end of a block in `load_buffer` stops.
use asymmetricfs.Prelude.{
  ℕ, zero, suc, ◌+◌, ◌-◌, ◌≤◌, ◌<◌, max, ◌≡◌, refl, subst, ◌⊎◌, inl, inr, ◌∙◌, true, false, done,
  Bool-cases, leb, ltb, le→leb, le→ltb, Memory, add64_lem, sub64_lem, u64_mod, arith,
}
use asymmetricfs.Files.Loading.{terminator, terminator_size, matches, find_terminator, block_end}

-- No terminator that lies in the file begins from `from` on and before `to`.
abbrev pub NoTerminator : Memory → ℕ → ℕ → Type 0
NoTerminator m from to = (j : ℕ) → from ≤ j → j < to → matches terminator m j ≡ false

-- `end` is behind the first terminator from `at` on; or there is none, and `end` is the last
-- position but 25, or `at` if that is later.
abbrev pub EndsBlock : Memory → ℕ → ℕ → ℕ → Type 0
EndsBlock m size at end =
    ((i : ℕ) × (at ≤ i)
      × (i + terminator_size ≤ size)
      × (matches terminator m i ≡ true)
      × NoTerminator m at i
      × (end ≡ i + terminator_size))
    ⊎ (NoTerminator m at (size - 25) × (end ≡ max at (size - 25)))

NoTerminator-back :
    (m : Memory) (at to : ℕ)
    → matches terminator m at ≡ false
    → NoTerminator m (at + 1) to
    → NoTerminator m at to
NoTerminator-back m at to miss before j low high = elim (Bool-cases (ltb at j)) [
  | inl later ↦ before j (ground arith) high
  | inr here ↦ subst (λ i. matches terminator m i ≡ false) {x = at} (ground arith) miss
]

EndsBlock-back :
    (m : Memory) (size at end : ℕ)
    → at < size - 25
    → matches terminator m at ≡ false
    → EndsBlock m size (at + 1) end
    → EndsBlock m size at end
EndsBlock-back m size at end h miss (inl (i, le, fits, found, before, e)) =
    inl (i, omega arith, fits, found, NoTerminator-back m at i miss before, e)
EndsBlock-back m size at end h miss (inr (before, e)) =
    inr (NoTerminator-back m at (size - 25) miss before, e ∙ omega arith)

EndsBlock-bounds :
    (m : Memory) (size at end : ℕ) → at ≤ size → EndsBlock m size at end → (at ≤ end) × (end ≤ size)
EndsBlock-bounds m size at end le (inl (i, low, fits, found, before, e)) =
    (omega arith, omega arith)
EndsBlock-bounds m size at end le (inr (before, e)) = (omega arith, omega arith)

pub find_terminator_lem :
    (fuel : ℕ) (m : Memory) (size at : ℕ)
    → terminator_size ≤ size
    → size < u64_mod
    → at ≤ size
    → size < at + fuel
    → (end : ℕ) × (find_terminator fuel m size at ≡ done end) × EndsBlock m size at end
unfolding find_terminator
find_terminator_lem zero m size at h t le enough = absurd (omega arith)
find_terminator_lem (suc fuel) m size at h t le enough =
    elim (Bool-cases (leb at (size - terminator_size))) [
      | inr beyond ↦ (
        at,
        rw (sub64_lem size terminator_size h t, beyond) refl,
        inr (λ j low high. absurd (ground arith), ground arith),
      )
      | inl within ↦
          let le' : at + terminator_size ≤ size = ground arith in
          elim (Bool-cases (matches terminator m at)) [
            | inl found ↦ (
              at + terminator_size,
              rw
                  (
                    sub64_lem size terminator_size h t,
                    within,
                    le→ltb size (at + terminator_size) le',
                    found,
                    add64_lem at terminator_size (omega arith),
                  )
                  refl,
              inl (at, omega arith, le', found, λ j low high. absurd (omega arith), refl),
            )
            | inr miss ↦
                let (end, e, ends) =
                  find_terminator_lem fuel m size (at + 1) h t (omega arith) (omega arith) in
                (
                  end,
                  rw
                      (
                        sub64_lem size terminator_size h t,
                        within,
                        le→ltb size (at + terminator_size) le',
                        miss,
                        add64_lem at 1 (omega arith),
                      )
                      e,
                  EndsBlock-back m size at end (omega arith) miss ends,
                )
          ]
    ]

-- In a file of 26 bytes or more, and of fewer than 2 ^ 64, the search for the end of the block that
-- begins at any offset up to the size ends, inside the file, with its assertions held: behind the
-- first terminator from the offset on, or, if there is none, 25 bytes before the end of the file or
-- at the offset, whichever is later.
pub block_end_lem :
    (m : Memory) (size offset : ℕ)
    → terminator_size ≤ size
    → size < u64_mod
    → offset ≤ size
    → (end : ℕ) × (block_end m size offset ≡ done end)
      × (offset ≤ end)
      × (end ≤ size)
      × EndsBlock m size offset end
unfolding block_end
block_end_lem m size offset h t le =
    let (end, e, ends) = find_terminator_lem (suc size) m size offset h t le (omega arith) in
    let (low, high) = EndsBlock-bounds m size offset end le ends in
    (end, rw (e, le→leb offset end low, le→leb end size high) refl, low, high, ends)
