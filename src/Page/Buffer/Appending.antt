-- ===== src/Page/Buffer/Appending.antt =====
-- A write at the end of a buffer whose size is a page boundary, with every block below it.
use asymmetricfs.Prelude.{
  ℕ, ◌+◌, ◌-◌, ◌≤◌, ◌<◌, ◌≡◌, refl, subst, ◌∙◌, inr, Bool, true, min, some, none, Memory, done,
  in_range, if◌then◌else◌, arith, u64_mod,
}
use asymmetricfs.Page.Allocation.{PageAllocation, map_locked}
use asymmetricfs.Page.Blocks.{find, emplace}
use asymmetricfs.Page.Blocks.Content.{content}
use asymmetricfs.Page.Blocks.Update
use asymmetricfs.Page.Blocks.Update.{Uncovered, fresh}
use asymmetricfs.Page.Buffer.{
  PageBuffer, write, new_block_end, round_down_to_page, round_up_to_page, is_page_multiple,
}
use asymmetricfs.Page.Buffer.Rounding.{round_up_to_page_bounds}
use asymmetricfs.Page.Buffer.Invariant.{IsWellFormed}
use asymmetricfs.Page.Buffer.Locating.{IsReady, block_end, new_block_end_rest, locate_block_new}
use asymmetricfs.Page.Buffer.Writing.{
  written, copied, write_round_first, write_loop_next, write_loop_done, write-Writes,
}
use asymmetricfs.Page.Buffer.Refinement.{IsClean}
use asymmetricfs.Page.Buffer.Below.{
  EndsBelow, EndsBelow-mono, EndsBelow-Uncovered, EndsBelow-last, emplace-EndsBelow,
  store-EndsBelow, round_down_to_page_same, round_up_to_page_same,
}

-- A buffer to append to.
pub record IsAppendable (mmap : Bool → ℕ → Bool) (b : PageBuffer) : Type 0 where
  pub formed : IsWellFormed b
  pub clean : IsClean b
  pub whole : is_page_multiple b.page_size b.buffer_size ≡ true
  pub below : EndsBelow b.buffer_size b.page_allocations
  pub granted : (n : ℕ) → mmap (map_locked b.mlock) n ≡ true

module _ (mmap : Bool → ℕ → Bool) (b : PageBuffer) (c : ℕ) (buffer : Memory)
    (able : IsAppendable mmap b) (some_bytes : 0 < c)
    (room : b.buffer_size + c + b.page_size < u64_mod) where
  abbrev size : ℕ
  size = b.buffer_size

  abbrev end : ℕ
  end = round_up_to_page b.page_size (size + c)

  base : round_down_to_page b.page_size size ≡ size
  base = round_down_to_page_same b.page_size size able.formed.page (omega arith) able.whole

  ends : new_block_end b size c 0 ≡ end
  unfolding new_block_end
  ends =
      rw
        (
          EndsBelow-last size b.page_allocations able.below,
          new_block_end,
          new_block_end_rest size c (omega arith),
        )
        refl

  end_bounds : (size + c ≤ end) × (end < size + c + b.page_size)
  end_bounds =
      let (low, high, whole) =
        round_up_to_page_bounds b.page_size (size + c) able.formed.page room in
      (low, high)

  ready : IsReady mmap b c size
  ready =
      rw (base, ends)
        (inr (
          EndsBelow-Uncovered size b.page_allocations able.below,
          end_bounds.1,
          able.granted (end - size),
        ))

  missing : find size b.page_allocations ≡ none
  missing =
      Update.find-Uncovered 0 size b.page_allocations able.formed.apart
        (EndsBelow-Uncovered size b.page_allocations able.below)

  fits : size + c ≤ block_end b c size
  unfolding block_end
  fits = rw (base, missing, block_end, base, ends) end_bounds.0

  -- The new block, and the buffer with it.
  abbrev block : PageAllocation
  block = fresh (end - size)

  abbrev grown : PageBuffer
  grown = record b { page_allocations = emplace size block b.page_allocations }

  found : find size grown.page_allocations ≡ some block
  found =
      Update.find-emplace 0 size (end - size) b.page_allocations able.formed.apart
        (Update.Uncovered-Fits_end 0 size (end - size) b.page_allocations able.formed.apart
          (EndsBelow-Uncovered size b.page_allocations able.below)
          (EndsBelow-last size b.page_allocations able.below))
        (omega (arith, end_bounds.0))

  write_appended : write mmap b c size buffer ≡ done (written grown block size c size buffer)
  unfolding write
  write_appended =
      let located = rw ends at (
        locate_block_new mmap b size c able.formed able.whole missing some_bytes room
          (rw ends end_bounds.1) (rw ends (able.granted (end - size)))) in
      let all : min (size + block.size - size) c ≡ c = omega (arith, end_bounds.0) in
      let round =
        rw (base, all) at
          (write_round_first mmap b grown block c size buffer (rw base located) (rw base found)
            (rw base (omega arith)) (rw base (omega (arith, end_bounds.0))) (omega arith)
            (rw base (omega (arith, end_bounds.1)))) in
      write_loop_next mmap c c size 0 c b (written grown block size c size buffer) buffer some_bytes
        round
      ∙ write_loop_done mmap c c size c (written grown block size c size buffer) buffer
          (omega arith) some_bytes

  blocks_below : EndsBelow end (written grown block size c size buffer).page_allocations
  blocks_below =
      store-EndsBelow end size (copied block size c size buffer) block grown.page_allocations found
        refl
        (emplace-EndsBelow end size (end - size) b.page_allocations
          (EndsBelow-mono size end b.page_allocations (omega (arith, end_bounds.0)) able.below)
          (omega (arith, end_bounds.0)))

  -- The bytes are appended, and to a whole number of pages more can be appended.
  abbrev pub Appends : PageBuffer → Type 0
  Appends b' =
      (b'.buffer_size ≡ size + c)
      × ((x : ℕ)
          → content b'.page_allocations x ≡ (
              if in_range size (size + c) x
              then buffer (x - size)
              else content b.page_allocations x))
      × (b'.page_size ≡ b.page_size)
      × IsWellFormed b'
      × IsClean b'
      × (is_page_multiple b.page_size (size + c) ≡ true → IsAppendable mmap b')

  pub write-Appends : (b' : PageBuffer) × (write mmap b c size buffer ≡ done b') × Appends b'
  write-Appends =
      let (b1, e, formed, sized, bytes) =
        write-Writes mmap b c size buffer able.formed ready some_bytes room fits in
      let b2 = written grown block size c size buffer in
      let same : b1 ≡ b2 = cc (e, write_appended) in
      let formed' = subst (λ (y : PageBuffer). IsWellFormed y) same formed in
      let bytes' =
        subst
          (λ (y : PageBuffer).
            (x : ℕ)
            → content y.page_allocations x ≡ (
                if in_range size (size + c) x
                then buffer (x - size)
                else content b.page_allocations x))
          same bytes in
      let clean' : IsClean b2 = λ x above. bytes' x ∙ ground (arith, able.clean x) in
      let grows : b2.buffer_size ≡ size + c = omega arith in
      (
        b2,
        write_appended,
        (
          grows,
          bytes',
          refl,
          formed',
          clean',
          λ whole. record {
            formed = formed';
            clean = clean';
            whole = rw grows whole;
            below = rw grows (
                subst (λ n. EndsBelow n b2.page_allocations)
                  (round_up_to_page_same b.page_size (size + c) able.formed.page room whole)
                  blocks_below);
            granted = able.granted;
          },
        ),
      )
