-- ===== src/Page/Splice/Reaching.antt =====
-- `write` leaves a buffer as `splice` needs it: every block begins below the size, and the last one
-- reaches it.
use asymmetricfs.Prelude.{
  ℕ, ap, subst, Bool, true, false, ◌+◌, ◌-◌, ◌≤◌, ◌<◌, ◌≡◌, refl, ◌∙◌, inl, inr, max, min, [], ◌∷◌,
  some, done, Memory, arith, u64_mod,
}
use asymmetricfs.Page.Allocation.{PageAllocation, map_locked}
use asymmetricfs.Page.Blocks.{Blocks, find, emplace, store}
use asymmetricfs.Page.Blocks.Content.{Apart}
use asymmetricfs.Page.Blocks.Update
use asymmetricfs.Page.Blocks.Update.{Fits, fresh}
use asymmetricfs.Page.Buffer.{PageBuffer, locate_block, new_block_end, write, round_down_to_page}
use asymmetricfs.Page.Buffer.Invariant.{IsWellFormed}
use asymmetricfs.Page.Buffer.Locating.{
  IsReady, IsReady-Located, Located-above, block_end, locate_block_new, new_block_end-Fits,
  new_block_end_bounds,
}
use asymmetricfs.Page.Buffer.Rounding.{round_down_to_page_bounds}
use asymmetricfs.Page.Buffer.Writing.{
  written, copied, write_round_first, write_loop_next, write_loop_done,
}
use asymmetricfs.Page.Buffer.Refinement.{view, IsClean, write-file_write}
use asymmetricfs.Page.ByteFile.{ByteFile, file_write}
use asymmetricfs.Page.Pipe.{Pipe, IsOpen, Appended}
use asymmetricfs.Page.Splice.{splice}
use asymmetricfs.Page.Splice.Contents.{splice-content}
use asymmetricfs.Page.Splice.Gathering.{Reaches}

-- A size up to the blocks' begin does not matter.
Reaches-low :
    (low size top : ℕ) (m : Blocks)
    → Apart low m
    → top ≤ low
    → Reaches low size m
    → Reaches low (max size top) m
Reaches-low low size top [] w h r = omega arith
Reaches-low low size top ((k, a) ∷ m) w h (below, r) =
    (omega arith, Reaches-low (k + a.size) size top m w.3 (omega (arith, w.0)) r)

-- Nor does a size up to the end of a block.
Reaches-find :
    (low size top key : ℕ) (a : PageAllocation) (m : Blocks)
    → Apart low m
    → find key m ≡ some a
    → top ≤ key + a.size
    → Reaches low size m
    → Reaches low (max size top) m
unfolding find
Reaches-find low size top key a [] w e h r = ground arith
Reaches-find low size top key a ((k, c) ∷ m) w e h (below, r) = ground (
  arith,
  Reaches-low (k + c.size) size top m w.3,
  Reaches-find (k + c.size) size top key a m w.3,
  r,
)

store-Reaches :
    (low size key : ℕ) (b a : PageAllocation) (m : Blocks)
    → find key m ≡ some a
    → b.size ≡ a.size
    → Reaches low size m
    → Reaches low size (store key b m)
unfolding find store
store-Reaches low size key b a [] e s r = r
store-Reaches low size key b a ((k, c) ∷ m) e s (below, r) =
    ground (arith, store-Reaches (k + c.size) size key b a m, r)

emplace-Reaches :
    (low size top base n : ℕ) (m : Blocks)
    → Apart low m
    → Fits base n m
    → low ≤ base
    → base < top
    → top ≤ base + n
    → Reaches low size m
    → Reaches low (max size top) (emplace base (fresh n) m)
unfolding emplace
emplace-Reaches low size top base n [] w f h j t r = (omega arith, omega arith)
emplace-Reaches low size top base n ((k, a) ∷ m) w (inl (before, f)) h j t (below, r) =
    ground
      (arith, emplace-Reaches (k + a.size) size top base n m w.3 f (omega arith) j t r, w.1, w.0)
emplace-Reaches low size top base n ((k, a) ∷ m) w (inr after) h j t (below, r) =
    ground (arith, Reaches-low (k + a.size) size top m w.3 (omega arith) r, w.1, w.0)

write-written :
    (mmap : Bool → ℕ → Bool) (b b' : PageBuffer) (a : PageAllocation) (n offset : ℕ)
    (buffer : Memory)
    → let base = round_down_to_page b.page_size offset in
      locate_block mmap b base n 0 ≡ done (base, b')
      → find base b'.page_allocations ≡ some a
      → base ≤ offset
      → offset < base + a.size
      → base + a.size < u64_mod
      → 0 < n
      → offset + n < u64_mod
      → offset + n ≤ base + a.size
      → write mmap b n offset buffer ≡ done (written b' a base n offset buffer)
unfolding write
write-written mmap b b' a n offset buffer located found low high t h u fits =
    let base = round_down_to_page b.page_size offset in
    let whole : min (base + a.size - offset) n ≡ n = omega arith in
    let round =
      rw whole at (write_round_first mmap b b' a n offset buffer located found low high u t) in
    write_loop_next mmap n n offset 0 n b (written b' a base n offset buffer) buffer h round
    ∙ write_loop_done mmap n n offset n (written b' a base n offset buffer) buffer (omega arith) h

written-Reaches :
    (b : PageBuffer) (a : PageAllocation) (base n offset : ℕ) (buffer : Memory)
    → find base b.page_allocations ≡ some a
    → Reaches 0 (max b.buffer_size (offset + n)) b.page_allocations
    → let b' = written b a base n offset buffer in Reaches 0 b'.buffer_size b'.page_allocations
written-Reaches b a base n offset buffer found r =
    store-Reaches 0 (max b.buffer_size (offset + n)) base (copied a base n offset buffer) a
      b.page_allocations found refl r

locate_block_found :
    (mmap : Bool → ℕ → Bool) (b : PageBuffer) (base n : ℕ) (a : PageAllocation)
    → find base b.page_allocations ≡ some a
    → locate_block mmap b base n 0 ≡ done (base, b)
unfolding locate_block
locate_block_found mmap b base n a e = rw (e, locate_block) refl

module _ (mmap : Bool → ℕ → Bool) (b : PageBuffer) (n offset : ℕ) (buffer : Memory)
    (v : IsWellFormed b) (r : Reaches 0 b.buffer_size b.page_allocations) (h : 0 < n)
    (room : offset + n + b.page_size < u64_mod) where
  abbrev base : ℕ
  base = round_down_to_page b.page_size offset

  -- The write returns such a buffer.
  abbrev pub StillReaches : Type 0
  StillReaches =
      (b' : PageBuffer) × (write mmap b n offset buffer ≡ done b')
      × Reaches 0 b'.buffer_size b'.page_allocations

  found-StillReaches :
      (a : PageAllocation)
      → find base b.page_allocations ≡ some a
      → base ≤ offset
      → offset < base + a.size
      → base + a.size < u64_mod
      → offset + n ≤ base + a.size
      → StillReaches
  found-StillReaches a e low high t fits = (
    written b a base n offset buffer,
    write-written mmap b b a n offset buffer (locate_block_found mmap b base n a e) e low high t h
        (omega arith) fits,
    written-Reaches b a base n offset buffer e
        (Reaches-find 0 b.buffer_size (offset + n) base a b.page_allocations v.apart e fits r),
  )

  new-StillReaches :
      Update.Uncovered base b.page_allocations
      → let end = new_block_end b base n 0 in
        end < base + n + b.page_size
        → mmap (map_locked b.mlock) (end - base) ≡ true
        → base ≤ offset
        → offset + n ≤ end
        → StillReaches
  new-StillReaches u near granted low fits =
      let end = new_block_end b base n 0 in
      let (r1, r2, r3) = round_down_to_page_bounds b.page_size offset v.page (omega arith) in
      let (e1, e2, e3) = new_block_end_bounds b base n v h (omega arith) in
      let m = b.page_allocations in
      let a = fresh (end - base) in
      let grown = record b { page_allocations = emplace base a m } in
      let f = new_block_end-Fits b base n v u in
      let missing = Update.find-Uncovered 0 base m v.apart u in
      let there = Update.find-emplace 0 base (end - base) m v.apart f (omega arith) in
      let located = locate_block_new mmap b base n v r3 missing h (omega arith) near granted in
      (
        written grown a base n offset buffer,
        write-written mmap b grown a n offset buffer located there low (omega arith) (omega arith) h
            (omega arith) (omega arith),
        written-Reaches grown a base n offset buffer there (
            emplace-Reaches 0 b.buffer_size (offset + n) base (end - base) m v.apart f (omega arith)
              (omega arith) (omega arith) r),
      )

-- A write that is ready and ends within the block that it begins in leaves such a buffer.
write-Reaches :
    (mmap : Bool → ℕ → Bool) (b : PageBuffer) (n offset : ℕ) (buffer : Memory)
    → IsWellFormed b
    → Reaches 0 b.buffer_size b.page_allocations
    → IsReady mmap b n offset
    → 0 < n
    → offset + n + b.page_size < u64_mod
    → offset + n ≤ block_end b n offset
    → (b' : PageBuffer) × (write mmap b n offset buffer ≡ done b')
      × Reaches 0 b'.buffer_size b'.page_allocations
unfolding block_end
write-Reaches mmap b n offset buffer v r ready h room fits =
    let located = IsReady-Located mmap b n offset v ready h room in
    let (low, high, t) = Located-above b offset (block_end b n offset) _ v (omega arith) located in
    by_block ready low high t
  where
    by_block :
        IsReady mmap b n offset
        → round_down_to_page b.page_size offset ≤ offset
        → offset < block_end b n offset
        → block_end b n offset < u64_mod
        → StillReaches mmap b n offset buffer v r h room
    by_block (inl (a, e)) low high t =
        found-StillReaches mmap b n offset buffer v r h room a e low (rw (e, block_end) at high)
          (rw (e, block_end) at t) (rw (e, block_end) at fits)
    by_block (inr (u, near, granted)) low high t =
        let missing =
          Update.find-Uncovered 0 (round_down_to_page b.page_size offset) b.page_allocations v.apart
            u in
        new-StillReaches mmap b n offset buffer v r h room u near granted low
          (rw (missing, block_end) at fits)

-- On a well-formed and clean buffer whose blocks all begin below its size and whose last block
-- reaches it, let a write of at least one byte be ready (a block begins at its page, or a new one
-- can) and end within the block that it begins in, below 2 ^ 64 by a page. Then the write returns a
-- buffer whose blocks again begin below its size and reach it, and on an open pipe, and if memory
-- is there, splice of that buffer returns the size of the written file of bytes, and has sent its
-- bytes up to the size, each once and in order.
pub write-splice :
    (P : Pipe) (mmap : Bool → ℕ → Bool) (b : PageBuffer) (n offset : ℕ) (buffer : Memory)
    (flags : ℕ) (s : P.State)
    → IsOpen P
    → ((n : ℕ) → mmap false n ≡ true)
    → IsWellFormed b
    → IsClean b
    → Reaches 0 b.buffer_size b.page_allocations
    → IsReady mmap b n offset
    → 0 < n
    → offset + n + b.page_size < u64_mod
    → offset + n ≤ block_end b n offset
    → let file = file_write (view b) n offset buffer in
      (b' : PageBuffer) × (t : P.State) × (write mmap b n offset buffer ≡ done b')
      × (splice P mmap b' flags s ≡ done (some file.size, t))
      × Appended P s t file.size file.byte
      × Reaches 0 b'.buffer_size b'.page_allocations
write-splice P mmap b n offset buffer flags s lawful granted v c r ready h room fits =
    let (b', e, reaches) = write-Reaches mmap b n offset buffer v r ready h room fits in
    let (b'', e', same, formed, clean) =
      write-file_write mmap b n offset buffer v c ready h room fits in
    let one : b'' ≡ b' = cc (e, e') in
    let formed' = subst (λ (x : PageBuffer). IsWellFormed x) one formed in
    let file : view b' ≡ file_write (view b) n offset buffer =
      subst (λ (x : PageBuffer). view x ≡ file_write (view b) n offset buffer) one same in
    let (t, sent, bytes) = splice-content P mmap b' flags s lawful granted formed' reaches in
    (
      b',
      t,
      e,
      sent ∙ ap (λ (f : ByteFile). done (some f.size, t)) file,
      subst (λ (f : ByteFile). Appended P s t f.size f.byte) file bytes,
      reaches,
    )
