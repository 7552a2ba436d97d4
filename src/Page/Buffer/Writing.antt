-- ===== src/Page/Buffer/Writing.antt =====
-- When `write` returns, and what it has written then.
use asymmetricfs.Prelude.{
  ℕ, zero, suc, ◌+◌, ◌-◌, ◌≤◌, ◌<◌, ◌≡◌, refl, some, min, max, Memory, memcpy, in_range, Outcome,
  done, aborts, if◌then◌else◌, arith, u64_mod, add64_lem, sub64_lem, sub64-zero, add64-zero,
  zero-add64, add64, sub64, Bool, lt→ltb, le→ltb, le→leb, ◌∙◌,
}
use asymmetricfs.Page.Allocation.{PageAllocation}
use asymmetricfs.Page.Blocks.{find, store}
use asymmetricfs.Page.Blocks.Content.{content}
use asymmetricfs.Page.Blocks.Update
use asymmetricfs.Page.Blocks.Update.{Uncovered}
use asymmetricfs.Page.Buffer.{
  PageBuffer, locate_block, write_block, write_round, write_loop, write, round_down_to_page,
}
use asymmetricfs.Page.Buffer.Invariant.{IsWellFormed, store-Aligned}
use asymmetricfs.Page.Buffer.Locating.{Located, Located-above, IsReady, IsReady-Located, block_end}

-- The block at `base` after a copy of `n` bytes from the caller's memory.
abbrev pub copied : PageAllocation → ℕ → ℕ → ℕ → Memory → PageAllocation
copied a base n offset buffer = record a { ptr = memcpy a.ptr (offset - base) buffer 0 n }

-- The buffer after it.
abbrev pub written : PageBuffer → PageAllocation → ℕ → ℕ → ℕ → Memory → PageBuffer
written b a base n offset buffer = record b {
  page_allocations = store base (copied a base n offset buffer) b.page_allocations;
  buffer_size = max b.buffer_size (offset + n);
}

-- A first copy that begins in the block takes what the block has room for.
write_block_first :
    (b : PageBuffer) (base n offset : ℕ) (buffer : Memory) (a : PageAllocation)
    → find base b.page_allocations ≡ some a
    → base ≤ offset
    → offset < base + a.size
    → offset + n < u64_mod
    → base + a.size < u64_mod
    → let m = min (base + a.size - offset) n in
      write_block b base n offset 0 buffer ≡ done (m, written b a base m offset buffer)
unfolding write_block
write_block_first b base n offset buffer a e h j t v =
    let m = min (base + a.size - offset) n in
    let room : a.size - (offset - base) ≡ base + a.size - offset = omega arith in
    let start : add64 offset 0 ≡ offset = add64-zero offset (omega arith) in
    rw (
      e,
      start,
      le→leb base offset h,
      sub64_lem offset base h (omega arith),
      lt→ltb (offset - base) a.size (omega arith),
      sub64_lem a.size (offset - base) (omega arith) (omega arith),
      room,
      sub64-zero n (omega arith),
      zero-add64 m (omega arith),
      add64_lem offset m (omega arith),
      write_block,
    )

-- The first round, in a block from the page of `offset` to `top`.
pub write_round_first :
    (mmap : Bool → ℕ → Bool) (b b' : PageBuffer) (a : PageAllocation) (n offset : ℕ)
    (buffer : Memory)
    → let base = round_down_to_page b.page_size offset in
      locate_block mmap b base n 0 ≡ done (base, b')
      → find base b'.page_allocations ≡ some a
      → base ≤ offset
      → offset < base + a.size
      → offset + n < u64_mod
      → base + a.size < u64_mod
      → let m = min (base + a.size - offset) n in
        write_round mmap b n offset 0 buffer ≡ done (m, written b' a base m offset buffer)
unfolding write_round
write_round_first mmap b b' a n offset buffer located e h j t v =
    let base = round_down_to_page b.page_size offset in
    rw (le→leb base offset h, located) (write_block_first b' base n offset buffer a e h j t v)

written-IsWellFormed :
    (b : PageBuffer) (a : PageAllocation) (base n offset : ℕ) (buffer : Memory)
    → IsWellFormed b
    → find base b.page_allocations ≡ some a
    → offset + n < u64_mod
    → IsWellFormed (written b a base n offset buffer)
written-IsWellFormed b a base n offset buffer v e t =
    let c = copied a base n offset buffer in
    record {
      page = v.page;
      apart = Update.store-Apart 0 base c a b.page_allocations e refl v.apart;
      aligned = store-Aligned b.page_size base c a b.page_allocations e refl v.aligned;
      sized = omega (arith, v.sized);
    }

content-written :
    (b : PageBuffer) (a : PageAllocation) (base n offset x : ℕ) (buffer : Memory)
    → IsWellFormed b
    → find base b.page_allocations ≡ some a
    → base ≤ offset
    → offset + n ≤ base + a.size
    → content (written b a base n offset buffer).page_allocations x ≡ (
        if in_range offset (offset + n) x
        then buffer (x - offset)
        else content b.page_allocations x)
content-written b a base n offset x buffer v e h j =
    Update.content-store 0 base x (copied a base n offset buffer) a b.page_allocations v.apart e
      refl
    ∙ ground (arith, Update.content-find 0 base x a b.page_allocations v.apart e)

-- The rounds of the loop, from the second on.
pub write_loop_done :
    (mmap : Bool → ℕ → Bool) (fuel n offset position : ℕ) (b : PageBuffer) (buffer : Memory)
    → n ≤ position
    → 0 < fuel
    → write_loop mmap fuel b n offset position buffer ≡ done b
unfolding write_loop
write_loop_done mmap zero n offset position b buffer h j = absurd (omega arith)
write_loop_done mmap (suc fuel) n offset position b buffer h j =
    rw (le→ltb position n h, write_loop)

pub write_loop_next :
    (mmap : Bool → ℕ → Bool) (fuel n offset position position' : ℕ) (b b' : PageBuffer)
    (buffer : Memory)
    → position < n
    → write_round mmap b n offset position buffer ≡ done (position', b')
    → write_loop mmap (suc fuel) b n offset position buffer
      ≡ write_loop mmap fuel b' n offset position' buffer
unfolding write_loop
write_loop_next mmap fuel n offset position position' b b' buffer h e =
    rw (lt→ltb position n h, e, write_loop)

write_block_full :
    (b : PageBuffer) (a : PageAllocation) (base n offset position : ℕ) (buffer : Memory)
    → find base b.page_allocations ≡ some a
    → offset + position ≡ base + a.size
    → offset + position < u64_mod
    → write_block b base n offset position buffer ≡ aborts
unfolding write_block
write_block_full b a base n offset position buffer e full t =
    let reach : sub64 (base + a.size) base ≡ a.size =
      sub64_lem (base + a.size) base (omega arith) (omega arith) ∙ omega arith in
    rw (
      e,
      add64_lem offset position t,
      full,
      le→leb base (base + a.size) (omega arith),
      reach,
      le→ltb a.size a.size (omega arith),
      write_block,
    )

-- When the block is used up the next round finds it again, and the assertion on the offset fails.
write_round_full :
    (mmap : Bool → ℕ → Bool) (b : PageBuffer) (a : PageAllocation) (n offset position : ℕ)
    (buffer : Memory)
    → let base = round_down_to_page b.page_size offset in
      find base b.page_allocations ≡ some a
      → base ≤ offset
      → offset + position ≡ base + a.size
      → offset + position < u64_mod
      → write_round mmap b n offset position buffer ≡ aborts
unfolding write_round locate_block
write_round_full mmap b a n offset position buffer e h full t =
    let base = round_down_to_page b.page_size offset in
    rw (le→leb base offset h, e, locate_block)
      (write_block_full b a base n offset position buffer e full t)

write_loop_aborts :
    (mmap : Bool → ℕ → Bool) (fuel n offset position : ℕ) (b : PageBuffer) (buffer : Memory)
    → position < n
    → 0 < fuel
    → write_round mmap b n offset position buffer ≡ aborts
    → write_loop mmap fuel b n offset position buffer ≡ aborts
unfolding write_loop
write_loop_aborts mmap zero n offset position b buffer h j e = absurd (omega arith)
write_loop_aborts mmap (suc fuel) n offset position b buffer h j e =
    rw (lt→ltb position n h, e, write_loop)

-- Reads of the buffer after a write of `n` bytes at `offset` give those bytes there, and what was
-- there elsewhere; the size grows to the end of the write.
abbrev pub Writes : PageBuffer → ℕ → ℕ → Memory → Outcome PageBuffer → Type 0
Writes b n offset buffer r =
    (b' : PageBuffer) × (r ≡ done b')
    × IsWellFormed b'
    × (b'.buffer_size ≡ max b.buffer_size (offset + n))
    × ((x : ℕ)
        → content b'.page_allocations x ≡ (
            if in_range offset (offset + n) x
            then buffer (x - offset)
            else content b.page_allocations x))

write-Located-Writes :
    (mmap : Bool → ℕ → Bool) (b : PageBuffer) (n offset top : ℕ) (buffer : Memory)
    → let base = round_down_to_page b.page_size offset in
      base ≤ offset
      → offset < top
      → top < u64_mod
      → Located b base top (locate_block mmap b base n 0)
      → 0 < n
      → offset + n < u64_mod
      → offset + n ≤ top
      → Writes b n offset buffer (write mmap b n offset buffer)
unfolding write
write-Located-Writes mmap b n offset top buffer r1 r2 r3 (b', a, e, v', found, ends, same, s, p) h t
      fits =
    let base = round_down_to_page b.page_size offset in
    let whole : min (base + a.size - offset) n ≡ n = omega arith in
    let b'' = written b' a base n offset buffer in
    let round =
      rw whole at
        (write_round_first mmap b b' a n offset buffer e found r1 (omega arith) t (omega arith)) in
    (
      b'',
      write_loop_next mmap n n offset 0 n b b'' buffer h round
          ∙ write_loop_done mmap n n offset n b'' buffer (omega arith) h,
      written-IsWellFormed b' a base n offset buffer v' found t,
      rw s,
      λ x. content-written b' a base n offset x buffer v' found r1 (omega arith) ∙ rw (same x),
    )

write-Located_overrun :
    (mmap : Bool → ℕ → Bool) (b : PageBuffer) (n offset top : ℕ) (buffer : Memory)
    → let base = round_down_to_page b.page_size offset in
      base ≤ offset
      → offset < top
      → top < u64_mod
      → Located b base top (locate_block mmap b base n 0)
      → offset + n < u64_mod
      → top < offset + n
      → write mmap b n offset buffer ≡ aborts
unfolding write
write-Located_overrun mmap b n offset top buffer r1 r2 r3 (b', a, e, v', found, ends, same, s, p) t
      over =
    let base = round_down_to_page b.page_size offset in
    let m = base + a.size - offset in
    let part : min m n ≡ m = omega arith in
    let b'' = written b' a base m offset buffer in
    let round =
      rw part at
        (write_round_first mmap b b' a n offset buffer e found r1 (omega arith) t (omega arith)) in
    let full =
      write_round_full mmap b'' (copied a base m offset buffer) n offset m buffer
        (rw p (Update.find-store base (copied a base m offset buffer) a b'.page_allocations found))
        (rw p r1) (rw p (omega arith)) (omega arith) in
    write_loop_next mmap n n offset 0 m b b'' buffer (omega arith) round
    ∙ write_loop_aborts mmap n n offset m b'' buffer (omega arith) (omega arith) full

-- A write that ends within the block that it begins in returns, and writes just its bytes.
pub write-Writes :
    (mmap : Bool → ℕ → Bool) (b : PageBuffer) (n offset : ℕ) (buffer : Memory)
    → IsWellFormed b
    → IsReady mmap b n offset
    → 0 < n
    → offset + n + b.page_size < u64_mod
    → offset + n ≤ block_end b n offset
    → Writes b n offset buffer (write mmap b n offset buffer)
write-Writes mmap b n offset buffer v ready h t fits =
    let located = IsReady-Located mmap b n offset v ready h t in
    let (r1, r2, r3) = Located-above b offset (block_end b n offset) _ v (omega arith) located in
    write-Located-Writes mmap b n offset (block_end b n offset) buffer r1 r2 r3 located h
      (omega arith) fits

-- On a well-formed buffer, a write of at least one byte that is ready (a block begins at its page,
-- or a new one can) and runs past the end of that block, below 2 ^ 64 by a page, fails an
-- assertion.
pub write_overrun :
    (mmap : Bool → ℕ → Bool) (b : PageBuffer) (n offset : ℕ) (buffer : Memory)
    → IsWellFormed b
    → IsReady mmap b n offset
    → 0 < n
    → offset + n + b.page_size < u64_mod
    → block_end b n offset < offset + n
    → write mmap b n offset buffer ≡ aborts
write_overrun mmap b n offset buffer v ready h t over =
    let located = IsReady-Located mmap b n offset v ready h t in
    let (r1, r2, r3) = Located-above b offset (block_end b n offset) _ v (omega arith) located in
    write-Located_overrun mmap b n offset (block_end b n offset) buffer r1 r2 r3 located
      (omega arith) over
