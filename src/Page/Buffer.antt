-- ===== src/Page/Buffer.antt =====
-- `page_buffer`: the contents of one file, in page-aligned blocks. Reads, writes and the size; the
-- transfer into a pipe is in Page/Splice.antt.
pub mod Rounding
pub mod Invariant
pub mod Reading
pub mod Locating
pub mod Writing
pub mod Refinement
pub mod Overlap
pub mod Clearing
pub mod Below
pub mod Appending
use Prim.Native.Nat.{bit_and}
use asymmetricfs.Prelude.{
  ℕ, zero, suc, ◌+◌, ◌-◌, min, max, Bool, true, false, List, [], ◌∷◌, Option, none, some, get_elem?,
  take, drop, Memory, memcpy, memset, Outcome, done, aborts, out_of_fuel, assert, ◌>>=◌, ◌>>◌, ltb,
  leb, ◌==◌, ◌||◌, if◌then◌else◌, add64, sub64, not64,
}
use asymmetricfs.MemoryLock.{MemoryLock}
use asymmetricfs.Page.Allocation.{PageAllocation, page_allocation}
use asymmetricfs.Page.Blocks.{Blocks, find, lower_bound, upper_bound, emplace, store, find_block}

pub record PageBuffer : Type 0 where
  pub page_allocations : Blocks
  pub page_size : ℕ
  pub buffer_size : ℕ
  pub mlock : MemoryLock

-- The constructor. `page_size` is what `sysconf(_SC_PAGESIZE)` returns.
unfoldable pub page_buffer : ℕ → MemoryLock → PageBuffer
page_buffer page_size m = record {
  page_allocations = [];
  page_size = page_size;
  buffer_size = 0;
  mlock = m;
}

unfoldable pub size : PageBuffer → ℕ
size b = b.buffer_size

unfoldable pub round_down_to_page : ℕ → ℕ → ℕ
round_down_to_page page_size sz = bit_and sz (not64 (sub64 page_size 1))

unfoldable pub round_up_to_page : ℕ → ℕ → ℕ
round_up_to_page page_size sz = bit_and (sub64 (add64 sz page_size) 1) (not64 (sub64 page_size 1))

unfoldable pub is_page_multiple : ℕ → ℕ → Bool
is_page_multiple page_size n = round_down_to_page page_size n == n

-- Zeroes up to the block at `k`, if it begins above the position.
unfoldable pub fill_gap : ℕ → ℕ → ℕ × Memory → ℕ × Memory
fill_gap k offset (position, buffer) =
    if ltb (add64 position offset) k
    then (let zero_length = sub64 (sub64 k position) offset in
        (add64 position zero_length, memset buffer position 0 zero_length))
    else (position, buffer)

-- What the block at `k` has at the position.
unfoldable pub copy_block : ℕ → PageAllocation → ℕ → ℕ → ℕ × Memory → ℕ × Memory
copy_block k a n offset (position, buffer) =
    let internal_offset = sub64 (add64 position offset) k in
    let internal_length = min (sub64 a.size internal_offset) (sub64 n position) in
    if ltb a.size internal_offset then (position, buffer) else (
      add64 position internal_length,
      memcpy buffer position a.ptr internal_offset internal_length,
    )

-- The body of the loop of `read`.
unfoldable pub read_block : ℕ → PageAllocation → ℕ → ℕ → ℕ × Memory → Outcome (ℕ × Memory)
read_block k a n offset s = do
  let filled = fill_gap k offset s
  assert (leb k (add64 filled.0 offset))
  done (copy_block k a n offset filled)

-- The loop of `read`, over the blocks from the iterator on.
unfoldable pub read_loop : Blocks → ℕ → ℕ → ℕ × Memory → Outcome (ℕ × Memory)
read_loop [] n offset s = done s
read_loop ((k, a) ∷ m) n offset s = elim (ltb k (add64 n offset)) [
  | false ↦ done s
  | true ↦ read_block k a n offset s >>= read_loop m n offset
]

-- After the loop: zeroes for the tail.
unfoldable pub fill_tail : ℕ → ℕ × Memory → Outcome (ℕ × Memory)
fill_tail n (position, buffer) = do
  assert (leb position n)
  done (
      if ltb position n
      then (n, memset buffer position 0 (sub64 n position))
      else (position, buffer))

-- The request, shrunk to what the buffer can serve.
unfoldable pub shrink_request : PageBuffer → ℕ → ℕ → ℕ
shrink_request b n offset =
    if ltb offset b.buffer_size then min n (sub64 b.buffer_size offset) else 0

-- `read` returns the number of bytes read and the caller's memory after it.
unfoldable pub read : PageBuffer → ℕ → ℕ → Memory → Outcome (ℕ × Memory)
read b n offset buffer = do
  let base = round_down_to_page b.page_size offset
  let n' = shrink_request b n offset
  it ← find_block b.page_allocations base
  s ← read_loop (drop it b.page_allocations) n' offset (0, buffer)
  fill_tail n' s

-- Where a new block at `base` ends: at the next block, or else at the page end of the rest.
unfoldable pub new_block_end : PageBuffer → ℕ → ℕ → ℕ → ℕ
new_block_end b base n position =
    elim (get_elem? b.page_allocations (upper_bound base b.page_allocations)) [
      | none ↦ round_up_to_page b.page_size (sub64 (add64 base n) position)
      | some (k, a) ↦ k
    ]

-- The allocation of a new block at `base`.
unfoldable pub allocate_block : (Bool → ℕ → Bool) → PageBuffer → ℕ → ℕ → ℕ → Outcome PageBuffer
allocate_block mmap b base n position = do
  let end = new_block_end b base n position
  assert (ltb base end)
  assert (ltb (sub64 end base) (add64 (sub64 n position) b.page_size))
  let length = sub64 end base
  assert (is_page_multiple b.page_size length)
  a ← page_allocation mmap length b.mlock
  done (record b { page_allocations = emplace base a b.page_allocations })

-- The new block becomes the iterator.
unfoldable pub new_block : (Bool → ℕ → Bool) → PageBuffer → ℕ → ℕ → ℕ → Outcome (ℕ × PageBuffer)
new_block mmap b base n position = do b' ← allocate_block mmap b base n position; done (base, b')

-- The block that a write begins in: the key of the iterator `it`, and the buffer, which may have
-- got a new block.
unfoldable pub locate_block : (Bool → ℕ → Bool) → PageBuffer → ℕ → ℕ → ℕ → Outcome (ℕ × PageBuffer)
locate_block mmap b base n position = elim (find base b.page_allocations) [
  | some a ↦ done (base, b)
  | none ↦ elim (get_elem? b.page_allocations (lower_bound base b.page_allocations)) [
    | none ↦ new_block mmap b base n position
    | some (k, a) ↦ if ltb base k then new_block mmap b base n position else done (k, b)
  ]
]

-- The copy into the block at `base`.
unfoldable pub write_block : PageBuffer → ℕ → ℕ → ℕ → ℕ → Memory → Outcome (ℕ × PageBuffer)
write_block b base n offset position buffer = elim (find base b.page_allocations) [
  | none ↦ aborts
  | some a ↦ do
    assert (leb base (add64 offset position))
    let internal_offset = sub64 (add64 offset position) base
    assert (ltb internal_offset a.size)
    let internal_length = min (sub64 a.size internal_offset) (sub64 n position)
    let a' = record a { ptr = memcpy a.ptr internal_offset buffer position internal_length }
    let position' = add64 position internal_length
    done (
      position',
      record b {
        page_allocations = store base a' b.page_allocations;
        buffer_size = max b.buffer_size (add64 offset position');
      },
    )
]

-- One round of the loop of `write`.
unfoldable pub write_round :
    (Bool → ℕ → Bool) → PageBuffer → ℕ → ℕ → ℕ → Memory → Outcome (ℕ × PageBuffer)
write_round mmap b n offset position buffer = do
  let base = round_down_to_page b.page_size offset
  assert (leb base offset)
  (base', b') ← locate_block mmap b base n position
  write_block b' base' n offset position buffer

-- The loop of `write`, with fuel.
unfoldable pub write_loop :
    (Bool → ℕ → Bool) → ℕ → PageBuffer → ℕ → ℕ → ℕ → Memory → Outcome PageBuffer
write_loop mmap zero b n offset position buffer = out_of_fuel
write_loop mmap (suc fuel) b n offset position buffer = elim (ltb position n) [
  | false ↦ done b
  | true ↦ write_round mmap b n offset position buffer >>= λ (position', b').
      write_loop mmap fuel b' n offset position' buffer
]

-- `write`. A round that returns has copied a byte or more, so `n` rounds and the last test suffice.
unfoldable pub write : (Bool → ℕ → Bool) → PageBuffer → ℕ → ℕ → Memory → Outcome PageBuffer
write mmap b n offset buffer = write_loop mmap (suc n) b n offset 0 buffer

-- Is `it` the end of the map, or an entry with its key at `n` or above?
unfoldable pub starts_from : Blocks → ℕ → ℕ → Bool
starts_from m it n = elim (get_elem? m it) [ none ↦ true | some (k, a) ↦ leb n k ]

-- The blocks that a resize keeps.
unfoldable pub free_blocks : Blocks → ℕ → Outcome Blocks
free_blocks m n = do let it = lower_bound n m; assert (starts_from m it n); done (take it m)

-- `resize` gives the blocks from `n` on back.
unfoldable pub resize : PageBuffer → ℕ → Outcome PageBuffer
resize b n = do
  m ← if ltb n b.buffer_size then free_blocks b.page_allocations n else done b.page_allocations
  done (record b { page_allocations = m; buffer_size = n })

unfoldable pub clear : PageBuffer → PageBuffer
clear b = record b { page_allocations = []; buffer_size = 0 }
