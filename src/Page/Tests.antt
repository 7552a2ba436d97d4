-- ===== src/Page/Tests.antt =====
-- Runs of the page buffer with pages of four bytes, and the theorems at concrete data.
use asymmetricfs.Prelude.{
  ℕ, ◌+◌, ◌≤◌, ◌<◌, ◌≡◌, refl, inl, [], ◌∷◌, Memory, Outcome, done, aborts, ◌>>=◌, Bool, true, ltb,
  if◌then◌else◌, arith, add64, sub64, not64,
}
use asymmetricfs.MemoryLock
use asymmetricfs.Page.Allocation.{page_allocation, map_locked}
use asymmetricfs.Page.Blocks.{
  find, lower_bound, upper_bound, emplace, store, find_block, find_from, step_back,
}
use asymmetricfs.Page.Blocks.Content.{content}
use asymmetricfs.Page.ByteFile.{file_read, file_write, file_truncate}
use asymmetricfs.Page.Buffer.{
  PageBuffer, round_down_to_page, round_up_to_page, is_page_multiple, read, write, resize,
  page_buffer, read_loop, read_block, fill_gap, copy_block, fill_tail, shrink_request,
  new_block_end, allocate_block, new_block, locate_block, write_block, write_round, write_loop,
  free_blocks, starts_from,
}
use asymmetricfs.Page.Buffer.Invariant.{IsWellFormed}
use asymmetricfs.Page.Buffer.Locating.{block_end}
use asymmetricfs.Page.Buffer.Writing.{write_overrun}
use asymmetricfs.Page.Buffer.Overlap.{write_hidden}
use asymmetricfs.Page.Buffer.Refinement.{
  view, IsClean, read-file_read, write-file_write, resize_lem, resize-file_truncate, resize_stale,
}

abbrev grants : Bool → ℕ → Bool
grants locked size = true

-- A caller's memory of nines.
abbrev nines : Memory
nines i = 9

-- Two pages in one block, of which seven bytes are in the file.
abbrev seven_bytes : Memory
seven_bytes i = if ltb i 7 then i + 1 else 0

abbrev two_pages : PageBuffer
two_pages = record {
  page_allocations = (0, record { ptr = seven_bytes; size = 8 }) ∷ [];
  page_size = 4;
  buffer_size = 7;
  mlock = MemoryLock.none;
}

two_pages-IsWellFormed : IsWellFormed two_pages
unfolding is_page_multiple round_down_to_page sub64 not64
two_pages-IsWellFormed = record {
  page = (2, omega arith, refl);
  apart = omega arith;
  aligned = (refl, refl, tt);
  sized = omega arith;
}

two_pages-IsClean : IsClean two_pages
unfolding content
two_pages-IsClean x h = ground arith

-- The operations, open all the way down.
run_read : PageBuffer → ℕ → ℕ → Memory → Outcome (ℕ × Memory)
unfolding read read_loop read_block fill_gap copy_block fill_tail shrink_request find_block
    lower_bound round_down_to_page add64 sub64 not64 find_from step_back
run_read = read

run_write : PageBuffer → ℕ → ℕ → Memory → Outcome PageBuffer
unfolding write write_loop write_round write_block locate_block new_block allocate_block
    new_block_end round_down_to_page round_up_to_page is_page_multiple page_allocation map_locked
    find emplace store lower_bound upper_bound add64 sub64 not64
run_write = write grants

run_resize : PageBuffer → ℕ → Outcome PageBuffer
unfolding resize free_blocks starts_from lower_bound
run_resize = resize

-- The count and the bytes at three places.
abbrev bytes_at : ℕ → ℕ → ℕ → ℕ × Memory → Outcome (ℕ × ℕ × ℕ × ℕ)
bytes_at i j k (count, buffer) = done (count, buffer i, buffer j, buffer k)

empty : PageBuffer
unfolding page_buffer
empty = page_buffer 4 MemoryLock.none

-- A write at byte 3 and a read of all bytes.
write_then_read :
    (run_write empty 1 3 nines >>= λ b. run_read b 10 0 (λ i. 5) >>= bytes_at 0 3 4)
    ≡ done (4, 0, 9, 5)
unfolding run_write run_read empty
write_then_read = refl

-- A second write that begins a page further on in the same block is lost to a read from the start.
overlapped :
    (run_write two_pages 1 4 nines >>= λ b. run_read b 8 0 (λ i. 5) >>= bytes_at 3 4 5)
    ≡ done (7, 4, 5, 6)
unfolding run_write run_read
overlapped = refl

-- It is seen by a read that begins at its page.
overlapped_from_its_page :
    (run_write two_pages 1 4 nines >>= λ b. run_read b 8 4 (λ i. 5) >>= bytes_at 0 1 2)
    ≡ done (3, 9, 0, 0)
unfolding run_write run_read
overlapped_from_its_page = refl

-- An unaligned write of a page into an empty buffer gets one page, and aborts.
unaligned_page : run_write empty 4 1 nines ≡ aborts
unfolding run_write empty
unaligned_page = refl

-- A small write far before the next block aborts on the length of the gap.
far_before : (run_write empty 1 16 nines >>= λ b. run_write b 1 0 nines) ≡ aborts
unfolding run_write empty
far_before = refl

shrunk_and_grown :
    (run_resize two_pages 2 >>= λ b.
    run_resize b 6 >>= λ c. run_read c 6 0 nines >>= bytes_at 1 2 5)
    ≡ done (6, 2, 3, 6)
unfolding run_resize run_read
shrunk_and_grown = refl

read-file_read_example : read two_pages 4 5 nines ≡ done (file_read (view two_pages) 4 5 nines)
read-file_read_example = read-file_read two_pages 4 5 nines two_pages-IsWellFormed (omega arith)

write-file_write_example :
    (b' : PageBuffer) × (write grants two_pages 5 2 nines ≡ done b')
    × (view b' ≡ file_write (view two_pages) 5 2 nines)
    × IsWellFormed b'
    × IsClean b'
unfolding round_down_to_page block_end find sub64 not64
write-file_write_example =
    write-file_write grants two_pages 5 2 nines two_pages-IsWellFormed two_pages-IsClean
      (inl (record { ptr = seven_bytes; size = 8 }, refl)) (omega arith) (omega arith) (omega arith)

write_overrun_example : write grants two_pages 7 2 nines ≡ aborts
unfolding round_down_to_page block_end find sub64 not64
write_overrun_example =
    write_overrun grants two_pages 7 2 nines two_pages-IsWellFormed
      (inl (record { ptr = seven_bytes; size = 8 }, refl)) (omega arith) (omega arith) (omega arith)

write_hidden_example :
    (b' : PageBuffer) × (write grants two_pages 2 5 nines ≡ done b')
    × (b'.buffer_size ≡ 7)
    × ((m at : ℕ) (bytes : Memory)
        → 0 ≤ at
        → at < 4
        → 0 < m
        → at + m ≤ 0 + 8
        → at + m ≤ 7
        → read b' m at bytes ≡ read two_pages m at bytes)
unfolding round_down_to_page new_block_end find sub64 not64 round_up_to_page add64 upper_bound
write_hidden_example =
    write_hidden grants two_pages 2 5 0 (record { ptr = seven_bytes; size = 8 }) nines
      two_pages-IsWellFormed refl (omega arith) (omega arith) refl (omega arith) (omega arith)
      (omega arith) (omega arith) refl

resize_lem_example :
    (b' : PageBuffer) × (resize two_pages 3 ≡ done b')
    × IsWellFormed b'
    × (b'.buffer_size ≡ 3)
    × ((x : ℕ) → x < 3 → content b'.page_allocations x ≡ content two_pages.page_allocations x)
resize_lem_example = resize_lem two_pages 3 two_pages-IsWellFormed (omega arith)

resize-file_truncate_example :
    (b' : PageBuffer) × (resize two_pages 30 ≡ done b')
    × (view b' ≡ file_truncate (view two_pages) 30)
    × IsWellFormed b'
    × IsClean b'
resize-file_truncate_example =
    resize-file_truncate two_pages 30 two_pages-IsWellFormed two_pages-IsClean (inl (omega arith))
      (omega arith)

resize_stale_example :
    (b' : PageBuffer) × ((resize two_pages 2 >>= λ c. resize c 6) ≡ done b')
    × (content b'.page_allocations 4 ≡ content two_pages.page_allocations 4)
unfolding find
resize_stale_example =
    resize_stale two_pages 0 2 6 4 (record { ptr = seven_bytes; size = 8 }) two_pages-IsWellFormed
      refl (omega arith) (omega arith) (omega arith) (omega arith) (omega arith)
