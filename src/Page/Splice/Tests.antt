-- ===== src/Page/Splice/Tests.antt =====
-- Runs of `splice` into a pipe that takes three bytes at a time, and the theorems at concrete data.
use asymmetricfs.Prelude.{
  ℕ, inl, ◌+◌, ◌-◌, ◌≡◌, refl, [], ◌∷◌, Memory, Outcome, done, aborts, ◌>>=◌, Bool, true, ltb, some,
  Option, min, if◌then◌else◌, arith, add64, sub64, not64, zeroes,
}
use asymmetricfs.MemoryLock
use asymmetricfs.Page.Allocation.{page_allocation, map_locked}
use asymmetricfs.Page.Blocks.Content.{content}
use asymmetricfs.Page.Buffer.{PageBuffer, round_down_to_page, is_page_multiple}
use asymmetricfs.Page.Buffer.Invariant.{IsWellFormed}
use asymmetricfs.Page.Pipe.{Pipe, IsOpen, Appended, total, iov_byte}
use asymmetricfs.Page.Splice.{
  advance, gather_zeroes, gather_blocks, after_splice, flush_iov, flush, zero_loop, zero_splice,
  splice_gap, splice_round, splice_loop, splice_rest, write_rest, splice_tail, splice,
}
use asymmetricfs.Page.Splice.Contents.{splice-content}
use asymmetricfs.Page.Splice.Gathering.{Reaches}
use asymmetricfs.Page.Splice.Reaching.{write-splice}
use asymmetricfs.Page.ByteFile.{file_write}
use asymmetricfs.Page.Blocks.{find}
use asymmetricfs.Page.Buffer.{write}
use asymmetricfs.Page.Buffer.Locating.{block_end}
use asymmetricfs.Page.Buffer.Refinement.{view, IsClean}
use asymmetricfs.Page.Splice.Sparse.{splice_no_block, splice_excess}

abbrev Sent : Type 0
Sent = ℕ × Memory

abbrev put : Memory → ℕ → Sent → Sent
put from n s = (s.0 + n, λ i. if ltb i s.0 then s.1 i else from (i - s.0))

-- Three bytes at a time.
abbrev slow_pipe : Pipe
slow_pipe = record {
  State = Sent;
  vmsplice = λ ios flags s. (some (min 3 (total ios)), put (iov_byte ios) (min 3 (total ios)) s);
  write = λ from n s. (some n, put from n s);
  count = λ s. s.0;
  byte = λ s. s.1;
}

slow_pipe-IsOpen : IsOpen slow_pipe
slow_pipe-IsOpen = record {
  splices = λ ios flags s h. (
    min 3 (total ios),
    put (iov_byte ios) (min 3 (total ios)) s,
    refl,
    omega arith,
    omega arith,
    (refl, λ i hi. refl),
  );
  writes = λ from n s. (put from n s, refl, (refl, λ i hi. refl));
}

abbrev always : Bool → ℕ → Bool
always locked size = true

abbrev counting : Memory
counting i = i + 1

abbrev start : Sent
start = (0, zeroes)

-- A block over the second and third page of four bytes, with the size in the third.
abbrev with_gap : PageBuffer
with_gap = record {
  page_allocations = (4, record { ptr = counting; size = 8 }) ∷ [];
  page_size = 4;
  buffer_size = 11;
  mlock = MemoryLock.none;
}

with_gap-IsWellFormed : IsWellFormed with_gap
unfolding is_page_multiple round_down_to_page sub64 not64
with_gap-IsWellFormed = record {
  page = (2, omega arith, refl);
  apart = omega arith;
  aligned = (refl, refl, tt);
  sized = omega arith;
}

run_splice : PageBuffer → Outcome (Option ℕ × Sent)
unfolding splice splice_loop splice_round splice_gap zero_splice zero_loop flush flush_iov
    after_splice advance gather_zeroes gather_blocks splice_rest splice_tail write_rest
    page_allocation map_locked is_page_multiple round_down_to_page add64 sub64 not64
run_splice b = splice slow_pipe always b 1 start

abbrev sent_at : ℕ → ℕ → ℕ → Option ℕ × Sent → Outcome (Option ℕ × ℕ × ℕ × ℕ × ℕ)
sent_at i j k (n, s) = done (n, s.0, s.1 i, s.1 j, s.1 k)

gap_spliced : (run_splice with_gap >>= sent_at 3 4 10) ≡ done (some 11, 11, 0, 1, 7)
unfolding run_splice
gap_spliced = refl

splice-content_example :
    (t : Sent) × (splice slow_pipe always with_gap 1 start ≡ done (some 11, t))
    × Appended slow_pipe start t 11 (content with_gap.page_allocations)
splice-content_example =
    splice-content slow_pipe always with_gap 1 start slow_pipe-IsOpen (λ n. refl)
      with_gap-IsWellFormed (omega arith)

-- A file that was made longer and never written.
grown : PageBuffer
grown = record { page_allocations = []; page_size = 4; buffer_size = 6; mlock = MemoryLock.none }

grown-IsWellFormed : IsWellFormed grown
unfolding grown
grown-IsWellFormed = record {
  page = (2, omega arith, refl);
  apart = tt;
  aligned = tt;
  sized = omega arith;
}

splice_no_block_example : splice slow_pipe always grown 1 start ≡ aborts
unfolding grown round_down_to_page sub64 not64
splice_no_block_example =
    splice_no_block slow_pipe always grown 1 start slow_pipe-IsOpen (λ n. refl) grown-IsWellFormed
      refl (omega arith) (omega arith)

-- A page that was written, and a file that was made longer by two pages.
abbrev page_and_growth : PageBuffer
page_and_growth = record {
  page_allocations = (0, record { ptr = counting; size = 4 }) ∷ [];
  page_size = 4;
  buffer_size = 12;
  mlock = MemoryLock.none;
}

page_and_growth-IsWellFormed : IsWellFormed page_and_growth
unfolding is_page_multiple round_down_to_page sub64 not64
page_and_growth-IsWellFormed = record {
  page = (2, omega arith, refl);
  apart = omega arith;
  aligned = (refl, refl, tt);
  sized = omega arith;
}

splice_excess_example :
    (t : Sent) × (splice slow_pipe always page_and_growth 1 start ≡ done (some 16, t))
    × (t.0 ≡ 0 + 4 + 12)
unfolding round_down_to_page sub64 not64
splice_excess_example =
    splice_excess slow_pipe always page_and_growth 1 (record { ptr = counting; size = 4 }) start
      slow_pipe-IsOpen (λ n. refl) page_and_growth-IsWellFormed refl (omega arith) (omega arith)
      refl

-- A page and a half that were written.
abbrev half_page : Memory
half_page i = if ltb i 6 then i + 1 else 0

abbrev half_written : PageBuffer
half_written = record {
  page_allocations = (0, record { ptr = half_page; size = 8 }) ∷ [];
  page_size = 4;
  buffer_size = 6;
  mlock = MemoryLock.none;
}

half_written-IsWellFormed : IsWellFormed half_written
unfolding is_page_multiple round_down_to_page sub64 not64
half_written-IsWellFormed = record {
  page = (2, omega arith, refl);
  apart = omega arith;
  aligned = (refl, refl, tt);
  sized = omega arith;
}

half_written-IsClean : IsClean half_written
unfolding content
half_written-IsClean x above = ground arith

write-splice_example :
    let file = file_write (view half_written) 5 2 counting in
    (b' : PageBuffer) × (t : Sent) × (write always half_written 5 2 counting ≡ done b')
    × (splice slow_pipe always b' 1 start ≡ done (some file.size, t))
    × Appended slow_pipe start t file.size file.byte
    × Reaches 0 b'.buffer_size b'.page_allocations
unfolding round_down_to_page block_end find sub64 not64
write-splice_example =
    write-splice slow_pipe always half_written 5 2 counting 1 start slow_pipe-IsOpen (λ n. refl)
      half_written-IsWellFormed half_written-IsClean (omega arith)
      (inl (record { ptr = half_page; size = 8 }, refl)) (omega arith) (omega arith) (omega arith)
