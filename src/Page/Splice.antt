-- ===== src/Page/Splice.antt =====
-- `page_buffer::splice` and its helpers: the contents go into a pipe.
pub mod Flushing
pub mod Zeroes
pub mod Gathering
pub mod Sending
pub mod Remainder
pub mod Contents
pub mod Reaching
pub mod Sparse
mod Tests
use Prim.Native.Nat.{bit_and}
use asymmetricfs.Prelude.{
  ℕ, zero, suc, ◌+◌, ◌-◌, ◌^◌, min, Bool, true, false, List, [], ◌∷◌, Option, none, some, length,
  Outcome, done, aborts, out_of_fuel, assert, ◌>>=◌, ◌>>◌, ltb, leb, ◌==◌, if◌then◌else◌, add64,
  sub64,
}
use asymmetricfs.MemoryLock
use asymmetricfs.Page.Allocation.{PageAllocation, page_allocation}
use asymmetricfs.Page.Blocks.{Blocks}
use asymmetricfs.Page.Pipe.{Iovec, Pipe, total}
use asymmetricfs.Page.Buffer.{PageBuffer, is_page_multiple, round_down_to_page}

-- IOV_MAX of Linux, SPLICE_F_GIFT, and `max_allocation`.
abbrev pub iov_max : ℕ
iov_max = 1024

abbrev pub splice_f_gift : ℕ
splice_f_gift = 8

abbrev pub max_allocation : ℕ
max_allocation = 2 ^ 20

-- The inner loop of `flush_iov`: the buffers that are left after `bytes` bytes, the first one cut
-- short. A buffer that is not used up takes all of `bytes`, so the loop ends there.
unfoldable pub advance : List Iovec → ℕ → List Iovec
advance [] bytes = []
advance (v ∷ ios) bytes =
    let len = min v.iov_len bytes in
    let rest = advance ios (sub64 bytes len) in
    if bytes == 0
    then v ∷ ios
    else if sub64 v.iov_len len == 0
    then rest
    else record v { iov_base = λ i. v.iov_base (i + len); iov_len = sub64 v.iov_len len } ∷ ios

-- The vector of `zero_splice`: the same zeroes again and again, and the position behind them.
unfoldable pub gather_zeroes : ℕ → PageAllocation → ℕ → ℕ → List Iovec × ℕ
gather_zeroes zero tmp size position = ([], position)
gather_zeroes (suc slots) tmp size position =
    let len = min tmp.size (sub64 size position) in
    let rest = gather_zeroes slots tmp size (add64 position len) in
    if ltb position size
    then (record { iov_base = tmp.ptr; iov_len = len } ∷ rest.0, rest.1)
    else ([], position)

-- The inner loop of `splice`: the vector of the blocks that follow one another from the position,
-- the position behind them, and the iterator.
unfoldable pub gather_blocks : ℕ → Blocks → ℕ → ℕ → Outcome (List Iovec × ℕ × Blocks)
gather_blocks zero m last position = done ([], position, m)
gather_blocks (suc slots) [] last position = done ([], position, [])
gather_blocks (suc slots) ((k, a) ∷ m) last position =
    let internal_size = min a.size (sub64 last position) in
    let v : Iovec = record { iov_base = a.ptr; iov_len = internal_size } in
    let position' = add64 position internal_size in
    let rest : Outcome (List Iovec × ℕ × Blocks) = do
      (ios, p, it) ← gather_blocks slots m last position'
      done (v ∷ ios, p, it)
    in assert (leb position k)
      >> (if ltb position k
          then done ([], position, (k, a) ∷ m)
          else if internal_size == 0
          then done ([], position, (k, a) ∷ m)
          else if position' == last
          then done (v ∷ [], position', (k, a) ∷ m)
          else rest)

-- How the part after the loop of `splice` ends: `splice` returns at once, or goes on from a position.
pub data Rest : Type 0 where
  returns : Option ℕ → Rest
  goes_on : ℕ → Rest

module _ (P : Pipe) (mmap : Bool → ℕ → Bool) where
  open P use {State, vmsplice, write}

  -- What `flush_iov` does with the result of a call on `ios`.
  unfoldable pub after_splice :
      (List Iovec → State → Outcome (Option ℕ × State))
      → List Iovec
      → Option ℕ × State
      → Outcome (Option ℕ × State)
  after_splice go ios (none, t) = done (none, t)
  after_splice go ios (some n, t) = go (advance ios n) t

  -- `flush_iov`, with fuel. It returns -1 (`none`) or 0.
  unfoldable pub flush_iov : ℕ → List Iovec → ℕ → State → Outcome (Option ℕ × State)
  flush_iov zero ios flags s = out_of_fuel
  flush_iov (suc fuel) [] flags s = done (some 0, s)
  flush_iov (suc fuel) (v ∷ ios) flags s =
      after_splice (λ rest t. flush_iov fuel rest flags t) (v ∷ ios) (vmsplice (v ∷ ios) flags s)

  -- A call makes progress by a byte at least.
  unfoldable pub flush : List Iovec → ℕ → State → Outcome (Option ℕ × State)
  flush ios flags s = flush_iov (suc (total ios)) ios flags s

  unfoldable pub zero_loop : ℕ → PageAllocation → ℕ → ℕ → ℕ → State → Outcome (Option ℕ × State)
  zero_loop zero tmp size flags position s = out_of_fuel
  zero_loop (suc fuel) tmp size flags position s = elim (ltb position size) [
    | false ↦ done (some position, s)
    | true ↦ do
      let g = gather_zeroes iov_max tmp size position
      assert (leb g.1 size)
      (ret, t) ← flush g.0 flags s
      elim ret [ none ↦ done (none, t) | some n ↦ zero_loop fuel tmp size flags g.1 t ]
  ]

  unfoldable pub zero_splice : ℕ → ℕ → State → Outcome (Option ℕ × State)
  zero_splice size flags s = do
    let allocation_size = min size max_allocation
    tmp ← page_allocation mmap allocation_size MemoryLock.none
    zero_loop (suc size) tmp size (bit_and flags (2 ^ 32 - 1 - splice_f_gift)) 0 s

  -- Zeroes for the gap before the block at `k`; the position behind it. A gap is a page multiple, so
  -- that its length is never -1 as an `ssize_t`.
  unfoldable pub splice_gap : ℕ → ℕ → ℕ → ℕ → State → Outcome (Option ℕ × State)
  splice_gap page_size k flags position s =
      let gap_length = sub64 k position in
      let filled : Outcome (Option ℕ × State) = do
        assert (is_page_multiple page_size gap_length)
        (ret, t) ← zero_splice gap_length flags s
        elim ret [ none ↦ done (none, t) | some n ↦ done (some (add64 position gap_length), t) ]
      in if ltb position k then filled else done (some position, s)

  -- One round of the loop of `splice`: -1, or the position and the iterator after it.
  unfoldable pub splice_round :
      ℕ → ℕ → Blocks → ℕ → ℕ → ℕ → State → Outcome (Option (ℕ × Blocks) × State)
  splice_round page_size k m last flags position s = do
    (gap, t) ← splice_gap page_size k flags position s
    elim gap [
      | none ↦ done (none, t)
      | some position' ↦ do
        (ios, p, it) ← gather_blocks iov_max m last position'
        (ret, u) ← flush ios flags t
        elim ret [ none ↦ done (none, u) | some n ↦ done (some (p, it), u) ]
    ]

  unfoldable pub splice_loop :
      ℕ → ℕ → Blocks → ℕ → ℕ → ℕ → State → Outcome (Option (ℕ × Blocks) × State)
  splice_loop zero page_size m last flags position s = out_of_fuel
  splice_loop (suc fuel) page_size [] last flags position s = done (some (position, []), s)
  splice_loop (suc fuel) page_size ((k, a) ∷ m) last flags position s = elim (ltb position last) [
    | false ↦ done (some (position, (k, a) ∷ m), s)
    | true ↦ do
      (ret, t) ← splice_round page_size k ((k, a) ∷ m) last flags position s
      elim ret [
        | none ↦ done (none, t)
        | some (p, it) ↦ splice_loop fuel page_size it last flags p t
      ]
  ]

  -- After the loop, if it stopped early. The zeroes are `last`, and not the gap, in number. As an
  -- `ssize_t` a number from 2 ^ 63 on is negative, and is returned at once.
  unfoldable pub splice_rest : ℕ → ℕ → ℕ → ℕ → State → Outcome (Rest × State)
  splice_rest page_size last position flags s =
      let filled : Outcome (Rest × State) = do
        assert (is_page_multiple page_size (sub64 last position))
        (ret, t) ← zero_splice last flags s
        elim ret [
          | none ↦ done (returns none, t)
          | some n ↦
              done (if ltb n (2 ^ 63) then goes_on (add64 position n) else returns (some n), t)
        ]
      in if ltb position last then filled else done (goes_on position, s)

  -- The `::write` of what is left in the block at `k`; its result is not looked at.
  unfoldable pub write_rest : ℕ → PageAllocation → ℕ → ℕ → ℕ → State → Outcome (Option ℕ × State)
  write_rest k a last size position s = do
    assert (leb k last)
    let internal_offset = sub64 last k
    assert (ltb (sub64 (add64 internal_offset size) last) a.size)
    done (
      some (add64 position (sub64 size last)),
      (write (λ i. a.ptr (i + internal_offset)) (sub64 size last) s).1,
    )

  -- The bytes after the last whole page, from the iterator's block or the one after it.
  unfoldable pub splice_tail : Blocks → ℕ → ℕ → ℕ → State → Outcome (Option ℕ × State)
  splice_tail [] last size position s = if ltb last size then aborts else done (some position, s)
  splice_tail ((k, a) ∷ []) last size position s =
      if ltb last size
      then if last == add64 k a.size then aborts else write_rest k a last size position s
      else done (some position, s)
  splice_tail ((k, a) ∷ (k', a') ∷ m) last size position s =
      if ltb last size
      then if last == add64 k a.size
        then write_rest k' a' last size position s
        else write_rest k a last size position s
      else done (some position, s)

  -- `splice` returns -1, or a number of bytes; one from 2 ^ 63 on stands for the negative number that
  -- it is as an `ssize_t`.
  unfoldable pub splice : PageBuffer → ℕ → State → Outcome (Option ℕ × State)
  splice b flags s = do
    let last = round_down_to_page b.page_size b.buffer_size
    (ret, t) ←
        splice_loop (suc (length b.page_allocations)) b.page_size b.page_allocations last flags 0 s
    elim ret [
      | none ↦ done (none, t)
      | some (p, it) ↦ do
        (rest, u) ← splice_rest b.page_size last p flags t
        elim rest [ returns r ↦ done (r, u) | goes_on q ↦ splice_tail it last b.buffer_size q u ]
    ]
