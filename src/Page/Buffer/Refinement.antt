-- ===== src/Page/Buffer/Refinement.antt =====
-- A page buffer implements a file of bytes.
use mathlib.Core.Path.{fun_ext}
use asymmetricfs.Prelude.{
  ℕ, ◌+◌, ◌≤◌, ◌<◌, ◌≡◌, refl, ◌∙◌, ◌⊎◌, inl, inr, [], ◌∷◌, some, take, Memory, done, ◌>>=◌, Bool,
  ltb, if◌then◌else◌, zero, suc, true, arith, u64_mod, Bool-cases,
}
use asymmetricfs.Page.Allocation.{PageAllocation}
use asymmetricfs.Page.Blocks.{Blocks, find, lower_bound}
use asymmetricfs.Page.Blocks.Content.{content}
use asymmetricfs.Page.Blocks.Update
use asymmetricfs.Page.Blocks.Update.{Uncovered}
use asymmetricfs.Page.ByteFile.{ByteFile, file_read, file_write, file_truncate}
use asymmetricfs.Page.Buffer.{PageBuffer, read, write, resize, free_blocks, starts_from}
use asymmetricfs.Page.Buffer.Reading.{read_lem}
use asymmetricfs.Page.Buffer.Invariant.{IsWellFormed, Aligned}
use asymmetricfs.Page.Buffer.Locating.{IsReady, block_end}
use asymmetricfs.Page.Buffer.Writing.{write-Writes}

abbrev pub view : PageBuffer → ByteFile
view b = record { size = b.buffer_size; byte = content b.page_allocations }

-- The blocks hold zeroes from the size on.
abbrev pub IsClean : PageBuffer → Type 0
IsClean b = (x : ℕ) → b.buffer_size ≤ x → content b.page_allocations x ≡ 0

-- On a well-formed buffer, for an offset below 2 ^ 64, read returns the count and the caller's
-- memory that a read of the file of bytes gives: the bytes from the offset, no further than the
-- size, zeroes where there is no block, and the rest of the caller's memory unchanged.
pub read-file_read :
    (b : PageBuffer) (n offset : ℕ) (buffer : Memory)
    → IsWellFormed b
    → offset < u64_mod
    → read b n offset buffer ≡ done (file_read (view b) n offset buffer)
read-file_read b n offset buffer v t =
    let (buffer', e, bytes) = read_lem b n offset buffer v.page v.apart v.sized t in
    rw (e, fun_ext bytes)

-- On a well-formed and clean buffer, a write of at least one byte that is ready (a block begins at
-- its page, or a new one can) and ends within that block, below 2 ^ 64 by a page, returns a buffer
-- whose view is the written file, and which is well-formed and clean again.
pub write-file_write :
    (mmap : Bool → ℕ → Bool) (b : PageBuffer) (n offset : ℕ) (buffer : Memory)
    → IsWellFormed b
    → IsClean b
    → IsReady mmap b n offset
    → 0 < n
    → offset + n + b.page_size < u64_mod
    → offset + n ≤ block_end b n offset
    → (b' : PageBuffer) × (write mmap b n offset buffer ≡ done b')
      × (view b' ≡ file_write (view b) n offset buffer)
      × IsWellFormed b'
      × IsClean b'
write-file_write mmap b n offset buffer v c ready h t fits =
    let (b', e, v', s, bytes) = write-Writes mmap b n offset buffer v ready h t fits in
    (
      b',
      e,
      λ i. record { size = s i; byte = fun_ext bytes i },
      v',
      λ x above. bytes x ∙ ground (arith, c x),
    )

lower_bound-starts_from : (n : ℕ) (m : Blocks) → starts_from m (lower_bound n m) n ≡ true
unfolding starts_from lower_bound
lower_bound-starts_from n [] = refl
lower_bound-starts_from n ((k, a) ∷ m) = ground (arith, lower_bound-starts_from n m)

take-Aligned : (p i : ℕ) (m : Blocks) → Aligned p m → Aligned p (take i m)
take-Aligned p zero m w = tt
take-Aligned p (suc i) [] w = tt
take-Aligned p (suc i) ((k, a) ∷ m) w = (w.0, w.1, take-Aligned p i m w.2)

-- The buffer after `resize`.
abbrev resized : PageBuffer → ℕ → PageBuffer
resized b n = record b {
  page_allocations =
      if ltb n b.buffer_size
      then take (lower_bound n b.page_allocations) b.page_allocations
      else b.page_allocations;
  buffer_size = n;
}

-- `resize` never fails its assertion.
resize-eq : (b : PageBuffer) (n : ℕ) → resize b n ≡ done (resized b n)
unfolding resize free_blocks
resize-eq b n = elim (Bool-cases (ltb n b.buffer_size)) [
  | inl less ↦ rw (less, lower_bound-starts_from n b.page_allocations)
  | inr more ↦ rw more
]

resized-IsWellFormed :
    (b : PageBuffer) (n : ℕ) → IsWellFormed b → n < u64_mod → IsWellFormed (resized b n)
resized-IsWellFormed b n v t = elim (Bool-cases (ltb n b.buffer_size)) [
  | inl less ↦ rw less (record {
    page = v.page;
    apart = Update.take-lower_bound-Apart 0 n b.page_allocations v.apart;
    aligned = take-Aligned b.page_size _ b.page_allocations v.aligned;
    sized = t;
  })
  | inr more ↦ rw more (record { page = v.page; apart = v.apart; aligned = v.aligned; sized = t })
]

resized_below :
    (b : PageBuffer) (n x : ℕ)
    → IsWellFormed b
    → x < n
    → content (resized b n).page_allocations x ≡ content b.page_allocations x
resized_below b n x v h =
    ground (arith, Update.content-take-lower_bound 0 n x b.page_allocations v.apart h)

-- On a well-formed buffer resize to any size below 2 ^ 64 returns a well-formed buffer with that
-- size and with the same bytes below it.
pub resize_lem :
    (b : PageBuffer) (n : ℕ)
    → IsWellFormed b
    → n < u64_mod
    → (b' : PageBuffer) × (resize b n ≡ done b')
      × IsWellFormed b'
      × (b'.buffer_size ≡ n)
      × ((x : ℕ) → x < n → content b'.page_allocations x ≡ content b.page_allocations x)
resize_lem b n v t =
    (resized b n, resize-eq b n, resized-IsWellFormed b n v t, refl, λ x h. resized_below b n x v h)

-- A cut at `n` splits no block: it frees nothing, or no block lies over `n`.
abbrev pub IsCut : PageBuffer → ℕ → Type 0
IsCut b n = (b.buffer_size ≤ n) ⊎ Uncovered n b.page_allocations

resized_above :
    (b : PageBuffer) (n x : ℕ)
    → IsWellFormed b
    → IsClean b
    → IsCut b n
    → n ≤ x
    → content (resized b n).page_allocations x ≡ 0
resized_above b n x v c (inl grows) h = ground (arith, c x)
resized_above b n x v c (inr u) h = elim (Bool-cases (ltb n b.buffer_size)) [
  | inl less ↦ rw less (Update.content-take-Uncovered 0 n x b.page_allocations v.apart u h)
  | inr more ↦ rw more (c x (ground arith))
]

-- On a well-formed and clean buffer, resize to a size below 2 ^ 64 that is not below the old size,
-- or over which no block lies, returns a buffer whose view is the truncated file, and which is
-- well-formed and clean again.
pub resize-file_truncate :
    (b : PageBuffer) (n : ℕ)
    → IsWellFormed b
    → IsClean b
    → IsCut b n
    → n < u64_mod
    → (b' : PageBuffer) × (resize b n ≡ done b')
      × (view b' ≡ file_truncate (view b) n)
      × IsWellFormed b'
      × IsClean b'
resize-file_truncate b n v c cut t =
    let bytes : (x : ℕ)
        → content (resized b n).page_allocations x
          ≡ (if ltb x n then content b.page_allocations x else 0) =
      λ x. ground (arith, resized_above b n x v c cut, resized_below b n x v) in
    (
      resized b n,
      resize-eq b n,
      λ i. record { size = n; byte = fun_ext bytes i },
      resized-IsWellFormed b n v t,
      λ x h. resized_above b n x v c cut h,
    )

-- On a well-formed buffer, let a first resize cut within a block that begins below the cut, below 2
-- ^ 64, and a second one grow over a byte of the block above the cut. Both return, and that byte is
-- what it was before the first.
pub resize_stale :
    (b : PageBuffer) (key n n' x : ℕ) (a : PageAllocation)
    → IsWellFormed b
    → find key b.page_allocations ≡ some a
    → key < n
    → n < u64_mod
    → n ≤ x
    → x < key + a.size
    → x < n'
    → (b' : PageBuffer) × ((resize b n >>= λ c. resize c n') ≡ done b')
      × (content b'.page_allocations x ≡ content b.page_allocations x)
resize_stale b key n n' x a v e h z j t u =
    let c = resized b n in
    let kept : content c.page_allocations x ≡ content b.page_allocations x =
      ground (arith, Update.content-take_within 0 n key x a b.page_allocations v.apart e h) in
    (
      resized c n',
      rw (resize-eq b n) (resize-eq c n'),
      resized_below c n' x (resized-IsWellFormed b n v z) u ∙ kept,
    )
