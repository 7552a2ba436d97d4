-- ===== src/Page/Buffer/Reading.antt =====
-- `read` returns what the blocks hold.
use asymmetricfs.Prelude.{
  ℕ, ◌+◌, ◌-◌, ◌≤◌, ◌<◌, ◌≡◌, refl, ◌⊎◌, inl, inr, [], ◌∷◌, min, Memory, in_range, Outcome, done,
  ltb, if◌then◌else◌, arith, u64_mod, add64, sub64, add64_lem, le→leb, lt→ltb, sub64_lem,
  Bool-cases, ◌>>=◌, memset, drop, ◌∙◌,
}
use asymmetricfs.Page.Allocation.{PageAllocation}
use asymmetricfs.Page.Blocks.{Blocks}
use asymmetricfs.Page.Blocks.Content.{content, Apart, content_below, find_block-Finds, drop-Apart}
use asymmetricfs.Page.Buffer.{
  PageBuffer, fill_gap, copy_block, read_block, read_loop, fill_tail, shrink_request, read,
  round_down_to_page,
}
use asymmetricfs.Page.Buffer.Rounding.{IsPageSize, round_down_to_page_bounds}
use asymmetricfs.Page.Blocks.{find_block}

fill_gap_lem :
    (k n offset position : ℕ) (buffer : Memory)
    → position ≤ n
    → k < n + offset
    → n + offset < u64_mod
    → let s = fill_gap k offset (position, buffer) in
      (position ≤ s.0)
      × (s.0 ≤ n)
      × (k ≤ s.0 + offset)
      × ((s.0 ≡ position) ⊎ (s.0 + offset ≡ k))
      × ((i : ℕ) → s.1 i ≡ (if in_range position s.0 i then 0 else buffer i))
unfolding fill_gap
fill_gap_lem k n offset position buffer h j t =
    let sum = add64_lem position offset (omega arith) in
    elim (Bool-cases (ltb (position + offset) k)) [
      | inl gap ↦
          let below : position + offset < k = ground arith in
          rw
            (
              sum,
              gap,
              sub64_lem k position (omega arith) (omega arith),
              sub64_lem (k - position) offset (omega arith) (omega arith),
              add64_lem position (k - position - offset) (omega arith),
            )
            (omega arith, omega arith, omega arith, inr (omega arith), λ i. ground arith)
      | inr touch ↦ rw (sum, touch) (omega arith, h, ground arith, inl refl, λ i. ground arith)
    ]

copy_block_lem :
    (k n offset position : ℕ) (a : PageAllocation) (buffer : Memory)
    → position ≤ n
    → k ≤ position + offset
    → n + offset < u64_mod
    → k + a.size < u64_mod
    → let s = copy_block k a n offset (position, buffer) in
      (position ≤ s.0)
      × (s.0 ≤ n)
      × ((s.0 ≡ position) ⊎ (s.0 + offset ≤ k + a.size))
      × ((s.0 ≡ n) ⊎ (k + a.size ≤ s.0 + offset))
      × ((i : ℕ) → s.1 i ≡ (if in_range position s.0 i then a.ptr (offset + i - k) else buffer i))
unfolding copy_block
copy_block_lem k n offset position a buffer h j t v =
    let io = position + offset - k in
    elim (Bool-cases (ltb a.size io)) [
      | inl past ↦
          rw (sum, inner, past) (omega arith, h, inl refl, inr (ground arith), λ i. ground arith)
      | inr over ↦
          let within : io ≤ a.size = ground arith in
          rw
            (
              sum,
              inner,
              over,
              sub64_lem a.size io within (omega arith),
              sub64_lem n position (omega arith) (omega arith),
              add64_lem position (min (a.size - io) (n - position)) (omega arith),
            )
            (omega arith, omega arith, inr (omega arith), omega arith, λ i. ground arith)
    ]
  where
    sum : add64 position offset ≡ position + offset
    sum = add64_lem position offset (omega arith)

    inner : sub64 (position + offset) k ≡ position + offset - k
    inner = sub64_lem (position + offset) k j (omega arith)

gap_then_copy :
    (k top offset p f c i byte old x y : ℕ)
    → y ≡ (if in_range p f i then 0 else old)
    → x ≡ (if in_range f c i then byte else y)
    → k ≤ f + offset
    → (f ≡ p) ⊎ (f + offset ≡ k)
    → (c ≡ f) ⊎ (c + offset ≤ top)
    → p ≤ f
    → f ≤ c
    → x ≡ (if in_range p c i then (if in_range k top (offset + i) then byte else 0) else old)
gap_then_copy k top offset p f c i byte old x y e1 e2 h1 h2 h3 h4 h5 = ground arith

read_block_lem :
    (k n offset position : ℕ) (a : PageAllocation) (buffer : Memory)
    → position ≤ n
    → k < n + offset
    → n + offset < u64_mod
    → k + a.size < u64_mod
    → (s : ℕ × Memory) × (read_block k a n offset (position, buffer) ≡ done s)
      × (position ≤ s.0)
      × (s.0 ≤ n)
      × ((s.0 ≡ n) ⊎ (k + a.size ≤ s.0 + offset))
      × ((s.0 + offset ≤ k) ⊎ (s.0 ≡ position) ⊎ (s.0 + offset ≤ k + a.size))
      × ((i : ℕ)
          → s.1 i ≡ (
              if in_range position s.0 i
              then (if in_range k (k + a.size) (offset + i) then a.ptr (offset + i - k) else 0)
              else buffer i))
unfolding read_block
read_block_lem k n offset position a buffer h j t v =
    let (f1, f2, f3, f4, f5) = fill_gap_lem k n offset position buffer h j t in
    let (c1, c2, c3, c4, c5) = copy_block_lem k n offset f.0 a f.1 f2 f3 t v in
    (
      c,
      rw (add64_lem f.0 offset (omega arith), le→leb k (f.0 + offset) f3),
      omega arith,
      c2,
      c4,
      ground arith,
      λ i.
          gap_then_copy k (k + a.size) offset position f.0 c.0 i _ _ _ _ (f5 i) (c5 i) f3 f4 c3 f1
            c1,
    )
  where
    f : ℕ × Memory
    f = fill_gap k offset (position, buffer)

    c : ℕ × Memory
    c = copy_block k a n offset f

-- The loop stops at some position up to `n`. Up to there it has copied what the blocks hold, above
-- it they hold zeroes, and the rest of the caller's memory is as it was.
abbrev Reads : Blocks → ℕ → ℕ → ℕ → Memory → Outcome (ℕ × Memory) → Type 0
Reads m n offset position buffer r =
    (s : ℕ × Memory) × (r ≡ done s)
    × (position ≤ s.0)
    × (s.0 ≤ n)
    × ((i : ℕ) → s.0 ≤ i → i < n → content m (offset + i) ≡ 0)
    × ((i : ℕ) → s.1 i ≡ (if in_range position s.0 i then content m (offset + i) else buffer i))

extend_bytes :
    (k top offset n p c q i byte below old x y : ℕ)
    → x ≡ (if in_range p c i then (if in_range k top (offset + i) then byte else 0) else old)
    → y ≡ (if in_range c q i then below else x)
    → (offset + i < top → below ≡ 0)
    → (c ≡ n) ⊎ (top ≤ c + offset)
    → (c + offset ≤ k) ⊎ (c ≡ p) ⊎ (c + offset ≤ top)
    → p ≤ c
    → c ≤ q
    → q ≤ n
    → k < top
    → y ≡ (if in_range p q i then (if in_range k top (offset + i) then byte else below) else old)
extend_bytes k top offset n p c q i byte below old x y e1 e2 low h1 h2 h3 h4 h5 h6 = ground arith

-- A block before a loop.
extend-Reads :
    (low n offset position k : ℕ) (a : PageAllocation) (m : Blocks) (buffer : Memory)
    → Apart low ((k, a) ∷ m)
    → k < n + offset
    → n + offset < u64_mod
    → (c : ℕ × Memory) → read_block k a n offset (position, buffer) ≡ done c
    → position ≤ c.0
    → (c.0 ≡ n) ⊎ (k + a.size ≤ c.0 + offset)
    → (c.0 + offset ≤ k) ⊎ (c.0 ≡ position) ⊎ (c.0 + offset ≤ k + a.size)
    → ((i : ℕ)
        → c.1 i ≡ (
            if in_range position c.0 i
            then (if in_range k (k + a.size) (offset + i) then a.ptr (offset + i - k) else 0)
            else buffer i))
    → Reads m n offset c.0 c.1 (read_loop m n offset c)
    → Reads
        ((k, a) ∷ m)
        n
        offset
        position
        buffer
        (read_loop ((k, a) ∷ m) n offset (position, buffer))
unfolding read_loop content
extend-Reads low n offset position k a m buffer w j t c e0 h1 h2 h3 h4 (s, e, s1, s2, s3, s4) = (
  s,
  rw (add64_lem n offset t, lt→ltb k (n + offset) j, e0, read_loop) e,
  omega arith,
  s2,
  λ i p q. ground (arith, s3 i p q),
  λ i.
      extend_bytes k (k + a.size) offset n position c.0 s.0 i _ _ _ _ _ (h4 i) (s4 i)
        (content_below (k + a.size) (offset + i) m w.3) h2 h3 h1 s1 s2 (omega arith),
)

read_loop-Reads :
    (low n offset position : ℕ) (m : Blocks) (buffer : Memory)
    → Apart low m
    → position ≤ n
    → n + offset < u64_mod
    → Reads m n offset position buffer (read_loop m n offset (position, buffer))
unfolding read_loop content
read_loop-Reads low n offset position [] buffer w h t =
    ((position, buffer), refl, omega arith, h, λ i _ _. refl, λ i. ground arith)
read_loop-Reads low n offset position ((k, a) ∷ m) buffer w h t =
    elim (Bool-cases (ltb k (n + offset))) [
      | inl more ↦
          let j : k < n + offset = ground arith in
          let (c, done_c, c1, c2, c3, c4, c5) =
            read_block_lem k n offset position a buffer h j t w.2 in
          extend-Reads low n offset position k a m buffer w j t c done_c c1 c3 c4 c5
            (read_loop-Reads (k + a.size) n offset c.0 m c.1 w.3 c2 t)
      | inr stop ↦ (
        (position, buffer),
        rw (add64_lem n offset t, stop, read_loop),
        omega arith,
        h,
        λ i p q. ground (arith, content_below (k + a.size) (offset + i) m w.3),
        λ i. ground arith,
      )
    ]

-- The bytes that a read of `n` bytes at `offset` returns.
abbrev pub bytes_read : PageBuffer → ℕ → ℕ → ℕ
bytes_read b n offset = min n (b.buffer_size - offset)

pub shrink_request_lem :
    (b : PageBuffer) (n offset : ℕ)
    → b.buffer_size < u64_mod
    → shrink_request b n offset ≡ bytes_read b n offset
unfolding shrink_request
shrink_request_lem b n offset h = ground (arith, sub64_lem b.buffer_size offset)

fill_tail_lem :
    (n position : ℕ) (buffer : Memory)
    → position ≤ n
    → n < u64_mod
    → (buffer' : Memory) × (fill_tail n (position, buffer) ≡ done (n, buffer'))
      × ((i : ℕ) → buffer' i ≡ (if in_range position n i then 0 else buffer i))
unfolding fill_tail
fill_tail_lem n position buffer h t = elim (Bool-cases (ltb position n)) [
  | inl more ↦ (
    memset buffer position 0 (n - position),
    rw (le→leb position n h, more, sub64_lem n position h t),
    λ i. ground arith,
  )
  | inr full ↦
      let e : position ≡ n = ground arith in
      (buffer, rw (le→leb position n h, full, e), λ i. ground arith)
]

-- What `read` has to bring about, for a request of `n` bytes that can be served whole.
abbrev Serves : Blocks → ℕ → ℕ → Memory → Outcome (ℕ × Memory) → Type 0
Serves m n offset buffer r =
    (buffer' : Memory) × (r ≡ done (n, buffer'))
    × ((i : ℕ) → buffer' i ≡ (if ltb i n then content m (offset + i) else buffer i))

tail_bytes :
    (p n i byte old x y : ℕ)
    → x ≡ (if in_range 0 p i then byte else old)
    → y ≡ (if in_range p n i then 0 else x)
    → (p ≤ i → i < n → byte ≡ 0)
    → p ≤ n
    → y ≡ (if ltb i n then byte else old)
tail_bytes p n i byte old x y e1 e2 z h = ground arith

-- The tail after the loop.
Reads-Serves :
    (n offset : ℕ) (m : Blocks) (buffer : Memory) (r : Outcome (ℕ × Memory))
    → n < u64_mod
    → Reads m n offset 0 buffer r
    → Serves m n offset buffer (r >>= fill_tail n)
Reads-Serves n offset m buffer r t (s, e, s1, s2, s3, s4) =
    let (buffer', e', b) = fill_tail_lem n s.0 s.1 s2 t in
    (buffer', rw e e', λ i. tail_bytes s.0 n i _ _ _ _ (s4 i) (b i) (s3 i) s2)

read-eq :
    (b : PageBuffer) (n n' offset it : ℕ) (buffer : Memory)
    → shrink_request b n offset ≡ n'
    → find_block b.page_allocations (round_down_to_page b.page_size offset) ≡ done it
    → read b n offset buffer
      ≡ (read_loop (drop it b.page_allocations) n' offset (0, buffer) >>= fill_tail n')
unfolding read
read-eq b n n' offset it buffer whole found = rw (whole, found)

Serves-same :
    (rest m : Blocks) (n offset : ℕ) (buffer : Memory) (r : Outcome (ℕ × Memory))
    → ((x : ℕ) → offset ≤ x → content rest x ≡ content m x)
    → Serves rest n offset buffer r
    → Serves m n offset buffer r
Serves-same rest m n offset buffer r same (buffer', e, c) =
    (buffer', e, λ i. c i ∙ rw (same (offset + i) (omega arith)))

-- A read serves what lies below the size: the caller gets that many bytes of the blocks, with
-- zeroes where there is no block, and the rest of the caller's memory stays.
pub read_lem :
    (b : PageBuffer) (n offset : ℕ) (buffer : Memory)
    → IsPageSize b.page_size
    → Apart 0 b.page_allocations
    → b.buffer_size < u64_mod
    → offset < u64_mod
    → (buffer' : Memory) × (read b n offset buffer ≡ done (bytes_read b n offset, buffer'))
      × ((i : ℕ)
          → buffer' i ≡ (
              if ltb i (bytes_read b n offset)
              then content b.page_allocations (offset + i)
              else buffer i))
read_lem b n offset buffer p w h t =
    let base = round_down_to_page b.page_size offset in
    let (it, found, same) = find_block-Finds 0 base b.page_allocations w in
    let rest = drop it b.page_allocations in
    rw (read-eq b n _ offset it buffer (shrink_request_lem b n offset h) found) (
      Serves-same rest b.page_allocations (bytes_read b n offset) offset buffer _
        (λ x j. same x (omega (arith, (round_down_to_page_bounds b.page_size offset p t).0)))
        (Reads-Serves (bytes_read b n offset) offset rest buffer _ (omega arith) (
          read_loop-Reads 0 (bytes_read b n offset) offset 0 rest buffer (drop-Apart 0 it _ w)
            (omega arith) (omega arith))))
