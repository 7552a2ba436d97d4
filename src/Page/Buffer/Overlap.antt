-- ===== src/Page/Buffer/Overlap.antt =====
-- A write that begins at a page within a block, where no block has its key.
use mathlib.Core.Path.{fun_ext}
use asymmetricfs.Prelude.{
  false, ◌==◌, [], ◌∷◌, drop, memcpy, add64, sub64, add64_lem, sub64_lem, ltb, inl, inr, Bool-cases,
  le→leb, ap, sym, ℕ, ◌+◌, ◌-◌, ◌≤◌, ◌<◌, ◌≡◌, refl, ◌∙◌, some, none, min, max, Memory, done, Bool,
  true, arith, u64_mod,
}
use asymmetricfs.Page.Allocation.{PageAllocation, map_locked}
use asymmetricfs.Page.Blocks.{Blocks, find, emplace, store, find_block}
use asymmetricfs.Page.Blocks.Content.{Apart}
use asymmetricfs.Page.Blocks.Position.{
  find-Leads, Leads-store, StartsAbove, drop-Leads, find_block-Leads,
}
use asymmetricfs.Page.Blocks.Update
use asymmetricfs.Page.Blocks.Update.{fresh}
use asymmetricfs.Page.Buffer.{
  PageBuffer, new_block_end, write, read, read_loop, read_block, fill_gap, copy_block, fill_tail,
  shrink_request, is_page_multiple, round_down_to_page,
}
use asymmetricfs.Page.Buffer.Rounding.{round_down_to_page_bounds}
use asymmetricfs.Page.Buffer.Invariant.{IsWellFormed, Aligned, is_page_multiple-le}
use asymmetricfs.Page.Buffer.Locating.{new_block_end_bounds, locate_block_new}
use asymmetricfs.Page.Buffer.Writing.{
  copied, written, write_round_first, write_loop_next, write_loop_done,
}

-- With no byte left to read, the blocks that follow give nothing.
nothing_copied : (m : ℕ) (bytes from : Memory) (start : ℕ) → memcpy bytes m from start 0 ≡ bytes
nothing_copied m bytes from start = fun_ext (λ i. ground arith)

-- A block that begins at or before the position has no gap before it.
read_block-eq :
    (k n at position : ℕ) (a : PageAllocation) (bytes : Memory)
    → k ≤ position + at
    → position + at < u64_mod
    → read_block k a n at (position, bytes) ≡ done (copy_block k a n at (position, bytes))
unfolding read_block fill_gap
read_block-eq k n at position a bytes h t =
    let sum : add64 position at ≡ position + at = add64_lem position at t in
    let near : ltb (position + at) k ≡ false = ground arith in
    rw (sum, near) (rw (sum, le→leb k (position + at) h) refl)

read_block_full :
    (k n at : ℕ) (a : PageAllocation) (bytes : Memory)
    → k < n + at
    → n + at < u64_mod
    → read_block k a n at (n, bytes) ≡ done (n, bytes)
unfolding copy_block
read_block_full k n at a bytes h t = read_block-eq k n at n a bytes (omega arith) t ∙ copied_none
  where
    start : ℕ
    start = sub64 (add64 n at) k

    copied_none : done (copy_block k a n at (n, bytes)) ≡ done (n, bytes)
    copied_none = elim (Bool-cases (ltb a.size start)) [
      | inl past ↦ rw past refl
      | inr within ↦
          let rest : sub64 n n ≡ 0 = sub64_lem n n (omega arith) (omega arith) ∙ omega arith in
          let none_left : min (sub64 a.size start) 0 ≡ 0 = omega arith in
          let still : add64 n 0 ≡ n = add64_lem n 0 (omega arith) ∙ omega arith in
          rw (within, rest, none_left, still)
            (ap (λ m. done (n, m)) (nothing_copied n bytes a.ptr start))
    ]

read_loop_full :
    (m : Blocks) (n at : ℕ) (bytes : Memory)
    → n + at < u64_mod
    → read_loop m n at (n, bytes) ≡ done (n, bytes)
unfolding read_loop
read_loop_full [] n at bytes t = refl
read_loop_full ((k, a) ∷ m) n at bytes t =
    let sum : add64 n at ≡ n + at = add64_lem n at t in
    elim (Bool-cases (ltb k (n + at))) [
      | inl more ↦
          rw (sum, more, read_loop)
            (rw (read_block_full k n at a bytes (ground arith) t) (read_loop_full m n at bytes t))
      | inr over ↦ rw (sum, over, read_loop) refl
    ]

read_block_first :
    (k n at : ℕ) (a : PageAllocation) (bytes : Memory)
    → k ≤ at
    → at + n ≤ k + a.size
    → k + a.size < u64_mod
    → read_block k a n at (0, bytes) ≡ done (n, memcpy bytes 0 a.ptr (at - k) n)
unfolding copy_block
read_block_first k n at a bytes h fits t =
    let sum : add64 0 at ≡ at = add64_lem 0 at (omega arith) ∙ omega arith in
    let start : sub64 at k ≡ at - k = sub64_lem at k h (omega arith) in
    let within : ltb a.size (at - k) ≡ false = ground arith in
    let rest : sub64 n 0 ≡ n = sub64_lem n 0 (omega arith) (omega arith) ∙ omega arith in
    let room : sub64 a.size (at - k) ≡ a.size - (at - k) =
      sub64_lem a.size (at - k) (omega arith) (omega arith) in
    let all : min (a.size - (at - k)) n ≡ n = omega arith in
    let end : add64 0 n ≡ n = add64_lem 0 n (omega arith) ∙ omega arith in
    read_block-eq k n at 0 a bytes (omega arith) (omega arith)
    ∙ rw (sum, start, within, rest, room, all, end) refl

-- A read within the first block that is found gives the bytes of the block.
read_first :
    (b : PageBuffer) (i key n at : ℕ) (a : PageAllocation) (rest : Blocks) (bytes : Memory)
    → find_block b.page_allocations (round_down_to_page b.page_size at) ≡ done i
    → drop i b.page_allocations ≡ (key, a) ∷ rest
    → key ≤ at
    → 0 < n
    → at + n ≤ key + a.size
    → key + a.size < u64_mod
    → at + n ≤ b.buffer_size
    → b.buffer_size < u64_mod
    → read b n at bytes ≡ done (n, memcpy bytes 0 a.ptr (at - key) n)
unfolding read read_loop shrink_request fill_tail
read_first b i key n at a rest bytes found here low h fits t inside small =
    let before : ltb at b.buffer_size ≡ true = ground arith in
    let rest_of_file : sub64 b.buffer_size at ≡ b.buffer_size - at =
      sub64_lem b.buffer_size at (omega arith) small in
    let whole : min n (b.buffer_size - at) ≡ n = omega arith in
    let sum : add64 n at ≡ n + at = add64_lem n at (omega arith) in
    let more : ltb key (n + at) ≡ true = ground arith in
    let full : ltb n n ≡ false = ground arith in
    rw (found, here, before, rest_of_file, whole)
      (rw (sum, more, read_loop)
        (rw (read_block_first key n at a bytes low fits t) (
          rw (read_loop_full rest n at (memcpy bytes 0 a.ptr (at - key) n) (omega arith))
            (rw (le→leb n n (omega arith), full) refl))))

-- The key of an entry is a page boundary.
find-Multiple :
    (p key : ℕ) (a : PageAllocation) (m : Blocks)
    → Aligned p m
    → find key m ≡ some a
    → is_page_multiple p key ≡ true
unfolding find
find-Multiple p key a [] w e = ground arith
find-Multiple p key a ((k, c) ∷ m) w e =
    ground (arith, find-Multiple p key a m w.2, Bool-cases (k == key), ap (is_page_multiple p))

Apart-StartsAbove : (low x : ℕ) (m : Blocks) → Apart low m → x < low → StartsAbove x m
Apart-StartsAbove low x [] w h = tt
Apart-StartsAbove low x ((k, a) ∷ m) w h = omega (arith, w.0)

-- A new block before all others.
StartsAbove-store :
    (low base size x : ℕ) (new : PageAllocation) (m : Blocks)
    → Apart low m
    → base < low
    → x < base
    → StartsAbove x (store base new (emplace base (fresh size) m))
unfolding store emplace
StartsAbove-store low base size x new [] w h t =
    let same : (base == base) ≡ true = ground arith in rw same t
StartsAbove-store low base size x new ((k, a) ∷ m) w h t =
    let same : (base == base) ≡ true = ground arith in
    let other : (k == base) ≡ false = ground (arith, w.0) in
    let before : ltb base k ≡ true = ground (arith, w.0) in rw (other, before, store) (rw same t)

-- A read within the entry, from before `base`, does not see a block that was put in at `base`.
read_before :
    (b : PageBuffer) (key n at base size grown : ℕ) (a new : PageAllocation) (bytes : Memory)
    → IsWellFormed b
    → find key b.page_allocations ≡ some a
    → key < base
    → base < key + a.size
    → b.buffer_size ≤ grown
    → grown < u64_mod
    → key ≤ at
    → at < base
    → 0 < n
    → at + n ≤ key + a.size
    → at + n ≤ b.buffer_size
    → read
        (record b {
          page_allocations = store base new (emplace base (fresh size) b.page_allocations);
          buffer_size = grown;
        })
        n
        at
        bytes
      ≡ read b n at bytes
read_before b key n at base size grown a new bytes v found below covers more top low early h fits
      inside =
    let m = b.page_allocations in
    let page = round_down_to_page b.page_size at in
    let (i, rest, l, behind) = find-Leads 0 key a m v.apart found in
    let l' = Leads-store i key base size a new rest m below l in
    let (_, some_bytes, end) = Update.find-Apart 0 key a m v.apart found in
    let boundary = find-Multiple b.page_size key a m v.aligned found in
    let from : key ≤ page =
      is_page_multiple-le b.page_size key at v.page (omega arith) boundary low in
    let (down, _, _) = round_down_to_page_bounds b.page_size at v.page (omega arith) in
    let above = Apart-StartsAbove (key + a.size) page rest behind (omega arith) in
    let above' =
      StartsAbove-store (key + a.size) base size page new rest behind covers (omega arith) in
    let old =
      read_first b i key n at a rest bytes (find_block-Leads i key page a rest m l from above)
        (drop-Leads i key a rest m l) low h fits end inside v.sized in
    let m' = store base new (emplace base (fresh size) m) in
    let rest' = store base new (emplace base (fresh size) rest) in
    let now =
      read_first (record b { page_allocations = m'; buffer_size = grown }) i key n at a rest' bytes
        (find_block-Leads i key page a rest' m' l' from above') (drop-Leads i key a rest' m' l') low
        h fits end (omega arith) top in
    now ∙ sym old

-- On a well-formed buffer, let a write of at least one byte begin at a page within a block, where
-- no block has its key, and let the new block there be near enough, granted, and long enough for
-- the write, all below 2 ^ 64 by a page. Then the write returns, and the size is the larger of the
-- old size and the write's end. A read of a byte or more within the old block and the old size,
-- which begins before the page of the write, gives after the write just what it gave before, also
-- where the bytes were written.
pub write_hidden :
    (mmap : Bool → ℕ → Bool) (b : PageBuffer) (n offset key : ℕ) (a : PageAllocation)
    (buffer : Memory)
    → let base = round_down_to_page b.page_size offset in
      let end = new_block_end b base n 0 in
      IsWellFormed b
      → find key b.page_allocations ≡ some a
      → key < base
      → base < key + a.size
      → find base b.page_allocations ≡ none
      → 0 < n
      → offset + n + b.page_size < u64_mod
      → end < base + n + b.page_size
      → offset + n ≤ end
      → mmap (map_locked b.mlock) (end - base) ≡ true
      → (b' : PageBuffer) × (write mmap b n offset buffer ≡ done b')
        × (b'.buffer_size ≡ max b.buffer_size (offset + n))
        × ((m at : ℕ) (bytes : Memory)
            → key ≤ at
            → at < base
            → 0 < m
            → at + m ≤ key + a.size
            → at + m ≤ b.buffer_size
            → read b' m at bytes ≡ read b m at bytes)
unfolding write
write_hidden mmap b n offset key a buffer v found below covers missing h t near fits granted =
    let base = round_down_to_page b.page_size offset in
    let end = new_block_end b base n 0 in
    let size = end - base in
    let (r1, r2, r3) = round_down_to_page_bounds b.page_size offset v.page (omega arith) in
    let (e1, e2, e3) = new_block_end_bounds b base n v h (omega arith) in
    let b1 = record b { page_allocations = emplace base (fresh size) b.page_allocations } in
    let located = locate_block_new mmap b base n v r3 missing h (omega arith) near granted in
    let b2 = written b1 (fresh size) base n offset buffer in
    let whole : min (base + size - offset) n ≡ n = omega arith in
    let round = rw whole at (
      write_round_first mmap b b1 (fresh size) n offset buffer located
        (Update.find-emplace_new base (fresh size) b.page_allocations missing) r1 (omega arith)
        (omega arith) (omega arith)) in
    (
      b2,
      write_loop_next mmap n n offset 0 n b b2 buffer h round
          ∙ write_loop_done mmap n n offset n b2 buffer (omega arith) h,
      refl,
      λ m at bytes low early some_bytes inner inside.
          read_before b key m at base size (max b.buffer_size (offset + n)) a
            (copied (fresh size) base n offset buffer) bytes v found below covers (omega arith)
            (omega (arith, v.sized)) low early some_bytes inner inside,
    )
