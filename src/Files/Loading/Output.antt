-- ===== src/Files/Loading/Output.antt =====
-- What the buffer holds after `load_buffer` of a file that is one block of gpg: the output of gpg.
use asymmetricfs.Prelude.{
  ℕ, zero, suc, ◌+◌, ◌-◌, ◌<◌, ◌≡◌, refl, sym, subst, ap, ◌∙◌, ◌⊎◌, inl, inr, true, false, none,
  done, ◌>>=◌, ◌==◌, ltb, in_range, if◌then◌else◌, Memory, zeroes, ℤ, arith, u64_mod, sub64,
  sub64_lem, Bool-cases,
}
use asymmetricfs.Page.Blocks.Content.{content}
use asymmetricfs.Page.Buffer
use asymmetricfs.Page.Buffer.{PageBuffer, is_page_multiple}
use asymmetricfs.Page.Buffer.Invariant.{IsWellFormed, is_page_multiple-add}
use asymmetricfs.Page.Buffer.Refinement.{IsClean}
use asymmetricfs.Page.Buffer.Appending.{IsAppendable, Appends, write-Appends}
use asymmetricfs.Kernel.{Kernel}
use asymmetricfs.Subprocess.{Subprocess}
use asymmetricfs.Subprocess.Communicate.{communicate}
use asymmetricfs.Subprocess.Output.{IsSource, Has, reading, communicate-Has}
use asymmetricfs.Files.Loading.{Transfer, chunk_size, receive, received, Received, bytes_from}

-- What the loop changes, for a gpg that gets the file itself.
abbrev pub transfer : Memory → PageBuffer → Subprocess → Transfer
transfer m b p = record {
  write_buffer = none;
  write_size = 0;
  receive_buffer = m;
  buffer = b;
  child = p;
}

-- The buffer holds the first `n` of the bytes.
abbrev pub Holds : Memory → ℕ → PageBuffer → Type 0
Holds bytes n b =
    (b.buffer_size ≡ n)
    × ((x : ℕ) → x < n → content b.page_allocations x ≡ bytes x)
    × IsWellFormed b
    × IsClean b

module _ (K : Kernel) (p : Subprocess) (size : ℕ) (bytes : Memory)
    (source : IsSource K p.out_fd size bytes) where
  open K use {State}
  open source use {taken}

  -- The loop has received all, and nothing else of the transfer has changed.
  abbrev pub Receives : ℤ → Received K → Type 0
  Receives ret o =
      (m : Memory) × (b : PageBuffer) × (t : State) × (o ≡ done (ret, transfer m b p, t))
      × Holds bytes size b

  Appends-Holds :
      (b b' : PageBuffer) (r : ℕ) (m : Memory) (s t : State) (able : IsAppendable K.mmap b)
      (some_bytes : 0 < r) (room : b.buffer_size + r + b.page_size < u64_mod)
      → Holds bytes (taken s) b
      → Has K p size bytes source (taken s) m r t
      → Appends K.mmap b r m able some_bytes room b'
      → Holds bytes (taken t) b'
  Appends-Holds b b' r m s t able some_bytes room (sized, held, v, c) (at, new)
        (grows, written, page, v', c', next) =
      (
        omega arith,
        λ x h. elim (Bool-cases (ltb x b.buffer_size)) [
          | inl before ↦ written x ∙ ground (arith, before, held x)
          | inr after ↦
              let inside : in_range b.buffer_size (b.buffer_size + r) x ≡ true = ground arith in
              let place : taken s + (x - b.buffer_size) ≡ x = ground arith in
              written x ∙ rw inside (new (x - b.buffer_size) (ground arith) ∙ ap bytes place)
        ],
        v',
        c',
      )

  receive_round :
      (fuel : ℕ) (m mem mem' : Memory) (ret : ℤ) (b : PageBuffer) (r l : ℕ) (s t : State)
      → communicate K (suc (chunk_size + 0)) mem chunk_size (bytes_from m none) 0 p s
        ≡ done (0, reading mem' r l, p, t)
      → receive K (suc fuel) m ret (transfer mem b p) s ≡ (
          if chunk_size == l
          then done (ret, transfer mem b p, t)
          else Buffer.write K.mmap b (sub64 chunk_size l) (Buffer.size b) mem' >>= λ b'.
              receive K fuel m ret (transfer mem' b' p) t)
  unfolding receive received
  receive_round fuel m mem mem' ret b r l s t e = rw e refl

  -- More can be appended, or nothing is left.
  abbrev GoesOn : PageBuffer → State → Type 0
  GoesOn b s =
      (taken s ≡ size) ⊎ (IsAppendable K.mmap b × (is_page_multiple b.page_size chunk_size ≡ true))

  next_GoesOn :
      (b b' : PageBuffer) (r l : ℕ) (m : Memory) (t : State) (able : IsAppendable K.mmap b)
      (some_bytes : 0 < r) (room : b.buffer_size + r + b.page_size < u64_mod)
      → is_page_multiple b.page_size chunk_size ≡ true
      → r + l ≡ chunk_size
      → (0 < l → taken t ≡ size)
      → Appends K.mmap b r m able some_bytes room b'
      → GoesOn b' t
  next_GoesOn b b' r l m t able some_bytes room pages sum ended
        (grows, written, page, v', c', next) =
      elim (Bool-cases (l == 0)) [
        | inr last ↦ inl (ended (ground arith))
        | inl full ↦
            let all : r ≡ chunk_size = ground arith in
            inr (
              next (
                  is_page_multiple-add b.page_size b.buffer_size r able.formed.page (omega arith)
                    able.whole (rw all pages)),
              rw page pages,
            )
      ]

  receive_next :
      (fuel : ℕ) (m mem mem' : Memory) (ret : ℤ) (b b' : PageBuffer) (r l : ℕ) (s t : State)
      → communicate K (suc (chunk_size + 0)) mem chunk_size (bytes_from m none) 0 p s
        ≡ done (0, reading mem' r l, p, t)
      → r + l ≡ chunk_size
      → (chunk_size == l) ≡ false
      → Buffer.write K.mmap b r b.buffer_size mem' ≡ done b'
      → receive K (suc fuel) m ret (transfer mem b p) s
        ≡ receive K fuel m ret (transfer mem' b' p) t
  unfolding Buffer.size
  receive_next fuel m mem mem' ret b b' r l s t e sum more w =
      let count : sub64 chunk_size l ≡ r =
        sub64_lem chunk_size l (omega arith) (omega arith) ∙ omega arith in
      receive_round fuel m mem mem' ret b r l s t e ∙ rw (more, count, w) refl

  still_able :
      (b : PageBuffer) (s t : State) (r : ℕ)
      → GoesOn b s
      → taken t ≡ taken s + r
      → 0 < r
      → IsAppendable K.mmap b × (is_page_multiple b.page_size chunk_size ≡ true)
  still_able b s t r (inl all) moved h = absurd (omega (arith, source.within t))
  still_able b s t r (inr able) moved h = able

  receive-Receives :
      (fuel : ℕ) (m mem : Memory) (ret : ℤ) (b : PageBuffer) (s : State)
      → Holds bytes (taken s) b
      → GoesOn b s
      → size + b.page_size < u64_mod
      → size < taken s + fuel
      → Receives ret (receive K fuel m ret (transfer mem b p) s)
  receive-Receives zero m mem ret b s holds on h f = absurd (omega (arith, source.within s))
  receive-Receives (suc fuel) m mem ret b s holds on h f =
      let (mem', r, l, t, e, has, sum, ended) =
        communicate-Has K p size bytes source mem (bytes_from m none) chunk_size s (omega arith) in
      let round = receive_round fuel m mem mem' ret b r l s t e in
      elim (Bool-cases (chunk_size == l)) [
        | inl over ↦
            let all : taken t ≡ size = ended (ground arith) in
            let same : taken s ≡ size = ground (arith, has.0) in
            rw (round, over) (mem, b, t, refl, subst (λ n. Holds bytes n b) same holds)
        | inr more ↦
            let some_bytes : 0 < r = ground arith in
            let (able, pages) = still_able b s t r on has.0 some_bytes in
            let room : b.buffer_size + r + b.page_size < u64_mod =
              omega (arith, source.within t, has.0, holds.0) in
            let (b', w, appends) = write-Appends K.mmap b r mem' able some_bytes room in
            let page = appends.2 in
            let holds' = Appends-Holds b b' r mem' s t able some_bytes room holds has appends in
            let on' = next_GoesOn b b' r l mem' t able some_bytes room pages sum ended appends in
            subst (λ o. Receives ret o)
              (sym (receive_next fuel m mem mem' ret b b' r l s t e sum more w))
              (receive-Receives fuel m mem' ret b' t holds' on' (omega arith)
                (omega (arith, has.0)))
      ]

  -- From an empty buffer on, the loop receives all.
  pub receive-all :
      (fuel : ℕ) (m : Memory) (ret : ℤ) (b : PageBuffer) (s : State)
      → taken s ≡ 0
      → Holds bytes 0 b
      → IsAppendable K.mmap b
      → is_page_multiple b.page_size chunk_size ≡ true
      → size + b.page_size < u64_mod
      → size < fuel
      → Receives ret (receive K fuel m ret (transfer zeroes b p) s)
  receive-all fuel m ret b s none_taken holds able pages h f =
      receive-Receives fuel m zeroes ret b s (rw none_taken holds) (inr (able, pages)) h
        (omega arith)
