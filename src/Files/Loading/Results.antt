-- ===== src/Files/Loading/Results.antt =====
-- What `load_buffer` leaves as it was, and when the buffer is the file.
use asymmetricfs.Prelude.{
  ℕ, zero, suc, ◌<◌, ◌≡◌, refl, Bool, true, ◌&&◌, ◌==◌, assert, IfDone, then-IfDone, bind-IfDone,
  if-IfDone, Memory, ℤ, pos, is_zero, ltb, sub64, arith,
}
use asymmetricfs.Page.Buffer.{PageBuffer}
use asymmetricfs.Kernel.{Kernel, Sys, ok, error, Stat}
use asymmetricfs.Files.{Options, Internal}
use asymmetricfs.Files.Loading.{
  Decrypted, Loaded, after_gpg, load_block, load_loop, unmap, load_mapped, load_stat, load_buffer,
  block_end,
}
use asymmetricfs.Files.Loading.Blocks.{cleared}

-- The fields of an open file that the table and the other operations rely on are the same.
abbrev pub IsSameFile : Internal → Internal → Type 0
IsSameFile d d' =
    (d'.fd ≡ d.fd)
    × (d'.flags ≡ d.flags)
    × (d'.references ≡ d.references)
    × (d'.path ≡ d.path)
    × (d'.is_open ≡ d.is_open)

abbrev itself : (d : Internal) → IsSameFile d d
itself d = (refl, refl, refl, refl, refl)

abbrev pub IsSame : {S : Type 0} → Internal → ℤ × Internal × S → Type 0
IsSame d (ret, d', t) = IsSameFile d d'

-- The result 0 stands for a buffer that is the file.
abbrev SetsBuffer : {S : Type 0} → Bool × ℤ × PageBuffer × S → Type 0
SetsBuffer (buffer_set, ret, b, s) = ret ≡ pos 0 → buffer_set ≡ true

abbrev pub HasBuffer : {S : Type 0} → ℤ × Internal × S → Type 0
HasBuffer (ret, d', t) = ret ≡ pos 0 → d'.buffer_set ≡ true

-- `errno` after a failure is not 0.
pub record HasErrno (K : Kernel) : Type 0 where
  pub stat : (fd e : ℕ) (s t : K.State) → K.fstat fd s ≡ (error e, t) → 0 < e
  pub map_file : (fd size e : ℕ) (s t : K.State) → K.map_file fd size s ≡ (error e, t) → 0 < e

module _ (K : Kernel) (fuel : ℕ) (options : Options) where
  open K use {State}

  load_mapped-IsSame :
      (d : Internal) (size : ℕ) (o : Sys Memory × State)
      → IfDone (λ l. IsSame d l) (load_mapped K fuel options d size o)
  unfolding load_mapped unmap
  load_mapped-IsSame d size (error e, s) = itself d
  load_mapped-IsSame d size (ok m, s) =
      then-IfDone (λ l. IsSame d l) _ (unmap K d m size) (λ r. itself d)

  load_stat-IsSame :
      (d : Internal) (o : Sys Stat × State)
      → IfDone (λ l. IsSame d l) (load_stat K fuel options d o)
  unfolding load_stat
  load_stat-IsSame d (error e, s) = itself d
  load_stat-IsSame d (ok st, s) =
      if-IfDone (λ l. IsSame d l) (st.st_size == 0) _ _ (λ empty. itself d)
        (λ more. load_mapped-IsSame d st.st_size _)

  -- `load_buffer` changes the buffer and its two flags only.
  pub load_buffer-IsSame :
      (d : Internal) (s : State) → IfDone (λ l. IsSame d l) (load_buffer K fuel options d s)
  unfolding load_buffer
  load_buffer-IsSame d s =
      if-IfDone (λ l. IsSame d l) d.buffer_set _ _ (λ loaded. itself d)
        (λ unset.
          then-IfDone (λ l. IsSame d l) (assert d.is_open) _ (λ u. load_stat-IsSame (cleared d) _))

  after_gpg-SetsBuffer :
      (loop : ℤ → PageBuffer → State → Loaded K) (r : Decrypted K)
      → ((ret : ℤ) (b : PageBuffer) (s : State) → IfDone (λ l. SetsBuffer l) (loop ret b s))
      → IfDone (λ l. SetsBuffer l) (after_gpg K loop r)
  unfolding after_gpg
  after_gpg-SetsBuffer loop (status, ret, b, s) h =
      if-IfDone (λ l. SetsBuffer l) (is_zero status) _ _ (λ success. h ret b s)
        (λ failure e. ground (arith, e))

  load_block-SetsBuffer :
      (fd : ℕ) (m : Memory) (size : ℕ) (loop : ℤ → PageBuffer → State → Loaded K)
      (offset new_offset : ℕ) (ret : ℤ) (b : PageBuffer) (s : State)
      → ((ret : ℤ) (b : PageBuffer) (s : State) → IfDone (λ l. SetsBuffer l) (loop ret b s))
      → IfDone
          (λ l. SetsBuffer l)
          (load_block K fuel options fd m size loop offset new_offset ret b s)
  unfolding load_block
  load_block-SetsBuffer fd m size loop offset new_offset ret b s h =
      let after = after_gpg-SetsBuffer loop in
      if-IfDone (λ l. SetsBuffer l) (offset == 0 && new_offset == size) _ _
        (λ whole. then-IfDone (λ l. SetsBuffer l) _ (after_gpg K loop) (λ r. after r h))
        (λ part.
          if-IfDone (λ l. SetsBuffer l) (sub64 new_offset offset == 0) _ _ (λ rest e. refl)
            (λ more. then-IfDone (λ l. SetsBuffer l) _ (after_gpg K loop) (λ r. after r h)))

  load_loop-SetsBuffer :
      (rounds fd : ℕ) (m : Memory) (size offset : ℕ) (ret : ℤ) (b : PageBuffer) (s : State)
      → IfDone (λ l. SetsBuffer l) (load_loop K rounds fuel options fd m size offset ret b s)
  unfolding load_loop
  load_loop-SetsBuffer zero fd m size offset ret b s = tt
  load_loop-SetsBuffer (suc rounds) fd m size offset ret b s =
      if-IfDone (λ l. SetsBuffer l) (ltb offset size) _ _
        (λ more.
          then-IfDone (λ l. SetsBuffer l) (block_end m size offset) _
            (λ new_offset.
              load_block-SetsBuffer fd m size (load_loop K rounds fuel options fd m size new_offset)
                offset new_offset ret b s (load_loop-SetsBuffer rounds fd m size new_offset)))
        (λ at_end e. refl)

  load_mapped-HasBuffer :
      (d : Internal) (size : ℕ) (o : Sys Memory × State)
      → ((e : ℕ) (t : State) → o ≡ (error e, t) → 0 < e)
      → IfDone (λ l. HasBuffer l) (load_mapped K fuel options d size o)
  unfolding load_mapped unmap
  load_mapped-HasBuffer d size (error e, s) h = λ p. ground (arith, h e s refl, p)
  load_mapped-HasBuffer d size (ok m, s) h =
      bind-IfDone (λ l. HasBuffer l) (λ l. SetsBuffer l) _ (unmap K d m size)
        (load_loop-SetsBuffer (suc size) d.fd m size 0 (pos 0) d.buffer s) (λ r set. set)

  load_stat-HasBuffer :
      (d : Internal) (o : Sys Stat × State)
      → HasErrno K
      → ((e : ℕ) (t : State) → o ≡ (error e, t) → 0 < e)
      → IfDone (λ l. HasBuffer l) (load_stat K fuel options d o)
  unfolding load_stat
  load_stat-HasBuffer d (error e, s) errnos h = λ p. ground (arith, h e s refl, p)
  load_stat-HasBuffer d (ok st, s) errnos h =
      if-IfDone (λ l. HasBuffer l) (st.st_size == 0) _ _ (λ empty e. refl)
        (λ more.
          load_mapped-HasBuffer d st.st_size _ (λ e t. errnos.map_file d.fd st.st_size e s t))

  -- If `load_buffer` returns 0, the buffer is set.
  pub load_buffer-HasBuffer :
      (d : Internal) (s : State)
      → HasErrno K
      → IfDone (λ l. HasBuffer l) (load_buffer K fuel options d s)
  unfolding load_buffer
  load_buffer-HasBuffer d s errnos =
      if-IfDone (λ l. HasBuffer l) d.buffer_set _ _ (λ loaded e. loaded)
        (λ unset.
          then-IfDone (λ l. HasBuffer l) (assert d.is_open) _
            (λ u. load_stat-HasBuffer (cleared d) _ errnos (λ e t. errnos.stat d.fd e s t)))
