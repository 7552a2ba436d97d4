-- ===== src/Files/Loading.antt =====
-- `internal::load_buffer`: the blocks of gpg in a file, each decrypted by a gpg of its own.
pub mod Terminator
pub mod Blocks
pub mod Results
pub mod Output
pub mod Whole
mod Tests
use Prim.Native.String.{String}
use asymmetricfs.Prelude.{
  ℕ, zero, suc, ◌+◌, ◌^◌, Bool, true, false, ◌&&◌, not, List, [], ◌∷◌, Option, none, some, Outcome,
  done, aborts, out_of_fuel, assert, ◌>>=◌, ◌>>◌, ◌==◌, leb, ltb, if◌then◌else◌, Memory, zeroes, ℤ,
  pos, neg, is_zero, add64, sub64,
}
use asymmetricfs.Page.Buffer
use asymmetricfs.Page.Buffer.{PageBuffer}
use asymmetricfs.Kernel.{Sys, ok, error, Stat, Kernel, eio}
use asymmetricfs.Subprocess.{Subprocess, subprocess, wait, destroy_subprocess}
use asymmetricfs.Subprocess.Communicate.{Exchange, communicate}
use asymmetricfs.Files.{Options, Internal}

-- "-----END PGP MESSAGE-----\n"
abbrev pub terminator : List ℕ
terminator =
    45 ∷ 45 ∷ 45 ∷ 45 ∷ 45 ∷ 69 ∷ 78 ∷ 68 ∷ 32 ∷ 80 ∷ 71 ∷ 80 ∷ 32 ∷ 77 ∷ 69 ∷ 83 ∷ 83 ∷ 65 ∷ 71
    ∷ 69 ∷ 45 ∷ 45 ∷ 45 ∷ 45 ∷ 45 ∷ 10 ∷ []

abbrev pub terminator_size : ℕ
terminator_size = 26

-- `memcmp(bytes, m + at, n) == 0` for the `n` bytes of the list.
abbrev pub matches : List ℕ → Memory → ℕ → Bool
matches [] m at = true
matches (b ∷ bs) m at = (m at == b) && matches bs m (suc at)

-- The loop that looks for the terminator, with fuel. `memcmp` needs all its bytes: if they go past
-- the end of the file the program is killed, or at the latest fails the assertion on `new_offset`.
unfoldable pub find_terminator : ℕ → Memory → ℕ → ℕ → Outcome ℕ
find_terminator zero m size at = out_of_fuel
find_terminator (suc fuel) m size at =
    let rest = find_terminator fuel m size (add64 at 1) in
    if not (leb at (sub64 size terminator_size))
    then done at
    else if ltb size (at + terminator_size)
    then aborts
    else if matches terminator m at
    then done (add64 at terminator_size)
    else rest

-- Where the block that begins at `offset` ends. A round for each byte and one more is enough.
unfoldable pub block_end : Memory → ℕ → ℕ → Outcome ℕ
block_end m size offset = do
  new_offset ← find_terminator (suc size) m size offset
  assert (leb offset new_offset)
  assert (leb new_offset size)
  done new_offset

abbrev pub decrypt_args : List String
decrypt_args = "gpg" ∷ "-d" ∷ "--no-tty" ∷ "--batch" ∷ []

abbrev pub chunk_size : ℕ
chunk_size = 2 ^ 20

-- `write_buffer` as a position in the mapped file, or the null pointer.
abbrev pub bytes_from : Memory → Option ℕ → Memory
bytes_from m none i = zeroes i
bytes_from m (some at) i = m (i + at)

-- What the loop over the output of one gpg changes.
pub record Transfer : Type 0 where
  pub write_buffer : Option ℕ
  pub write_size : ℕ
  pub receive_buffer : Memory
  pub buffer : PageBuffer
  pub child : Subprocess

-- `write_buffer += write_size - write_remaining`, and the new `write_size`, if there is a buffer.
abbrev pub advance : ℕ → Transfer → Transfer
advance write_remaining x = elim x.write_buffer [
  | none ↦ x
  | some at ↦ record x {
    write_buffer = some (add64 at (sub64 x.write_size write_remaining));
    write_size = write_remaining;
  }
]

module _ (K : Kernel) where
  open K use {State}

  -- The result and the transfer after the output of one gpg.
  abbrev pub Received : Type 0
  Received = Outcome (ℤ × Transfer × State)

  -- What follows a call of `communicate`: an error ends the loop, and so does the end of the output.
  unfoldable pub received :
      (Transfer → State → Received) → ℤ → Transfer → ℕ × Exchange × Subprocess × State → Received
  received loop ret x (suc e, y, p, s) = done (neg (suc e), record x { child = p }, s)
  received loop ret x (zero, y, p, s) =
      if chunk_size == y.read_remaining
      then done (ret, record x { child = p }, s)
      else Buffer.write K.mmap x.buffer (sub64 chunk_size y.read_remaining) (Buffer.size x.buffer)
          y.read_buffer
        >>= λ b.
            loop
              (advance y.write_remaining
                (record x { buffer = b; receive_buffer = y.read_buffer; child = p }))
              s

  -- The loop over the output of one gpg, with fuel. The fuel of `communicate` is a round for each
  -- byte of its two buffers, and one more.
  unfoldable pub receive : ℕ → Memory → ℤ → Transfer → State → Received
  receive zero m ret x s = out_of_fuel
  receive (suc fuel) m ret x s =
      communicate K (suc (chunk_size + x.write_size)) x.receive_buffer chunk_size
        (bytes_from m x.write_buffer) x.write_size x.child s
      >>= received (receive fuel m ret) ret x

  -- The exit status of gpg, the result so far, and the buffer.
  abbrev pub Decrypted : Type 0
  Decrypted = ℤ × ℤ × PageBuffer × State

  unfoldable pub decrypted : ℤ × Transfer × State → Decrypted
  decrypted (ret, x, s) =
      let (status, p, t) = wait K x.child s in (status, ret, x.buffer, destroy_subprocess K p t)

  -- One gpg, which gets the file itself or a part of the mapped file.
  unfoldable pub decrypt :
      ℕ → Options → Memory → Option ℕ → Option ℕ → ℕ → ℤ → PageBuffer → State → Outcome Decrypted
  decrypt fuel options m gpg_stdin write_buffer write_size ret b s = do
    (p, t) ← subprocess K gpg_stdin none options.gpg_path decrypt_args s
    r ←
        receive fuel m ret
          (record {
            write_buffer = write_buffer;
            write_size = write_size;
            receive_buffer = zeroes;
            buffer = b;
            child = p;
          })
          t
    done (decrypted r)

  -- `buffer_set`, the result and the buffer.
  abbrev pub Loaded : Type 0
  Loaded = Outcome (Bool × ℤ × PageBuffer × State)

  -- What follows a gpg: it has failed, or the next block is loaded.
  unfoldable pub after_gpg : (ℤ → PageBuffer → State → Loaded) → Decrypted → Loaded
  after_gpg loop (status, ret, b, s) =
      if is_zero status then loop ret b s else done (false, pos eio, b, s)

  -- One block of the loop, from `offset` to `new_offset`.
  unfoldable pub load_block :
      ℕ
      → Options
      → ℕ
      → Memory
      → ℕ
      → (ℤ → PageBuffer → State → Loaded)
      → ℕ
      → ℕ
      → ℤ
      → PageBuffer
      → State
      → Loaded
  load_block fuel options fd m size loop offset new_offset ret b s =
      if offset == 0 && new_offset == size
      then decrypt fuel options m (some fd) none 0 ret b s >>= after_gpg loop
      else if sub64 new_offset offset == 0
      then done (true, ret, b, s)
      else decrypt fuel options m none (some offset) (sub64 new_offset offset) ret b s
        >>= after_gpg loop

  -- The loop over the blocks, with fuel.
  unfoldable pub load_loop : ℕ → ℕ → Options → ℕ → Memory → ℕ → ℕ → ℤ → PageBuffer → State → Loaded
  load_loop zero fuel options fd m size offset ret b s = out_of_fuel
  load_loop (suc rounds) fuel options fd m size offset ret b s =
      if ltb offset size
      then (block_end m size offset >>= λ new_offset.
          load_block fuel options fd m size (load_loop rounds fuel options fd m size new_offset)
            offset new_offset ret b s)
      else done (true, ret, b, s)

  -- The open file after it has been loaded.
  abbrev pub Load : Type 0
  Load = Outcome (ℤ × Internal × State)

  unfoldable pub unmap : Internal → Memory → ℕ → Bool × ℤ × PageBuffer × State → Load
  unmap d m size (buffer_set, ret, b, s) =
      done (ret, record d { buffer_set = buffer_set; buffer = b }, K.munmap m size s)

  -- A block is a byte or more, so that a round for each byte and one more is enough.
  unfoldable pub load_mapped : ℕ → Options → Internal → ℕ → Sys Memory × State → Load
  load_mapped fuel options d size (error e, s) = done (pos e, d, s)
  load_mapped fuel options d size (ok m, s) =
      load_loop (suc size) fuel options d.fd m size 0 (pos 0) d.buffer s >>= unmap d m size

  unfoldable pub load_stat : ℕ → Options → Internal → Sys Stat × State → Load
  load_stat fuel options d (error e, s) = done (pos e, d, s)
  load_stat fuel options d (ok st, s) =
      if st.st_size == 0
      then done (pos 0, record d { buffer_set = true }, s)
      else load_mapped fuel options d st.st_size (K.map_file d.fd st.st_size s)

  -- `load_buffer`. The fuel is for the output of each gpg, which has no bound of its own.
  unfoldable pub load_buffer : ℕ → Options → Internal → State → Load
  load_buffer fuel options d s =
      let d' = record d { dirty = false; buffer = Buffer.clear d.buffer } in
      if d.buffer_set
      then done (pos 0, d, s)
      else assert d.is_open >> load_stat fuel options d' (K.fstat d.fd s)
