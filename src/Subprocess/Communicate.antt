-- ===== src/Subprocess/Communicate.antt =====
-- `subprocess::communicate`: bytes go into the child and come out of it, as `select` allows.
use asymmetricfs.Prelude.{
  ℕ, zero, suc, ◌+◌, Bool, false, ◌&&◌, not, Outcome, done, out_of_fuel, if◌then◌else◌, ◌==◌, ltb,
  Memory, memcpy, add64, sub64,
}
use asymmetricfs.Kernel.{Kernel, Sys, ok, error, einval, eintr}
use asymmetricfs.Subprocess.{Subprocess}

-- The two buffers: what has been read and what is left to read, and the same for writing.
pub record Exchange : Type 0 where
  pub read_buffer : Memory
  pub has_read : ℕ
  pub read_remaining : ℕ
  pub has_written : ℕ
  pub write_remaining : ℕ

-- How a part of a round ends: with a result of the call, or on to the next part.
pub data Progress (S : Type 0) : Type 0 where
  returns : ℕ → Exchange → Subprocess → S → Progress S
  goes_on : Exchange → Subprocess → S → Progress S

module _ (K : Kernel) where
  open K use {State}

  -- After the last byte the input is closed.
  unfoldable pub close_input : Exchange → Subprocess → State → Progress State
  close_input x p s =
      if x.write_remaining == 0
      then goes_on x (record p { in_owned = false }) (K.close p.in_fd s).1
      else goes_on x p s

  unfoldable pub written : Exchange → Subprocess → Sys ℕ × State → Progress State
  written x p (error e, s) = if e == eintr then goes_on x p s else returns e x p s
  written x p (ok n, s) =
      let x' = record x {
        has_written = add64 x.has_written n;
        write_remaining = sub64 x.write_remaining n;
      } in
      if ltb 0 n then close_input x' p s else goes_on x p s

  unfoldable pub write_some : Memory → Bool → Exchange → Subprocess → State → Progress State
  write_some write_buffer ready x p s =
      if not (x.write_remaining == 0) && ready
      then written x p (K.write p.in_fd (λ i. write_buffer (i + x.has_written)) x.write_remaining s)
      else goes_on x p s

  unfoldable pub was_read : Exchange → Subprocess → Sys (ℕ × Memory) × State → Progress State
  was_read x p (error e, s) = if e == eintr then goes_on x p s else returns e x p s
  was_read x p (ok (n, bytes), s) =
      let x' = record x {
        read_buffer = memcpy x.read_buffer x.has_read bytes 0 n;
        has_read = add64 x.has_read n;
        read_remaining = sub64 x.read_remaining n;
      } in
      if n == 0 then returns 0 x p s else goes_on x' p s

  unfoldable pub read_some : Bool → Exchange → Subprocess → State → Progress State
  read_some ready x p s =
      if not (x.read_remaining == 0) && ready
      then was_read x p (K.read p.out_fd x.read_remaining s)
      else goes_on x p s

  -- The reading follows the writing.
  unfoldable pub then_read : Bool → Progress State → Progress State
  then_read ready (returns ret x p s) = returns ret x p s
  then_read ready (goes_on x p s) = read_some ready x p s

  unfoldable pub selected :
      Memory → Exchange → Subprocess → Sys (Bool × Bool) × State → Progress State
  selected write_buffer x p (error e, s) = if e == eintr then goes_on x p s else returns e x p s
  selected write_buffer x p (ok (readable, writable), s) =
      then_read readable (write_some write_buffer writable x p s)

  -- One round of the loop.
  unfoldable pub communicate_round : Memory → Exchange → Subprocess → State → Progress State
  communicate_round write_buffer x p s =
      selected write_buffer x p
        (K.select (not (x.read_remaining == 0)) p.out_fd (not (x.write_remaining == 0)) p.in_fd s)

  abbrev pub Communicated : Type 0
  Communicated = Outcome (ℕ × Exchange × Subprocess × State)

  abbrev pub go_on : (Exchange → Subprocess → State → Communicated) → Progress State → Communicated
  go_on loop (returns ret x p s) = done (ret, x, p, s)
  go_on loop (goes_on x p s) = loop x p s

  -- The loop, with fuel.
  unfoldable pub communicate_loop : ℕ → Memory → Exchange → Subprocess → State → Communicated
  communicate_loop zero write_buffer x p s = out_of_fuel
  communicate_loop (suc fuel) write_buffer x p s =
      let next =
        go_on (communicate_loop fuel write_buffer) (communicate_round write_buffer x p s) in
      if x.read_remaining == 0 && x.write_remaining == 0 then done (0, x, p, s) else next

  -- `communicate` with the sizes of its two buffers. A size that is not given is 0.
  unfoldable pub communicate : ℕ → Memory → ℕ → Memory → ℕ → Subprocess → State → Communicated
  communicate fuel read_buffer read_size write_buffer write_size p s =
      let x : Exchange = record {
        read_buffer = read_buffer;
        has_read = 0;
        read_remaining = read_size;
        has_written = 0;
        write_remaining = write_size;
      } in
      if not p.in_owned && ltb 0 write_size
      then done (einval, x, p, s)
      else communicate_loop fuel write_buffer x p s
