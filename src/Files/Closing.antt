-- ===== src/Files/Closing.antt =====
-- `internal::close` of a file that was written: what gpg is given, and the result.
mod Tests
use asymmetricfs.Prelude.{
  ℕ, zero, suc, ◌≡◌, refl, Bool, true, false, Option, some, none, Outcome, done, ◌>>=◌, ap, ◌∙◌,
  if◌then◌else◌, ℤ, pos, neg, is_zero,
}
use asymmetricfs.Page.Blocks.Content.{content}
use asymmetricfs.Page.Buffer.Invariant.{IsWellFormed}
use asymmetricfs.Page.Pipe.{IsOpen, Appended}
use asymmetricfs.Page.Splice.{splice}
use asymmetricfs.Page.Splice.Gathering.{Reaches}
use asymmetricfs.Page.Splice.Contents.{splice-content}
use asymmetricfs.Kernel.{Kernel, Sys, ok, error, pipe, eio}
use asymmetricfs.Subprocess.{subprocess, parent, wait, destroy_subprocess, exit_code}
use asymmetricfs.Files.{Options, Internal}
use asymmetricfs.Files.Handles.{encrypt_args, encrypt, close, close_result}

-- 0 if gpg has exited with 0, and an error for any other end.
abbrev pub gpg_result : Option ℕ → ℤ
gpg_result none = neg eio
gpg_result (some zero) = pos 0
gpg_result (some (suc n)) = neg eio

gpg_result_lem :
    (ended : Option ℕ) → (if is_zero (exit_code ended) then pos 0 else neg eio) ≡ gpg_result ended
gpg_result_lem none = refl
gpg_result_lem (some zero) = refl
gpg_result_lem (some (suc n)) = refl

module _ (K : Kernel) where
  open K use {State}

  -- The system starts a gpg whose input is a pipe and whose output is the file. `fed` is the end of
  -- the pipe that the program keeps, and `started` the state after it has closed the other ends.
  pub record Starts (options : Options) (d : Internal) (s : State) (pid fed : ℕ) (started : State)
      : Type 0 where
    pub input : ℕ
    pub unused : ℕ × ℕ
    pub first : State
    pub second : State
    pub forked : State
    pub pipe_made : K.make_pipe s ≡ ((input, fed), first)
    pub unused_made : K.make_pipe first ≡ (unused, second)
    pub child :
        K.fork_exec input d.fd options.gpg_path (encrypt_args options) second ≡ (ok pid, forked)
    pub ends : (K.close unused.1 (K.close unused.0 (K.close input forked).1).1).1 ≡ started

  -- The end of a close: the pipe is closed, gpg has ended, and the file is closed.
  abbrev pub closes : Internal → ℕ → ℕ → State → Outcome (ℤ × Internal × State)
  closes d pid fed u =
      let ended = K.waitpid pid (K.close fed u).1 in
      let closed = K.close d.fd ended.1 in
      done (
        close_result K (gpg_result ended.0) closed.0,
        record d { dirty = false; is_open = false },
        closed.1,
      )

  encrypt_lem :
      (options : Options) (d : Internal) (s : State) (pid fed : ℕ) (started u : State)
      (n : Option ℕ)
      → Starts options d s pid fed started
      → splice (pipe K fed) K.mmap d.buffer 0 started ≡ done (n, u)
      → encrypt K options d s
        ≡ done (gpg_result (K.waitpid pid (K.close fed u).1).0, (K.waitpid pid (K.close fed u).1).1)
  unfolding encrypt subprocess parent wait destroy_subprocess
  encrypt_lem options d s pid fed started u n starts e =
      rw (starts.pipe_made, starts.unused_made, starts.child, starts.ends, e)
        (ap (λ ret. done (ret, (K.waitpid pid (K.close fed u).1).1))
          (gpg_result_lem (K.waitpid pid (K.close fed u).1).0))

  -- Let a file be open and dirty, with a well-formed buffer whose blocks all begin below its size
  -- and whose last block reaches it. Let the system start gpg with a pipe as its input and the file
  -- as its output, let the pipe be open, and let memory be there. Then close sends the contents of
  -- the buffer up to its size into the pipe, each byte once and in order, closes the pipe, waits
  -- for gpg and closes the file, and the result is -EIO unless gpg has exited with 0.
  pub close-content :
      (options : Options) (d : Internal) (s : State) (pid fed : ℕ) (started : State)
      → d.is_open ≡ true
      → d.dirty ≡ true
      → Starts options d s pid fed started
      → IsOpen (pipe K fed)
      → ((n : ℕ) → K.mmap false n ≡ true)
      → IsWellFormed d.buffer
      → Reaches 0 d.buffer.buffer_size d.buffer.page_allocations
      → (u : State) × Appended
          (pipe K fed)
          started
          u
          d.buffer.buffer_size
          (content d.buffer.page_allocations)
        × (close K options d s ≡ closes d pid fed u)
  unfolding close encrypt
  close-content options d s pid fed started opened written starts lawful granted v r =
      let (u, e, sent) = splice-content (pipe K fed) K.mmap d.buffer 0 started lawful granted v r in
      (u, sent, rw (opened, written, encrypt_lem options d s pid fed started u _ starts e) refl)
