-- ===== src/Subprocess.antt =====
-- The class `subprocess` (subprocess.h and subprocess.cpp): a child process with pipes where the
-- caller has not given a descriptor.
pub mod Communicate
pub mod Invariant
pub mod Input
pub mod Exchanging
pub mod Progress
pub mod Descriptors
pub mod Output
mod Tests
use Prim.Native.String.{String}
use asymmetricfs.Prelude.{
  ℕ, Bool, true, false, List, Option, none, some, Outcome, done, throws, runtime_error, ◌≡◌, refl,
  inl, inr, Bool-cases, if◌then◌else◌, ℤ, pos, negsuc,
}
use asymmetricfs.Kernel.{Sys, ok, error, Kernel}

pub record Subprocess : Type 0 where
  pub pid : ℕ
  pub in_fd : ℕ
  pub in_owned : Bool
  pub out_fd : ℕ
  pub out_owned : Bool
  pub finished : Bool

-- The descriptor that the caller gave, or the end of the pipe.
abbrev given : Option ℕ → ℕ → ℕ
given none end = end
given (some fd) end = fd

abbrev is_none : Option ℕ → Bool
is_none none = true
is_none (some fd) = false

-- `WIFEXITED(status) ? WEXITSTATUS(status) : -1`
abbrev pub exit_code : Option ℕ → ℤ
exit_code none = negsuc 0
exit_code (some code) = pos code

module _ (K : Kernel) where
  open K use {State}

  -- A close whose result is not looked at, if the condition holds.
  abbrev pub close_if : Bool → ℕ → State → State
  close_if b fd s = if b then (K.close fd s).1 else s

  -- The parent after the fork: it closes the child's ends, and its own ends of pipes without use.
  unfoldable pub parent :
      Option ℕ → Option ℕ → ℕ × ℕ → ℕ × ℕ → Sys ℕ × State → Outcome (Subprocess × State)
  parent fd_in fd_out pipes_in pipes_out (error e, s) = throws runtime_error
  parent fd_in fd_out pipes_in pipes_out (ok pid, s) =
      let s1 = if is_none fd_in then s else (K.close pipes_in.1 s).1 in
      let s2 = (K.close pipes_in.0 s1).1 in
      let s3 = if is_none fd_out then s2 else (K.close pipes_out.0 s2).1 in
      let s4 = (K.close pipes_out.1 s3).1 in
      done (
        record {
          pid = pid;
          in_fd = given fd_in pipes_in.1;
          in_owned = is_none fd_in;
          out_fd = given fd_out pipes_out.0;
          out_owned = is_none fd_out;
          finished = false;
        },
        s4,
      )

  -- The constructor.
  unfoldable pub subprocess :
      Option ℕ → Option ℕ → String → List String → State → Outcome (Subprocess × State)
  subprocess fd_in fd_out file argv s =
      let (pipes_in, s1) = K.make_pipe s in
      let (pipes_out, s2) = K.make_pipe s1 in
      parent fd_in fd_out pipes_in pipes_out
        (K.fork_exec (given fd_in pipes_in.0) (given fd_out pipes_out.1) file argv s2)

  -- `wait`: the exit status, and 0 from the second time on.
  unfoldable pub wait : Subprocess → State → ℤ × Subprocess × State
  wait p s =
      let s1 = close_if p.in_owned p.in_fd s in
      let s2 = close_if p.out_owned p.out_fd s1 in
      let ended = K.waitpid p.pid s2 in
      if p.finished
      then (pos 0, p, s)
      else (exit_code ended.0, record p { finished = true }, ended.1)

  -- The destructor.
  unfoldable pub destroy_subprocess : Subprocess → State → State
  destroy_subprocess p s = (wait p s).2

  -- A second wait returns 0 and does nothing to the process and the system, whatever the first one
  -- returned.
  pub wait-wait : (p : Subprocess) (s t : State) → wait (wait p s).1 t ≡ (pos 0, (wait p s).1, t)
  unfolding wait
  wait-wait p s t = elim (Bool-cases p.finished) [
    | inl again ↦ rw again refl
    | inr first ↦ rw first refl
  ]
