-- ===== src/Recipient.antt =====
-- The class `gpg_recipient` (gpg_recipient.h and gpg_recipient.cpp). A recipient is its name.
pub mod Descriptors
pub mod CommandLine
mod Tests
use Prim.Native.String.{String}
use asymmetricfs.Prelude.{
  List, [], ◌∷◌, Option, none, some, Outcome, done, throws, runtime_error, invalid_gpg_recipient,
  ◌>>=◌, ℕ, ℤ, is_zero, if◌then◌else◌,
}
use asymmetricfs.Kernel.{Kernel, Sys, ok, error, o_rdonly, o_wronly}
use asymmetricfs.Subprocess.{subprocess, wait, destroy_subprocess}

-- What `validate` has found before it returns or throws: a descriptor could not be opened, or gpg
-- has ended with a status.
pub data Found : Type 0 where
  unable_to_open : Found
  exited : ℤ → Found

module _ (K : Kernel) where
  open K use {State}

  -- gpg with the two descriptors, which are closed after it.
  unfoldable pub list_keys : String → String → ℕ → ℕ → State → Outcome (Found × State)
  list_keys gpg_path r fd_in fd_out s = do
    (p, t) ← subprocess K (some fd_in) (some fd_out) gpg_path ("gpg" ∷ "--list-keys" ∷ r ∷ []) s
    let w = wait K p t
    let u = destroy_subprocess K w.1 w.2
    let v = (K.close fd_in u).1
    done (exited w.0, (K.close fd_out v).1)

  -- The output. If there is none, the input is closed.
  unfoldable pub with_output : String → String → ℕ → Sys ℕ × State → Outcome (Found × State)
  with_output gpg_path r fd_in (error e, s) = done (unable_to_open, (K.close fd_in s).1)
  with_output gpg_path r fd_in (ok fd_out, s) = list_keys gpg_path r fd_in fd_out s

  unfoldable pub with_input : String → String → Sys ℕ × State → Outcome (Found × State)
  with_input gpg_path r (error e, s) = done (unable_to_open, s)
  with_input gpg_path r (ok fd_in, s) =
      with_output gpg_path r fd_in (K.open_path "/dev/null" o_wronly s)

  -- `validate` up to the point where it returns or throws for what it has found.
  unfoldable pub key_status : String → String → State → Outcome (Found × State)
  key_status gpg_path r s = with_input gpg_path r (K.open_path "/dev/null" o_rdonly s)

  unfoldable pub judged : Found × State → Outcome State
  judged (unable_to_open, s) = throws runtime_error
  judged (exited status, s) = if is_zero status then done s else throws invalid_gpg_recipient

  -- `validate`
  unfoldable pub validate_recipient : String → String → State → Outcome State
  validate_recipient gpg_path r s = key_status gpg_path r s >>= judged
