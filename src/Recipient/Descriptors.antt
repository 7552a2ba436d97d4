-- ===== src/Recipient/Descriptors.antt =====
-- `gpg_recipient::validate` leaves no descriptor open, and accepts a recipient if gpg does.
use Prim.Native.String.{String}
use asymmetricfs.Prelude.{
  ℕ, ◌≡◌, refl, ◌∙◌, ap, subst, Bool, true, false, ◌&&◌, ◌||◌, not, some, Outcome, done, throws,
  ◌==◌, Bool-cases, IfDone, arith, ◌>>=◌, aborts, out_of_fuel, [], ◌∷◌,
}
use asymmetricfs.Kernel.{Kernel, Sys, ok, error, o_wronly, o_rdonly}
use asymmetricfs.Subprocess.{Subprocess, subprocess, wait, destroy_subprocess}
use asymmetricfs.Subprocess.Descriptors.{HasDescriptors, SameOpen, fresh_here, subprocess-wait}
use asymmetricfs.Subprocess
use asymmetricfs.Recipient.{Found, exited, list_keys, with_output, with_input, key_status}

closed_two :
    (a n m : Bool)
    → (n ≡ true → a ≡ false)
    → (m ≡ true → a ≡ false)
    → (not n && (not m && (n || (m || a)))) ≡ a
closed_two a n m h k = ground (arith, Bool-cases a, Bool-cases n, Bool-cases m, h, k)

module _ (K : Kernel) (ds : HasDescriptors K) where
  open K use {State}

  abbrev SameAfter : State → Found × State → Type 0
  SameAfter s (found, t) = SameOpen K ds s t

  list_keys-SameAfter :
      (gpg_path r : String) (fd_in fd_out : ℕ) (s0 s1 s2 : State)
      → K.open_path "/dev/null" o_rdonly s0 ≡ (ok fd_in, s1)
      → K.open_path "/dev/null" o_wronly s1 ≡ (ok fd_out, s2)
      → IfDone (λ r. SameAfter s0 r) (list_keys K gpg_path r fd_in fd_out s2)
  unfolding list_keys destroy_subprocess
  list_keys-SameAfter gpg_path r fd_in fd_out s0 s1 s2 e f =
      by_child
        (subprocess K (some fd_in) (some fd_out) gpg_path ("gpg" ∷ "--list-keys" ∷ r ∷ []) s2)
        (λ p t started. subprocess-wait K ds (some fd_in) (some fd_out) gpg_path _ s2 t p started)
    where
      by_child :
          (o : Outcome (Subprocess × State))
          → ((p : Subprocess) (t : State)
              → o ≡ done (p, t)
              → (x : ℕ) → ds.is_open (wait K p t).2 x ≡ ds.is_open s2 x)
          → IfDone
              (λ r. SameAfter s0 r)
              (o >>= λ (p, t).
                let w = wait K p t in
                let u = (wait K w.1 w.2).2 in
                done (exited w.0, (K.close fd_out (K.close fd_in u).1).1))
      by_child (throws x) h = tt
      by_child aborts h = tt
      by_child out_of_fuel h = tt
      by_child (done (p, t)) h = λ x.
          let again = ap (λ r. r.2) (Subprocess.wait-wait K p t (wait K p t).2) in
          ds.closes fd_out _ x
          ∙ ap (λ b. not (x == fd_out) && b)
              (ds.closes fd_in _ x
                ∙ ap (λ b. not (x == fd_in) && b)
                    (ap (λ u. ds.is_open u x) again
                      ∙ h p t refl x
                      ∙ (ds.opens "/dev/null" o_wronly fd_out s1 s2 f).1 x
                      ∙ ap (λ b. (x == fd_out) || b)
                          ((ds.opens "/dev/null" o_rdonly fd_in s0 s1 e).1 x)))
          ∙ closed_two (ds.is_open s0 x) (x == fd_out) (x == fd_in)
              (λ at_out. ground (
                arith,
                (ds.opens "/dev/null" o_rdonly fd_in s0 s1 e).1 x,
                fresh_here K ds fd_out s1 x (ds.opens "/dev/null" o_wronly fd_out s1 s2 f).0 at_out,
                Bool-cases (x == fd_in),
                Bool-cases (ds.is_open s0 x),
              ))
              (λ at_in.
                fresh_here K ds fd_in s0 x (ds.opens "/dev/null" o_rdonly fd_in s0 s1 e).0 at_in)

  -- The input is closed after the output could not be opened.
  one_closed :
      (fd_in : ℕ) (s0 s1 s2 : State) (n : ℕ)
      → K.open_path "/dev/null" o_rdonly s0 ≡ (ok fd_in, s1)
      → K.open_path "/dev/null" o_wronly s1 ≡ (error n, s2)
      → (x : ℕ) → ds.is_open (K.close fd_in s2).1 x ≡ ds.is_open s0 x
  one_closed fd_in s0 s1 s2 n e f x =
      let opened = ds.opens "/dev/null" o_rdonly fd_in s0 s1 e in
      ds.closes fd_in s2 x
      ∙ ap (λ b. not (x == fd_in) && b) (ds.opens_not "/dev/null" o_wronly n s1 s2 f x ∙ opened.1 x)
      ∙ ground (
        arith,
        fresh_here K ds fd_in s0 x opened.0,
        Bool-cases (x == fd_in),
        Bool-cases (ds.is_open s0 x),
      )

  with_output-SameAfter :
      (gpg_path r : String) (fd_in : ℕ) (s0 s1 : State) (o : Sys ℕ × State)
      → K.open_path "/dev/null" o_rdonly s0 ≡ (ok fd_in, s1)
      → K.open_path "/dev/null" o_wronly s1 ≡ o
      → IfDone (λ r. SameAfter s0 r) (with_output K gpg_path r fd_in o)
  unfolding with_output
  with_output-SameAfter gpg_path r fd_in s0 s1 (error n, s2) e f =
      λ x. one_closed fd_in s0 s1 s2 n e f x
  with_output-SameAfter gpg_path r fd_in s0 s1 (ok fd_out, s2) e f =
      list_keys-SameAfter gpg_path r fd_in fd_out s0 s1 s2 e f

  with_input-SameAfter :
      (gpg_path r : String) (s0 : State) (o : Sys ℕ × State)
      → K.open_path "/dev/null" o_rdonly s0 ≡ o
      → IfDone (λ r. SameAfter s0 r) (with_input K gpg_path r o)
  unfolding with_input
  with_input-SameAfter gpg_path r s0 (error n, s1) e = ds.opens_not "/dev/null" o_rdonly n s0 s1 e
  with_input-SameAfter gpg_path r s0 (ok fd_in, s1) e =
      with_output-SameAfter gpg_path r fd_in s0 s1 _ e refl

  -- Let the system account for the open descriptors. When validate is about to return or to throw
  -- for what it has found, the descriptors that are open are those from before the call: the two
  -- for /dev/null and all ends of pipes are closed.
  pub key_status_closed :
      (gpg_path r : String) (s t : State) (found : Found)
      → key_status K gpg_path r s ≡ done (found, t)
      → (x : ℕ) → ds.is_open t x ≡ ds.is_open s x
  unfolding key_status
  key_status_closed gpg_path r s t found e =
      subst (λ o. IfDone (λ r. SameAfter s r) o) e (with_input-SameAfter gpg_path r s _ refl)
