-- ===== src/Main/Total.antt =====
-- `main` never fails its assertion.
use Prim.Native.String.{String}
use text.Mathlib.Text.{◌==◌}
use asymmetricfs.Prelude.{
  ℕ, ◌≡◌, refl, ◌∙◌, ap, Bool, true, false, ◌||◌, ◌&&◌, not, List, [], ◌∷◌, ◌++◌, Option, none,
  some, Option-cases, Outcome, done, aborts, throws, out_of_fuel, ◌>>=◌, assert-true, if_true,
  if_false, Bool-cases, inl, inr, Exception, arith, is_zero,
}
use asymmetricfs.Kernel.{Kernel, Sys, ok, error}
use asymmetricfs.Subprocess.{parent, subprocess}
use asymmetricfs.Recipient.{
  Found, unable_to_open, exited, judged, list_keys, with_output, with_input, key_status,
  validate_recipient,
}
use asymmetricfs.Files.{Filesystem, Options}
use asymmetricfs.Files.Settings.{
  is_nil, ready, set_gpg, set_mlock, set_read, set_recipients, set_target, target_opened,
}
use asymmetricfs.Main.{
  Parsed, Exit, Tried, passed, caught, mode_errors, mount_errors, configure, check_recipients,
  checked, try_options, target_error, target_errors, conclude, after_try, main, usage_shown,
}

-- A call returns or throws.
abbrev Finishes : {A : Type 0} → Outcome A → Type 0
Finishes (done a) = Unit
Finishes (throws e) = Unit
Finishes aborts = ⊥
Finishes out_of_fuel = ⊥

bind-Finishes :
    {A B : Type 0} (o : Outcome A) (f : A → Outcome B)
    → Finishes o
    → ((a : A) → Finishes (f a))
    → Finishes (o >>= f)
bind-Finishes (done a) f h k = k a
bind-Finishes (throws e) f h k = tt
bind-Finishes aborts f h k = absurd h
bind-Finishes out_of_fuel f h k = absurd h

-- What boost promises: without an exception the required option was given.
abbrev pub RequiresRecipient : Parsed → Type 0
RequiresRecipient p = p.exception ≡ none → is_nil p.recipients ≡ false

-- The file system with the options of the command line.
abbrev pub configured : Parsed → Filesystem → Filesystem
configured p fs = record fs {
  read = p.rw;
  options = record { recipients = p.recipients; gpg_path = p.gpg_path; mlock = p.mlock_value };
}

pub configure_lem :
    (p : Parsed) (fs : Filesystem)
    → is_nil fs.open_fds ≡ true
    → configure p fs ≡ done (configured p fs)
unfolding configure set_recipients set_read set_mlock set_gpg
configure_lem p fs h = if_false (not (is_nil fs.open_fds)) _ _ (ap not h)

-- If there is no error, the root is set and the rest is as it was.
abbrev pub IsRooted : {S : Type 0} → Filesystem → List String × Filesystem × S → Type 0
IsRooted fs (errors, fs', t) =
    is_nil errors ≡ true → (fs'.root_set ≡ true) × (fs'.options ≡ fs.options) × (fs'.read ≡ fs.read)

pub is_nil-append :
    (xs ys : List String) → is_nil (xs ++ ys) ≡ true → (is_nil xs ≡ true) × (is_nil ys ≡ true)
is_nil-append [] ys h = (refl, h)
is_nil-append (x ∷ xs) ys h = cc

pub elim_none :
    {A B : Type 0} (o : Option A) (x : B) (f : A → B)
    → o ≡ none
    → (elim o [ none ↦ x | some a ↦ f a ]) ≡ x
elim_none none x f h = refl
elim_none (some a) x f h = cc

elim_some :
    {A B : Type 0} (a : A) (o : Option A) (x : B) (f : A → B)
    → o ≡ some a
    → (elim o [ none ↦ x | some b ↦ f b ]) ≡ f a
elim_some a o x f h = rw h refl

module _ (K : Kernel) (what : Exception → String) where
  open K use {State}

  parent-Finishes :
      (fd_in fd_out : Option ℕ) (pipes_in pipes_out : ℕ × ℕ) (o : Sys ℕ × State)
      → Finishes (parent K fd_in fd_out pipes_in pipes_out o)
  unfolding parent
  parent-Finishes fd_in fd_out pipes_in pipes_out (error e, s) = tt
  parent-Finishes fd_in fd_out pipes_in pipes_out (ok pid, s) = tt

  subprocess-Finishes :
      (fd_in fd_out : Option ℕ) (file : String) (argv : List String) (s : State)
      → Finishes (subprocess K fd_in fd_out file argv s)
  unfolding subprocess
  subprocess-Finishes fd_in fd_out file argv s = parent-Finishes fd_in fd_out _ _ _

  with_output-Finishes :
      (gpg_path r : String) (fd_in : ℕ) (o : Sys ℕ × State)
      → Finishes (with_output K gpg_path r fd_in o)
  unfolding with_output list_keys
  with_output-Finishes gpg_path r fd_in (error e, s) = tt
  with_output-Finishes gpg_path r fd_in (ok fd_out, s) =
      bind-Finishes _ _ (subprocess-Finishes (some fd_in) (some fd_out) gpg_path _ s) (λ r'. tt)

  with_input-Finishes :
      (gpg_path r : String) (o : Sys ℕ × State) → Finishes (with_input K gpg_path r o)
  unfolding with_input
  with_input-Finishes gpg_path r (error e, s) = tt
  with_input-Finishes gpg_path r (ok fd_in, s) = with_output-Finishes gpg_path r fd_in _

  judged-Finishes : (r : Found × State) → Finishes (judged K r)
  unfolding judged
  judged-Finishes (unable_to_open, t) = tt
  judged-Finishes (exited status, t) = elim (Bool-cases (is_zero status)) [
    | inl zero ↦ rw (zero, judged) tt
    | inr nonzero ↦ rw (nonzero, judged) tt
  ]

  check_recipients-Finishes :
      (gpg_path : String) (rs : List String) (s : State)
      → Finishes (check_recipients K what gpg_path rs s)
  unfolding check_recipients validate_recipient key_status
  check_recipients-Finishes gpg_path [] s = tt
  check_recipients-Finishes gpg_path (r ∷ rs) s =
      bind-Finishes _ _ (bind-Finishes _ _ (with_input-Finishes gpg_path r _) judged-Finishes)
        (λ t. check_recipients-Finishes gpg_path rs t)

  -- The `try` block ends, and well only without an exception of boost.
  abbrev pub Tries : Parsed → Tried State → Type 0
  Tries p (passed usage s) = (p.exception ≡ none) × (usage ≡ p.help)
  Tries p (caught e) = Unit

  checked-Tries :
      (p : Parsed) (o : Outcome State)
      → p.exception ≡ none
      → Finishes o
      → (t : Tried State) × (checked K what p o ≡ done t) × Tries p t
  unfolding checked
  checked-Tries p (done s) e h = (passed p.help s, refl, (e, refl))
  checked-Tries p (throws x) e h = (caught (what x), refl, tt)
  checked-Tries p aborts e h = absurd h
  checked-Tries p out_of_fuel e h = absurd h

  pub try_options-Tries :
      (p : Parsed) (s : State) → (t : Tried State) × (try_options K what p s ≡ done t) × Tries p t
  unfolding try_options
  try_options-Tries p s = elim (Option-cases p.exception) [
    | inl nothing ↦
        let (t, e, tries) =
          checked-Tries p _ nothing (check_recipients-Finishes p.gpg_path p.recipients s) in
        (t, elim_none p.exception _ _ nothing ∙ e, tries)
    | inr (x, thrown) ↦ (caught x, elim_some x p.exception _ _ thrown, tt)
  ]

  target_error-IsRooted :
      (fs : Filesystem) (o : Sys ℕ × State)
      → IsRooted fs (target_error K what (target_opened K fs o))
  unfolding target_error target_opened
  target_error-IsRooted fs (ok fd, s) h = (refl, refl, refl)
  target_error-IsRooted fs (error e, s) h = cc

  pub target_errors-IsRooted :
      (target : String) (fs : Filesystem) (s : State)
      → IsRooted fs (target_errors K what target fs s)
  unfolding target_errors set_target
  target_errors-IsRooted target fs s = elim (Bool-cases (target == "")) [
    | inl empty ↦ rw (empty, target_errors) (λ h. cc)
    | inr named ↦ rw (named, target_errors, set_target) (target_error-IsRooted fs _)
  ]

  -- The assertion holds if there is an error or the file system is ready.
  conclude_returns :
      (p : Parsed) (argv0 : String) (usage : Bool) (errors : List String) (fs : Filesystem)
      (s : State)
      → (is_nil errors ≡ true → ready fs ≡ true)
      → (exit : Exit State) × (conclude K what p argv0 usage errors fs s ≡ done exit)
  unfolding conclude
  conclude_returns p argv0 usage errors fs s h = (
    _,
    assert-true (usage || (not (is_nil errors) || ready fs)) _
        (ground (arith, h, Bool-cases usage, Bool-cases (is_nil errors), Bool-cases (ready fs))),
  )

  -- After the `try` block, with the target that it looks at.
  targets_returns :
      (p : Parsed) (argv0 : String) (usage : Bool) (fs : Filesystem)
      (r : List String × Filesystem × State)
      → is_nil fs.options.recipients ≡ false
      → IsRooted fs r
      → (exit : Exit State) × (conclude K what p argv0 usage
            (r.0 ++ mount_errors p.mount_point)
            r.1
            r.2
          ≡ done exit)
  unfolding ready
  targets_returns p argv0 usage fs (errors, fs', t) h rooted =
      conclude_returns p argv0 usage (errors ++ mount_errors p.mount_point) fs' t (λ none_left.
        let (set, same, x) = rooted (is_nil-append errors _ none_left).0 in
        ap (λ b. b && not (is_nil fs'.options.recipients)) set
        ∙ ap (λ (o : Options). not (is_nil o.recipients)) same
        ∙ ap not h)

  after_try_returns :
      (p : Parsed) (argv0 : String) (fs : Filesystem) (t : Tried State)
      → Tries p t
      → (p.exception ≡ none → is_nil fs.options.recipients ≡ false)
      → (exit : Exit State) × ((usage : Bool) → after_try K what p argv0 usage fs t ≡ done exit)
  unfolding after_try
  after_try_returns p argv0 fs (caught e) tries given = (
    usage_shown (e ∷ mode_errors p.rw p.wo),
    λ usage. assert-true (usage || (true || ready fs)) _ (ground (arith, Bool-cases usage)),
  )
  after_try_returns p argv0 fs (passed help s) tries given =
      elim (Bool-cases (is_nil (mode_errors p.rw p.wo))) [
        | inl one ↦
            let (exit, e) =
              targets_returns p argv0 help fs (target_errors K what p.target fs s) (given tries.0)
                (target_errors-IsRooted p.target fs s) in
            (exit, λ usage. if_true (is_nil (mode_errors p.rw p.wo)) _ _ one ∙ e)
        | inr wrong ↦
            let (exit, e) =
              conclude_returns p argv0 help (mode_errors p.rw p.wo) fs s
                (λ none_left. ground (arith, none_left, wrong)) in
            (exit, λ usage. if_false (is_nil (mode_errors p.rw p.wo)) _ _ wrong ∙ e)
      ]

  -- `main` after the `try` block and the configuration.
  pub main-after_try :
      (p : Parsed) (argv0 : String) (usage : Bool) (fs : Filesystem) (s : State) (t : Tried State)
      → is_nil fs.open_fds ≡ true
      → try_options K what p s ≡ done t
      → main K what p argv0 usage fs s ≡ after_try K what p argv0 usage (configured p fs) t
  unfolding main
  main-after_try p argv0 usage fs s t unused e =
      ap (λ o. o >>= λ tried. configure p fs >>= λ fs'. after_try K what p argv0 usage fs' tried) e
      ∙ ap (λ o. o >>= λ fs'. after_try K what p argv0 usage fs' t) (configure_lem p fs unused)

  -- Let boost give a recipient if it has thrown no exception, and let no file be open. Then main
  -- comes to an end before fuse_main or starts it, whatever the system answers: its assertion never
  -- fails, and no exception leaves it. The end does not depend on what the variable for the usage
  -- holds before it is set, although the assertion reads it after an exception.
  pub main_returns :
      (p : Parsed) (argv0 : String) (fs : Filesystem) (s : State)
      → RequiresRecipient p
      → is_nil fs.open_fds ≡ true
      → (exit : Exit State) × ((usage : Bool) → main K what p argv0 usage fs s ≡ done exit)
  main_returns p argv0 fs s required unused =
      let (t, e, tries) = try_options-Tries p s in
      let (exit, f) = after_try_returns p argv0 (configured p fs) t tries required in
      (exit, λ usage. main-after_try p argv0 usage fs s t unused e ∙ f usage)
