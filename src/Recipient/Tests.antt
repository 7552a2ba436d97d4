-- ===== src/Recipient/Tests.antt =====
-- The theorem on descriptors, on a system that hands them out in order.
use asymmetricfs.Prelude.{
  ℕ, pos, ◌+◌, ◌≤◌, ◌≡◌, refl, sym, ◌∙◌, ap, subst, ltb, Bool, false, ◌||◌, ◌&&◌, not, ◌==◌, arith,
}
use asymmetricfs.Kernel.{Kernel, Sys, ok, error}
use asymmetricfs.Kernel.Idle.{idle}
use asymmetricfs.Subprocess.{subprocess, parent, wait, destroy_subprocess}
use asymmetricfs.Subprocess.Descriptors.{HasDescriptors}
use asymmetricfs.Recipient.{exited, key_status, with_input, with_output, list_keys}
use asymmetricfs.Recipient.Descriptors.{key_status_closed}

-- The next descriptor, and which ones are open: none from it on.
abbrev Opened : Type 0
Opened = (next : ℕ) × (is_open : ℕ → Bool) × ((x : ℕ) → next ≤ x → is_open x ≡ false)

opened-fresh :
    (next : ℕ) (is_open : ℕ → Bool)
    → ((x : ℕ) → next ≤ x → is_open x ≡ false)
    → (x : ℕ) → next + 1 ≤ x
    → ((x == next) || is_open x) ≡ false
opened-fresh next is_open fresh x le = ground (arith, fresh x)

shut-fresh :
    (fd next : ℕ) (is_open : ℕ → Bool)
    → ((x : ℕ) → next ≤ x → is_open x ≡ false)
    → (x : ℕ) → next ≤ x
    → (not (x == fd) && is_open x) ≡ false
shut-fresh fd next is_open fresh x le = ground (arith, fresh x)

abbrev hand_out : Opened → Opened
hand_out (next, is_open, fresh) =
    (next + 1, λ x. (x == next) || is_open x, opened-fresh next is_open fresh)

abbrev shut : ℕ → Opened → Opened
shut fd (next, is_open, fresh) =
    (next, λ x. not (x == fd) && is_open x, shut-fresh fd next is_open fresh)

abbrev counting : Kernel
counting = record (idle Opened) {
  open_path = λ path flags s. (ok s.0, hand_out s);
  openat = λ dir path flags mode s. (ok s.0, hand_out s);
  close = λ fd s. (ok 0, shut fd s);
  make_pipe = λ s. ((s.0 + 1, s.0), hand_out (hand_out s));
}

handed_out :
    (s t : Opened) (fd : ℕ)
    → ◌≡◌ {A = Sys ℕ × Opened} (ok s.0, hand_out s) (ok fd, t)
    → (s.1 fd ≡ false) × ((x : ℕ) → t.1 x ≡ ((x == fd) || s.1 x))
handed_out s t fd e =
    let same : s.0 ≡ fd = ap (λ (r : Sys ℕ × Opened). elim r.0 [ ok n ↦ n | error m ↦ 0 ]) e in
    let after : hand_out s ≡ t = ap (λ (r : Sys ℕ × Opened). r.1) e in
    (
      subst (λ n. s.1 n ≡ false) same (s.2 s.0 (omega arith)),
      λ x. ap (λ (u : Opened). u.1 x) (sym after) ∙ ap (λ n. (x == n) || s.1 x) same,
    )

never_fails :
    (r : Sys ℕ × Opened) (e : ℕ) (t : Opened) {n : ℕ} {u : Opened}
    → r ≡ (error e, t)
    → r ≡ (ok n, u)
    → ⊥
never_fails r e t fails works = cc

counting-HasDescriptors : HasDescriptors counting
counting-HasDescriptors = record {
  is_open = λ s. s.1;
  opens = λ path flags fd s t. handed_out s t fd;
  opens_not =
      λ path flags e s t impossible. absurd (never_fails (ok s.0, hand_out s) e t impossible refl);
  closes = λ fd s x. refl;
  pipes_fresh = λ s. (s.2 (s.0 + 1) (omega arith), s.2 s.0 (omega arith));
  pipes = λ s x. refl;
  forks = λ input output file argv s x. refl;
  waits = λ pid s x. refl;
}

three-fresh : (x : ℕ) → 3 ≤ x → ltb x 3 ≡ false
three-fresh x le = ground arith

-- Three descriptors are open.
abbrev three_open : Opened
three_open = (3, λ x. ltb x 3, three-fresh)

-- The input and the output of gpg, and two pipes, which are all closed.
abbrev all_closed : Opened
all_closed =
    let two = hand_out (hand_out three_open) in
    let pipes = hand_out (hand_out (hand_out (hand_out two))) in
    shut 4 (shut 3 (shut 7 (shut 8 (shut 6 (shut 5 pipes)))))

key_status_closed_example :
    counting-HasDescriptors.is_open all_closed 3 ≡ counting-HasDescriptors.is_open three_open 3
unfolding key_status with_input with_output list_keys subprocess parent wait destroy_subprocess
key_status_closed_example =
    key_status_closed counting counting-HasDescriptors "gpg" "alice" three_open all_closed
      (exited (pos 0)) refl 3
