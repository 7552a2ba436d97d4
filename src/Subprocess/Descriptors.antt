-- ===== src/Subprocess/Descriptors.antt =====
-- A child process leaves no descriptor open in its parent.
use Prim.Native.String.{String}
use asymmetricfs.Prelude.{
  ℕ, ◌≡◌, sym, ◌∙◌, ap, inl, inr, Bool, true, false, ◌&&◌, ◌||◌, not, Option, none, some, List,
  done, subst, number_eqb_iff, ◌==◌, Bool-cases, IfDone, arith,
}
use asymmetricfs.Kernel.{Kernel, Sys, ok, error}
use asymmetricfs.Subprocess.{Subprocess, parent, subprocess, wait}

-- Which descriptors a process has open, and how the calls change that: a new one was not open
-- before, and `close` closes one, whatever it returns.
pub record HasDescriptors (K : Kernel) : Type 0 where
  pub is_open : K.State → ℕ → Bool
  pub opens :
      (path : String) (flags fd : ℕ) (s t : K.State)
      → K.open_path path flags s ≡ (ok fd, t)
      → (is_open s fd ≡ false) × ((x : ℕ) → is_open t x ≡ ((x == fd) || is_open s x))
  pub opens_not :
      (path : String) (flags e : ℕ) (s t : K.State)
      → K.open_path path flags s ≡ (error e, t)
      → (x : ℕ) → is_open t x ≡ is_open s x
  pub closes :
      (fd : ℕ) (s : K.State) (x : ℕ) → is_open (K.close fd s).1 x ≡ (not (x == fd) && is_open s x)
  pub pipes_fresh :
      (s : K.State)
      → let (r, w) = (K.make_pipe s).0 in (is_open s r ≡ false) × (is_open s w ≡ false)
  pub pipes :
      (s : K.State) (x : ℕ)
      → let (r, w) = (K.make_pipe s).0 in
        is_open (K.make_pipe s).1 x ≡ ((x == r) || ((x == w) || is_open s x))
  pub forks :
      (input output : ℕ) (file : String) (argv : List String) (s : K.State) (x : ℕ)
      → is_open (K.fork_exec input output file argv s).1 x ≡ is_open s x
  pub waits : (pid : ℕ) (s : K.State) (x : ℕ) → is_open (K.waitpid pid s).1 x ≡ is_open s x

module _ (K : Kernel) (ds : HasDescriptors K) where
  open K use {State}

  abbrev pub SameOpen : State → State → Type 0
  SameOpen s t = (x : ℕ) → ds.is_open t x ≡ ds.is_open s x

  -- The descriptors after the child has been started and waited for.
  abbrev WaitsTo : State → Subprocess × State → Type 0
  WaitsTo s (p, t) = SameOpen s (wait K p t).2

  closed_all :
      (a r1 w1 r2 w2 c1 c2 c3 c4 : Bool)
      → ((r2 || (w2 || (r1 || w1))) ≡ true → a ≡ false)
      → (c1 || (c2 || (c3 || c4))) ≡ (r2 || (w2 || (r1 || w1)))
      → (not c4 && (not c3 && (not c2 && (not c1 && (r2 || (w2 || (r1 || (w1 || a)))))))) ≡ a
  closed_all a r1 w1 r2 w2 c1 c2 c3 c4 fresh all = ground (
    arith,
    Bool-cases a,
    Bool-cases r1,
    Bool-cases w1,
    Bool-cases r2,
    Bool-cases w2,
    Bool-cases c1,
    Bool-cases c2,
    Bool-cases c3,
    Bool-cases c4,
    fresh,
    all,
  )

  close_four :
      (p q m n : ℕ) (s : State) (x : ℕ)
      → ds.is_open (K.close n (K.close m (K.close q (K.close p s).1).1).1).1 x
        ≡ (not (x == n) && (not (x == m) && (not (x == q) && (not (x == p) && ds.is_open s x))))
  close_four p q m n s x =
      ds.closes n _ x
      ∙ ap (λ b. not (x == n) && b)
          (ds.closes m _ x
            ∙ ap (λ b. not (x == m) && b)
                (ds.closes q _ x ∙ ap (λ b. not (x == q) && b) (ds.closes p s x)))

  -- The two pipes, before a process is forked.
  abbrev both_pipes : State → State
  both_pipes s = (K.make_pipe (K.make_pipe s).1).1

  pub fresh_here :
      (fd : ℕ) (s : State) (x : ℕ)
      → ds.is_open s fd ≡ false
      → (x == fd) ≡ true
      → ds.is_open s x ≡ false
  fresh_here fd s x e h = subst (λ y. ds.is_open s y ≡ false) (sym ((number_eqb_iff x fd).0 h)) e

  -- A descriptor that is the end of one of the pipes was not open before them.
  ends_fresh :
      (s : State) (x : ℕ)
      → let (r1, w1) = (K.make_pipe s).0 in
        let (r2, w2) = (K.make_pipe (K.make_pipe s).1).0 in
        ((x == r2) || ((x == w2) || ((x == r1) || (x == w1)))) ≡ true → ds.is_open s x ≡ false
  ends_fresh s x h =
      let s1 = (K.make_pipe s).1 in
      let (r1, w1) = (K.make_pipe s).0 in
      let (r2, w2) = (K.make_pipe s1).0 in
      let known = ds.pipes s x in
      elim (Bool-cases (x == r2)) [
        | inl e ↦ ground (
          arith,
          fresh_here r2 s1 x (ds.pipes_fresh s1).0 e,
          known,
          Bool-cases (ds.is_open s x),
          Bool-cases (x == r1),
          Bool-cases (x == w1),
        )
        | inr ne ↦ elim (Bool-cases (x == w2)) [
          | inl e ↦ ground (
            arith,
            fresh_here w2 s1 x (ds.pipes_fresh s1).1 e,
            known,
            Bool-cases (ds.is_open s x),
            Bool-cases (x == r1),
            Bool-cases (x == w1),
          )
          | inr ne' ↦ elim (Bool-cases (x == r1)) [
            | inl e ↦ fresh_here r1 s x (ds.pipes_fresh s).0 e
            | inr ne'' ↦
                fresh_here w1 s x (ds.pipes_fresh s).1
                  (ground (arith, h, ne, ne', ne'', Bool-cases (x == w1)))
          ]
        ]
      ]

  -- Four closes, of the four ends in any order, leave the descriptors from before the pipes.
  ends_closed :
      (p q m n : ℕ) (s t : State) (x : ℕ)
      → let (r1, w1) = (K.make_pipe s).0 in
        let (r2, w2) = (K.make_pipe (K.make_pipe s).1).0 in
        ((x : ℕ) → ds.is_open t x ≡ ds.is_open (both_pipes s) x)
        → ((x == p) || ((x == q) || ((x == m) || (x == n))))
          ≡ ((x == r2) || ((x == w2) || ((x == r1) || (x == w1))))
        → ds.is_open (K.close n (K.close m (K.close q (K.close p t).1).1).1).1 x ≡ ds.is_open s x
  ends_closed p q m n s t x forked all =
      let s1 = (K.make_pipe s).1 in
      let (r1, w1) = (K.make_pipe s).0 in
      let (r2, w2) = (K.make_pipe s1).0 in
      close_four p q m n t x
      ∙ ap (λ b. not (x == n) && (not (x == m) && (not (x == q) && (not (x == p) && b))))
          (forked x ∙ ds.pipes s1 x ∙ ap (λ b. (x == r2) || ((x == w2) || b)) (ds.pipes s x))
      ∙ closed_all (ds.is_open s x) (x == r1) (x == w1) (x == r2) (x == w2) (x == p) (x == q)
          (x == m) (x == n) (ends_fresh s x) all

  parent-WaitsTo :
      (fd_in fd_out : Option ℕ) (s : State) (o : Sys ℕ × State)
      → ((x : ℕ) → ds.is_open o.1 x ≡ ds.is_open (both_pipes s) x)
      → IfDone
          (λ r. WaitsTo s r)
          (parent K fd_in fd_out (K.make_pipe s).0 (K.make_pipe (K.make_pipe s).1).0 o)
  unfolding parent wait
  parent-WaitsTo fd_in fd_out s (error e, t) forked = tt
  parent-WaitsTo none none s (ok pid, t) forked =
      let (r1, w1) = (K.make_pipe s).0 in
      let (r2, w2) = (K.make_pipe (K.make_pipe s).1).0 in
      λ x. ds.waits pid _ x ∙ ends_closed r1 w2 w1 r2 s t x forked (ground arith)
  parent-WaitsTo none (some out) s (ok pid, t) forked =
      let (r1, w1) = (K.make_pipe s).0 in
      let (r2, w2) = (K.make_pipe (K.make_pipe s).1).0 in
      λ x. ds.waits pid _ x ∙ ends_closed r1 r2 w2 w1 s t x forked (ground arith)
  parent-WaitsTo (some fd) none s (ok pid, t) forked =
      let (r1, w1) = (K.make_pipe s).0 in
      let (r2, w2) = (K.make_pipe (K.make_pipe s).1).0 in
      λ x. ds.waits pid _ x ∙ ends_closed w1 r1 w2 r2 s t x forked (ground arith)
  parent-WaitsTo (some fd) (some out) s (ok pid, t) forked =
      let (r1, w1) = (K.make_pipe s).0 in
      let (r2, w2) = (K.make_pipe (K.make_pipe s).1).0 in
      λ x. ds.waits pid _ x ∙ ends_closed w1 r1 r2 w2 s t x forked (ground arith)

  -- Let the system account for the open descriptors. If a child is started, with or without
  -- descriptors of the caller, then after its wait the parent has the descriptors open that it had
  -- before: every end of both pipes is closed.
  pub subprocess-wait :
      (fd_in fd_out : Option ℕ) (file : String) (argv : List String) (s t : State) (p : Subprocess)
      → subprocess K fd_in fd_out file argv s ≡ done (p, t)
      → (x : ℕ) → ds.is_open (wait K p t).2 x ≡ ds.is_open s x
  unfolding subprocess
  subprocess-wait fd_in fd_out file argv s t p e =
      subst (λ o. IfDone (λ r. WaitsTo s r) o) e
        (parent-WaitsTo fd_in fd_out s _ (λ x. ds.forks _ _ file argv (both_pipes s) x))
