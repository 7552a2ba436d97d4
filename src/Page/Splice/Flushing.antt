-- ===== src/Page/Splice/Flushing.antt =====
-- `flush_iov` sends its vector whole into a pipe that is open.
use asymmetricfs.Prelude.{
  ℕ, zero, suc, ◌+◌, ◌-◌, ◌≤◌, ◌<◌, ◌≡◌, refl, ap, subst, ◌∙◌, inl, inr, Bool, List, [], ◌∷◌,
  Option, some, min, Memory, Outcome, done, arith, u64_mod, sub64, sub64_lem, Bool-cases, leb, ◌==◌,
  false,
}
use asymmetricfs.Page.Pipe.{Iovec, Pipe, IsOpen, Appended, total, iov_byte}
use asymmetricfs.Page.Splice.{advance, after_splice, flush_iov, flush}

-- No buffer of the vector is empty, and none is longer than memory.
abbrev pub AllPositive : List Iovec → Type 0
AllPositive [] = Unit
AllPositive (v ∷ ios) = (0 < v.iov_len) × (v.iov_len < u64_mod) × AllPositive ios

-- What `advance` has to leave.
abbrev Advances : List Iovec → ℕ → List Iovec → Type 0
Advances ios bytes rest =
    AllPositive rest
    × (total rest + bytes ≡ total ios)
    × ((i : ℕ) → iov_byte rest i ≡ iov_byte ios (i + bytes))

advance-used :
    (v : Iovec) (ios : List Iovec) (bytes : ℕ)
    → 0 < v.iov_len
    → v.iov_len ≤ bytes
    → bytes < u64_mod
    → advance (v ∷ ios) bytes ≡ advance ios (bytes - v.iov_len)
unfolding advance
advance-used v ios bytes pos h t =
    let used : min v.iov_len bytes ≡ v.iov_len = omega arith in
    let none_left : sub64 v.iov_len v.iov_len ≡ 0 =
      sub64_lem v.iov_len v.iov_len (omega arith) (omega arith) ∙ omega arith in
    let some_bytes : (bytes == 0) ≡ false = ground arith in
    rw (some_bytes, used, none_left, sub64_lem bytes v.iov_len h t)

advance-part :
    (v : Iovec) (ios : List Iovec) (bytes : ℕ)
    → 0 < bytes
    → bytes < v.iov_len
    → v.iov_len < u64_mod
    → advance (v ∷ ios) bytes
      ≡ record { iov_base = λ i. v.iov_base (i + bytes); iov_len = v.iov_len - bytes } ∷ ios
unfolding advance
advance-part v ios bytes pos h t =
    let all_taken : min v.iov_len bytes ≡ bytes = omega arith in
    let some_bytes : (bytes == 0) ≡ false = ground arith in
    let some_left : (v.iov_len - bytes == 0) ≡ false = ground arith in
    rw (some_bytes, all_taken, sub64_lem v.iov_len bytes (omega arith) t, some_left)

advance-zero : (ios : List Iovec) → advance ios 0 ≡ ios
unfolding advance
advance-zero [] = refl
advance-zero (v ∷ ios) = refl

advance-Advances :
    (ios : List Iovec) (bytes : ℕ)
    → AllPositive ios
    → bytes ≤ total ios
    → bytes < u64_mod
    → Advances ios bytes (advance ios bytes)
advance-Advances [] bytes w h t = unfold advance in (tt, omega arith, λ i. refl)
advance-Advances (v ∷ ios) zero w h t =
    rw (advance-zero (v ∷ ios)) (w, omega arith, λ i. ap (iov_byte (v ∷ ios)) (omega arith))
advance-Advances (v ∷ ios) (suc bytes) w h t = elim (Bool-cases (leb v.iov_len (suc bytes))) [
  | inl all ↦
      let used : v.iov_len ≤ suc bytes = ground arith in
      let (a1, a2, a3) =
        advance-Advances ios (suc bytes - v.iov_len) w.2 (omega arith) (omega arith) in
      rw (advance-used v ios (suc bytes) w.0 used t) (a1, omega arith, λ i. a3 i ∙ ground arith)
  | inr part ↦
      let short : suc bytes < v.iov_len = ground arith in
      rw (advance-part v ios (suc bytes) (omega arith) short w.1)
        ((omega arith, omega arith, w.2), omega arith, λ i. ground arith)
]

module _ (P : Pipe) where
  open P use {State, count, byte}

  pub Appended-nil : (s : State) (from : Memory) → Appended P s s 0 from
  Appended-nil s from = (omega arith, λ i h. ground arith)

  -- Bytes after bytes.
  pub Appended-trans :
      (s t u : State) (n m : ℕ) (from from' : Memory)
      → Appended P s t n from
      → Appended P t u m from'
      → ((i : ℕ) → from' i ≡ from (i + n))
      → Appended P s u (n + m) from
  Appended-trans s t u n m from from' (c, b) (c', b') next =
      (omega arith, λ i h. ground (arith, b' i h, b i, next (i - count t)))

  pub Appended-same :
      (s t : State) (n : ℕ) (from from' : Memory)
      → Appended P s t n from
      → ((i : ℕ) → i < n → from i ≡ from' i)
      → Appended P s t n from'
  Appended-same s t n from from' (c, b) same =
      (c, λ i h. b i h ∙ ground (arith, same (i - count s)))

module _ (P : Pipe) (mmap : Bool → ℕ → Bool) (lawful : IsOpen P) where
  open P use {State, count, byte}

  flush_iov-next :
      (fuel : ℕ) (v : Iovec) (ios : List Iovec) (flags r : ℕ) (s t : State)
      → P.vmsplice (v ∷ ios) flags s ≡ (some r, t)
      → flush_iov P mmap (suc fuel) (v ∷ ios) flags s
        ≡ flush_iov P mmap fuel (advance (v ∷ ios) r) flags t
  unfolding flush_iov after_splice
  flush_iov-next fuel v ios flags r s t e =
      ap (after_splice P mmap (λ rest u. flush_iov P mmap fuel rest flags u) (v ∷ ios)) e

  -- What a call that sends a vector has to bring about.
  abbrev pub Sends : List Iovec → State → Outcome (Option ℕ × State) → Type 0
  Sends ios s r = (t : State) × (r ≡ done (some 0, t)) × Appended P s t (total ios) (iov_byte ios)

  Sends-after :
      (ios rest : List Iovec) (s t : State) (n : ℕ) (r : Outcome (Option ℕ × State))
      → Appended P s t n (iov_byte ios)
      → Advances ios n rest
      → Sends rest t r
      → Sends ios s r
  Sends-after ios rest s t n r b (a1, a2, a3) (u, e, b') =
      let sum : n + total rest ≡ total ios = omega arith in
      (
        u,
        e,
        subst (λ m. Appended P s u m (iov_byte ios)) sum
            (Appended-trans P s t u n (total rest) (iov_byte ios) (iov_byte rest) b b' a3),
      )

  flush_iov-Sends :
      (fuel : ℕ) (ios : List Iovec) (flags : ℕ) (s : State)
      → AllPositive ios
      → total ios < fuel
      → total ios < u64_mod
      → Sends ios s (flush_iov P mmap fuel ios flags s)
  flush_iov-Sends zero ios flags s w h t = absurd (omega arith)
  flush_iov-Sends (suc fuel) [] flags s w h t =
      (s, unfold flush_iov in refl, Appended-nil P s (iov_byte []))
  flush_iov-Sends (suc fuel) (v ∷ ios) flags s w h t =
      let (r, s1, e, r1, r2, b1) = lawful.splices (v ∷ ios) flags s (omega arith) in
      let a = advance-Advances (v ∷ ios) r w r2 (omega arith) in
      rw (flush_iov-next fuel v ios flags r s s1 e) (
        Sends-after (v ∷ ios) (advance (v ∷ ios) r) s s1 r _ b1 a
          (flush_iov-Sends fuel (advance (v ∷ ios) r) flags s1 a.0 (omega arith) (omega arith)))

  -- On an open pipe flush_iov returns 0 and has sent a vector whole and in order, if no buffer of
  -- the vector is empty or longer than memory and the vector is shorter than 2 ^ 64: the fuel of
  -- one round for each byte is enough, however few bytes each call takes.
  pub flush-Sends :
      (ios : List Iovec) (flags : ℕ) (s : State)
      → AllPositive ios
      → total ios < u64_mod
      → Sends ios s (flush P mmap ios flags s)
  unfolding flush
  flush-Sends ios flags s w t = flush_iov-Sends (suc (total ios)) ios flags s w (omega arith) t
