-- ===== src/Files/Every.antt =====
-- A property of every file of the table.
use asymmetricfs.Prelude.{
  ℕ, ◌≡◌, sym, subst, ◌∙◌, inl, inr, List, Option, none, some, Option-cases, arith, lookup, insert,
  assign, erase, text_key, number_key, eqb-cases, lookup-insert_new, lookup-insert_old,
  lookup-insert_other, lookup-assign_self, lookup-assign_other, lookup-erase_self,
  lookup-erase_other,
}
use asymmetricfs.Files.{Internal}

-- Every file of the table has the property.
abbrev pub Every : (Internal → Type 0) → List (ℕ × Internal) → Type 0
Every Q fds = (handle : ℕ) (d : Internal) → lookup handle fds ≡ some d → Q d

module _ (Q : Internal → Type 0) where
  found_is : (o : Option Internal) (d e : Internal) → o ≡ some d → o ≡ some e → Q d → Q e
  found_is o d e p q h = let same : d ≡ e = cc in subst (λ x. Q x) same h

  pub insert-Every :
      (next : ℕ) (d : Internal) (fds : List (ℕ × Internal))
      → Every Q fds
      → Q d
      → Every Q (insert next d fds)
  insert-Every next d fds all new handle e found = elim (eqb-cases next handle) [
    | inr other ↦ all handle e (sym (lookup-insert_other next handle d fds other) ∙ found)
    | inl same ↦ elim (Option-cases (lookup next fds)) [
      | inl free ↦
          found_is (lookup handle (insert next d fds)) d e
            (subst (λ h. lookup h (insert next d fds) ≡ some d) same
              (lookup-insert_new next d fds free))
            found new
      | inr (d', before) ↦
          all handle e
            (subst (λ m. lookup handle m ≡ some e) (lookup-insert_old next d d' fds before) found)
    ]
  ]

  pub assign-Every :
      (handle : ℕ) (d d' : Internal) (fds : List (ℕ × Internal))
      → Every Q fds
      → lookup handle fds ≡ some d
      → Q d'
      → Every Q (assign handle d' fds)
  assign-Every handle d d' fds all there new h e found = elim (eqb-cases handle h) [
    | inr other ↦ all h e (sym (lookup-assign_other handle h d' fds other) ∙ found)
    | inl same ↦
        found_is (lookup h (assign handle d' fds)) d' e
          (subst (λ n. lookup n (assign handle d' fds) ≡ some d') same
            (lookup-assign_self handle d' d fds there))
          found new
  ]

  pub erase-Every :
      (handle : ℕ) (fds : List (ℕ × Internal)) → Every Q fds → Every Q (erase handle fds)
  erase-Every handle fds all h e found = elim (eqb-cases handle h) [
    | inr other ↦ all h e (sym (lookup-erase_other handle h fds other) ∙ found)
    | inl same ↦
        let gone =
          subst (λ n. lookup n (erase handle fds) ≡ none) same (lookup-erase_self handle fds) in
        absurd (ground (arith, gone, found))
  ]
