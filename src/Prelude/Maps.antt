-- ===== src/Prelude/Maps.antt =====
-- `unordered_map` as an association list. A map has a key once, so an erasure may go through the
-- whole list.
use mathlib.Core.Path.{◌≡◌, refl}
use mathlib.Core.Logic.{◌≢◌, ◌↔◌, ◌⊎◌, inl, inr}
use mathlib.Core.Bool.{Bool, true, false}
use mathlib.Core.List.{List, [], ◌∷◌}
use mathlib.Core.Option.{Option, none, some}
use native.Mathlib.Omega.{arith}
use Prim.Native.Nat.{ℕ}
use Prim.Native.String.{String}
use text.Mathlib.Text
use text.Mathlib.TextEquality.{eq_iff}
use asymmetricfs.Prelude.Tests.{◌==◌, if◌then◌else◌, Bool-cases}

-- Equality of keys.
pub record KeyEq {ℓ} (K : Type ℓ) : Type ℓ where
  pub eqb : K → K → Bool
  pub eqb_iff : (a b : K) → (eqb a b ≡ true) ↔ (a ≡ b)

module _ {ℓ} {K : Type ℓ} ⦃e : KeyEq K⦄ where
  open e use {eqb}

  pub eqb-true : (a b : K) → eqb a b ≡ true → a ≡ b
  eqb-true a b h = (e.eqb_iff a b).0 h

  pub eqb_self : (a : K) → eqb a a ≡ true
  eqb_self a = (e.eqb_iff a a).1 refl

  pub eqb-other : (a b : K) → a ≢ b → eqb a b ≡ false
  eqb-other a b h = elim (Bool-cases (eqb a b)) [
    | inl same ↦ absurd (h (eqb-true a b same))
    | inr other ↦ other
  ]

  pub eqb-cases : (a b : K) → (a ≡ b) ⊎ (a ≢ b)
  eqb-cases a b = elim (Bool-cases (eqb a b)) [
    | inl same ↦ inl (eqb-true a b same)
    | inr other ↦ inr (λ p. ground (arith, (e.eqb_iff a b).1 p))
  ]

module _ {ℓ κ} {K : Type ℓ} {V : Type κ} ⦃e : KeyEq K⦄ where
  open e use {eqb}

  -- `find`
  unfoldable pub lookup : K → List (K × V) → Option V
  lookup key [] = none
  lookup key ((k, v) ∷ m) = if eqb k key then some v else lookup key m

  -- `insert`: an entry that is there stays.
  unfoldable pub insert : K → V → List (K × V) → List (K × V)
  insert key v [] = (key, v) ∷ []
  insert key v ((k, w) ∷ m) = if eqb k key then (k, w) ∷ m else (k, w) ∷ insert key v m

  -- A write to the value at a key.
  unfoldable pub assign : K → V → List (K × V) → List (K × V)
  assign key v [] = []
  assign key v ((k, w) ∷ m) = if eqb k key then (k, v) ∷ m else (k, w) ∷ assign key v m

  unfoldable pub erase : K → List (K × V) → List (K × V)
  erase key [] = []
  erase key ((k, w) ∷ m) = let rest = erase key m in if eqb k key then rest else (k, w) ∷ rest

  -- At the key itself, by the comparison with the first entry.
  pub lookup-insert_new :
      (key : K) (v : V) (m : List (K × V))
      → lookup key m ≡ none
      → lookup key (insert key v m) ≡ some v
  unfolding lookup insert
  lookup-insert_new key v [] h = rw (eqb_self key) refl
  lookup-insert_new key v ((k, w) ∷ m) h =
      ground (arith, lookup-insert_new key v m, Bool-cases (eqb k key))

  pub lookup-insert_old :
      (key : K) (v w : V) (m : List (K × V)) → lookup key m ≡ some w → insert key v m ≡ m
  unfolding lookup insert
  lookup-insert_old key v w [] h = ground arith
  lookup-insert_old key v w ((k, u) ∷ m) h =
      ground (arith, lookup-insert_old key v w m, Bool-cases (eqb k key))

  pub lookup-insert_other :
      (key other : K) (v : V) (m : List (K × V))
      → key ≢ other
      → lookup other (insert key v m) ≡ lookup other m
  unfolding lookup insert
  lookup-insert_other key other v [] h = rw (eqb-other key other h) refl
  lookup-insert_other key other v ((k, w) ∷ m) h = elim (Bool-cases (eqb k key)) [
    | inl same ↦ rw same refl
    | inr different ↦ rw different (ground (arith, lookup-insert_other key other v m h))
  ]

  pub lookup-assign_self :
      (key : K) (v w : V) (m : List (K × V))
      → lookup key m ≡ some w
      → lookup key (assign key v m) ≡ some v
  unfolding lookup assign
  lookup-assign_self key v w [] h = ground arith
  lookup-assign_self key v w ((k, u) ∷ m) h =
      ground (arith, lookup-assign_self key v w m, Bool-cases (eqb k key))

  pub lookup-assign_other :
      (key other : K) (v : V) (m : List (K × V))
      → key ≢ other
      → lookup other (assign key v m) ≡ lookup other m
  unfolding lookup assign
  lookup-assign_other key other v [] h = refl
  lookup-assign_other key other v ((k, w) ∷ m) h = elim (Bool-cases (eqb k key)) [
    | inl same ↦ let e = eqb-true k key same in rw (same, e, eqb-other key other h) refl
    | inr different ↦ rw different (ground (arith, lookup-assign_other key other v m h))
  ]

  pub lookup-erase_self : (key : K) (m : List (K × V)) → lookup key (erase key m) ≡ none
  unfolding lookup erase
  lookup-erase_self key [] = refl
  lookup-erase_self key ((k, w) ∷ m) =
      ground (arith, lookup-erase_self key m, Bool-cases (eqb k key))

  pub lookup-erase_other :
      (key other : K) (m : List (K × V)) → key ≢ other → lookup other (erase key m) ≡ lookup other m
  unfolding lookup erase
  lookup-erase_other key other [] h = refl
  lookup-erase_other key other ((k, w) ∷ m) h = elim (Bool-cases (eqb k key)) [
    | inl same ↦
        let e = eqb-true k key same in
        rw (same, lookup-erase_other key other m h, e, eqb-other key other h) refl
    | inr different ↦ rw different (ground (arith, lookup-erase_other key other m h))
  ]

module _ {ℓ κ} {K : Type ℓ} {V : Type κ} ⦃e : KeyEq K⦄ where
  pub assign-assign :
      (key : K) (v w : V) (m : List (K × V)) → assign key v (assign key w m) ≡ assign key v m
  unfolding assign
  assign-assign key v w [] = refl
  assign-assign key v w ((k, u) ∷ m) =
      ground (arith, assign-assign key v w m, Bool-cases (e.eqb k key))

  pub assign-same :
      (key : K) (v : V) (m : List (K × V)) → lookup key m ≡ some v → assign key v m ≡ m
  unfolding assign lookup
  assign-same key v [] h = refl
  assign-same key v ((k, u) ∷ m) h = ground (arith, assign-same key v m, Bool-cases (e.eqb k key))

module _ {ℓ κ} {K : Type ℓ} {V : Type κ} ⦃e : KeyEq K⦄ where
  -- `m[key] = v`
  unfoldable pub put : K → V → List (K × V) → List (K × V)
  put key v [] = (key, v) ∷ []
  put key v ((k, w) ∷ m) = if e.eqb k key then (k, v) ∷ m else (k, w) ∷ put key v m

  pub lookup-put_self : (key : K) (v : V) (m : List (K × V)) → lookup key (put key v m) ≡ some v
  unfolding lookup put
  lookup-put_self key v [] = rw (eqb_self key) refl
  lookup-put_self key v ((k, w) ∷ m) =
      ground (arith, lookup-put_self key v m, Bool-cases (e.eqb k key))

  pub erase-put :
      (key : K) (v : V) (m : List (K × V)) → lookup key m ≡ none → erase key (put key v m) ≡ m
  unfolding erase put lookup
  erase-put key v [] h = rw (eqb_self key) refl
  erase-put key v ((k, w) ∷ m) h = ground (arith, erase-put key v m, Bool-cases (e.eqb k key))

pub number_eqb_iff : (a b : ℕ) → ((a == b) ≡ true) ↔ (a ≡ b)
number_eqb_iff a b = (λ h. ground arith, λ h. ground arith)

-- Numbers and texts as keys.
instance abbrev pub number_key : KeyEq ℕ
number_key = record { eqb = ◌==◌; eqb_iff = number_eqb_iff }

instance abbrev pub text_key : KeyEq String
text_key = record { eqb = text.Mathlib.Text.◌==◌; eqb_iff = eq_iff }
