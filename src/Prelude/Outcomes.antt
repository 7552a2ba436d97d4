-- ===== src/Prelude/Outcomes.antt =====
-- How a call ends: it returns, an `assert` fails (the program is built with assertions), it throws
-- an exception, or the fuel of a loop of the model runs out.
use mathlib.Core.Path.{◌≡◌, refl}
use mathlib.Core.Bool.{Bool, true, false}
use mathlib.Core.Option.{Option, none, some}
use asymmetricfs.Prelude.Tests.{if◌then◌else◌}

pub data Exception : Type 0 where
  bad_alloc runtime_error invalid_gpg_recipient : Exception

pub data Outcome {ℓ} (A : Type ℓ) : Type ℓ where
  done : A → Outcome A
  aborts : Outcome A
  throws : Exception → Outcome A
  out_of_fuel : Outcome A

infixl 5 ◌>>=◌ ◌>>◌
abbrev pub ◌>>=◌ {ℓ κ} : {A : Type ℓ} {B : Type κ} → Outcome A → (A → Outcome B) → Outcome B
done a >>= f = f a
aborts >>= f = aborts
throws e >>= f = throws e
out_of_fuel >>= f = out_of_fuel

abbrev pub ◌>>◌ {ℓ} : {B : Type ℓ} → Outcome (Unit {0}) → Outcome B → Outcome B
m >> k = m >>= λ _. k

-- `assert(b)`
abbrev pub assert : Bool → Outcome (Unit {0})
assert true = done tt
assert false = aborts

-- The predicate holds of what the call returns, if it returns.
abbrev pub IfDone {ℓ} : {A : Type ℓ} → (A → Type 0) → Outcome A → Type 0
IfDone P (done a) = P a
IfDone P aborts = Unit
IfDone P (throws e) = Unit
IfDone P out_of_fuel = Unit

pub bind-IfDone {ℓ κ} :
    {A : Type ℓ} {B : Type κ} (P : B → Type 0) (Q : A → Type 0) (o : Outcome A) (f : A → Outcome B)
    → IfDone Q o
    → ((a : A) → Q a → IfDone P (f a))
    → IfDone P (o >>= f)
bind-IfDone P Q (done a) f q h = h a q
bind-IfDone P Q aborts f q h = tt
bind-IfDone P Q (throws e) f q h = tt
bind-IfDone P Q out_of_fuel f q h = tt

-- The same where nothing is known of the first call.
pub then-IfDone {ℓ κ} :
    {A : Type ℓ} {B : Type κ} (P : B → Type 0) (o : Outcome A) (f : A → Outcome B)
    → ((a : A) → IfDone P (f a))
    → IfDone P (o >>= f)
then-IfDone P (done a) f h = h a
then-IfDone P aborts f h = tt
then-IfDone P (throws e) f h = tt
then-IfDone P out_of_fuel f h = tt

pub if-IfDone {ℓ} :
    {A : Type ℓ} (P : A → Type 0) (b : Bool) (x y : Outcome A)
    → (b ≡ true → IfDone P x)
    → (b ≡ false → IfDone P y)
    → IfDone P (if b then x else y)
if-IfDone P true x y h k = h refl
if-IfDone P false x y h k = k refl

pub option-IfDone {ℓ κ} :
    {V : Type ℓ} {A : Type κ} (P : A → Type 0) (o : Option V) (x : Outcome A) (f : V → Outcome A)
    → (o ≡ none → IfDone P x)
    → ((v : V) → o ≡ some v → IfDone P (f v))
    → IfDone P (elim o [ none ↦ x | some v ↦ f v ])
option-IfDone P none x f h k = h refl
option-IfDone P (some v) x f h k = k v refl

pub map-IfDone {ℓ} :
    {A : Type ℓ} (P Q : A → Type 0) (o : Outcome A)
    → IfDone Q o
    → ((a : A) → Q a → P a)
    → IfDone P o
map-IfDone P Q (done a) q h = h a q
map-IfDone P Q aborts q h = tt
map-IfDone P Q (throws e) q h = tt
map-IfDone P Q out_of_fuel q h = tt

pub assert-true {ℓ} : {A : Type ℓ} (b : Bool) (k : Outcome A) → b ≡ true → (assert b >> k) ≡ k
assert-true true k h = refl
assert-true false k h = cc

pub assert-IfDone {ℓ} :
    {A : Type ℓ} (P : A → Type 0) (b : Bool) (k : Outcome A)
    → (b ≡ true → IfDone P k)
    → IfDone P (assert b >> k)
assert-IfDone P true k h = h refl
assert-IfDone P false k h = tt
