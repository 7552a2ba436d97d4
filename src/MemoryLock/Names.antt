-- ===== src/MemoryLock/Names.antt =====
-- memory_lock.cpp: the names of the values of `memory_lock` in the options.
use Prim.Native.String.{String}
use text.Mathlib.Text.{◌==◌}
use text.Mathlib.TextEquality.{eq_iff}
use asymmetricfs.Prelude.{
  true, Option, none, some, ◌≡◌, ◌↔◌, refl, if◌then◌else◌, Bool-cases, inl, inr, ◌∙◌, sym, arith,
  ap, subst,
}
use asymmetricfs.MemoryLock.{MemoryLock}

-- `operator<<`
unfoldable pub print : MemoryLock → String
print MemoryLock.all = "all"
print MemoryLock.buffers = "buffers"
print MemoryLock.none = "none"

-- The value that `validate` finds, or `none` where it throws a `validation_error`.
unfoldable pub validate : String → Option MemoryLock
validate m =
    if m == "all"
    then some MemoryLock.all
    else if m == "buffers"
    then some MemoryLock.buffers
    else if m == "none"
    then some MemoryLock.none
    else none

read_back : (m : MemoryLock) → validate (print m) ≡ some m
unfolding validate print
read_back MemoryLock.all = refl
read_back MemoryLock.buffers = refl
read_back MemoryLock.none = refl

named :
    (name text : String) (m n : MemoryLock)
    → validate name ≡ some m
    → validate name ≡ some n
    → print n ≡ text
    → (name == text) ≡ true
    → print m ≡ name
named name text m n h k e same =
    let one : m ≡ n = cc in ap print one ∙ e ∙ sym ((eq_iff name text).0 same)

-- validate reads a name as a value exactly if operator<< prints that value as that name.
validate-print : (name : String) (m : MemoryLock) → (validate name ≡ some m) ↔ (print m ≡ name)
unfolding validate print
validate-print name m = (
  λ h. elim (Bool-cases (name == "all")) [
    | inl a ↦ named name "all" m MemoryLock.all h (rw a refl) refl a
    | inr not_all ↦ elim (Bool-cases (name == "buffers")) [
      | inl b ↦ named name "buffers" m MemoryLock.buffers h (rw (not_all, b) refl) refl b
      | inr not_buffers ↦ elim (Bool-cases (name == "none")) [
        | inl n ↦ named name "none" m MemoryLock.none h (rw (not_all, not_buffers, n) refl) refl n
        | inr not_none ↦ absurd (ground (arith, h, not_all, not_buffers, not_none))
      ]
    ]
  ],
  λ e. subst (λ text. validate text ≡ some m) e (read_back m),
)
