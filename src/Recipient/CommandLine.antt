-- ===== src/Recipient/CommandLine.antt =====
-- `validate` of gpg_recipient.cpp, which boost calls for a recipient of the command line.
use Prim.Native.String.{String}
use asymmetricfs.Prelude.{
  ◌≡◌, refl, ◌⊎◌, inl, inr, List, Option, none, some, Outcome, done, aborts, throws, out_of_fuel,
  invalid_gpg_recipient, bad_alloc, runtime_error,
}

-- The constructor `gpg_recipient`; a recipient is its name
unfoldable pub gpg_recipient : String → Outcome String
gpg_recipient r = done r

-- What becomes of the value: boost refuses the option, with an exception of its own or with one of
-- invalid_option_value, or the value is set.
pub data Validation (Refusal : Type 0) : Type 0 where
  refused : Refusal → Validation Refusal
  invalid_option_value : Validation Refusal
  valued : String → Validation Refusal

-- Two validators of boost are parameters: one refuses a value that is set, the other takes the only
-- string of some.
module _ (Refusal : Type 0) (check_first_occurrence : Option String → Option Refusal)
    (get_single_string : List String → Refusal ⊎ String) where
  unfoldable pub converted : Outcome String → Outcome (Validation Refusal)
  converted (done r) = done (valued r)
  converted (throws invalid_gpg_recipient) = done invalid_option_value
  converted (throws bad_alloc) = throws bad_alloc
  converted (throws runtime_error) = throws runtime_error
  converted aborts = aborts
  converted out_of_fuel = out_of_fuel

  unfoldable pub validate_single : Refusal ⊎ String → Outcome (Validation Refusal)
  validate_single (inl e) = done (refused e)
  validate_single (inr r) = converted (gpg_recipient r)

  unfoldable pub validate_option : Option String → List String → Outcome (Validation Refusal)
  validate_option v values = elim (check_first_occurrence v) [
    | some e ↦ done (refused e)
    | none ↦ validate_single (get_single_string values)
  ]

  -- boost accepts whatever is the only string for the option: a key is asked for later, by `main`.
  validate_option_single :
      (v : Option String) (values : List String) (r : String)
      → check_first_occurrence v ≡ none
      → get_single_string values ≡ inr r
      → validate_option v values ≡ done (valued r)
  unfolding validate_option validate_single converted gpg_recipient
  validate_option_single v values r first single =
      rw (first, validate_option) (rw (single, validate_single) refl)
