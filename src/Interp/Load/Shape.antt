-- ===== src/Interp/Load/Shape.antt =====
-- interp/load_generic.go: what a specification is, and the errors of the loaders. What the functions of a
-- specification set is a value of type `S`; the positions of errors are left out.
use go_sieve.Interp.Checks
use go_sieve.Interp.Execute
use go_sieve.Interp.Keys.{KeyError}
use go_sieve.Interp.Script.{Script, requires_extension}
use go_sieve.Prelude.{
  ℕ, ℤ, Bool, true, false, List, [], ◌∷◌, Option, none, if◌then◌else◌, Bytes, Result, ok, err,
}

-- The errors of the loaders. `unmodelled` is the model's own, for a command or test of an extension
-- that is outside the model.
pub data LoadError : Type 0 where
  number_required string_required single_string strings_count too_many_arguments value_required :
      LoadError
  missing_argument missing_matcher malformed_characters : LoadError
  unknown_tag unsupported_command unsupported_test unmodelled unsupported_extension :
      Bytes → LoadError
  no_tests_allowed test_required one_test_allowed block_required no_block_allowed : LoadError
  missing_require : Bytes → LoadError
  missing_flags one_variable_name conflicting_modifiers cannot_set over_or_under mime_tags :
      LoadError
  invalid_name : Bytes → LoadError
  key_error : KeyError → LoadError

-- The function of a specification; one has no more than one.
pub data Matcher (S : Type 0) : Type 0 where
  match_str : (List Bytes → S → S) → Matcher S
  match_num : (ℤ → S → S) → Matcher S
  match_bool : (S → S) → Matcher S

-- `SpecTag`. `NoVariables`, which no code depends on, is left out.
pub record SpecTag (S : Type 0) : Type 0 where
  pub needs_value : Bool
  pub matcher : Matcher S
  pub min_str_count : ℕ
  pub max_str_count : ℕ

-- `SpecPosArg`
pub record SpecPosArg (S : Type 0) : Type 0 where
  pub optional : Bool
  pub matcher : Matcher S
  pub min_str_count : ℕ
  pub max_str_count : ℕ

-- `Spec`
pub record Spec (S : Type 0) : Type 0 where
  pub tags : List (Bytes × SpecTag S)
  pub pos : List (SpecPosArg S)
  pub add_block : Option (Execute.Cmds → S → S)
  pub block_optional : Bool
  pub add_test : Option (Checks.Test → S → S)
  pub test_optional : Bool
  pub multiple_tests : Bool

-- Specifications without tests and without a block, and their parts.
abbrev pub plain_spec : {S : Type 0} → List (Bytes × SpecTag S) → List (SpecPosArg S) → Spec S
plain_spec tags pos = record {
  tags = tags;
  pos = pos;
  add_block = none;
  block_optional = false;
  add_test = none;
  test_optional = false;
  multiple_tests = false;
}

abbrev pub bool_tag : {S : Type 0} → (S → S) → SpecTag S
bool_tag f = record {
  needs_value = false;
  matcher = match_bool f;
  min_str_count = 0;
  max_str_count = 0;
}

abbrev pub str_tag : {S : Type 0} → ℕ → ℕ → (List Bytes → S → S) → SpecTag S
str_tag least most f = record {
  needs_value = true;
  matcher = match_str f;
  min_str_count = least;
  max_str_count = most;
}

abbrev pub str_arg : {S : Type 0} → ℕ → ℕ → (List Bytes → S → S) → SpecPosArg S
str_arg least most f = record {
  optional = false;
  matcher = match_str f;
  min_str_count = least;
  max_str_count = most;
}

-- `val[0]`, of values that are not empty by `MinStrCount`.
abbrev pub first : List Bytes → Bytes
first [] = []
first (v ∷ l) = v

unfoldable pub need : Script → Bytes → Result LoadError Unit
need s ext = if requires_extension s ext then ok tt else err (missing_require ext)

-- An argument that wants an extension.
unfoldable pub need_if : Bool → Script → Bytes → Result LoadError Unit
need_if b s ext = if b then need s ext else ok tt
