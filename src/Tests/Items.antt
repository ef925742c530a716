-- ===== src/Tests/Items.antt =====
-- The theorems on the flags, the items of the environment and the included scripts at concrete values.
use go_sieve.Interp.Compare.{match_count, octet}
use go_sieve.Interp.Expand.{reference_at, pieces, replaced, match_number, expand_vars}
use go_sieve.Interp.Flagged.{IsRead, is_key, check_has_flag-member}
use go_sieve.Interp.Flags.{unalias, take_flag, take_fields, take_flags, canonical_flags}
use go_sieve.Interp.Include.{Include, Opened, new_include_state, ScriptLoader, cmd_include}
use go_sieve.Interp.Items.{environment_item, check_environment, variable_flags, check_has_flag}
use go_sieve.Interp.Matcher.{MatcherTest}
use go_sieve.Interp.Relational.{gt, eq}
use go_sieve.Interp.Runtime.{RuntimeData}
use go_sieve.Interp.Scoped.{IsScoped, IsBalancedLoader, nested_none, cmd_include-IsScoped}
use go_sieve.Interp.Script.{requires_extension, namespace_named, variable_in, variable_of}
use go_sieve.Interp.Text.{member, to_lower, lower_byte, cut, fields, fields_from}
use go_sieve.Interp.Unknown.{IsUnknown, check_environment-IsUnknown}
use go_sieve.Interp.Variables.{match_variable, var, var_in}
use go_sieve.Lexer.Scan.{is_valid_identifier, is_letter, is_digit, is_identifier_byte}
use go_sieve.Prelude.{◌≡◌, refl, true, false, [], ◌∷◌, none, some, ok, codes, equal, lookup}
use go_sieve.Tests.Branches.{start}
use go_sieve.Tests.Matching.{services}

-- A variable that holds two flags.
abbrev flagged : RuntimeData
flagged = record start { variables = (codes "f", codes "a b") ∷ [] }

key-fixed : expand_vars flagged (codes "b") ≡ ok (codes "b")
unfolding expand_vars requires_extension member equal replaced pieces reference_at
key-fixed = refl

f-IsRead : IsRead flagged (codes "f", codes "a b")
unfolding var var_in variable_of variable_in namespace_named to_lower lower_byte cut match_variable
    match_number equal lookup member requires_extension is_valid_identifier is_letter is_digit
    is_identifier_byte
f-IsRead = refl

check_has_flag-member_example :
    check_has_flag services (is_key gt (codes "b")) (codes "f" ∷ []) flagged ≡ ok (true, none)
unfolding variable_flags canonical_flags take_flags take_fields take_flag unalias fields fields_from
    member equal lookup
check_has_flag-member_example =
    check_has_flag-member services flagged gt (codes "b") ((codes "f", codes "a b") ∷ []) key-fixed
      (f-IsRead, tt)

-- A host that knows one item, and a test of how many items there are.
abbrev hosted : RuntimeData
hosted = record start { env = some (λ name. (codes "x", equal name (codes "name"))) }

abbrev is_none : MatcherTest
is_none = record {
  comparator = octet;
  match = match_count;
  relational = eq;
  keys = (codes "0", none) ∷ [];
}

phase-IsUnknown : IsUnknown hosted (codes "phase")
unfolding expand_vars requires_extension member equal replaced pieces reference_at environment_item
    to_lower lower_byte
phase-IsUnknown = (codes "phase", refl, refl)

check_environment-IsUnknown_example :
    (check_environment services is_none (codes "name" ∷ codes "phase" ∷ []) hosted
      ≡ check_environment services is_none (codes "name" ∷ []) hosted)
    × (check_environment services is_none (codes "phase" ∷ []) hosted ≡ ok (false, none))
check_environment-IsUnknown_example =
    check_environment-IsUnknown services is_none hosted (codes "name" ∷ []) (codes "phase") []
      (codes "phase" ∷ []) phase-IsUnknown (phase-IsUnknown, tt)

-- An included script that sets a variable, and changes the match variables.
abbrev opened : Opened
opened = ok (
    some (
      ok (
        start.script,
        λ d. (
          ok tt,
          record d { variables = (codes "v", []) ∷ []; match_variables = codes "m" ∷ [] },
        ),
      )))

abbrev one_script : ScriptLoader
one_script = record {
  load_personal_script = λ options name. opened;
  load_global_script = λ options name. ok none;
}

one_script-IsBalancedLoader : IsBalancedLoader one_script
one_script-IsBalancedLoader = λ options name. (λ d n. refl, tt)

abbrev include_b : Include
include_b = record { location = codes "personal"; once = true; optional = false; name = codes "b" }

cmd_include-IsScoped_example :
    IsScoped flagged ((cmd_include (some one_script) include_b flagged).1)
unfolding new_include_state
cmd_include-IsScoped_example =
    cmd_include-IsScoped one_script include_b flagged one_script-IsBalancedLoader nested_none
