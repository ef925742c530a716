-- ===== src/Interp/Load/Tests.antt =====
-- interp/load_tests.go and interp/load_ihave.go: the loaders of tests.
use go_sieve.Interp.Load.Tables.{allowed_addr_headers, supported_requires}
use go_sieve.Interp.Action.{elements}
use go_sieve.Interp.Checks.{
  Test, true_test, not_test, size_test, exists_test, matching, Tests, no_tests, more_tests,
  SizeTest,
}
use go_sieve.Interp.Flags.{canonical_flags}
use go_sieve.Interp.Items.{check_environment, check_has_flag}
use go_sieve.Interp.Load.Compared.{
  Compared, new_compared, matcher_tags, mime_spec_tags, names_and_key, validate_mime_tags,
  without_mime, matcher_of,
}
use go_sieve.Interp.Load.Shape.{LoadError, Spec, SpecTag, plain_spec, bool_tag, str_arg, need}
use go_sieve.Interp.Load.Shape.{match_str, match_num, mime_tags, over_or_under}
use go_sieve.Interp.Load.Spec.{Given, load_spec}
use go_sieve.Interp.Matcher.{Services, MatcherTest}
use go_sieve.Interp.ValueTests.{check_header, check_address, check_envelope, check_string}
use go_sieve.Interp.Script.{Script, available}
use go_sieve.Prelude.{
  pos, Bool, true, false, not, ◌&&◌, List, [], ◌∷◌, ◌++◌, none, some, if◌then◌else◌, Bytes, codes,
  equal, Result, ok, err, ◌>>=◌,
}

-- A test that compares the values of its names.
unfoldable pub load_compared :
    Services
    → List (Bytes × SpecTag Compared)
    → (MatcherTest → Compared → Test)
    → Script
    → Given
    → Result LoadError Test
load_compared services tags make s given = do
  r ← load_spec s (plain_spec (tags ++ matcher_tags) names_and_key) given new_compared
  _ ← validate_mime_tags s r.0
  t ← matcher_of services s r.0
  _ ← without_mime r.0
  ok (make t r.0)

abbrev pub header_test : Services → MatcherTest → Compared → Test
header_test services t c = matching (check_header services t c.names)

abbrev pub address_test : Services → MatcherTest → Compared → Test
address_test services t c =
    matching (check_address services allowed_addr_headers t c.address_part c.names)

abbrev pub envelope_test : Services → MatcherTest → Compared → Test
envelope_test services t c = matching (check_envelope services t c.address_part c.names)

abbrev pub string_test : Services → MatcherTest → Compared → Test
string_test services t c = matching (check_string services t c.names)

abbrev pub environment_test : Services → MatcherTest → Compared → Test
environment_test services t c = matching (check_environment services t c.names)

abbrev pub has_flag_spec : Spec Compared
has_flag_spec = plain_spec matcher_tags (
    str_arg 0 0 (λ l c. record c { names = l })
    ∷ record {
      optional = true;
      matcher = match_str (λ l c. record c { key = l });
      min_str_count = 1;
      max_str_count = 0;
    }
    ∷ [])

-- One list of strings is that of the flags.
unfoldable pub flag_names : List Bytes → List Bytes → List Bytes × List Bytes
flag_names arg1 [] = ([], elements (canonical_flags arg1 [] []))
flag_names arg1 (f ∷ fs) = (arg1, elements (canonical_flags (f ∷ fs) [] []))

-- `loadHasFlagTest`
unfoldable pub load_has_flag : Services → Script → Given → Result LoadError Test
load_has_flag services s given = do
  r ← load_spec s has_flag_spec given new_compared
  let names = flag_names (r.0).names (r.0).key
  t ← matcher_of services s (record r.0 { key = names.1 })
  ok (matching (check_has_flag services t names.0))

abbrev pub exists_spec : Spec Compared
exists_spec = plain_spec mime_spec_tags (str_arg 1 0 (λ l c. record c { names = l }) ∷ [])

-- `loadExistsTest`
unfoldable pub load_exists : Script → Given → Result LoadError Test
load_exists s given = do
  r ← load_spec s exists_spec given new_compared
  _ ← if equal (r.0).mime_mode [] then ok tt else err mime_tags
  _ ← validate_mime_tags s r.0
  _ ← without_mime r.0
  ok (exists_test (r.0).names)

abbrev pub size_spec : Spec SizeTest
size_spec =
    plain_spec
      ((codes "under", bool_tag (λ c. record c { under = true }))
        ∷ (codes "over", bool_tag (λ c. record c { over = true }))
        ∷ [])
      (record {
        optional = false;
        matcher = match_num (λ n c. record c { size = n });
        min_str_count = 0;
        max_str_count = 0;
      }
        ∷ [])

abbrev pub same : Bool → Bool → Bool
same true b = b
same false b = not b

-- `loadSizeTest`, but for which of two errors is returned.
unfoldable pub load_size : Script → Given → Result LoadError Test
load_size s given = do
  r ← load_spec s size_spec given (record { size = pos 0; over = false; under = false })
  if same (r.0).under (r.0).over then err over_or_under else ok (size_test r.0)

abbrev pub no_spec : Spec Unit
no_spec = plain_spec [] []

-- `loadTrueTest` and `loadFalseTest`
unfoldable pub load_constant : Test → Script → Given → Result LoadError Test
load_constant t s given = do _ ← load_spec s no_spec given tt; ok t

abbrev pub add_last : Test → Tests → Tests
add_last t no_tests = more_tests t no_tests
add_last t (more_tests u us) = more_tests u (add_last t us)

abbrev pub tests_spec : Spec Tests
tests_spec = record {
  tags = [];
  pos = [];
  add_block = none;
  block_optional = false;
  add_test = some add_last;
  test_optional = false;
  multiple_tests = true;
}

-- `loadAllOfTest` and `loadAnyOfTest`
unfoldable pub load_several : (Tests → Test) → Script → Given → Result LoadError Test
load_several make s given = do r ← load_spec s tests_spec given no_tests; ok (make r.0)

abbrev pub not_spec : Spec Test
not_spec = record {
  tags = [];
  pos = [];
  add_block = none;
  block_optional = false;
  add_test = some (λ t c. t);
  test_optional = false;
  multiple_tests = false;
}

-- `loadNotTest`
unfoldable pub load_not : Script → Given → Result LoadError Test
load_not s given = do r ← load_spec s not_spec given true_test; ok (not_test r.0)

abbrev pub capabilities_spec : Spec (List Bytes)
capabilities_spec = plain_spec [] (str_arg 1 0 (λ l c. l) ∷ [])

unfoldable pub all_available : Script → List Bytes → Bool
all_available s [] = true
all_available s (c ∷ caps) = available supported_requires s c && all_available s caps

-- `loadIhaveTest`: the capabilities, and whether all are there.
unfoldable pub load_ihave : Script → Given → Result LoadError (List Bytes × Bool)
load_ihave s given = do
  _ ← need s (codes "ihave")
  r ← load_spec s capabilities_spec given []
  ok (r.0, all_available s r.0)

-- `TestIhave.Check`
abbrev pub ihave_test : Bool → Test
ihave_test have = matching (λ d. ok (have, none))

abbrev pub load_ihave_test : Script → Given → Result LoadError Test
load_ihave_test s given = load_ihave s given >>= λ r. ok (ihave_test r.1)
