-- ===== src/Interp/Load/TestTable.antt =====
-- interp/load.go: the table of tests, and what loads a test.
use go_sieve.Interp.Load.Tables.{other_tests}
use go_sieve.Interp.Checks.{
  Test, true_test, false_test, all_of, any_of, Tests, no_tests, more_tests,
}
use go_sieve.Interp.Load.Compared.{mime_spec_tags, part_tags}
use go_sieve.Interp.Load.Shape.{LoadError, need}
use go_sieve.Interp.Load.Shape.{unmodelled, unsupported_test}
use go_sieve.Interp.Load.Spec.{Given, GivenTests}
use go_sieve.Interp.Matcher.{Services}
use go_sieve.Interp.Script.{Script}
use go_sieve.Interp.Text.{member, to_lower}
use go_sieve.Parser.Syntax
use go_sieve.Prelude.{ℕ, suc, [], none, if◌then◌else◌, Bytes, codes, equal, Result, ok, err, ◌>>=◌}
use go_sieve.Interp.Load.Tests.{
  load_compared, header_test, address_test, envelope_test, string_test, environment_test,
  load_has_flag, load_exists, load_size, load_constant, load_several, load_not, load_ihave_test,
}

-- A test that wants an extension.
abbrev pub needing :
    Bytes → (Script → Given → Result LoadError Test) → Script → Given → Result LoadError Test
needing ext load s given = need s ext >>= λ _. load s given

-- The table of tests.
unfoldable pub test_named : Services → Bytes → Script → Given → Result LoadError Test
test_named services name s given =
    if equal name (codes "address")
    then load_compared services (part_tags s) (address_test services) s given
    else if equal name (codes "allof")
    then load_several all_of s given
    else if equal name (codes "anyof")
    then load_several any_of s given
    else if equal name (codes "envelope")
    then needing (codes "envelope") (load_compared services (part_tags s) (envelope_test services))
        s given
    else if equal name (codes "exists")
    then load_exists s given
    else if equal name (codes "false")
    then load_constant false_test s given
    else if equal name (codes "true")
    then load_constant true_test s given
    else if equal name (codes "header")
    then load_compared services mime_spec_tags (header_test services) s given
    else if equal name (codes "not")
    then load_not s given
    else if equal name (codes "size")
    then load_size s given
    else if equal name (codes "string")
    then needing (codes "variables") (load_compared services [] (string_test services)) s given
    else if equal name (codes "hasflag")
    then load_has_flag services s given
    else if equal name (codes "environment")
    then needing (codes "environment") (load_compared services [] (environment_test services)) s
        given
    else if equal name (codes "ihave")
    then load_ihave_test s given
    else if member name other_tests
    then err (unmodelled name)
    else err (unsupported_test name)

unfoldable pub number_of : Syntax.Tests → ℕ
number_of Syntax.no_tests = 0
number_of (Syntax.more_tests t ts) = suc (number_of ts)

unfoldable mutual
  -- `LoadTest`
  pub load_test : Services → Syntax.Test → Script → Result LoadError Test
  load_test services (Syntax.test p name args ts) s =
      test_named services (to_lower name) s (record {
        args = args;
        tests = record { number = number_of ts; load = load_tests services ts };
        block = none;
      })

  pub load_tests : Services → Syntax.Tests → Script → Result LoadError Tests
  load_tests services Syntax.no_tests s = ok no_tests
  load_tests services (Syntax.more_tests t ts) s = do
    loaded ← load_test services t s
    rest ← load_tests services ts s
    ok (more_tests loaded rest)

abbrev pub given_tests : Services → Syntax.Tests → GivenTests
given_tests services ts = record { number = number_of ts; load = load_tests services ts }
