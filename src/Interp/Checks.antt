-- ===== src/Interp/Checks.antt =====
-- interp/test.go: the tests that need no comparator, and the tests that hold of several tests.
use go_sieve.Interp.Expand.{expand_vars}
use go_sieve.Interp.Runtime.{RuntimeData, ExecError, Exec, then_run, reading}
use go_sieve.Prelude.{
  ℤ, pos, negsuc, ℕ, Bool, true, false, not, ◌&&◌, List, [], ◌∷◌, Option, none, some, ltb,
  if◌then◌else◌, Bytes, Result, ok, ◌>>=◌,
}

-- `SizeTest`
pub record SizeTest : Type 0 where
  pub size : ℤ
  pub over : Bool
  pub under : Bool

-- `Test`. A `matching` test reads the data, and may set the match variables.
mutual
  pub data Test : Type 0 where
    true_test : Test
    false_test : Test
    not_test : Test → Test
    all_of : Tests → Test
    any_of : Tests → Test
    size_test : SizeTest → Test
    exists_test : List Bytes → Test
    matching : (RuntimeData → Result ExecError (Bool × Option (List Bytes))) → Test

  pub data Tests : Type 0 where
    no_tests : Tests
    more_tests : Test → Tests → Tests

-- The size of a message against a limit, which a number that wrapped round makes negative.
abbrev pub is_above : ℕ → ℤ → Bool
is_above n (pos limit) = ltb limit n
is_above n (negsuc limit) = true

abbrev pub is_below : ℕ → ℤ → Bool
is_below n (pos limit) = ltb n limit
is_below n (negsuc limit) = false

-- `SizeTest.Check`
unfoldable pub check_size : SizeTest → ℕ → Bool
check_size t n =
    if t.over && is_above n t.size
    then true
    else if t.under && is_below n t.size
    then true
    else false

unfoldable pub check_exists : RuntimeData → List Bytes → Result ExecError Bool
check_exists d [] = ok true
check_exists d (field ∷ fields) = do
  name ← expand_vars d field
  values ← d.msg.header_get name
  elim values [ [] ↦ ok false | value ∷ more ↦ check_exists d fields ]

-- The end of a test that may have set the match variables.
abbrev pub leave_matches : Bool × Option (List Bytes) → Exec Bool
leave_matches (b, none) d = (ok b, d)
leave_matches (b, some matches) d = (ok b, record d { match_variables = matches })

abbrev pub answer_not : Bool → Exec Bool
answer_not b d = (ok (not b), d)

-- What follows one of several tests, if it decides nothing.
unfoldable pub and_then : Exec Bool → Bool → Exec Bool
and_then others true d = others d
and_then others false d = (ok false, d)

unfoldable pub or_else : Exec Bool → Bool → Exec Bool
or_else others true d = (ok true, d)
or_else others false d = others d

-- `Check`
unfoldable mutual
  pub check : Test → Exec Bool
  check true_test d = (ok true, d)
  check false_test d = (ok false, d)
  check (not_test t) d = then_run (check t d) answer_not
  check (all_of ts) d = check_all ts d
  check (any_of ts) d = check_any ts d
  check (size_test t) d = (ok (check_size t d.msg.message_size), d)
  check (exists_test fields) d = (check_exists d fields, d)
  check (matching f) d = reading (f d) leave_matches d

  -- `AllOfTest`
  pub check_all : Tests → Exec Bool
  check_all no_tests d = (ok true, d)
  check_all (more_tests t ts) d = then_run (check t d) (and_then (check_all ts))

  -- `AnyOfTest`
  pub check_any : Tests → Exec Bool
  check_any no_tests d = (ok false, d)
  check_any (more_tests t ts) d = then_run (check t d) (or_else (check_any ts))
