-- ===== src/Interp/Load/RoundTrip.antt =====
-- On interp/load.go and interp/load_control.go: blocks of commands that a printer has written.
use go_sieve.Interp.Checks
use go_sieve.Interp.Execute
use go_sieve.Interp.Load.Commands.{Loading, load_branch, load_cond_block, load_else, sole_ihave}
use go_sieve.Interp.Load.Dispatch.{cmd_named, load_cmd, given_block, load_block}
use go_sieve.Interp.Load.Plain.{
  load_bare_lem, load_reason_lem, load_return_lem, load_global_lem, load_keep_lem, load_flags_lem,
  load_redirect_lem, load_file_into_lem,
}
use go_sieve.Interp.Load.Print.{print_test, print_cmd, print_cmds, IsTest, IsLoadable, AreLoadable}
use go_sieve.Interp.Load.Reloaded.{load_test-print_test}
use go_sieve.Interp.Load.Shape.{LoadError}
use go_sieve.Interp.Load.Spec.{
  load_args, load_given_tests, load_given_block, load_spec, all_optional, add_tests, bind_args,
}
use go_sieve.Interp.Load.TestTable.{load_tests, number_of}
use go_sieve.Interp.Matcher.{Services}
use go_sieve.Interp.Script.{Script}
use go_sieve.Interp.Text.{to_lower, lower_byte}
use go_sieve.Parser.Syntax.{no_tests, more_tests}
use go_sieve.Prelude.{◌≡◌, refl, [], none, some, equal, Result, ok}

-- No test that is printed is an ihave.
sole_ihave-print_test : (t : Checks.Test) → sole_ihave (more_tests (print_test t) no_tests) ≡ none
unfolding sole_ihave print_test to_lower lower_byte equal
sole_ihave-print_test Checks.true_test = refl
sole_ihave-print_test Checks.false_test = refl
sole_ihave-print_test (Checks.not_test t) = refl
sole_ihave-print_test (Checks.all_of ts) = refl
sole_ihave-print_test (Checks.any_of ts) = refl
sole_ihave-print_test (Checks.size_test t) = refl
sole_ihave-print_test (Checks.exists_test l) = refl
sole_ihave-print_test (Checks.matching f) = refl

load_branch_lem :
    (make : Checks.Test → Execute.Cmds → Execute.Cmd) (s : Script) (t : Checks.Test)
    (cs : Execute.Cmds) (tests : Script → Result LoadError Checks.Tests)
    (block : Script → Result LoadError (Execute.Cmds × Script))
    → tests s ≡ ok (Checks.more_tests t Checks.no_tests)
    → block s ≡ ok (cs, s)
    → load_branch make s
        (record { args = []; tests = record { number = 1; load = tests }; block = some block })
      ≡ ok (some (make t cs), s)
unfolding load_branch load_spec load_args bind_args all_optional load_given_tests load_given_block
    add_tests
load_branch_lem make s t cs tests block h k = rw h (rw k refl)

load_else_lem :
    (s : Script) (cs : Execute.Cmds) (tests : Script → Result LoadError Checks.Tests)
    (block : Script → Result LoadError (Execute.Cmds × Script))
    → block s ≡ ok (cs, s)
    → load_else s
        (record { args = []; tests = record { number = 0; load = tests }; block = some block })
      ≡ ok (some (Execute.else_cmd cs), s)
unfolding load_else load_spec load_args bind_args all_optional load_given_tests load_given_block
load_else_lem s cs tests block k = rw k refl

load_cond_block_lem :
    (services : Services) (make : Checks.Test → Execute.Cmds → Execute.Cmd) (s : Script)
    (t : Checks.Test) (cs : Execute.Cmds)
    (block : Script → Result LoadError (Execute.Cmds × Script))
    → IsTest s t
    → block s ≡ ok (cs, s)
    → load_cond_block services make s (more_tests (print_test t) no_tests) (record {
      args = [];
      tests = record {
        number = 1;
        load = load_tests services (more_tests (print_test t) no_tests);
      };
      block = some block;
    })
      ≡ ok (some (make t cs), s)
unfolding load_cond_block load_tests
load_cond_block_lem services make s t cs block h k =
    rw (sole_ihave-print_test t, load_cond_block)
      (load_branch_lem make s t cs _ block (rw (load_test-print_test services s t h) refl) k)

mutual
  unfolding cmd_named load_cmd given_block load_block print_cmd print_cmds to_lower lower_byte equal
      number_of IsLoadable AreLoadable

  load_cmd_lem :
      (loading : Loading) (s : Script) (c : Execute.Cmd)
      → IsLoadable s c
      → load_cmd loading (print_cmd c) s ≡ ok (some c, s)
  load_cmd_lem loading s Execute.stop h = load_bare_lem s _ Execute.stop
  load_cmd_lem loading s Execute.return h = load_return_lem s _ h
  load_cmd_lem loading s (Execute.fileinto c) h = load_file_into_lem s _ c h
  load_cmd_lem loading s (Execute.redirect c) h = load_redirect_lem s _ c h
  load_cmd_lem loading s (Execute.keep f) h = load_keep_lem s _ f h
  load_cmd_lem loading s Execute.discard h = load_bare_lem s _ Execute.discard
  load_cmd_lem loading s (Execute.setflag v f) h = load_flags_lem s _ Execute.setflag v f h
  load_cmd_lem loading s (Execute.addflag v f) h = load_flags_lem s _ Execute.addflag v f h
  load_cmd_lem loading s (Execute.removeflag v f) h = load_flags_lem s _ Execute.removeflag v f h
  load_cmd_lem loading s (Execute.reject r) (h, k) = load_reason_lem s _ _ Execute.reject r h k
  load_cmd_lem loading s (Execute.ereject r) (h, k) = load_reason_lem s _ _ Execute.ereject r h k
  load_cmd_lem loading s (Execute.set n v m) h = absurd h
  load_cmd_lem loading s (Execute.global names) h = load_global_lem s _ names h
  load_cmd_lem loading s (Execute.if_cmd t cs) (h, k) =
      load_cond_block_lem loading.services Execute.if_cmd s t cs _ h (load_block_lem loading s cs k)
  load_cmd_lem loading s (Execute.elsif_cmd t cs) (h, k) =
      load_cond_block_lem loading.services Execute.elsif_cmd s t cs _ h
        (load_block_lem loading s cs k)
  load_cmd_lem loading s (Execute.else_cmd cs) k =
      load_else_lem s cs _ _ (load_block_lem loading s cs k)

  load_block_lem :
      (loading : Loading) (s : Script) (cs : Execute.Cmds)
      → AreLoadable s cs
      → load_block loading (print_cmds cs) s ≡ ok (cs, s)
  load_block_lem loading s Execute.no_cmds h = refl
  load_block_lem loading s (Execute.more_cmds c cs) (h, k) =
      rw (load_cmd_lem loading s c h) (rw (load_block_lem loading s cs k) refl)

-- A block of commands that is written out again as parsed commands is loaded as these commands, and leaves the script
-- as it was. No test of them compares values, no list of tests is empty, and no `set` is among them; the script
-- requires the extensions that they want; their flags are canonical, the names of a `global` are valid, and no text
-- of theirs is an encoded character, where the script has these read.
pub load_block-print_cmds :
    (loading : Loading) (s : Script) (cs : Execute.Cmds)
    → AreLoadable s cs
    → load_block loading (print_cmds cs) s ≡ ok (cs, s)
load_block-print_cmds = load_block_lem
