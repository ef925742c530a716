-- ===== src/Interp/Load/Commands.antt =====
-- interp/load_control.go: the loaders of require, if, elsif, else and stop.
use go_sieve.Interp.Checks
use go_sieve.Interp.Execute.{Cmd, Cmds, no_cmds, else_cmd}
use go_sieve.Interp.Load.Settings.{TextLibrary}
use go_sieve.Interp.Load.Actions.{LoadedCmd}
use go_sieve.Interp.Load.Shape.{LoadError, Spec}
use go_sieve.Interp.Load.Shape.{unsupported_extension}
use go_sieve.Interp.Load.Spec.{Given, load_spec, decoded_list}
use go_sieve.Interp.Load.Tables.{supported_requires}
use go_sieve.Interp.Load.Tests.{capabilities_spec, load_ihave, ihave_test, load_ihave_test}
use go_sieve.Interp.Load.TestTable.{given_tests}
use go_sieve.Interp.Matcher.{Services}
use go_sieve.Interp.Script.{Script}
use go_sieve.Interp.Text.{member, to_lower}
use go_sieve.Parser.Syntax
use go_sieve.Parser.Syntax.{Arg, string_list_arg, string_arg, number_arg, tag_arg}
use go_sieve.Prelude.{
  ℕ, suc, ◌+◌, ◌-◌, false, List, [], ◌∷◌, Option, none, some, if◌then◌else◌, Bytes, codes, equal,
  Result, ok, err, ◌>>=◌,
}

-- The libraries of the loaders.
pub record Loading : Type 0 where
  pub services : Services
  pub text : TextLibrary

unfoldable pub add_extension : Bytes → Script → Script
add_extension ext s =
    if member ext s.extensions then s else record s { extensions = ext ∷ s.extensions }

-- The extensions that one brings with it.
unfoldable pub add_required : Bytes → Script → Script
add_required ext s =
    if equal ext (codes "imapflags")
    then add_extension (codes "imap4flags") (add_extension ext s)
    else if equal ext (codes "vacation-seconds")
    then add_extension (codes "vacation") (add_extension ext s)
    else add_extension ext s

-- The loop of `loadRequire`. There is no environment for vnd.dovecot.testsuite, which is not in the
-- table.
unfoldable pub require_all : List Bytes → Script → Result LoadError Script
require_all [] s = ok s
require_all (ext ∷ exts) s =
    let rest = require_all exts (add_required ext s) in
    if member ext supported_requires then rest else err (unsupported_extension ext)

-- `loadRequire`
unfoldable pub load_require : Script → Given → LoadedCmd
load_require s given = do
  r ← load_spec s capabilities_spec given []
  required ← require_all r.0 s
  ok (none, required)

-- The test and the block of a condition.
pub record Branch : Type 0 where
  pub test : Checks.Test
  pub block : Cmds

abbrev pub branch_spec : Spec Branch
branch_spec = record {
  tags = [];
  pos = [];
  add_block = some (λ cmds c. record c { block = cmds });
  block_optional = false;
  add_test = some (λ t c. record c { test = t });
  test_optional = false;
  multiple_tests = false;
}

unfoldable pub load_branch : (Checks.Test → Cmds → Cmd) → Script → Given → LoadedCmd
load_branch make s given = do
  r ← load_spec s branch_spec given (record { test = Checks.true_test; block = no_cmds })
  ok (some (make (r.0).test (r.0).block), r.1)

-- The arguments and tests of an ihave that stands alone.
unfoldable pub sole_ihave : Syntax.Tests → Option (List Arg × Syntax.Tests)
sole_ihave (Syntax.more_tests (Syntax.test p name args ts) Syntax.no_tests) =
    if equal (to_lower name) (codes "ihave") then some (args, ts) else none
sole_ihave (Syntax.more_tests t (Syntax.more_tests u ts)) = none
sole_ihave Syntax.no_tests = none

unfoldable pub occurrences : Bytes → List Bytes → ℕ
occurrences name [] = 0
occurrences name (c ∷ caps) =
    if equal c name then suc (occurrences name caps) else occurrences name caps

-- `s.guarded[c]++` and `s.guarded[c]--` for each capability.
unfoldable pub guard_more : List Bytes → Script → Script
guard_more caps s = record s { guarded = λ name. s.guarded name + occurrences name caps }

unfoldable pub guard_less : List Bytes → Script → Script
guard_less caps s = record s { guarded = λ name. s.guarded name - occurrences name caps }

-- A list of strings is decoded in its place, so that a test that is loaded again has the decoded ones.
unfoldable pub decoded_args : Script → List Arg → Result LoadError (List Arg)
decoded_args s [] = ok []
decoded_args s (string_list_arg l p ∷ args) = do
  decoded ← decoded_list s l
  rest ← decoded_args s args
  ok (string_list_arg decoded p ∷ rest)
decoded_args s (string_arg v p ∷ args) = do rest ← decoded_args s args; ok (string_arg v p ∷ rest)
decoded_args s (number_arg n p ∷ args) = do rest ← decoded_args s args; ok (number_arg n p ∷ rest)
decoded_args s (tag_arg v p ∷ args) = do rest ← decoded_args s args; ok (tag_arg v p ∷ rest)

abbrev pub alone : Given → Script → Result LoadError Checks.Tests
alone given s = load_ihave_test s given >>= λ t. ok (Checks.more_tests t Checks.no_tests)

-- The block under a true ihave, whose capabilities are guarded until its end.
unfoldable pub load_guarded :
    (Checks.Test → Cmds → Cmd) → Script → Given → Given → List Bytes → LoadedCmd
load_guarded make s given ihave caps = do
  again ← decoded_args s ihave.args
  r ←
      load_branch make (guard_more caps s) (record given {
        tests = record { number = 1; load = alone (record ihave { args = again }) };
      })
  ok (r.0, guard_less caps r.1)

-- `loadCondBlock`
unfoldable pub load_cond_block :
    Services → (Checks.Test → Cmds → Cmd) → Script → Syntax.Tests → Given → LoadedCmd
load_cond_block services make s ts given = elim (sole_ihave ts) [
  | none ↦ load_branch make s given
  | some p ↦
      let ihave : Given = record { args = p.0; tests = given_tests services (p.1); block = none } in
      load_ihave s ihave >>= λ r.
      if r.1
      then load_guarded make s given ihave r.0
      else ok (some (make (ihave_test false) no_cmds), s)
]

abbrev pub else_spec : Spec Cmds
else_spec = record {
  tags = [];
  pos = [];
  add_block = some (λ cmds c. cmds);
  block_optional = false;
  add_test = none;
  test_optional = false;
  multiple_tests = false;
}

-- `loadElse`
unfoldable pub load_else : Script → Given → LoadedCmd
load_else s given = do r ← load_spec s else_spec given no_cmds; ok (some (else_cmd r.0), r.1)
