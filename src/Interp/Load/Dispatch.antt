-- ===== src/Interp/Load/Dispatch.antt =====
-- interp/load.go: the table of commands, and what loads a command, a block and a script.

use go_sieve.Interp.Execute.{
  Cmd, Cmds, no_cmds, more_cmds, stop, discard, setflag, addflag, removeflag, reject, ereject,
  if_cmd, elsif_cmd,
}
use go_sieve.Interp.Load.Settings.{load_set, load_return, load_global}
use go_sieve.Interp.Load.Actions.{
  LoadedCmd, load_file_into, load_redirect, load_keep, load_bare, load_reason, load_flags,
}
use go_sieve.Interp.Load.Shape.{LoadError}
use go_sieve.Interp.Load.Shape.{unmodelled, unsupported_command}
use go_sieve.Interp.Load.Spec.{Given, GivenBlock}
use go_sieve.Interp.Load.TestTable.{given_tests}
use go_sieve.Interp.Script.{Options, Script}
use go_sieve.Interp.Text.{member, to_lower}
use go_sieve.Parser.Syntax
use go_sieve.Parser.Syntax.{Arg, string_list_arg, string_arg, number_arg, tag_arg}
use go_sieve.Prelude.{
  List, [], ◌∷◌, Option, none, some, if◌then◌else◌, Bytes, codes, equal, Result, ok, err, ◌>>=◌,
}
use go_sieve.Interp.Load.Commands.{Loading, load_require, load_cond_block, load_else}

-- The commands of the table that are outside the model.
unfoldable pub other_commands : List Bytes
other_commands =
    codes "foreverypart"
    ∷ codes "break"
    ∷ codes "extracttext"
    ∷ codes "replace"
    ∷ codes "enclose"
    ∷ codes "vacation"
    ∷ codes "addheader"
    ∷ codes "deleteheader"
    ∷ codes "error"
    ∷ codes "include"
    ∷ codes "notify"
    ∷ codes "debug_log"
    ∷ codes "pipe"
    ∷ codes "filter"
    ∷ codes "execute"
    ∷ codes "report"
    ∷ codes "test"
    ∷ codes "test_set"
    ∷ codes "test_fail"
    ∷ codes "test_binary_load"
    ∷ codes "test_binary_save"
    ∷ codes "test_mailbox_create"
    ∷ codes "test_config_reload"
    ∷ codes "test_config_set"
    ∷ codes "test_config_unset"
    ∷ codes "test_result_reset"
    ∷ codes "test_message"
    ∷ []

-- The table of commands.
unfoldable pub cmd_named : Loading → Bytes → Script → Syntax.Tests → Given → LoadedCmd
cmd_named loading name s ts given =
    if equal name (codes "require")
    then load_require s given
    else if equal name (codes "if")
    then load_cond_block loading.services if_cmd s ts given
    else if equal name (codes "elsif")
    then load_cond_block loading.services elsif_cmd s ts given
    else if equal name (codes "else")
    then load_else s given
    else if equal name (codes "stop")
    then load_bare stop s given
    else if equal name (codes "fileinto")
    then load_file_into s given
    else if equal name (codes "redirect")
    then load_redirect s given
    else if equal name (codes "keep")
    then load_keep s given
    else if equal name (codes "discard")
    then load_bare discard s given
    else if equal name (codes "setflag")
    then load_flags setflag s given
    else if equal name (codes "addflag")
    then load_flags addflag s given
    else if equal name (codes "removeflag")
    then load_flags removeflag s given
    else if equal name (codes "set")
    then load_set loading.text s given
    else if equal name (codes "reject")
    then load_reason (codes "reject") reject s given
    else if equal name (codes "ereject")
    then load_reason (codes "ereject") ereject s given
    else if equal name (codes "return")
    then load_return s given
    else if equal name (codes "global")
    then load_global s given
    else if member name other_commands
    then err (unmodelled name)
    else err (unsupported_command name)

-- A command that loads nothing is skipped.
abbrev pub more_loaded : Option Cmd → Cmds → Cmds
more_loaded none cs = cs
more_loaded (some c) cs = more_cmds c cs

unfoldable mutual
  -- `LoadCmd`
  pub load_cmd : Loading → Syntax.Cmd → Script → LoadedCmd
  load_cmd loading (Syntax.cmd p name args ts b) s =
      cmd_named loading (to_lower name) s ts (record {
        args = args;
        tests = given_tests loading.services ts;
        block = given_block loading b;
      })

  pub given_block : Loading → Syntax.Block → GivenBlock
  given_block loading Syntax.no_block = none
  given_block loading (Syntax.block cs) = some (load_block loading cs)

  -- `LoadBlock`
  pub load_block : Loading → Syntax.Cmds → Script → Result LoadError (Cmds × Script)
  load_block loading Syntax.no_cmds s = ok (no_cmds, s)
  load_block loading (Syntax.more_cmds c cs) s = do
    r ← load_cmd loading c s
    rest ← load_block loading cs r.1
    ok (more_loaded r.0 rest.0, rest.1)

abbrev pub new_script : Options → Script
new_script opts = record { extensions = []; guarded = λ name. 0; opts = opts }

-- `LoadScript`: the commands, and the script.
unfoldable pub load_script : Loading → Syntax.Cmds → Options → Result LoadError (Cmds × Script)
load_script loading cs opts = load_block loading cs (new_script opts)
