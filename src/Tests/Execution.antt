-- ===== src/Tests/Execution.antt =====
-- The theorems on the execution of scripts and on variables at concrete scripts.
use go_sieve.Interp.Accounted.{Appends, execute-Accounted, execute-any_cancels}
use go_sieve.Interp.Action.{
  Host, FileInto, checked_mailbox, special_use_mailbox_of, resolve_mailbox, expanded_flags,
  file_parts, file_unless_done, file_into, cmd_file_into, cmd_stop,
}
use go_sieve.Interp.Checks.{size_test, check, check_size}
use go_sieve.Interp.Control.{run_block, run_if, cmd_if}
use go_sieve.Interp.Execute.{
  Cmds, stop, fileinto, keep, set, if_cmd, no_cmds, more_cmds, execute_cmd, block_of,
  implicit_keep_action, finish, execute,
}
use go_sieve.Interp.Expand.{
  all_digits, is_num_variable, is_word, is_segment, is_reference, name_until, checked_name,
  reference_at, pieces, names, used_vars, match_number, readable_at, all_readable,
  used_vars_are_valid, value_at, value_of, replaced, expand_vars, expand_vars_list, cmd_set,
}
use go_sieve.Interp.Expanded.{expand_vars-used_vars_are_valid}
use go_sieve.Interp.Flags.{canonical_flags}
use go_sieve.Interp.Limits.{default_on_action-Appends, execute-AtMost}
use go_sieve.Interp.Pieces.{written, InGrammar, expand_vars-append}
use go_sieve.Interp.References.{IsReference, word, digits, no_segments, dot, qualified}
use go_sieve.Interp.Runtime.{
  action_keep, action_file_into, cancels_implicit_keep, any_cancels, RuntimeData, default_on_action,
}
use go_sieve.Interp.Script.{requires_extension, variable_in, variable_of, usable_in, is_var_usable}
use go_sieve.Interp.Stored.{slot, set_var-var}
use go_sieve.Interp.Text.{member, to_lower, lower_byte, cut, take}
use go_sieve.Interp.Truncated.{starts_within, truncate-append}
use go_sieve.Interp.Variables.{
  var_in, var, is_continuation, continues_at, back_off, truncate, set_var_in, set_var,
}
use go_sieve.Lexer.Scan.{
  all_identifier_bytes, is_valid_identifier, is_letter, is_digit, is_identifier_byte, decimal,
}
use go_sieve.Prelude.{
  All, ◌>>=◌, ◌++◌, pos, ◌≤◌, ◌≡◌, ◌≢◌, refl, ◌⊎◌, inl, inr, true, false, [], ◌∷◌, ◌++◌, none, ok,
  arith, Bytes, codes, length, lookup, insert, equal,
}
use go_sieve.Tests.Branches.{start}

abbrev host : Host
host = record {
  on_action = default_on_action;
  redirect_allowed = λ d addr. ok true;
  mailbox_by_id = none;
  special_use_mailbox = none;
}

host-Appends : Appends host
host-Appends = default_on_action-Appends

abbrev copy_into : FileInto
copy_into = record {
  mailbox = codes "${x}";
  flags = none;
  copy = true;
  create = false;
  special_use = [];
  mailbox_id = [];
}

abbrev filed : RuntimeData
filed = record start {
  if_result = true;
  variables = (codes "x", codes "In") ∷ [];
  mailboxes = codes "In" ∷ [];
  applied_actions =
      action_file_into (record {
        mailbox = codes "In";
        flags = none;
        copy = true;
        create = false;
        special_use = [];
        mailbox_id = [];
      })
      ∷ [];
}

-- set "X" "In"; if size :over 5 { fileinto :copy "${x}"; }
abbrev cmds : Cmds
cmds = more_cmds (set (codes "X") (codes "In") (λ s. s)) (
    more_cmds
      (if_cmd (size_test (record { size = pos 5; over = true; under = false }))
        (more_cmds (fileinto copy_into) no_cmds))
      no_cmds)

abbrev kept : RuntimeData
kept = record filed { applied_actions = filed.applied_actions ++ action_keep true none ∷ [] }

cmds_run : run_block (block_of host cmds) start ≡ (ok tt, filed)
unfolding run_block block_of execute_cmd cmd_set cmd_if run_if check check_size cmd_file_into
    resolve_mailbox checked_mailbox special_use_mailbox_of file_into file_unless_done file_parts
    expanded_flags expand_vars_list canonical_flags expand_vars requires_extension replaced pieces
    reference_at checked_name name_until is_reference is_word all_identifier_bytes is_segment
    is_num_variable all_digits is_valid_identifier is_letter is_identifier_byte value_at
    match_number var var_in variable_of variable_in to_lower lower_byte cut member equal set_var
    set_var_in truncate insert lookup default_on_action
cmds_run = refl

cmds_executed : execute host cmds start ≡ (ok tt, kept)
unfolding execute finish implicit_keep_action any_cancels cancels_implicit_keep default_on_action
cmds_executed = rw cmds_run refl

execute-Accounted_example : (kept.implicit_keep ≡ true) ⊎ (any_cancels kept.applied_actions ≡ true)
execute-Accounted_example =
    execute-Accounted host cmds start kept host-Appends (inl refl) cmds_executed

execute-any_cancels_example : any_cancels kept.applied_actions ≡ true
execute-any_cancels_example =
    execute-any_cancels host cmds start filed kept host-Appends (inl refl) cmds_run cmds_executed

execute-AtMost_example :
    (kept.script.opts.max_actions ≡ 0)
    ⊎ (length kept.applied_actions ≤ kept.script.opts.max_actions)
execute-AtMost_example = execute-AtMost host cmds start kept refl (inr (omega arith)) cmds_executed

-- A stopped script has no keep among its actions.
abbrev stopped : Cmds
stopped = more_cmds stop (more_cmds (keep none) no_cmds)

stopped_executed : execute host stopped start ≡ (ok tt, start)
unfolding execute finish run_block block_of execute_cmd cmd_stop
stopped_executed = refl

two_names-valid : used_vars_are_valid start.script (codes "${1} ${A}$") ≡ true
unfolding used_vars_are_valid used_vars requires_extension member equal all_readable readable_at
    names pieces reference_at checked_name name_until is_reference is_word all_identifier_bytes
    is_segment is_num_variable all_digits is_valid_identifier is_letter is_digit is_identifier_byte
    match_number is_var_usable usable_in variable_of variable_in to_lower lower_byte cut decimal
two_names-valid = refl

expand_vars-used_vars_are_valid_example :
    (t : Bytes) × (expand_vars start (codes "${1} ${A}$") ≡ ok t)
expand_vars-used_vars_are_valid_example =
    expand_vars-used_vars_are_valid start (codes "${1} ${A}$") two_names-valid

b1-IsReference : IsReference (codes "_b.1")
unfolding is_identifier_byte is_letter is_digit
b1-IsReference =
    qualified (codes "_b") (codes ".1") (word 95 (codes "b") refl (refl, tt))
      (dot (codes "1") [] (digits 49 [] (refl, tt)) no_segments)

has_variables : requires_extension start.script (codes "variables") ≡ true
unfolding requires_extension member equal
has_variables = refl

expand_vars-append_example :
    (expand_vars start (codes "a{") ≡ ok (codes "a{"))
    × (expand_vars start (codes "a{" ++ (36 ∷ 123 ∷ codes "_b.1" ++ 125 ∷ codes "$ ${A}")) ≡ (
        value_of start (codes "_b.1") >>= λ value.
        expand_vars start (codes "$ ${A}") >>= λ rest. ok (codes "a{" ++ (value ++ rest))))
    × (written (pieces 0 (codes "$ ${A}")) ≡ codes "$ ${A}")
    × All InGrammar (pieces 0 (codes "$ ${A}"))
expand_vars-append_example =
    expand_vars-append start (codes "a{") (codes "_b.1") (codes "$ ${A}") has_variables
      (refl, (refl, tt)) b1-IsReference

abbrev set_once : RuntimeData
set_once = record start { variables = (codes "x", codes "abcd") ∷ [] }

-- The sixth byte is the second one of a character.
x_is_set : set_var (codes "X") (97 ∷ 98 ∷ 99 ∷ 100 ∷ 195 ∷ 169 ∷ []) start ≡ (ok tt, set_once)
unfolding set_var set_var_in variable_of variable_in to_lower lower_byte cut truncate back_off
    continues_at is_continuation take member insert
x_is_set = refl

set_var-var_example :
    (var set_once (codes "X") ≡ ok (truncate 5 (97 ∷ 98 ∷ 99 ∷ 100 ∷ 195 ∷ 169 ∷ [])))
    × ((other : Bytes)
        → slot start (variable_of other) ≢ slot start (variable_of (codes "X"))
        → var set_once other ≡ var start other)
set_var-var_example =
    set_var-var (codes "X") (97 ∷ 98 ∷ 99 ∷ 100 ∷ 195 ∷ 169 ∷ []) start set_once x_is_set

truncate-append_example :
    (length (truncate 2 (97 ∷ 98 ∷ 99 ∷ [])) ≤ 2)
    × ((rest : Bytes) × (97 ∷ 98 ∷ 99 ∷ [] ≡ truncate 2 (97 ∷ 98 ∷ 99 ∷ []) ++ rest)
        × ((truncate 2 (97 ∷ 98 ∷ 99 ∷ []) ≡ []) ⊎ (starts_within rest ≡ false)))
truncate-append_example = truncate-append 2 (97 ∷ 98 ∷ 99 ∷ [])
