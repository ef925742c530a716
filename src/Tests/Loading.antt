-- ===== src/Tests/Loading.antt =====
-- The theorems on the loaders at concrete scripts.
use go_sieve.Interp.Checks
use go_sieve.Interp.Execute
use go_sieve.Interp.Load.Commands.{
  Loading, load_require, require_all, add_required, add_extension, load_cond_block, sole_ihave,
  load_guarded, decoded_args, load_branch, guard_more, guard_less, occurrences,
}
use go_sieve.Interp.Load.Dispatch.{load_script, load_block, cmd_named, given_block, load_cmd}
use go_sieve.Interp.Load.Actions.{load_reason, load_file_into, check_file_into}
use go_sieve.Interp.Load.Shape.{need, need_if}
use go_sieve.Interp.Load.Spec.{
  load_spec, load_args, bind_args, bind_arg, bind_free, bind_pos, pos_value, wrong_count, pass_list,
  pass_string, decoded_list, decoded, load_given_tests, load_given_block, all_optional, add_tests,
}
use go_sieve.Interp.Load.Tables.{supported_requires}
use go_sieve.Interp.Load.Tests.{load_ihave, all_available}
use go_sieve.Interp.Load.TestTable.{load_test, load_tests, number_of, test_named}
use go_sieve.Interp.Script.{requires_extension, available}
use go_sieve.Interp.Text.{fields, fields_from, member, to_lower, lower_byte}
use go_sieve.Interp.Action.{FileInto}
use go_sieve.Interp.Load.Encoded.{prepend, decode_from, encoded_at, decode_encoded_chars}
use go_sieve.Interp.Flags.{take_flag, take_fields, take_flags, unalias, canonical_flags}
use go_sieve.Interp.Load.Hexed.{encoded, decode_encoded_chars-encoded}
use go_sieve.Interp.Load.Print.{print_cmds, IsTest, IsLoadable, AreLoadable}
use go_sieve.Interp.Load.RoundTrip.{load_block-print_cmds}
use go_sieve.Interp.Load.Granted.{load_script-IsPermitted}
use go_sieve.Interp.Load.Permitted.{IsPermitted, IsSupported, CmdsHold}
use go_sieve.Interp.Script.{Script}
use go_sieve.Lexer.Token.{Position}
use go_sieve.Parser.Syntax.{
  string_arg, string_list_arg, test, no_tests, more_tests, cmd, no_block, block, Cmds, no_cmds,
  more_cmds,
}
use go_sieve.Prelude.{
  pos, lookup, ◌+◌, ◌-◌, ◌++◌, some, arith, ◌≡◌, refl, true, false, equal, [], ◌∷◌, none, Bytes,
  codes, ok, All,
}
use go_sieve.Tests.Branches.{small_limits}
use go_sieve.Tests.Matching.{services}

abbrev here : Position
here = record { file = []; line = 1; col = 1 }

abbrev loading : Loading
loading = record {
  services = services;
  text = record { quote_meta = λ s. s; unicode_upper = λ s. s; unicode_lower = λ s. s };
}

-- `require ["ihave", "fileinto"]; if ihave "reject" { reject "no"; } fileinto "a";`
abbrev script : Cmds
script =
    more_cmds
      (cmd here (codes "require")
        (string_list_arg (codes "ihave" ∷ codes "fileinto" ∷ []) here ∷ []) no_tests no_block)
      (more_cmds
        (cmd here (codes "if") []
          (more_tests (test here (codes "ihave") (string_arg (codes "reject") here ∷ []) no_tests)
            no_tests)
          (block (
            more_cmds
              (cmd here (codes "reject") (string_arg (codes "no") here ∷ []) no_tests no_block)
              no_cmds)))
        (more_cmds
          (cmd here (codes "fileinto") (string_arg (codes "a") here ∷ []) no_tests no_block)
          no_cmds))

abbrev loaded : Execute.Cmds
loaded =
    Execute.more_cmds
      (Execute.if_cmd (Checks.matching (λ d. ok (true, none)))
        (Execute.more_cmds (Execute.reject (codes "no")) Execute.no_cmds))
      (Execute.more_cmds
        (Execute.fileinto (record {
          mailbox = codes "a";
          flags = none;
          copy = false;
          create = false;
          special_use = [];
          mailbox_id = [];
        }))
        Execute.no_cmds)

abbrev behind : Script
behind = record {
  extensions = codes "fileinto" ∷ codes "ihave" ∷ [];
  guarded =
      λ name. 0 + occurrences name (codes "reject" ∷ []) - occurrences name (codes "reject" ∷ []);
  opts = small_limits;
}

script-loads : load_script loading script small_limits ≡ ok (loaded, behind)
unfolding load_script load_block cmd_named equal to_lower lower_byte load_require load_spec
    load_args bind_args bind_arg bind_free bind_pos pos_value wrong_count pass_list pass_string
    decoded_list decoded requires_extension member load_given_tests load_given_block all_optional
    require_all add_required add_extension supported_requires load_cond_block sole_ihave load_ihave
    need all_available available load_guarded decoded_args load_branch guard_more guard_less
    add_tests load_test load_tests number_of test_named given_block load_reason load_file_into
    check_file_into need_if load_cmd occurrences
script-loads = refl

load_script-IsPermitted_example :
    CmdsHold (IsPermitted behind) loaded
    × All IsSupported behind.extensions
    × (behind.opts ≡ small_limits)
    × ((ext : Bytes) → behind.guarded ext ≡ 0)
load_script-IsPermitted_example =
    load_script-IsPermitted loading script small_limits loaded behind script-loads

-- Two bytes, a letter behind them, and the decoder's reading of them.
decode_encoded_chars-encoded_example :
    decode_encoded_chars (encoded (64 ∷ 255 ∷ []) ++ codes "a")
    ≡ prepend (64 ∷ 255 ∷ []) (decode_encoded_chars (codes "a"))
decode_encoded_chars-encoded_example =
    decode_encoded_chars-encoded 64 (255 ∷ []) (codes "a") (omega arith, (omega arith, tt))

-- Behind the requires of fileinto, imap4flags, copy and encoded-character.
abbrev required : Script
required = record {
  extensions =
      codes "fileinto" ∷ codes "imap4flags" ∷ codes "copy" ∷ codes "encoded-character" ∷ [];
  guarded = λ name. 0;
  opts = small_limits;
}

abbrev copied_into : FileInto
copied_into = record {
  mailbox = codes "a$";
  flags = some (codes "seen" ∷ []);
  copy = true;
  create = false;
  special_use = [];
  mailbox_id = [];
}

-- `if not size :over 9 { fileinto :flags ["seen"] :copy "a$"; } else { keep; }`
abbrev branches : Execute.Cmds
branches =
    Execute.more_cmds
      (Execute.if_cmd
        (Checks.not_test (Checks.size_test (record { size = pos 9; over = true; under = false })))
        (Execute.more_cmds (Execute.fileinto copied_into) Execute.no_cmds))
      (Execute.more_cmds (Execute.else_cmd (Execute.more_cmds (Execute.keep none) Execute.no_cmds))
        Execute.no_cmds)

branches-AreLoadable : AreLoadable required branches
unfolding AreLoadable IsLoadable IsTest decoded decoded_list requires_extension member equal
    decode_encoded_chars decode_from encoded_at canonical_flags take_flags take_fields take_flag
    unalias fields fields_from to_lower lower_byte lookup
branches-AreLoadable =
    ((refl, ((refl, ((tt, refl), refl, refl), refl, tt, tt, tt, refl), tt)), ((tt, tt), tt))

load_block-print_cmds_example :
    load_block loading (print_cmds branches) required ≡ ok (branches, required)
load_block-print_cmds_example = load_block-print_cmds loading required branches branches-AreLoadable
