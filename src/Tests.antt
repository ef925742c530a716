-- ===== src/Tests.antt =====
-- The theorems on the lexer, the parser and the flags at concrete inputs.
mod Protocol
mod Store
mod Branches
mod Execution
mod Matching
mod Items
mod Loading
mod Server
use go_sieve.Interp.Flags.{
  canonical_flags, unalias, IsFree, canonical_flags-IsFree, take_flags, take_fields, take_flag,
}
use go_sieve.Interp.Numeric.{below, compare_numeric_value-below}
use go_sieve.Interp.Relational.{ge, compare_uint64, compare_numeric_value}
use go_sieve.Interp.Text.{member, fields, fields_from}
use go_sieve.Lexer.Cursor.{
  StreamCall, call_last, call_pop, call_peek, cursor_calls, stream_calls, cursor_calls-stream_calls,
}
use go_sieve.Lexer.Lex.{lex, lex_run}
use go_sieve.Lexer.Plain.{plain, unplaced, place, AllWritable}
use go_sieve.Lexer.RoundTrip.{lex-write}
use go_sieve.Lexer.Scan.{Options, is_valid_identifier}
use go_sieve.Lexer.Sound.{IsLexed, lex-IsLexed, lex-ne-out_of_fuel}
use go_sieve.Lexer.Stream.{cursor_stream, new_stream}
use go_sieve.Lexer.Token.{Token, identifier, number, semicolon, block_start, block_end, kilo}
use go_sieve.Lexer.Quotes.{nil, byte}
use go_sieve.Lexer.Write.{write, decimal_digits, digits_onto}
use go_sieve.Managesieve.Command.{
  CommandArg, str_arg, num_arg, format_int, copy_script, write_script, put_script,
  write_simple_command,
}
use go_sieve.Managesieve.Decode.{
  Decoder, read_command, to_upper, read_atom, skip_sp, atom_bytes, is_atom_char, add_command_bytes,
  command_round, peek_byte, command_end, command_argument, expect_crlf, read_token, token_bytes,
  read_string, string_bytes, quoted_bytes,
}
use go_sieve.Managesieve.Lines.{TakesLine, read_lines-Ends}
use go_sieve.Managesieve.Memory.{
  present, rename_script, delete_script, validate_script_name, any_forbidden, is_forbidden,
  all_valid, MemorySession, MemorySessionOptions, new_memory_session,
}
use go_sieve.Managesieve.Memory
use go_sieve.Managesieve.Runes.{runes, runes_from, decode_rune, no_control, is_control}
use go_sieve.Managesieve.Encode.{
  string, valid_quoted, escape_quoted, quoted, write_string, atom, sp, new_encoder, literal_start,
  literal_write, literal_close, crlf,
}
use go_sieve.Managesieve.Tokens.{FitsAtom}
use go_sieve.Managesieve.RoundTrip.{
  total, FitsCommand, read_command-write_simple_command, values, quoted_arg, number_arg,
}
use go_sieve.Managesieve.Written.{arg_value}
use go_sieve.Managesieve.Scripts.{put_script-lookup, rename_script-lookup, delete_script-lookup}
use go_sieve.Managesieve.Sessions.{
  IsWell, Request, put, activate, rename, remove, serve, serve-IsWell,
}
use go_sieve.Managesieve.Status.{read_capability_or_status, read_script_or_status}
use go_sieve.Managesieve.Total.{read_command-ne-out_of_fuel, length-read_command}
use go_sieve.Parser.Commands.{parse_stream-emit_cmds, parse_stream-block_end}
use go_sieve.Parser.Nesting.{CmdsWithin, parse_stream-CmdsWithin}
use go_sieve.Parser.Parse.{parse_stream}
use go_sieve.Parser.Print.{nowhere, emit_cmds, FitsCmds, FitsTests}
use go_sieve.Parser.Syntax.{
  Cmds, no_cmds, more_cmds, cmd, number_arg, tag_arg, test, no_tests, more_tests, block, no_block,
}
use go_sieve.Parser.Total.{parse_stream-ne-out_of_fuel}
use go_sieve.Parser.Parse
use go_sieve.Prelude.{
  ◌+◌, ◌≤◌, ◌≡◌, ◌≢◌, refl, inl, true, false, List, [], ◌∷◌, ◌++◌, map, none, some, arith, All,
  Bytes, codes, equal, length, Ends, ok, out_of_fuel, lookup, insert, delete, if◌then◌else◌, pos,
  loop,
}

abbrev limits : Options
limits = record {
  filename = codes "a";
  no_position = true;
  max_tokens = 100;
  max_string_bytes = 20;
}

abbrev source : Bytes
source = codes "if size 1K { discard; }"

abbrev lexed_tokens : List Token
lexed_tokens =
    identifier (unplaced (codes "a")) (codes "if")
    ∷ identifier (unplaced (codes "a")) (codes "size")
    ∷ number (unplaced (codes "a")) 1 kilo
    ∷ block_start (unplaced (codes "a"))
    ∷ identifier (unplaced (codes "a")) (codes "discard")
    ∷ semicolon (unplaced (codes "a"))
    ∷ block_end (unplaced (codes "a"))
    ∷ []

source_lexed : lex limits source ≡ ok lexed_tokens
unfolding lex_run
source_lexed = refl

lex-IsLexed_example : All (IsLexed limits) lexed_tokens
lex-IsLexed_example = lex-IsLexed limits source source_lexed

lex-ne-out_of_fuel_example : lex limits source ≢ out_of_fuel
lex-ne-out_of_fuel_example = lex-ne-out_of_fuel limits source

abbrev written_tokens : List Token
written_tokens =
    identifier nowhere (codes "keep")
    ∷ Token.string nowhere (codes "a\"b")
    ∷ number nowhere 25 kilo
    ∷ semicolon nowhere
    ∷ []

keep-valid : is_valid_identifier (codes "keep") ≡ true
unfolding is_valid_identifier
keep-valid = refl

written_tokens-AllWritable : AllWritable written_tokens
written_tokens-AllWritable =
    ((keep-valid, inl refl), (byte refl (byte refl (byte refl nil)), (omega arith, (tt, tt))))

lex-write_example :
    lex (plain (codes "f")) (write written_tokens)
    ≡ ok (map (place (unplaced (codes "f"))) written_tokens)
lex-write_example = lex-write (codes "f") written_tokens written_tokens-AllWritable

abbrev some_calls : List StreamCall
some_calls = call_last ∷ call_peek ∷ call_pop ∷ call_last ∷ []

cursor_calls-stream_calls_example :
    cursor_calls (call_pop ∷ some_calls) (cursor_stream lexed_tokens)
    ≡ some (stream_calls (call_pop ∷ some_calls) (new_stream lexed_tokens))
cursor_calls-stream_calls_example = cursor_calls-stream_calls some_calls lexed_tokens

abbrev nesting : Parse.Options
nesting = record { max_block_nesting = 15; max_test_nesting = 15 }

-- if not (size :over 100) { keep; }
abbrev script : Cmds
script =
    more_cmds
      (cmd nowhere (codes "if") []
        (more_tests
          (test nowhere (codes "not") [] (
            more_tests
              (test nowhere (codes "size")
                (tag_arg (codes "over") nowhere ∷ number_arg (pos 100) nowhere ∷ []) no_tests)
              no_tests))
          no_tests)
        (block (more_cmds (cmd nowhere (codes "keep") [] no_tests no_block) no_cmds)))
      no_cmds

script-FitsCmds : FitsCmds nesting 0 script
unfolding FitsCmds FitsTests
script-FitsCmds = ground arith

parse_stream-emit_cmds_example :
    parse_stream nesting (emit_cmds script []) ≡ ok (script, (none, []))
parse_stream-emit_cmds_example = parse_stream-emit_cmds nesting script script-FitsCmds

abbrev ignored_tokens : List Token
ignored_tokens = identifier nowhere (codes "discard") ∷ semicolon nowhere ∷ []

parse_stream-block_end_example :
    parse_stream nesting (emit_cmds script (block_end nowhere ∷ ignored_tokens))
    ≡ ok (script, (some (block_end nowhere), ignored_tokens))
parse_stream-block_end_example =
    parse_stream-block_end nesting script ignored_tokens script-FitsCmds

parse_stream-CmdsWithin_example : CmdsWithin nesting 0 script
parse_stream-CmdsWithin_example =
    parse_stream-CmdsWithin nesting (emit_cmds script []) script (none, [])
      (parse_stream-emit_cmds nesting script script-FitsCmds)

parse_stream-ne-out_of_fuel_example : parse_stream nesting lexed_tokens ≢ out_of_fuel
parse_stream-ne-out_of_fuel_example = parse_stream-ne-out_of_fuel nesting lexed_tokens

flags :
    canonical_flags (codes "a b" ∷ codes "c a" ∷ []) (codes "b" ∷ []) []
    ≡ some (codes "a" ∷ codes "c" ∷ [])
unfolding canonical_flags take_flags take_fields take_flag unalias member fields fields_from equal
    lookup
flags = refl

canonical_flags-IsFree_example :
    All (IsFree (map (unalias []) (codes "b" ∷ []))) (codes "a" ∷ codes "c" ∷ [])
canonical_flags-IsFree_example =
    canonical_flags-IsFree (codes "a b" ∷ codes "c a" ∷ []) (codes "b" ∷ []) []
      (codes "a" ∷ codes "c" ∷ []) flags

compare_numeric_value-below_example :
    compare_numeric_value ge none (some 5) ≡ compare_uint64 ge (below 9 none) (below 9 (some 5))
compare_numeric_value-below_example =
    compare_numeric_value-below ge 9 none (some 5) tt (omega arith)
