-- ===== src/Parser/Parse.antt =====
-- parser/parse.go. A stream is matched as what `Peek` and `Pop` tell of it: the token at the cursor
-- and the tokens behind. Each call costs a unit of fuel.
use go_sieve.Lexer.Stream.{Stream, new_stream}
use go_sieve.Lexer.Token.{
  Position, Token, identifier, number, string, list_start, list_end, block_start, block_end,
  test_list_start, test_list_end, comma, semicolon, colon, position, multiplier,
}
use go_sieve.Parser.Syntax.{
  Arg, number_arg, string_arg, string_list_arg, tag_arg, test, Tests, no_tests, add_test, cmd,
  Block, no_block, block, Cmds, no_cmds, add_cmd,
}
use go_sieve.Prelude.{
  ℕ, zero, suc, ◌+◌, ◌*◌, to_int, Bool, true, false, not, ◌&&◌, List, [], ◌∷◌, ◌++◌, Option, none,
  some, ltb, ◌==◌, if◌then◌else◌, Bytes, length, Result, ok, err, out_of_fuel, ◌>>=◌,
}

pub record Options : Type 0 where
  pub max_block_nesting : ℕ
  pub max_test_nesting : ℕ

-- The messages, in the order of the source.
pub data Reason : Type 0 where
  block_nesting_limit expected_command expected_end expected_brace unexpected_token : Reason
  argument_nesting_limit arguments_eof arguments_end : Reason
  tag_eof tag_identifier arguments_unexpected : Reason
  tests_eof tests_unexpected_identifier tests_unexpected_comma tests_unexpected : Reason
  strings_eof strings_unexpected_string strings_unexpected_comma strings_unexpected : Reason

-- `stream.Err`: the error carries the position of the token at the cursor, if there is one.
pub record ParseError : Type 0 where
  pub at : Option Position
  pub why : Reason

abbrev pub Parsed : Type 0 → Type 0
Parsed A = Result ParseError (A × Stream)

abbrev pub fail_at : {A : Type 0} → Token → Reason → Parsed A
fail_at t why = err (record { at = some (position t); why = why })

abbrev pub fail_end : {A : Type 0} → Reason → Parsed A
fail_end why = err (record { at = none; why = why })

abbrev pub fail : {A : Type 0} → Option Token → Reason → Parsed A
fail none why = fail_end why
fail (some t) why = fail_at t why

-- `max != 0 && nesting > max`
abbrev pub exceeds : ℕ → ℕ → Bool
exceeds max nesting = not (max == 0) && ltb max nesting

-- `readStringList`, behind the opening bracket.
unfoldable pub read_string_list : Bool → List Bytes → List Token → Parsed (List Bytes)
read_string_list need res [] = fail_end strings_eof
read_string_list need res (string p t ∷ r) =
    let rest = read_string_list false (res ++ t ∷ []) r in
    if not need then fail_at (string p t) strings_unexpected_string else rest
read_string_list need res (comma p ∷ r) =
    let rest = read_string_list true res r in
    if need then fail_at (comma p) strings_unexpected_comma else rest
read_string_list need res (list_end p ∷ r) = ok (res, (some (list_end p), r))
read_string_list need res (t ∷ r) = fail_at t strings_unexpected

-- A `Colon` is behind the cursor: the tag's name has to follow.
unfoldable pub read_tag : Token → List Token → Parsed Bytes
read_tag c [] = fail_end tag_eof
read_tag c (identifier p t ∷ r) = ok (t, (some (identifier p t), r))
read_tag c (t ∷ r) = fail_at t tag_identifier

unfoldable mutual
  -- `readArguments`
  pub read_arguments : ℕ → Options → Bool → ℕ → Stream → Parsed (List Arg × Tests)
  read_arguments zero o for_test nesting s = out_of_fuel
  read_arguments (suc f) o for_test nesting (l, ts) =
      let rest = read_args f o for_test nesting [] no_tests (l, ts) in
      if exceeds o.max_test_nesting nesting then fail l argument_nesting_limit else rest

  -- The loop of `readArguments`.
  pub read_args : ℕ → Options → Bool → ℕ → List Arg → Tests → Stream → Parsed (List Arg × Tests)
  read_args zero o for_test nesting args tests s = out_of_fuel
  read_args (suc f) o for_test nesting args tests (l, []) = fail l arguments_eof
  read_args (suc f) o for_test nesting args tests (l, semicolon p ∷ r) =
      ok ((args, tests), (l, semicolon p ∷ r))
  read_args (suc f) o for_test nesting args tests (l, block_start p ∷ r) =
      ok ((args, tests), (l, block_start p ∷ r))
  read_args (suc f) o for_test nesting args tests (l, comma p ∷ r) =
      if not for_test then fail l arguments_end else ok ((args, tests), (l, comma p ∷ r))
  read_args (suc f) o for_test nesting args tests (l, test_list_end p ∷ r) =
      if not for_test then fail l arguments_end else ok ((args, tests), (l, test_list_end p ∷ r))
  read_args (suc f) o for_test nesting args tests (l, string p t ∷ r) =
      read_args f o for_test nesting (args ++ string_arg t p ∷ []) tests (some (string p t), r)
  read_args (suc f) o for_test nesting args tests (l, list_start p ∷ r) = do
    (list, s) ← read_string_list true [] r
    read_args f o for_test nesting (args ++ string_list_arg list p ∷ []) tests s
  read_args (suc f) o for_test nesting args tests (l, number p n q ∷ r) =
      let value = to_int (n * multiplier q) in
      read_args f o for_test nesting (args ++ number_arg value p ∷ []) tests
        (some (number p n q), r)
  read_args (suc f) o for_test nesting args tests (l, colon p ∷ r) = do
    (id, s) ← read_tag (colon p) r
    read_args f o for_test nesting (args ++ tag_arg id p ∷ []) tests s
  read_args (suc f) o for_test nesting args tests (l, identifier p t ∷ r) = do
    ((t_args, t_tests), s) ← read_arguments f o true (nesting + 1) (some (identifier p t), r)
    read_args f o for_test nesting args (add_test tests (test p t t_args t_tests)) s
  read_args (suc f) o for_test nesting args tests (l, test_list_start p ∷ r) = do
    (listed, s) ← read_test_list f o nesting true no_tests (some (test_list_start p), r)
    ok ((args, listed), s)
  read_args (suc f) o for_test nesting args tests (l, t ∷ r) = fail l arguments_unexpected

  -- `readTestList`, behind the opening parenthesis.
  pub read_test_list : ℕ → Options → ℕ → Bool → Tests → Stream → Parsed Tests
  read_test_list zero o nesting need res s = out_of_fuel
  read_test_list (suc f) o nesting need res (l, []) = fail_end tests_eof
  read_test_list (suc f) o nesting need res (l, identifier p t ∷ r) =
      let rest = (do
        ((args, tests), s) ← read_arguments f o true (nesting + 1) (some (identifier p t), r)
        read_test_list f o nesting false (add_test res (test p t args tests)) s) in
      if not need then fail_at (identifier p t) tests_unexpected_identifier else rest
  read_test_list (suc f) o nesting need res (l, comma p ∷ r) =
      let rest = read_test_list f o nesting true res (some (comma p), r) in
      if need then fail_at (comma p) tests_unexpected_comma else rest
  read_test_list (suc f) o nesting need res (l, test_list_end p ∷ r) =
      ok (res, (some (test_list_end p), r))
  read_test_list (suc f) o nesting need res (l, t ∷ r) = fail_at t tests_unexpected

-- The check for the end of input, `Last() == nil`.
unfoldable pub close_block : Cmds → Stream → Parsed Block
close_block cmds (none, ts) = fail_end expected_brace
close_block cmds (some t, ts) = ok (block cmds, (some t, ts))

unfoldable mutual
  -- `parse`
  pub parse : ℕ → Options → ℕ → Stream → Parsed Cmds
  parse zero o nesting s = out_of_fuel
  parse (suc f) o nesting (l, ts) =
      let rest = parse_loop f o nesting no_cmds (l, ts) in
      if exceeds o.max_block_nesting nesting then fail l block_nesting_limit else rest

  -- The loop of `parse`: the name of a command, or the end.
  pub parse_loop : ℕ → Options → ℕ → Cmds → Stream → Parsed Cmds
  parse_loop zero o nesting res s = out_of_fuel
  parse_loop (suc f) o nesting res (l, []) = ok (res, (none, []))
  parse_loop (suc f) o nesting res (l, identifier p t ∷ r) = do
    ((args, tests), s) ← read_arguments (2 * length r + 2) o false 0 (some (identifier p t), r)
    (blk, s') ← parse_end f o nesting s
    parse_loop f o nesting (add_cmd res (cmd p t args tests blk)) s'
  parse_loop (suc f) o nesting res (l, block_end p ∷ r) = ok (res, (some (block_end p), r))
  parse_loop (suc f) o nesting res (l, t ∷ r) = fail_at t expected_command

  -- `cmdEnd`: a semicolon, or a block.
  pub parse_end : ℕ → Options → ℕ → Stream → Parsed Block
  parse_end zero o nesting s = out_of_fuel
  parse_end (suc f) o nesting (l, []) = fail_end expected_end
  parse_end (suc f) o nesting (l, semicolon p ∷ r) = ok (no_block, (some (semicolon p), r))
  parse_end (suc f) o nesting (l, block_start p ∷ r) = do
    (cmds, s) ← parse f o (nesting + 1) (some (block_start p), r)
    close_block cmds s
  parse_end (suc f) o nesting (l, t ∷ r) = fail_at t unexpected_token

-- `Parse`
unfoldable pub parse_stream : Options → List Token → Parsed Cmds
parse_stream o toks = parse (2 * length toks + 2) o 0 (new_stream toks)
