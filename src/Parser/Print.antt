-- ===== src/Parser/Print.antt =====
-- A printer of commands, which parser/ does not have: the tokens that a command stands for, in
-- front of those that follow. The tests of a command stand in parentheses.
use go_sieve.Lexer.Token.{
  Position, Token, identifier, number, string, list_start, list_end, block_start, block_end,
  test_list_start, test_list_end, comma, semicolon, colon, no_quantifier,
}
use go_sieve.Parser.Parse.{Options, exceeds}
use go_sieve.Parser.Syntax.{
  Arg, number_arg, string_arg, string_list_arg, tag_arg, Test, test, Tests, no_tests, more_tests,
  Cmd, cmd, Block, no_block, block, Cmds, no_cmds, more_cmds,
}
use go_sieve.Prelude.{
  ℕ, ◌+◌, ◌^◌, ◌<◌, ◌≡◌, pos, negsuc, Bool, true, false, List, [], ◌∷◌, Bytes, All,
}

-- The position of a token whose position the commands do not keep.
abbrev pub nowhere : Position
nowhere = record { file = []; line = 0; col = 0 }

abbrev pub emit_strings : Bool → List Bytes → List Token → List Token
emit_strings first [] rest = list_end nowhere ∷ rest
emit_strings true (s ∷ l) rest = string nowhere s ∷ emit_strings false l rest
emit_strings false (s ∷ l) rest = comma nowhere ∷ string nowhere s ∷ emit_strings false l rest

abbrev pub emit_arg : Arg → List Token → List Token
emit_arg (number_arg (pos n) p) rest = number p n no_quantifier ∷ rest
emit_arg (number_arg (negsuc n) p) rest = rest
emit_arg (string_arg s p) rest = string p s ∷ rest
emit_arg (string_list_arg l p) rest = list_start p ∷ emit_strings true l rest
emit_arg (tag_arg t p) rest = colon p ∷ identifier p t ∷ rest

abbrev pub emit_args : List Arg → List Token → List Token
emit_args [] rest = rest
emit_args (a ∷ more) rest = emit_arg a (emit_args more rest)

unfoldable mutual
  pub emit_test : Test → List Token → List Token
  emit_test (test p t args no_tests) rest = identifier p t ∷ emit_args args rest
  emit_test (test p t args (more_tests u us)) rest =
      identifier p t ∷ emit_args args (test_list_start nowhere ∷ emit_test u (emit_more us rest))

  -- The tests behind one in a list, and the end of the list.
  pub emit_more : Tests → List Token → List Token
  emit_more no_tests rest = test_list_end nowhere ∷ rest
  emit_more (more_tests t ts) rest = comma nowhere ∷ emit_test t (emit_more ts rest)

abbrev pub emit_tests : Tests → List Token → List Token
emit_tests no_tests rest = rest
emit_tests (more_tests t ts) rest = test_list_start nowhere ∷ emit_test t (emit_more ts rest)

unfoldable mutual
  pub emit_cmd : Cmd → List Token → List Token
  emit_cmd (cmd p t args tests b) rest =
      identifier p t ∷ emit_args args (emit_tests tests (emit_block b rest))

  pub emit_block : Block → List Token → List Token
  emit_block no_block rest = semicolon nowhere ∷ rest
  emit_block (block cs) rest = block_start nowhere ∷ emit_cmds cs (block_end nowhere ∷ rest)

  pub emit_cmds : Cmds → List Token → List Token
  emit_cmds no_cmds rest = rest
  emit_cmds (more_cmds c cs) rest = emit_cmd c (emit_cmds cs rest)

-- Arguments that have tokens: no negative number, and none that needs a quantifier to fit.
abbrev pub IsPrintable : Arg → Type 0
IsPrintable (number_arg (pos n) p) = n < 2 ^ 63
IsPrintable (number_arg (negsuc n) p) = ⊥
IsPrintable _ = Unit

-- Tests and commands that stay within the limits on nesting, inside `nesting` others.
unfoldable mutual
  pub FitsTest : Options → ℕ → Test → Type 0
  FitsTest o nesting (test p t args tests) = All IsPrintable args × FitsTests o nesting tests

  pub FitsTests : Options → ℕ → Tests → Type 0
  FitsTests o nesting no_tests = Unit
  FitsTests o nesting (more_tests t ts) =
      (exceeds o.max_test_nesting (nesting + 1) ≡ false)
      × FitsTest o (nesting + 1) t
      × FitsTests o nesting ts

unfoldable mutual
  pub FitsCmd : Options → ℕ → Cmd → Type 0
  FitsCmd o nesting (cmd p t args tests b) =
      All IsPrintable args × FitsTests o 0 tests × FitsBlock o nesting b

  pub FitsBlock : Options → ℕ → Block → Type 0
  FitsBlock o nesting no_block = Unit
  FitsBlock o nesting (block cs) =
      (exceeds o.max_block_nesting (nesting + 1) ≡ false) × FitsCmds o (nesting + 1) cs

  pub FitsCmds : Options → ℕ → Cmds → Type 0
  FitsCmds o nesting no_cmds = Unit
  FitsCmds o nesting (more_cmds c cs) = FitsCmd o nesting c × FitsCmds o nesting cs
