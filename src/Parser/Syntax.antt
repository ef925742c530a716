-- ===== src/Parser/Syntax.antt =====
-- parser/command.go. A list of tests or commands inside one is a type of the block.
use go_sieve.Lexer.Token.{Position}
use go_sieve.Prelude.{List, ℤ, Bytes}

pub data Arg : Type 0 where
  number_arg : ℤ → Position → Arg
  string_arg : Bytes → Position → Arg
  string_list_arg : List Bytes → Position → Arg
  tag_arg : Bytes → Position → Arg

mutual
  -- `Position`, `Id`, `Args`, `Tests`
  pub data Test : Type 0 where
    test : Position → Bytes → List Arg → Tests → Test

  pub data Tests : Type 0 where
    no_tests : Tests
    more_tests : Test → Tests → Tests

mutual
  -- `Position`, `Id`, `Args`, `Tests`, `Block`
  pub data Cmd : Type 0 where
    cmd : Position → Bytes → List Arg → Tests → Block → Cmd

  -- A nil slice is not an empty one: `keep;` and `keep { }` differ.
  pub data Block : Type 0 where
    no_block : Block
    block : Cmds → Block

  pub data Cmds : Type 0 where
    no_cmds : Cmds
    more_cmds : Cmd → Cmds → Cmds

-- `append(res, t)`
unfoldable pub add_test : Tests → Test → Tests
add_test no_tests t = more_tests t no_tests
add_test (more_tests u ts) t = more_tests u (add_test ts t)

unfoldable pub add_cmd : Cmds → Cmd → Cmds
add_cmd no_cmds c = more_cmds c no_cmds
add_cmd (more_cmds d cs) c = more_cmds d (add_cmd cs c)
