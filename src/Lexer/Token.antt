-- ===== src/Lexer/Token.antt =====
-- lexer/token.go: positions and tokens. `Identifier`, `Number`, ... implement the interface
-- `Token`: one constructor for each, with the embedded `Position` first.
use go_sieve.Prelude.{ℕ, ◌*◌, Bytes}

pub record Position : Type 0 where
  pub file : Bytes
  pub line : ℕ
  pub col : ℕ

pub data Quantifier : Type 0 where
  no_quantifier kilo mega giga : Quantifier

-- The panic on any other byte is out of reach: the four values are the type.
unfoldable pub multiplier : Quantifier → ℕ
multiplier no_quantifier = 1
multiplier kilo = 1024
multiplier mega = 1024 * 1024
multiplier giga = 1024 * 1024 * 1024

pub data Token : Type 0 where
  identifier : Position → Bytes → Token
  number : Position → ℕ → Quantifier → Token
  string : Position → Bytes → Token
  list_start list_end : Position → Token
  block_start block_end : Position → Token
  test_list_start test_list_end : Position → Token
  comma semicolon colon : Position → Token

-- The embedded position, which `LineCol` reads.
unfoldable pub position : Token → Position
position (identifier p t) = p
position (number p n q) = p
position (string p t) = p
position (list_start p) = p
position (list_end p) = p
position (block_start p) = p
position (block_end p) = p
position (test_list_start p) = p
position (test_list_end p) = p
position (comma p) = p
position (semicolon p) = p
position (colon p) = p

-- `Position.LineCol`
pub line_col : Position → ℕ × ℕ
line_col p = (p.line, p.col)
