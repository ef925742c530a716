-- ===== src/Lexer/Plain.antt =====
-- Lexing without positions and limits, and the tokens that lexer/write.go can write for it.
use go_sieve.Lexer.Scan.{Options, is_valid_identifier, max_int}
use go_sieve.Lexer.Token.{
  Position, Token, identifier, number, string, list_start, list_end, block_start, block_end,
  test_list_start, test_list_end, comma, semicolon, colon,
}
use go_sieve.Lexer.Quotes.{HasCrlf}
use go_sieve.Lexer.Write.{write}
use go_sieve.Prelude.{◌≤◌, ◌≡◌, ◌⊎◌, true, false, List, [], ◌∷◌, ◌++◌, ◌==◌, Bytes, length}

-- No positions and no limits.
abbrev pub plain : Bytes → Options
plain file = record { filename = file; no_position = true; max_tokens = 0; max_string_bytes = 0 }

abbrev pub unplaced : Bytes → Position
unplaced file = record { file = file; line = 0; col = 0 }

-- The token at another position.
abbrev pub place : Position → Token → Token
place p (identifier _ t) = identifier p t
place p (number _ n q) = number p n q
place p (string _ s) = string p s
place p (list_start _) = list_start p
place p (list_end _) = list_end p
place p (block_start _) = block_start p
place p (block_end _) = block_end p
place p (test_list_start _) = test_list_start p
place p (test_list_end _) = test_list_end p
place p (comma _) = comma p
place p (semicolon _) = semicolon p
place p (colon _) = colon p

-- Behind a 't' the lexer looks at four more bytes.
abbrev pub LooksAhead : Bytes → Bytes → Type 0
LooksAhead [] rest = ⊥
LooksAhead (b ∷ n) rest = ((b == b't') ≡ false) ⊎ (4 ≤ length (n ++ b' ' ∷ rest))

-- Tokens that have a text, in front of the text `rest`.
abbrev pub IsWritable : Token → Bytes → Type 0
IsWritable (identifier p t) rest = (is_valid_identifier t ≡ true) × LooksAhead t rest
IsWritable (number p n q) rest = n ≤ max_int
IsWritable (string p s) rest = HasCrlf s
IsWritable _ rest = Unit

abbrev pub AllWritable : List Token → Type 0
AllWritable [] = Unit
AllWritable (t ∷ ts) = IsWritable t (write ts) × AllWritable ts

abbrev pub IsPunctuation : Token → Type 0
IsPunctuation (identifier p t) = ⊥
IsPunctuation (number p n q) = ⊥
IsPunctuation (string p s) = ⊥
IsPunctuation _ = Unit
