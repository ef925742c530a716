-- ===== src/Lexer/Lex.antt =====
-- lexer/lex.go, `tokenStream` and `Lex`.
use go_sieve.Lexer.Strings.{quoted_string, multiline_string}
use go_sieve.Lexer.Scan.{
  Options, LexError, eof, unexpected_eof, nul_byte, forward_slash, unexpected_character,
  too_many_tokens, is_newline, advance, consume_crlf, quantifier_of, scan_digits, decimal,
  is_letter, is_digit, scan_identifier, scan_number, hash_comment, multiline_comment, quote,
  skip_text_line,
}
use go_sieve.Lexer.Token.{
  Position, Token, identifier, number, string, list_start, list_end, block_start, block_end,
  test_list_start, test_list_end, comma, semicolon, colon,
}
use go_sieve.Prelude.{
  ℕ, suc, ◌+◌, false, not, ◌&&◌, ◌||◌, List, [], ◌∷◌, ◌++◌, Option, none, some, ltb, ◌==◌,
  if◌then◌else◌, Bytes, codes, equal, length, Result, ok, err, out_of_fuel, ◌>>=◌, Flow, next, done,
  loop,
}

-- The variables of the loop in `tokenStream`.
pub record Lexing : Type 0 where
  pub input : Bytes
  pub pos : Position
  pub res : List Token

abbrev pub LexRound : Type 0
LexRound = Result LexError (Flow Lexing (List Token))

-- `continue`: the check at the loop's end is skipped.
abbrev pub continue : Bytes → Position → List Token → LexRound
continue r p res = ok (next (record { input = r; pos = p; res = res }))

-- The end of the loop's body.
unfoldable pub check_tokens : Options → Bytes → Position → List Token → LexRound
check_tokens o r p res =
    if not (o.max_tokens == 0) && ltb o.max_tokens (length res)
    then err too_many_tokens
    else continue r p res

abbrev pub push : Options → List Token → Token → Bytes → Position → LexRound
push o res t r p = check_tokens o r p (res ++ t ∷ [])

-- The token of a byte that is one by itself.
unfoldable pub punctuation : Position → ℕ → Option Token
punctuation p b =
    if b == b'['
    then some (list_start p)
    else if b == b']'
    then some (list_end p)
    else if b == b'{'
    then some (block_start p)
    else if b == b'}'
    then some (block_end p)
    else if b == b'('
    then some (test_list_start p)
    else if b == b')'
    then some (test_list_end p)
    else if b == b','
    then some (comma p)
    else if b == b':'
    then some (colon p)
    else if b == b';'
    then some (semicolon p)
    else none

-- The `default` case: an identifier or a number.
unfoldable pub lex_word : Options → ℕ → Bytes → Position → List Token → LexRound
lex_word o b r p res =
    if is_letter b
    then (do (id, r', p') ← scan_identifier (b ∷ []) r p; push o res (identifier p id) r' p')
    else if is_digit b
    then (do ((value, q), r', p') ← scan_number (b ∷ []) r p; push o res (number p value q) r' p')
    else err (unexpected_character b)

-- Behind "text:", which ends the round by `continue`.
unfoldable pub lex_text : Options → Bytes → Position → Position → List Token → LexRound
lex_text o r start p res = do
  (_, r₁, p₁) ← skip_text_line r p
  (text, r₂, p₂) ← multiline_string o r₁ p₁
  continue r₂ p₂ (res ++ string start text ∷ [])

-- The case 't': four more bytes must be there to look at.
unfoldable pub lex_t : Options → Bytes → Position → List Token → LexRound
lex_t o (b₁ ∷ b₂ ∷ b₃ ∷ b₄ ∷ r) p res =
    if equal (b₁ ∷ b₂ ∷ b₃ ∷ b₄ ∷ []) (codes "ext:")
    then lex_text o r p (record p { col = p.col + 4 }) res
    else lex_word o b't' (b₁ ∷ b₂ ∷ b₃ ∷ b₄ ∷ r) p res
lex_t o _ p res = err eof

-- The case '/'.
unfoldable pub lex_slash : Options → Bytes → Position → List Token → LexRound
lex_slash o [] p res = err eof
lex_slash o (b ∷ r) p res =
    if not (b == b'*')
    then err forward_slash
    else (do (_, r', p') ← multiline_comment false r (advance p); check_tokens o r' p' res)

-- The `switch` on the byte `b` with `r` behind it.
unfoldable pub lex_byte : Options → ℕ → Bytes → Position → List Token → LexRound
lex_byte o b r p res =
    if b == 0
    then err nul_byte
    else if b == b' ' || b == b'\t'
    then continue r p res
    else if is_newline b
    then (do (_, r', p') ← consume_crlf (b ∷ r) p; check_tokens o r' p' res)
    else if b == quote
    then (do (str, r', p') ← quoted_string o r p; push o res (string p str) r' p')
    else if b == b'#'
    then (do (_, r', p') ← hash_comment r p; check_tokens o r' p' res)
    else if b == b'/'
    then lex_slash o r p res
    else if b == b't'
    then lex_t o r p res
    else lex_word o b r p res

unfoldable pub lex_switch : Options → ℕ → Bytes → Position → List Token → LexRound
lex_switch o b r p res = elim (punctuation p b) [
  | some t ↦ push o res t r p
  | none ↦ lex_byte o b r p res
]

-- The position at which a round reads its byte.
abbrev pub count : Options → Position → Position
count o p = if o.no_position then record p { line = 0; col = 0 } else advance p

unfoldable pub lex_read : Options → Lexing → Bytes → LexRound
lex_read o s [] = ok (done s.res)
lex_read o s (b ∷ r) = lex_switch o b r (count o s.pos) s.res

abbrev pub lex_round : Options → Lexing → LexRound
lex_round o s = lex_read o s s.input

unfoldable pub token_stream : Options → Bytes → Result LexError (List Token)
token_stream o src =
    loop (lex_round o) (suc (length src))
      (record { input = src; pos = record { file = o.filename; line = 1; col = 0 }; res = [] })

-- `Lex`: the end of input within a token is `io.ErrUnexpectedEOF`.
unfoldable pub unexpected : Result LexError (List Token) → Result LexError (List Token)
unexpected (ok toks) = ok toks
unexpected (err eof) = err unexpected_eof
unexpected (err e) = err e
unexpected out_of_fuel = out_of_fuel

unfoldable pub lex : Options → Bytes → Result LexError (List Token)
lex o src = unexpected (token_stream o src)

-- Everything that a run computes with.
unfoldable pub lex_run : Options → Bytes → Result LexError (List Token)
unfolding lex unexpected token_stream loop lex_read lex_switch punctuation lex_byte lex_word lex_t
    lex_text lex_slash check_tokens equal is_letter is_digit consume_crlf scan_identifier
    scan_number scan_digits quantifier_of decimal hash_comment multiline_comment quoted_string
    multiline_string skip_text_line
lex_run = lex
