-- ===== src/Lexer/Strings.antt =====
-- lexer/lex.go: the quoted strings and the text: strings, which are within MaxStringBytes.
use go_sieve.Prelude.{
  ℕ, suc, ◌+◌, Bool, true, false, not, ◌&&◌, [], ◌∷◌, ◌++◌, ltb, ◌==◌, if◌then◌else◌, Bytes, length,
  Result, ok, err, ◌>>=◌, Flow, next, done, loop,
}
use go_sieve.Lexer.Scan.{
  Options, LexError, eof, string_too_long, Scanned, cr, lf, backslash, quote, is_newline, advance,
  consume_crlf,
}
use go_sieve.Lexer.Token.{Position}

-- `appendStringBytes`
unfoldable pub append_string_bytes : Options → Bytes → Bytes → Result LexError Bytes
append_string_bytes o dst bs =
    if ltb 0 o.max_string_bytes && ltb o.max_string_bytes (length dst + length bs)
    then err string_too_long
    else ok (dst ++ bs)

-- The variables of the loop in `quotedString`.
pub record Quoting : Type 0 where
  pub input : Bytes
  pub pos : Position
  pub at_backslash : Bool
  pub str : Bytes

-- Append and go on, with `atBackslash` false, as at the end of the loop's body.
abbrev quoted_append :
    Options
    → Bytes
    → Bytes
    → Bytes
    → Position
    → Result LexError (Flow Quoting (Bytes × Bytes × Position))
quoted_append o str bs r p = do
  str' ← append_string_bytes o str bs
  ok (next (record { input = r; pos = p; at_backslash = false; str = str' }))

-- The body on the byte `b` with `r` behind it; `p` counts `b` already.
unfoldable pub quoted_byte :
    Options
    → ℕ
    → Bytes
    → Position
    → Bool
    → Bytes
    → Result LexError (Flow Quoting (Bytes × Bytes × Position))
unfolding consume_crlf append_string_bytes
quoted_byte o b r p at_backslash str =
    if is_newline b
    then (do (_, r', p') ← consume_crlf (b ∷ r) p; quoted_append o str (cr ∷ lf ∷ []) r' p')
    else if b == backslash
    then (if not at_backslash
        then ok (next (record { input = r; pos = p; at_backslash = true; str = str }))
        else quoted_append o str (b ∷ []) r p)
    else if b == quote
    then (if not at_backslash then ok (done (str, r, p)) else quoted_append o str (b ∷ []) r p)
    else quoted_append o str (b ∷ []) r p

unfoldable pub quoted_read :
    Options → Quoting → Bytes → Result LexError (Flow Quoting (Bytes × Bytes × Position))
quoted_read o s [] = err eof
quoted_read o s (b ∷ r) = quoted_byte o b r (advance s.pos) s.at_backslash s.str

abbrev pub quoted_round :
    Options → Quoting → Result LexError (Flow Quoting (Bytes × Bytes × Position))
quoted_round o s = quoted_read o s s.input

abbrev pub quoting : Bytes → Position → Quoting
quoting r p = record { input = r; pos = p; at_backslash = false; str = [] }

-- `quotedString`, behind the opening quote.
unfoldable pub quoted_string : Options → Bytes → Position → Scanned Bytes
unfolding loop quoted_read quoted_byte
quoted_string o r p = loop (quoted_round o) (suc (length r)) (quoting r p)

-- The variables of the loop in `multilineString`.
pub record Multiline : Type 0 where
  pub input : Bytes
  pub pos : Position
  pub at_lf : Bool
  pub at_lf_had_dot : Bool
  pub text : Bytes

-- On a line break: the text ends if the line was a lone dot.
unfoldable pub multiline_break :
    Options
    → Multiline
    → Bytes
    → Position
    → Result LexError (Flow Multiline (Bytes × Bytes × Position))
unfolding append_string_bytes
multiline_break o s r p = if s.at_lf_had_dot then ok (done (s.text, r, p)) else (do
  text ← append_string_bytes o s.text (cr ∷ lf ∷ [])
  ok (next (record s { input = r; pos = p; at_lf = true; text = text })))

-- The body on the byte `b` with `r` behind it; `p` counts `b` already.
unfoldable pub multiline_byte :
    Options
    → Multiline
    → ℕ
    → Bytes
    → Position
    → Result LexError (Flow Multiline (Bytes × Bytes × Position))
unfolding consume_crlf append_string_bytes multiline_break
multiline_byte o s b r p =
    if b == b'.'
    then (if s.at_lf
        then ok (next (record s { input = r; pos = p; at_lf = false; at_lf_had_dot = true }))
        else (do
          text ← append_string_bytes o s.text (b'.' ∷ [])
          ok (
              next (record {
                input = r;
                pos = p;
                at_lf = false;
                at_lf_had_dot = false;
                text = text;
              }))))
    else if is_newline b
    then (do (_, r', p') ← consume_crlf (b ∷ r) p; multiline_break o s r' p')
    else (do
      dotted ← if s.at_lf_had_dot then append_string_bytes o s.text (b'.' ∷ []) else ok s.text
      text ← append_string_bytes o dotted (b ∷ [])
      ok (next (record { input = r; pos = p; at_lf = false; at_lf_had_dot = false; text = text })))

unfoldable pub multiline_read :
    Options → Multiline → Bytes → Result LexError (Flow Multiline (Bytes × Bytes × Position))
unfolding multiline_byte
multiline_read o s [] = err eof
multiline_read o s (b ∷ r) = multiline_byte o s b r (advance s.pos)

abbrev pub multiline_round :
    Options → Multiline → Result LexError (Flow Multiline (Bytes × Bytes × Position))
multiline_round o s = multiline_read o s s.input

abbrev pub multiline : Bytes → Position → Multiline
multiline r p = record { input = r; pos = p; at_lf = false; at_lf_had_dot = false; text = [] }

-- `multilineString`, behind the line of "text:".
unfoldable pub multiline_string : Options → Bytes → Position → Scanned Bytes
unfolding loop multiline_read
multiline_string o r p = loop (multiline_round o) (suc (length r)) (multiline r p)
