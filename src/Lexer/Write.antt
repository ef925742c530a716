-- ===== src/Lexer/Write.antt =====
-- lexer/write.go: tokens to text. The writer fills a byte list; an error of the underlying writer
-- is not modelled.
use go_sieve.Lexer.Scan.{backslash, quote}
use go_sieve.Lexer.Token.{
  Token, Quantifier, no_quantifier, kilo, mega, giga, identifier, number, string, list_start,
  list_end, block_start, block_end, test_list_start, test_list_end, comma, semicolon, colon,
}
use go_sieve.Prelude.{
  ℕ, zero, suc, ◌+◌, ◌/◌, ◌%◌, ◌||◌, List, [], ◌∷◌, ◌++◌, ltb, ◌==◌, if◌then◌else◌, Bytes,
}

-- The digits of `n` in front of `acc`, on fuel above `n`.
unfoldable pub digits_onto : ℕ → ℕ → Bytes → Bytes
digits_onto zero n acc = acc
digits_onto (suc f) n acc =
    let more = digits_onto f (n / 10) ((b'0' + n % 10) ∷ acc) in
    if ltb n 10 then (b'0' + n) ∷ acc else more

-- `%d` of a number that is not negative.
unfoldable pub decimal_digits : ℕ → Bytes
decimal_digits n = digits_onto (suc n) n []

-- The body of `formatString`.
abbrev pub escape_byte : ℕ → Bytes
escape_byte b = if b == quote || b == backslash then backslash ∷ b ∷ [] else b ∷ []

unfoldable pub escape : Bytes → Bytes
escape [] = []
escape (b ∷ s) = escape_byte b ++ escape s

unfoldable pub format_string : Bytes → Bytes
format_string s = quote ∷ (escape s ++ quote ∷ [])

-- `string(t.Quantifier)`, and nothing for `None`.
abbrev pub quantifier_byte : Quantifier → Bytes
quantifier_byte no_quantifier = []
quantifier_byte kilo = b'K' ∷ []
quantifier_byte mega = b'M' ∷ []
quantifier_byte giga = b'G' ∷ []

unfoldable pub write_token : Token → Bytes
write_token (identifier p t) = t
write_token (number p n q) = decimal_digits n ++ quantifier_byte q
write_token (string p s) = format_string s
write_token (list_start p) = b'[' ∷ []
write_token (list_end p) = b']' ∷ []
write_token (test_list_start p) = b'(' ∷ []
write_token (test_list_end p) = b')' ∷ []
write_token (block_start p) = b'{' ∷ []
write_token (block_end p) = b'}' ∷ []
write_token (comma p) = b',' ∷ []
write_token (semicolon p) = b';' ∷ []
write_token (colon p) = b':' ∷ []

-- `Write`: a space behind each token.
unfoldable pub write : List Token → Bytes
write [] = []
write (t ∷ ts) = write_token t ++ b' ' ∷ write ts
