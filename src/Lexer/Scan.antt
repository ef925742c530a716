-- ===== src/Lexer/Scan.antt =====
-- lexer/lex.go, the routines under `tokenStream`. The reader is the list of bytes not yet read, and
-- `state` the position; both come back with the result. The only read error is the end of input.
use go_sieve.Prelude.{
  ℕ, ◌+◌, ◌-◌, ◌*◌, ◌^◌, Bool, true, false, ◌&&◌, ◌||◌, [], ◌∷◌, ◌++◌, Option, none, some, leb,
  ◌==◌, if◌then◌else◌, within, Bytes, Result, ok, err, ◌>>=◌,
}
use go_sieve.Lexer.Token.{Position, Quantifier, no_quantifier, kilo, mega, giga}

pub record Options : Type 0 where
  pub filename : Bytes
  pub no_position : Bool
  pub max_tokens : ℕ
  pub max_string_bytes : ℕ

pub data LexError : Type 0 where
  eof unexpected_eof : LexError
  cr_without_lf nul_byte forward_slash : LexError
  unexpected_character : ℕ → LexError
  too_many_tokens string_too_long number_range : LexError
  panic : LexError

-- A value with the bytes left and the position reached.
abbrev pub Scanned : Type 0 → Type 0
Scanned A = Result LexError (A × Bytes × Position)

abbrev pub cr : ℕ
cr = 13

abbrev pub lf : ℕ
lf = 10

abbrev pub backslash : ℕ
backslash = 92

abbrev pub quote : ℕ
quote = 34

abbrev pub is_newline : ℕ → Bool
is_newline b = b == cr || b == lf

-- `state.Col++`
abbrev pub advance : Position → Position
advance p = record p { col = p.col + 1 }

-- `state.Line++; state.Col = 0`
abbrev pub next_line : Position → Position
next_line p = record p { line = p.line + 1; col = 0 }

after_cr : Bytes → Position → Scanned Unit
after_cr [] p = err eof
after_cr (b ∷ r) p = if b == lf then ok (tt, r, next_line p) else err cr_without_lf

unfoldable pub consume_crlf : Bytes → Position → Scanned Unit
unfolding after_cr
consume_crlf [] p = err eof
consume_crlf (b ∷ r) p =
    if b == cr then after_cr r p else if b == lf then ok (tt, r, next_line p) else err panic

unfoldable pub is_letter : ℕ → Bool
is_letter b = within b'a' b'z' b || within b'A' b'Z' b

unfoldable pub is_digit : ℕ → Bool
is_digit b = within b'0' b'9' b

unfoldable pub is_identifier_byte : ℕ → Bool
unfolding is_letter is_digit
is_identifier_byte b = is_letter b || is_digit b || b == b'_'

unfoldable pub all_identifier_bytes : Bytes → Bool
unfolding is_identifier_byte
all_identifier_bytes [] = true
all_identifier_bytes (b ∷ r) = is_identifier_byte b && all_identifier_bytes r

-- `IsValidIdentifier`
unfoldable pub is_valid_identifier : Bytes → Bool
unfolding all_identifier_bytes
is_valid_identifier [] = false
is_valid_identifier (b ∷ r) = is_letter b && all_identifier_bytes r

-- `identifier`: `id` is the builder, which starts with the byte that the caller read.
unfoldable pub scan_identifier : Bytes → Bytes → Position → Scanned Bytes
unfolding is_identifier_byte
scan_identifier id [] p = ok (id, [], p)
scan_identifier id (b ∷ r) p =
    let rest = scan_identifier (id ++ b ∷ []) r (advance p) in
    if is_identifier_byte b then rest else ok (id, b ∷ r, p)

-- The quantifier that a byte names, in either case.
unfoldable pub quantifier_of : ℕ → Option Quantifier
quantifier_of b =
    if b == b'K' || b == b'k'
    then some kilo
    else if b == b'M' || b == b'm'
    then some mega
    else if b == b'G' || b == b'g'
    then some giga
    else none

-- The value of a run of digits.
unfoldable pub decimal : ℕ → Bytes → ℕ
decimal acc [] = acc
decimal acc (b ∷ r) = decimal (10 * acc + (b - b'0')) r

abbrev pub max_int : ℕ
max_int = 2 ^ 63 - 1

-- `strconv.Atoi` on digits: a range error past the largest int.
unfoldable pub atoi : Bytes → Result LexError ℕ
unfolding decimal
atoi s = if leb (decimal 0 s) max_int then ok (decimal 0 s) else err number_range

-- `readLoop` of `number`: the digits and the quantifier.
unfoldable pub scan_digits : Bytes → Bytes → Position → (Bytes × Quantifier) × Bytes × Position
scan_digits num [] p = ((num, no_quantifier), [], p)
scan_digits num (b ∷ r) p =
    let rest = scan_digits (num ++ b ∷ []) r (advance p) in
    elim (quantifier_of b) [
      | some q ↦ ((num, q), r, advance p)
      | none ↦ if is_digit b then rest else ((num, no_quantifier), b ∷ r, p)
    ]

unfoldable pub scan_number : Bytes → Bytes → Position → Scanned (ℕ × Quantifier)
unfolding atoi
scan_number num r p = do
  let scanned = scan_digits num r p
  value ← atoi scanned.0.0
  ok ((value, scanned.0.1), scanned.1, scanned.2)

-- `hashComment`: to the end of the line, or of the input.
unfoldable pub hash_comment : Bytes → Position → Scanned Unit
unfolding consume_crlf
hash_comment [] p = ok (tt, [], p)
hash_comment (b ∷ r) p =
    let rest = hash_comment r (advance p) in
    if is_newline b then consume_crlf (b ∷ r) (advance p) else rest

-- `multilineComment`: to the first "*/".
unfoldable pub multiline_comment : Bool → Bytes → Position → Scanned Unit
multiline_comment was_star [] p = err eof
multiline_comment was_star (b ∷ r) p =
    let p' = if b == lf then next_line (advance p) else advance p in
    let rest = multiline_comment (b == b'*') r p' in
    if was_star && b == b'/' then ok (tt, r, p') else rest

-- `wsLoop`: the rest of the line that "text:" stands on.
unfoldable pub skip_text_line : Bytes → Position → Scanned Unit
unfolding hash_comment consume_crlf
skip_text_line [] p = err eof
skip_text_line (b ∷ r) p =
    let rest = skip_text_line r (advance p) in
    if b == b' ' || b == b'\t'
    then rest
    else if b == b'#'
    then hash_comment r (advance p)
    else if is_newline b
    then consume_crlf (b ∷ r) (advance p)
    else err (unexpected_character b)
