-- ===== src/Managesieve/Encode.antt =====
-- managesieve/internal/wire/codec.go, `Encoder`. The writer is the list of bytes written, to
-- a connection that accepts every write.
use go_sieve.Lexer.Scan.{backslash, quote}
use go_sieve.Lexer.Write.{decimal_digits}
use go_sieve.Managesieve.Runes.{runes, no_control}
use go_sieve.Prelude.{
  ℕ, ◌-◌, Bool, true, false, ◌||◌, [], ◌∷◌, ◌++◌, Option, none, some, ltb, ◌==◌, if◌then◌else◌,
  Bytes, length,
}

pub data EncodeError : Type 0 where
  literal_open literal_too_long : EncodeError
  literal_too_short : ℕ → EncodeError

pub record Encoder : Type 0 where
  pub w : Bytes
  pub failed : Option EncodeError
  pub literal : Bool

unfoldable pub new_encoder : Encoder
new_encoder = record { w = []; failed = none; literal = false }

-- `setErr`: the first error stays.
unfoldable pub set_err : EncodeError → Encoder → Encoder
set_err x e = elim (e.failed) [ none ↦ record e { failed = some x } | some _ ↦ e ]

-- `writeString`
unfoldable pub write_string : Bytes → Encoder → Encoder
write_string s e = elim (e.failed) [
  | some _ ↦ e
  | none ↦ if e.literal then set_err literal_open e else record e { w = e.w ++ s }
]

unfoldable pub atom : Bytes → Encoder → Encoder
atom s e = write_string s e

unfoldable pub sp : Encoder → Encoder
sp e = write_string (b' ' ∷ []) e

-- The loop of `Quoted`: a backslash in front of a quote and of a backslash.
unfoldable pub escape_quoted : Bytes → Bytes
escape_quoted [] = []
escape_quoted (c ∷ s) =
    if c == quote || c == backslash then backslash ∷ c ∷ escape_quoted s else c ∷ escape_quoted s

unfoldable pub quoted : Bytes → Encoder → Encoder
quoted s e = elim (e.failed) [
  | some _ ↦ e
  | none ↦ write_string (quote ∷ escape_quoted s ++ quote ∷ []) e
]

-- What `Literal` returns: `errorWriter`, or `literalWriter` with the bytes that remain.
pub data LiteralWriter : Type 0 where
  error_writer : EncodeError → LiteralWriter
  literal_writer : ℕ → LiteralWriter

-- The state behind the header of a literal.
abbrev open_literal : ℕ → Encoder → LiteralWriter × Encoder
open_literal size e = elim (e.failed) [
  | some x ↦ (error_writer x, e)
  | none ↦ (literal_writer size, record e { literal = true })
]

unfoldable pub literal_start : ℕ → Bool → Encoder → LiteralWriter × Encoder
literal_start size plus e =
    let sized = write_string (decimal_digits size) (write_string (b'{' ∷ []) e) in
    let marked = if plus then write_string (b'+' ∷ []) sized else sized in
    open_literal size (write_string (b'}' ∷ 13 ∷ 10 ∷ []) marked)

-- `Write` of both writers, with its error.
unfoldable pub literal_write :
    Bytes → LiteralWriter → Encoder → Option EncodeError × LiteralWriter × Encoder
literal_write p (error_writer x) e = (some x, error_writer x, e)
literal_write p (literal_writer remain) e =
    if ltb remain (length p)
    then (some literal_too_long, literal_writer remain, e)
    else (none, literal_writer (remain - length p), record e { w = e.w ++ p })

-- `Close` of both writers, with its error.
unfoldable pub literal_close : LiteralWriter → Encoder → Option EncodeError × Encoder
literal_close (error_writer x) e = (some x, e)
literal_close (literal_writer remain) e =
    if remain == 0
    then (none, record e { literal = false })
    else (some (literal_too_short remain), record e { literal = false })

abbrev set_if : Option EncodeError → Encoder → Encoder
set_if none e = e
set_if (some x) e = set_err x e

-- `validQuoted`
unfoldable pub valid_quoted : Bytes → Bool
valid_quoted s = if ltb 1024 (length s) then false else no_control (runes s)

-- `string`, which `StringClient` calls with `plus` and `StringServer` without.
unfoldable pub string : Bytes → Bool → Encoder → Encoder
string s plus e =
    if valid_quoted s
    then quoted s e
    else let (wc, e₁) = literal_start (length s) plus e in
      let (werr, wc', e₂) = literal_write s wc e₁ in
      let (cerr, e₃) = literal_close wc' e₂ in set_if cerr (set_if werr e₃)

-- `CRLF`
unfoldable pub crlf : Encoder → Encoder
crlf e = write_string (13 ∷ 10 ∷ []) e
