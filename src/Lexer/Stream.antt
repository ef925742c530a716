-- ===== src/Lexer/Stream.antt =====
-- lexer/stream.go. `CursorStream` is the struct as it stands, its cursor one higher, since it starts
-- at -1. `Stream` is what its methods tell of it: the token at the cursor and the tokens behind.
use go_sieve.Lexer.Token.{Token}
use go_sieve.Prelude.{ℕ, zero, suc, List, [], ◌∷◌, Option, none, some}

pub record CursorStream : Type 0 where
  pub cursor : ℕ
  pub toks : List Token

-- `toks[i]`, or nil out of range.
abbrev pub get_elem? : List Token → ℕ → Option Token
get_elem? [] i = none
get_elem? (t ∷ ts) zero = some t
get_elem? (t ∷ ts) (suc i) = get_elem? ts i

-- The token at `cursor - 1`; the outer `none` is the panic at -1.
abbrev pub token_before : List Token → ℕ → Option (Option Token)
token_before ts zero = none
token_before ts (suc i) = some (get_elem? ts i)

-- `Last`, which panics before the first `Pop`.
unfoldable pub cursor_last : CursorStream → Option (Option Token)
cursor_last s = token_before s.toks s.cursor

unfoldable pub cursor_pop : CursorStream → Option Token × CursorStream
cursor_pop s = (get_elem? s.toks s.cursor, record s { cursor = suc s.cursor })

unfoldable pub cursor_peek : CursorStream → Option Token
cursor_peek s = get_elem? s.toks s.cursor

unfoldable pub cursor_stream : List Token → CursorStream
cursor_stream toks = record { cursor = 0; toks = toks }

-- The token at the cursor, and the tokens behind it.
abbrev pub Stream : Type 0
Stream = Option Token × List Token

unfoldable pub last : Stream → Option Token
last (t, ts) = t

unfoldable pub pop : Stream → Option Token × Stream
pop (t, []) = (none, (none, []))
pop (t, u ∷ ts) = (some u, (some u, ts))

unfoldable pub peek : Stream → Option Token
peek (t, []) = none
peek (t, u ∷ ts) = some u

unfoldable pub new_stream : List Token → Stream
new_stream toks = (none, toks)
