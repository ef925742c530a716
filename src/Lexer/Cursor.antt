-- ===== src/Lexer/Cursor.antt =====
-- On lexer/stream.go: the struct, and the stream that the parser is modelled on.
use go_sieve.Lexer.Stream.{
  CursorStream, get_elem?, cursor_last, cursor_pop, cursor_peek, cursor_stream, Stream, last, pop,
  peek, new_stream,
}
use go_sieve.Lexer.Token.{Token}
use go_sieve.Prelude.{ℕ, zero, suc, ◌≡◌, refl, ap, List, [], ◌∷◌, Option, none, some}

-- A call of a method.
pub data StreamCall : Type 0 where
  call_last call_pop call_peek : StreamCall

abbrev put_first : Option Token → Option (List (Option Token)) → Option (List (Option Token))
put_first t none = none
put_first t (some l) = some (t ∷ l)

abbrev put_last :
    Option (Option Token) → Option (List (Option Token)) → Option (List (Option Token))
put_last none r = none
put_last (some t) r = put_first t r

-- What calls of the methods of the struct return, or `none` if one panics.
unfoldable pub cursor_calls : List StreamCall → CursorStream → Option (List (Option Token))
cursor_calls [] s = some []
cursor_calls (call_last ∷ calls) s = put_last (cursor_last s) (cursor_calls calls s)
cursor_calls (call_pop ∷ calls) s = put_first (cursor_pop s).0 (cursor_calls calls (cursor_pop s).1)
cursor_calls (call_peek ∷ calls) s = put_first (cursor_peek s) (cursor_calls calls s)

-- What calls on the stream of the parser's model return.
unfoldable pub stream_calls : List StreamCall → Stream → List (Option Token)
stream_calls [] s = []
stream_calls (call_last ∷ calls) s = last s ∷ stream_calls calls s
stream_calls (call_pop ∷ calls) s = (pop s).0 ∷ stream_calls calls (pop s).1
stream_calls (call_peek ∷ calls) s = peek s ∷ stream_calls calls s

unfoldable drop : ℕ → List Token → List Token
drop zero ts = ts
drop (suc n) [] = []
drop (suc n) (t ∷ ts) = drop n ts

peek-drop : (t : Option Token) (n : ℕ) (ts : List Token) → peek (t, drop n ts) ≡ get_elem? ts n
unfolding peek drop
peek-drop t zero [] = refl
peek-drop t zero (u ∷ ts) = refl
peek-drop t (suc n) [] = refl
peek-drop t (suc n) (u ∷ ts) = peek-drop t n ts

pop-drop :
    (t : Option Token) (n : ℕ) (ts : List Token)
    → pop (t, drop n ts) ≡ (get_elem? ts n, (get_elem? ts n, drop (suc n) ts))
unfolding pop drop
pop-drop t zero [] = refl
pop-drop t zero (u ∷ ts) = refl
pop-drop t (suc n) [] = refl
pop-drop t (suc n) (u ∷ ts) = pop-drop t n ts

-- The two streams behind a `Pop` that left the cursor at `i`.
calls-drop :
    (calls : List StreamCall) (i : ℕ) (ts : List Token)
    → cursor_calls calls (record { cursor = suc i; toks = ts })
      ≡ some (stream_calls calls (get_elem? ts i, drop (suc i) ts))
unfolding cursor_calls stream_calls cursor_last cursor_pop cursor_peek last
calls-drop [] i ts = refl
calls-drop (call_last ∷ calls) i ts = ap (put_first (get_elem? ts i)) (calls-drop calls i ts)
calls-drop (call_pop ∷ calls) i ts =
    rw (pop-drop (get_elem? ts i) (suc i) ts)
      (ap (put_first (get_elem? ts (suc i))) (calls-drop calls (suc i) ts))
calls-drop (call_peek ∷ calls) i ts =
    rw (peek-drop (get_elem? ts i) (suc i) ts)
      (ap (put_first (get_elem? ts (suc i))) (calls-drop calls i ts))

-- Any calls of `Last`, `Pop` and `Peek` on a new stream that start with a `Pop`, as the parser's do, return on the
-- struct with its cursor what they return on the token at the cursor and the tokens behind, and none panics.
pub cursor_calls-stream_calls :
    (calls : List StreamCall) (toks : List Token)
    → cursor_calls (call_pop ∷ calls) (cursor_stream toks)
      ≡ some (stream_calls (call_pop ∷ calls) (new_stream toks))
unfolding cursor_calls stream_calls cursor_stream new_stream cursor_pop drop
cursor_calls-stream_calls calls toks =
    rw (pop-drop none 0 toks) (ap (put_first (get_elem? toks 0)) (calls-drop calls 0 toks))
