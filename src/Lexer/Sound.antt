-- ===== src/Lexer/Sound.antt =====
-- On `Lex` of lexer/lex.go: its tokens and its loops.
use go_sieve.Lexer.Bounds.{
  LeavesLe, FitsString, IdentifierEnds, NumberEnds, StringEnds, consume_crlf-Ends,
  hash_comment-Ends, multiline_comment-Ends, skip_text_line-Ends, scan_identifier-Ends,
  scan_number-Ends, quoted_string-Ends, multiline_string-Ends,
}
use go_sieve.Lexer.Lex.{
  Lexing, check_tokens, push, punctuation, lex_word, lex_text, lex_t, lex_slash, lex_byte,
  lex_switch, count, lex_read, lex_round, token_stream, unexpected, lex,
}
use go_sieve.Lexer.Strings.{multiline_string, quoted_string}
use go_sieve.Lexer.Scan.{
  Options, LexError, advance, is_letter, is_digit, is_newline, quote, eof, is_valid_identifier,
  max_int, scan_identifier, scan_number, skip_text_line, consume_crlf, hash_comment,
  multiline_comment,
}
use go_sieve.Lexer.Token.{Position, Token, identifier, number, string}
use go_sieve.Prelude.{
  ℕ, suc, ◌+◌, ◌≤◌, ◌<◌, ◌≡◌, refl, ap, ◌≢◌, inl, inr, ◌||◌, true, false, not, equal, codes, List,
  [], ◌∷◌, ◌++◌, ◌==◌, arith, Bytes, length, All, All-concat, Result, ok, err, out_of_fuel, ◌>>=◌,
  Flow, Ends, Ends-bind, Ends-if, Option-cases, Ends-ok, Ends-ne-out_of_fuel, Round, Ends-loop,
  some,
}

-- A token that the lexer may return under these options.
abbrev pub IsLexed : Options → Token → Type 0
IsLexed o (identifier p t) = is_valid_identifier t ≡ true
IsLexed o (number p n q) = n ≤ max_int
IsLexed o (string p t) = FitsString o t
IsLexed o _ = Unit

abbrev Lexed : Options → List Token → Type 0
Lexed o = All (IsLexed o)

abbrev LexInv : Options → Lexing → Type 0
LexInv o s = Lexed o s.res

abbrev Step : Options → Lexing → Flow Lexing (List Token) → Type 0
Step o = Round (LexInv o) (λ s. length s.input) (Lexed o)

punctuation-IsLexed :
    (o : Options) (p : Position) (b : ℕ) {t : Token} → punctuation p b ≡ some t → IsLexed o t
unfolding punctuation
punctuation-IsLexed o p b {t} e = ground arith

is_valid_identifier-one : (b : ℕ) → is_letter b ≡ true → is_valid_identifier (b ∷ []) ≡ true
unfolding is_valid_identifier
is_valid_identifier-one b h = ground arith

-- The rounds that start in `s`, on one byte with `r` behind it.
module _ (o : Options) (s : Lexing) (r : Bytes) (shorter : length r < length s.input) where
  check_tokens-Ends :
      (r' : Bytes) (p : Position) (res : List Token)
      → Lexed o res
      → length r' ≤ length r
      → Ends (Step o s) (check_tokens o r' p res)
  unfolding check_tokens
  check_tokens-Ends r' p res h l = ground arith

  push-Ends :
      (t : Token) (r' : Bytes) (p : Position)
      → Lexed o s.res
      → IsLexed o t
      → length r' ≤ length r
      → Ends (Step o s) (push o s.res t r' p)
  push-Ends t r' p h i l =
      check_tokens-Ends r' p (s.res ++ t ∷ []) (All-concat (IsLexed o) s.res t h i) l

  -- A routine that leaves no more than it was given, and then the end of the round.
  bind_check-Ends :
      (m : Result LexError (Unit × Bytes × Position))
      → Lexed o s.res
      → Ends (LeavesLe r) m
      → Ends (Step o s) (m >>= λ (_, r', p'). check_tokens o r' p' s.res)
  bind_check-Ends m h e =
      Ends-bind (LeavesLe r) (Step o s) m _ e λ (_, r', p') l. check_tokens-Ends r' p' s.res h l

  lex_word-Ends : (b : ℕ) (p : Position) → Lexed o s.res → Ends (Step o s) (lex_word o b r p s.res)
  unfolding lex_word
  lex_word-Ends b p h =
      Ends-if (Step o s) (is_letter b) _ _
        (λ l.
          Ends-bind (IdentifierEnds r) (Step o s) (scan_identifier (b ∷ []) r p) _
            (scan_identifier-Ends (b ∷ []) r p (is_valid_identifier-one b l))
            λ (id, r', p') e. push-Ends (identifier p id) r' p' h e.0 e.1)
        λ _.
          Ends-if (Step o s) (is_digit b) _ _
            (λ _.
              Ends-bind (NumberEnds r) (Step o s) (scan_number (b ∷ []) r p) _
                (scan_number-Ends (b ∷ []) r p)
                λ ((n, q), r', p') e. push-Ends (number p n q) r' p' h e.0 e.1)
            λ _. tt

  lex_text-Ends :
      (r' : Bytes) (start p : Position)
      → length r' ≤ length r
      → Lexed o s.res
      → Ends (Step o s) (lex_text o r' start p s.res)
  unfolding lex_text
  lex_text-Ends r' start p l h =
      Ends-bind (LeavesLe r') (Step o s) (skip_text_line r' p) _ (skip_text_line-Ends r' p)
        λ (_, r₁, p₁) l₁.
          Ends-bind (StringEnds o r₁) (Step o s) (multiline_string o r₁ p₁) _
            (multiline_string-Ends o r₁ p₁)
            λ (text, r₂, p₂) (fits, l₂).
              (All-concat (IsLexed o) s.res (string start text) h fits, omega arith)

lex_slash-Ends :
    (o : Options) (s : Lexing) (r : Bytes)
    → length r < length s.input
    → (p : Position) → Lexed o s.res
    → Ends (Step o s) (lex_slash o r p s.res)
unfolding lex_slash
lex_slash-Ends o s [] l p h = tt
lex_slash-Ends o s (b ∷ r) l p h =
    Ends-if (Step o s) (not (b == b'*')) _ _ (λ _. tt)
      λ _.
        bind_check-Ends o s r (omega arith) (multiline_comment false r (advance p)) h
          (multiline_comment-Ends false r (advance p))

lex_t-Ends :
    (o : Options) (s : Lexing) (r : Bytes)
    → length r < length s.input
    → (p : Position) → Lexed o s.res
    → Ends (Step o s) (lex_t o r p s.res)
unfolding lex_t
lex_t-Ends o s (b₁ ∷ b₂ ∷ b₃ ∷ b₄ ∷ r) l p h =
    Ends-if (Step o s) (equal (b₁ ∷ b₂ ∷ b₃ ∷ b₄ ∷ []) (codes "ext:")) _ _
      (λ _.
        lex_text-Ends o s (b₁ ∷ b₂ ∷ b₃ ∷ b₄ ∷ r) l r p (record p { col = p.col + 4 }) (omega arith)
          h)
      λ _. lex_word-Ends o s (b₁ ∷ b₂ ∷ b₃ ∷ b₄ ∷ r) l b't' p h
lex_t-Ends o s _ l p h = tt

module _ (o : Options) (s : Lexing) (r : Bytes) (shorter : length r < length s.input) where
  lex_byte-Ends : (b : ℕ) (p : Position) → Lexed o s.res → Ends (Step o s) (lex_byte o b r p s.res)
  unfolding lex_byte
  lex_byte-Ends b p h =
      Ends-if (Step o s) (b == 0) _ _ (λ _. tt)
        λ _.
          Ends-if (Step o s) (b == b' ' || b == b'\t') _ _ (λ _. (h, shorter))
            λ _.
              Ends-if (Step o s) (is_newline b) _ _
                (λ _.
                  bind_check-Ends o s r shorter (consume_crlf (b ∷ r) p) h
                    (consume_crlf-Ends b r p))
                λ _.
                  Ends-if (Step o s) (b == quote) _ _
                    (λ _.
                      Ends-bind (StringEnds o r) (Step o s) (quoted_string o r p) _
                        (quoted_string-Ends o r p)
                        λ (str, r', p') e. push-Ends o s r shorter (string p str) r' p' h e.0 e.1)
                    λ _.
                      Ends-if (Step o s) (b == b'#') _ _
                        (λ _.
                          bind_check-Ends o s r shorter (hash_comment r p) h
                            (hash_comment-Ends r p))
                        λ _.
                          Ends-if (Step o s) (b == b'/') _ _ (λ _. lex_slash-Ends o s r shorter p h)
                            λ _.
                              Ends-if (Step o s) (b == b't') _ _ (λ _. lex_t-Ends o s r shorter p h)
                                λ _. lex_word-Ends o s r shorter b p h

  lex_switch-Ends :
      (b : ℕ) (p : Position) → Lexed o s.res → Ends (Step o s) (lex_switch o b r p s.res)
  unfolding lex_switch
  lex_switch-Ends b p h = elim (Option-cases (punctuation p b)) [
    | inl e ↦ rw (e, Ends) (lex_byte-Ends b p h)
    | inr (t, e) ↦
        rw (e, Ends) (push-Ends o s r shorter t r p h (punctuation-IsLexed o p b e) (omega arith))
  ]

lex_read-Ends :
    (o : Options) (s : Lexing)
    → LexInv o s
    → (i : Bytes) → s.input ≡ i
    → Ends (Step o s) (lex_read o s i)
unfolding lex_read
lex_read-Ends o s h [] e = h
lex_read-Ends o s h (b ∷ r) e =
    lex_switch-Ends o s r (omega (arith, ap length e)) b (count o s.pos) h

token_stream-Ends : (o : Options) (src : Bytes) → Ends (Lexed o) (token_stream o src)
unfolding token_stream
token_stream-Ends o src =
    Ends-loop (LexInv o) (λ s. length s.input) (Lexed o) (lex_round o)
      (λ s h. lex_read-Ends o s h s.input refl) (suc (length src))
      (record { input = src; pos = record { file = o.filename; line = 1; col = 0 }; res = [] })
      (omega arith) tt

unexpected-Ends :
    (o : Options) (r : Result LexError (List Token))
    → Ends (Lexed o) r
    → Ends (Lexed o) (unexpected r)
unfolding unexpected
unexpected-Ends o (ok toks) h = h
unexpected-Ends o (err eof) h = tt
unexpected-Ends o (err _) h = tt
unexpected-Ends o out_of_fuel h = h

lex-Ends : (o : Options) (src : Bytes) → Ends (Lexed o) (lex o src)
unfolding lex
lex-Ends o src = unexpected-Ends o (token_stream o src) (token_stream-Ends o src)

-- Every token that `Lex` returns is a valid identifier, a number in the range of int, a string
-- within `MaxStringBytes` (where that is set), or punctuation.
pub lex-IsLexed :
    (o : Options) (src : Bytes) {toks : List Token} → lex o src ≡ ok toks → All (IsLexed o) toks
lex-IsLexed o src = Ends-ok (Lexed o) (lex o src) (lex-Ends o src)

-- The loops of `Lex` end on every input: the model's fuel is always enough.
pub lex-ne-out_of_fuel : (o : Options) (src : Bytes) → lex o src ≢ out_of_fuel
lex-ne-out_of_fuel o src = Ends-ne-out_of_fuel (Lexed o) (lex o src) (lex-Ends o src)
