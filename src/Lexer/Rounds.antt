-- ===== src/Lexer/Rounds.antt =====
-- On one round of the loop in lexer/lex.go, at a token that lexer/write.go has written.
use go_sieve.Lexer.Lex.{
  Lexing, LexRound, check_tokens, punctuation, lex_word, lex_t, lex_byte, lex_switch, lex_read,
  lex_round,
}
use go_sieve.Lexer.Scan.{is_letter, is_digit, all_identifier_bytes, is_valid_identifier, max_int}
use go_sieve.Lexer.Token.{
  Position, Quantifier, Token, identifier, number, string, list_start, list_end, block_start,
  block_end, test_list_start, test_list_end, comma, semicolon, colon,
}
use go_sieve.Lexer.Words.{
  IsDecimal, decimal_digits-IsDecimal, scan_identifier-append, scan_number-append,
}
use go_sieve.Lexer.Quotes.{HasCrlf, quoted_string-escape}
use go_sieve.Lexer.Write.{decimal_digits, quantifier_byte, format_string, write_token}
use mathlib.Core.Path.{subst}
use go_sieve.Prelude.{
  ℕ, ◌≤◌, ◌≡◌, refl, inl, inr, true, false, ◌||◌, List, [], ◌∷◌, ◌++◌, append_assoc, ◌==◌,
  Bool-cases, arith, Bytes, equal, length, ok, next,
}
use go_sieve.Lexer.Plain.{plain, unplaced, place, LooksAhead, IsWritable, IsPunctuation}

module _ (file : Bytes) where
  abbrev pub at : Bytes → Position → List Token → Lexing
  at r p res = record { input = r; pos = p; res = res }

  -- One round reads the token and leaves the space behind it.
  abbrev pub Lexes : LexRound → Token → List Token → Bytes → Type 0
  Lexes r t res rest =
      (p' : Position) × (p'.file ≡ file)
      × (r ≡ ok (next (at (b' ' ∷ rest) p' (res ++ place (unplaced file) t ∷ []))))

  check_tokens-plain :
      (r : Bytes) (p : Position) (res : List Token)
      → check_tokens (plain file) r p res ≡ ok (next (at r p res))
  unfolding check_tokens
  check_tokens-plain r p res = refl

  -- The `default` case, on a first byte that begins a word.
  lex_switch-word :
      (b : ℕ) (r : Bytes) (p : Position) (res : List Token)
      → (is_letter b || is_digit b) ≡ true
      → (b == b't') ≡ false
      → lex_switch (plain file) b r p res ≡ lex_word (plain file) b r p res
  unfolding lex_switch punctuation lex_byte is_letter is_digit
  lex_switch-word b r p res h n = ground arith

  -- "ext:" holds a colon, which no identifier does.
  not_text :
      (n rest : Bytes) (p : Position) (res : List Token)
      → all_identifier_bytes n ≡ true
      → 4 ≤ length (n ++ b' ' ∷ rest)
      → lex_t (plain file) (n ++ b' ' ∷ rest) p res
        ≡ lex_word (plain file) b't' (n ++ b' ' ∷ rest) p res
  unfolding lex_t equal all_identifier_bytes
  not_text [] (a ∷ b ∷ c ∷ rest) p res h l = refl
  not_text (a ∷ []) (b ∷ c ∷ rest) p res h l = ground arith
  not_text (a ∷ b ∷ []) (c ∷ rest) p res h l = ground arith
  not_text (a ∷ b ∷ c ∷ []) rest p res h l = ground arith
  not_text (a ∷ b ∷ c ∷ d ∷ n) rest p res h l = ground arith
  not_text _ _ p res h l = absurd (omega arith)

  valid→parts :
      (b : ℕ) (n : Bytes)
      → is_valid_identifier (b ∷ n) ≡ true
      → (is_letter b ≡ true) × (all_identifier_bytes n ≡ true)
  unfolding is_valid_identifier
  valid→parts b n h = ground arith

  lex_word-identifier :
      (b : ℕ) (n rest : Bytes) (res : List Token)
      → is_valid_identifier (b ∷ n) ≡ true
      → Lexes
          (lex_word (plain file) b (n ++ b' ' ∷ rest) (unplaced file) res)
          (identifier (unplaced file) (b ∷ n))
          res
          rest
  unfolding lex_word check_tokens
  lex_word-identifier b n rest res h =
      let (letter, more) = valid→parts b n h in
      let (p', e, scan) = scan_identifier-append n (b ∷ []) rest (unplaced file) more in
      (p', e, rw letter (rw scan))

  digit-not-letter : (b : ℕ) → is_digit b ≡ true → is_letter b ≡ false
  unfolding is_digit is_letter
  digit-not-letter b h = ground arith

  digit-not-t : (b : ℕ) → is_digit b ≡ true → (b == b't') ≡ false
  unfolding is_digit
  digit-not-t b h = ground arith

  lex_word-number :
      (n : ℕ) (q : Quantifier) (rest : Bytes) (res : List Token)
      (d : IsDecimal n (decimal_digits n))
      → n ≤ max_int
      → Lexes
          (lex_word
            (plain file)
            d.first
            (d.others ++ (quantifier_byte q ++ b' ' ∷ rest))
            (unplaced file)
            res)
          (number (unplaced file) n q)
          res
          rest
  unfolding lex_word check_tokens
  lex_word-number n q rest res d h =
      let (p', e, scan) = scan_number-append n q rest (unplaced file) d h in
      (p', e, rw (digit-not-letter d.first d.first_digit) (rw d.first_digit (rw scan)))

  -- The round that begins with the first byte of a token.
  abbrev pub Rounds : Token → Bytes → Type 0
  Rounds t rest =
      (p : Position) (res : List Token)
      → p.file ≡ file
      → Lexes (lex_round (plain file) (at (write_token t ++ b' ' ∷ rest) p res)) t res rest

  word_first :
      (b : ℕ) (n : Bytes) → is_valid_identifier (b ∷ n) ≡ true → (is_letter b || is_digit b) ≡ true
  unfolding is_valid_identifier
  word_first b n h = ground arith

  Rounds-word :
      (q : Position) (b : ℕ) (n rest : Bytes)
      → is_valid_identifier (b ∷ n) ≡ true
      → (b == b't') ≡ false
      → Rounds (identifier q (b ∷ n)) rest
  unfolding lex_read write_token
  Rounds-word q b n rest h other p res e = rw e (
      rw (lex_switch-word b (n ++ b' ' ∷ rest) (unplaced file) res (word_first b n h) other)
        (lex_word-identifier b n rest res h))

  lex_switch-t :
      (r : Bytes) (p : Position) (res : List Token)
      → lex_switch (plain file) b't' r p res ≡ lex_t (plain file) r p res
  unfolding lex_switch punctuation lex_byte
  lex_switch-t r p res = refl

  Rounds-t :
      (q : Position) (n rest : Bytes)
      → is_valid_identifier (b't' ∷ n) ≡ true
      → 4 ≤ length (n ++ b' ' ∷ rest)
      → Rounds (identifier q (b't' ∷ n)) rest
  unfolding lex_read write_token
  Rounds-t q n rest h long p res e = rw e (
      rw (lex_switch-t (n ++ b' ' ∷ rest) (unplaced file) res) (
        rw (not_text n rest (unplaced file) res (valid→parts b't' n h).1 long)
          (lex_word-identifier b't' n rest res h)))

  Rounds-identifier :
      (q : Position) (t rest : Bytes)
      → is_valid_identifier t ≡ true
      → LooksAhead t rest
      → Rounds (identifier q t) rest
  Rounds-identifier q [] rest h k = absurd k
  Rounds-identifier q (b ∷ n) rest h (inl other) = Rounds-word q b n rest h other
  Rounds-identifier q (b ∷ n) rest h (inr long) = elim (Bool-cases (b == b't')) [
    | inr other ↦ Rounds-word q b n rest h other
    | inl same ↦
        let e : b't' ≡ b = ground arith in
        subst (λ c. Rounds (identifier q (c ∷ n)) rest) e (Rounds-t q n rest (rw e h) long)
  ]

  Rounds-number :
      (q : Position) (n : ℕ) (u : Quantifier) (rest : Bytes)
      → n ≤ max_int
      → Rounds (number q n u) rest
  unfolding lex_read write_token
  Rounds-number q n u rest h p res e =
      let d = decimal_digits-IsDecimal n in
      let after = d.others ++ (quantifier_byte u ++ b' ' ∷ rest) in
      let digit = d.first_digit in
      rw (append_assoc (decimal_digits n) (quantifier_byte u) (b' ' ∷ rest)) (
        rw d.splits (
          rw e (
            rw
              (lex_switch-word d.first after (unplaced file) res (ground arith)
                (digit-not-t d.first digit))
              (lex_word-number n u rest res d h))))

  Rounds-string : (q : Position) (s rest : Bytes) → HasCrlf s → Rounds (string q s) rest
  unfolding lex_read write_token format_string lex_switch punctuation lex_byte check_tokens
  Rounds-string q s rest h p res e =
      let (p', file', scan) =
        quoted_string-escape (plain file) refl s h (b' ' ∷ rest) (unplaced file) in
      (p', file', rw e (rw append_assoc (rw scan)))

  Rounds-punctuation : (t : Token) (rest : Bytes) → IsPunctuation t → Rounds t rest
  unfolding lex_read write_token lex_switch punctuation check_tokens
  Rounds-punctuation (list_start q) rest h p res e = (unplaced file, refl, rw e)
  Rounds-punctuation (list_end q) rest h p res e = (unplaced file, refl, rw e)
  Rounds-punctuation (block_start q) rest h p res e = (unplaced file, refl, rw e)
  Rounds-punctuation (block_end q) rest h p res e = (unplaced file, refl, rw e)
  Rounds-punctuation (test_list_start q) rest h p res e = (unplaced file, refl, rw e)
  Rounds-punctuation (test_list_end q) rest h p res e = (unplaced file, refl, rw e)
  Rounds-punctuation (comma q) rest h p res e = (unplaced file, refl, rw e)
  Rounds-punctuation (semicolon q) rest h p res e = (unplaced file, refl, rw e)
  Rounds-punctuation (colon q) rest h p res e = (unplaced file, refl, rw e)
  Rounds-punctuation _ rest h p res e = absurd h

  pub Rounds-token : (t : Token) (rest : Bytes) → IsWritable t rest → Rounds t rest
  Rounds-token (identifier p t) rest h = Rounds-identifier p t rest h.0 h.1
  Rounds-token (number p n q) rest h = Rounds-number p n q rest h
  Rounds-token (string p s) rest h = Rounds-string p s rest h
  Rounds-token (list_start p) rest h = Rounds-punctuation (list_start p) rest tt
  Rounds-token (list_end p) rest h = Rounds-punctuation (list_end p) rest tt
  Rounds-token (block_start p) rest h = Rounds-punctuation (block_start p) rest tt
  Rounds-token (block_end p) rest h = Rounds-punctuation (block_end p) rest tt
  Rounds-token (test_list_start p) rest h = Rounds-punctuation (test_list_start p) rest tt
  Rounds-token (test_list_end p) rest h = Rounds-punctuation (test_list_end p) rest tt
  Rounds-token (comma p) rest h = Rounds-punctuation (comma p) rest tt
  Rounds-token (semicolon p) rest h = Rounds-punctuation (semicolon p) rest tt
  Rounds-token (colon p) rest h = Rounds-punctuation (colon p) rest tt
