-- ===== src/Lexer/Quotes.antt =====
-- On lexer/lex.go at quoted strings that lexer/write.go has written.
use go_sieve.Lexer.Strings.{
  append_string_bytes, Quoting, quoted_byte, quoted_read, quoted_round, quoted_string,
}
use go_sieve.Lexer.Scan.{
  Options, LexError, cr, lf, backslash, quote, is_newline, advance, next_line,
}
use go_sieve.Lexer.Token.{Position}
use go_sieve.Lexer.Write.{escape}
use go_sieve.Prelude.{
  ℕ, zero, suc, ◌<◌, ◌≡◌, refl, ◌∙◌, inl, inr, Bool, true, false, ◌||◌, [], ◌∷◌, ◌++◌, append-nil,
  append_assoc, ◌==◌, Bool-cases, arith, Bytes, length, Result, ok, Flow, next, loop,
}
use go_sieve.Lexer.Words.{Scans}

-- Line breaks in a string are CRLF pairs, as the lexer makes them.
pub data HasCrlf : Bytes → Type 0 where
  nil : HasCrlf []
  byte : {b : ℕ} {s : Bytes} → is_newline b ≡ false → HasCrlf s → HasCrlf (b ∷ s)
  break : {s : Bytes} → HasCrlf s → HasCrlf (cr ∷ lf ∷ s)

abbrev pub Unlimited : Options → Type 0
Unlimited o = o.max_string_bytes ≡ 0

append_string_bytes-Unlimited :
    (o : Options) (dst bs : Bytes) → Unlimited o → append_string_bytes o dst bs ≡ ok (dst ++ bs)
unfolding append_string_bytes
append_string_bytes-Unlimited o dst bs h = ground arith

module _ (o : Options) (unlimited : Unlimited o) where
  abbrev Reaches :
      Result LexError (Flow Quoting (Bytes × Bytes × Position))
      → Bytes
      → Position
      → Bool
      → Bytes
      → Type 0
  Reaches r input p esc str =
      r ≡ ok (next (record { input = input; pos = p; at_backslash = esc; str = str }))

  escaped_byte :
      (b : ℕ) (r : Bytes) (p : Position) (str : Bytes)
      → (b == quote || b == backslash) ≡ true
      → Reaches (quoted_byte o b r p true str) r p false (str ++ b ∷ [])
  unfolding quoted_byte
  escaped_byte b r p str h = ground (arith, append_string_bytes-Unlimited o str (b ∷ []) unlimited)

  plain_byte :
      (b : ℕ) (r : Bytes) (p : Position) (str : Bytes)
      → (b == quote || b == backslash) ≡ false
      → is_newline b ≡ false
      → Reaches (quoted_byte o b r p false str) r p false (str ++ b ∷ [])
  unfolding quoted_byte
  plain_byte b r p str h n = ground (arith, append_string_bytes-Unlimited o str (b ∷ []) unlimited)

  break_bytes :
      (r : Bytes) (p : Position) (str : Bytes)
      → Reaches (quoted_byte o cr (lf ∷ r) p false str) r (next_line p) false (str ++ cr ∷ lf ∷ [])
  unfolding quoted_byte
  break_bytes r p str = rw (append_string_bytes-Unlimited o str (cr ∷ lf ∷ []) unlimited)

  abbrev quoting_at : Bytes → Position → Bytes → Quoting
  quoting_at r p acc = record { input = r; pos = p; at_backslash = false; str = acc }

  -- The loop of `quotedString` over an escaped string, from the string `acc` on.
  Reads : Bytes → Type 0
  Reads s =
      (f : ℕ) (rest acc : Bytes) (p : Position)
      → length (escape s ++ quote ∷ rest) < f
      → Scans p (loop (quoted_round o) f (quoting_at (escape s ++ quote ∷ rest) p acc)) (acc ++ s)
          rest

  quoted_loop-special :
      (b : ℕ) (s : Bytes) → (b == quote || b == backslash) ≡ true → Reads s → Reads (b ∷ s)
  unfolding Reads loop quoted_read quoted_byte escape
  quoted_loop-special b s n more zero rest acc p h = absurd (omega arith)
  quoted_loop-special b s n more (suc zero) rest acc p h = absurd (ground arith)
  quoted_loop-special b s n more (suc (suc f)) rest acc p h =
      let r = escape s ++ quote ∷ rest in
      let (p', file, e) = more f rest (acc ++ b ∷ []) (advance (advance p)) (ground arith) in
      (p', file, rw n (rw (escaped_byte b r (advance (advance p)) acc n) (e ∙ rw append_assoc)))

  quoted_loop-plain :
      (b : ℕ) (s : Bytes)
      → (b == quote || b == backslash) ≡ false
      → is_newline b ≡ false
      → Reads s
      → Reads (b ∷ s)
  unfolding Reads loop quoted_read escape
  quoted_loop-plain b s n k more zero rest acc p h = absurd (omega arith)
  quoted_loop-plain b s n k more (suc f) rest acc p h =
      let r = escape s ++ quote ∷ rest in
      let (p', file, e) = more f rest (acc ++ b ∷ []) (advance p) (ground arith) in
      (p', file, rw n (rw (plain_byte b r (advance p) acc n k) (e ∙ rw append_assoc)))

  quoted_loop-break : (s : Bytes) → Reads s → Reads (cr ∷ lf ∷ s)
  unfolding Reads loop quoted_read escape
  quoted_loop-break s more zero rest acc p h = absurd (omega arith)
  quoted_loop-break s more (suc f) rest acc p h =
      let r = escape s ++ quote ∷ rest in
      let (p', file, e) = more f rest (acc ++ cr ∷ lf ∷ []) (next_line (advance p)) (omega arith) in
      (p', file, rw (break_bytes r (advance p) acc) (e ∙ rw append_assoc))

  quoted_loop-nil : Reads []
  unfolding Reads loop quoted_read quoted_byte escape
  quoted_loop-nil zero rest acc p h = absurd (omega arith)
  quoted_loop-nil (suc f) rest acc p h = (advance p, refl, rw append-nil)

  quoted_loop-escape : {s : Bytes} → HasCrlf s → Reads s
  quoted_loop-escape nil = quoted_loop-nil
  quoted_loop-escape (byte {b} {s} k more) = elim (Bool-cases (b == quote || b == backslash)) [
    | inl n ↦ quoted_loop-special b s n (quoted_loop-escape more)
    | inr n ↦ quoted_loop-plain b s n k (quoted_loop-escape more)
  ]
  quoted_loop-escape (break {s} more) = quoted_loop-break s (quoted_loop-escape more)

  -- A written string scans back from behind its opening quote.
  pub quoted_string-escape :
      (s : Bytes)
      → HasCrlf s
      → (rest : Bytes) (p : Position)
      → Scans p (quoted_string o (escape s ++ quote ∷ rest) p) s rest
  unfolding quoted_string Reads
  quoted_string-escape s h rest p =
      quoted_loop-escape h (suc (length (escape s ++ quote ∷ rest))) rest [] p (omega arith)
