-- ===== src/Lexer/RoundTrip.antt =====
-- On lexer/write.go and then lexer/lex.go, with `NoPosition` set.
use go_sieve.Lexer.Lex.{
  punctuation, lex_byte, lex_switch, lex_read, lex_round, token_stream, unexpected, lex,
}
use go_sieve.Lexer.Scan.{is_valid_identifier}
use go_sieve.Lexer.Token.{Position, Token, identifier, number, string, list_start}
use go_sieve.Lexer.Words.{decimal_digits-IsDecimal}
use go_sieve.Lexer.Write.{decimal_digits, quantifier_byte, format_string, write_token, write}
use go_sieve.Prelude.{
  ℕ, zero, suc, ◌<◌, ◌≡◌, refl, ap, ◌∙◌, List, [], ◌∷◌, ◌++◌, append-nil, append_assoc, map, arith,
  Bytes, length, length-append, ok, next, loop,
}
use go_sieve.Lexer.Plain.{plain, unplaced, place, IsWritable, AllWritable}
use go_sieve.Lexer.Rounds.{at, Rounds-token}

module _ (file : Bytes) where
  -- The round on the space.
  lex_read-space :
      (r : Bytes) (p : Position) (res : List Token)
      → p.file ≡ file
      → lex_round (plain file) (at file (b' ' ∷ r) p res)
        ≡ ok (next (at file r (unplaced file) res))
  unfolding lex_read lex_switch punctuation lex_byte
  lex_read-space r p res e = rw e

  length-write_token : (t : Token) (rest : Bytes) → IsWritable t rest → 0 < length (write_token t)
  unfolding write_token format_string is_valid_identifier
  length-write_token (identifier p []) rest h = absurd h.1
  length-write_token (identifier p (b ∷ n)) rest h = omega arith
  length-write_token (number p n q) rest h =
      let e = ap length (decimal_digits-IsDecimal n).splits in
      omega (arith, e, length-append (decimal_digits n) (quantifier_byte q))
  length-write_token (string p s) rest h = omega arith
  length-write_token (list_start p) rest h = omega arith
  length-write_token _ rest h = omega arith

  loop-write :
      (ts : List Token) (f : ℕ) (p : Position) (res : List Token)
      → AllWritable ts
      → p.file ≡ file
      → length (write ts) < f
      → loop (lex_round (plain file)) f (at file (write ts) p res)
        ≡ ok (res ++ map (place (unplaced file)) ts)
  unfolding write loop
  loop-write [] zero p res h e b = absurd (omega arith)
  loop-write [] (suc f) p res h e b = unfold lex_read in rw append-nil
  loop-write (t ∷ ts) zero p res h e b = absurd (omega arith)
  loop-write (t ∷ ts) (suc zero) p res h e b = absurd (
      omega (
        arith,
        length-append (write_token t) (b' ' ∷ write ts),
        length-write_token t (write ts) h.0,
      ))
  loop-write (t ∷ ts) (suc (suc f)) p res h e b =
      let placed = place (unplaced file) t in
      let (p', file', round) = Rounds-token file t (write ts) h.0 p res e in
      rw round (
        rw (lex_read-space (write ts) p' (res ++ placed ∷ []) file') (
          loop-write ts f (unplaced file) (res ++ placed ∷ []) h.1 refl (
            omega (
              arith,
              length-append (write_token t) (b' ' ∷ write ts),
              length-write_token t (write ts) h.0,
            ))
          ∙ rw append_assoc))

-- Writable tokens, written and then lexed without positions, come back the same but for their
-- positions. Writable are valid identifiers (with four bytes behind a first 't'), numbers in the
-- range of int, and strings whose line breaks are CRLF.
pub lex-write :
    (file : Bytes) (ts : List Token)
    → AllWritable ts
    → lex (plain file) (write ts) ≡ ok (map (place (unplaced file)) ts)
unfolding lex token_stream unexpected
lex-write file ts h = rw (
    loop-write file ts (suc (length (write ts))) (record { file = file; line = 1; col = 0 }) [] h
      refl (omega arith))
