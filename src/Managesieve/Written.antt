-- ===== src/Managesieve/Written.antt =====
-- What the encoder of managesieve/internal/wire/codec.go has written for a command of
-- managesieve/client/client.go.
use go_sieve.Lexer.Scan.{quote}
use go_sieve.Lexer.Write.{decimal_digits}
use go_sieve.Managesieve.Command.{CommandArg, str_arg, num_arg, format_int, write_arg, write_args}
use go_sieve.Managesieve.Encode.{
  Encoder, write_string, atom, sp, escape_quoted, quoted, literal_start, literal_write,
  literal_close, literal_writer, valid_quoted, string,
}
use go_sieve.Managesieve.Tokens.{literal_text}
use go_sieve.Prelude.{
  ℕ, ◌≡◌, refl, ap, ◌∙◌, inl, inr, true, false, List, [], ◌∷◌, ◌++◌, append-nil, append_assoc, none,
  if◌then◌else◌, arith, Bool-cases, Bytes, length, ltb,
}

-- An encoder without an error, outside of a literal.
abbrev pub writing : Bytes → Encoder
writing w = record { w = w; failed = none; literal = false }

-- What stands on the line for a string.
unfoldable pub string_text : Bytes → Bytes
string_text s = if valid_quoted s then quote ∷ escape_quoted s ++ quote ∷ [] else literal_text s

-- An encoder inside a literal.
abbrev pub inside : Bytes → Encoder
inside w = record { w = w; failed = none; literal = true }

pub literal_start-writing :
    (n : ℕ) (w : Bytes)
    → literal_start n true (writing w)
      ≡ (literal_writer n, inside (w ++ (b'{' ∷ decimal_digits n ++ (b'+' ∷ b'}' ∷ 13 ∷ 10 ∷ []))))
unfolding literal_start write_string
literal_start-writing n w = simp append_assoc

ltb_self : (n : ℕ) → ltb n n ≡ false
ltb_self n = ground arith

literal_write-inside :
    (s w : Bytes)
    → literal_write s (literal_writer (length s)) (inside w)
      ≡ (none, literal_writer 0, inside (w ++ s))
unfolding literal_write
literal_write-inside s w =
    rw (ltb_self (length s)) (ap (λ k. (none, literal_writer k, inside (w ++ s))) (omega arith))

pub string-writing : (s w : Bytes) → string s true (writing w) ≡ writing (w ++ string_text s)
unfolding string string_text
string-writing s w = elim (Bool-cases (valid_quoted s)) [
  | inl q ↦ rw q (unfold quoted write_string in refl)
  | inr l ↦ rw l (
      rw (literal_start-writing (length s) w) (
        rw
          (literal_write-inside s
            (w ++ (b'{' ∷ decimal_digits (length s) ++ (b'+' ∷ b'}' ∷ 13 ∷ 10 ∷ []))))
          (unfold literal_close in simp append_assoc)))
]

unfoldable pub arg_text : CommandArg → Bytes
arg_text (str_arg s) = string_text s
arg_text (num_arg n) = format_int n

-- What the server sees of an argument.
unfoldable pub arg_value : CommandArg → Bytes
arg_value (str_arg s) = s
arg_value (num_arg n) = format_int n

unfoldable pub args_text : List CommandArg → Bytes
args_text [] = []
args_text (a ∷ l) = b' ' ∷ arg_text a ++ args_text l

pub write_arg-writing :
    (a : CommandArg) (w : Bytes) → write_arg a (writing w) ≡ writing (w ++ (b' ' ∷ arg_text a))
unfolding write_arg arg_text sp write_string atom
write_arg-writing (str_arg s) w = string-writing s (w ++ b' ' ∷ []) ∙ rw append_assoc
write_arg-writing (num_arg n) w = rw append_assoc

pub write_args-writing :
    (l : List CommandArg) (w : Bytes) → write_args l (writing w) ≡ writing (w ++ args_text l)
unfolding write_args args_text
write_args-writing [] w = rw append-nil
write_args-writing (a ∷ l) w =
    rw (write_arg-writing a w) (write_args-writing l (w ++ (b' ' ∷ arg_text a)) ∙ rw append_assoc)
